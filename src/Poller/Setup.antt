-- ===== src/Poller/Setup.antt =====
-- The constructor and the destructor of src/reactor/linux/io_poller.cpp. The kernel is a parameter;
-- `calls` lists the system calls in order. What is printed is left out.
pub mod Lifetime
use dumbo.Base.{ℕ, List, [], ◌∷◌, ◌++◌, ℤ, pos, negsuc}
use dumbo.Base.Results.{Result, ok, err, terminated}

pub data Call : Type 0 where
  io_setup : ℕ → Call
  io_destroy : Call
  epoll_create : ℕ → Call
  eventfd : Call
  epoll_add : ℤ → ℤ → Call
  epoll_del : ℤ → ℤ → Call
  close : ℤ → Call

-- The results of system calls, as a function of the calls before.
abbrev pub Os : Type 0
Os = List Call → Call → ℤ

pub record Descriptors : Type 0 where
  pub epoll_fd : ℤ
  pub event_fd : ℤ

-- The calls that were made, and how it ended.
abbrev pub Out : Type 0 → Type 0
Out A = List Call × Result A

module _ (os : Os) where
  -- `assert_ok`: a negative result ends the program.
  assert_ok : {A : Type 0} → ℤ → List Call → (List Call → Out A) → Out A
  assert_ok (pos n) calls next = next calls
  assert_ok (negsuc n) calls next = (calls, err terminated)

  watch : ℤ → ℤ → List Call → Out Descriptors
  unfolding assert_ok
  watch epoll_fd event_fd calls =
      assert_ok (os calls (epoll_add epoll_fd event_fd)) (calls ++ epoll_add epoll_fd event_fd ∷ [])
        λ calls'. (calls', ok (record { epoll_fd = epoll_fd; event_fd = event_fd }))

  make_event_fd : ℤ → List Call → Out Descriptors
  unfolding assert_ok watch
  make_event_fd epoll_fd calls =
      assert_ok (os calls eventfd) (calls ++ eventfd ∷ [])
        λ calls'. watch epoll_fd (os calls eventfd) calls'

  make_epoll_fd : List Call → Out Descriptors
  unfolding assert_ok make_event_fd
  make_epoll_fd calls =
      assert_ok (os calls (epoll_create 512)) (calls ++ epoll_create 512 ∷ [])
        λ calls'. make_event_fd (os calls (epoll_create 512)) calls'

  -- The constructor; BATCH_SIZE is 512.
  pub make_poller : List Call → Out Descriptors
  unfolding assert_ok make_epoll_fd
  make_poller calls = assert_ok (os calls (io_setup 512)) (calls ++ io_setup 512 ∷ []) make_epoll_fd

  -- The destructor; failures are only reported.
  pub destroy_poller : Descriptors → List Call → List Call
  destroy_poller d calls =
      calls ++ epoll_del d.epoll_fd d.event_fd ∷ close d.event_fd ∷ io_destroy ∷ []
