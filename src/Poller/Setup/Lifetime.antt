-- ===== src/Poller/Setup/Lifetime.antt =====
-- What an IOPoller of io_poller.cpp sets up and takes down.
use dumbo.Base.{ℕ, ◌≡◌, ◌∙◌, List, [], ◌∷◌, ◌++◌, ℤ, pos}
use dumbo.Base.Results.{Result, ok}
use dumbo.Poller.Setup.{
  Call, io_setup, io_destroy, epoll_create, eventfd, epoll_add, epoll_del, close, Os, Descriptors,
  assert_ok, watch, make_event_fd, make_epoll_fd, make_poller, destroy_poller,
}

module _ (os : Os) where
  -- The four calls of a constructor that returns.
  abbrev pub setup : ℤ → ℤ → List Call
  setup epoll_fd event_fd =
      io_setup 512 ∷ epoll_create 512 ∷ eventfd ∷ epoll_add epoll_fd event_fd ∷ []

  abbrev pub epoll_of : ℤ
  epoll_of = os (io_setup 512 ∷ []) (epoll_create 512)

  abbrev pub event_of : ℤ
  event_of = os (io_setup 512 ∷ epoll_create 512 ∷ []) eventfd

  abbrev pub watch_of : ℤ
  watch_of = os (io_setup 512 ∷ epoll_create 512 ∷ eventfd ∷ []) (epoll_add epoll_of event_of)

  assert_ok-pos :
      {A : Type 0} (r : ℤ) (n : ℕ) (calls : List Call) (next : List Call → List Call × Result A)
      → r ≡ pos n
      → assert_ok os r calls next ≡ next calls
  unfolding assert_ok
  assert_ok-pos r n calls next e = rw e

  -- If the four system calls succeed, the constructor watches the event descriptor that it made with
  -- the epoll descriptor that it made, and makes no other call. The destructor stops that, closes
  -- the event descriptor and destroys the context of the file operations; the epoll descriptor
  -- stays open.
  pub lifetime_lem :
      (a b c e : ℕ)
      → os [] (io_setup 512) ≡ pos a
      → epoll_of ≡ pos b
      → event_of ≡ pos c
      → watch_of ≡ pos e
      → (d : Descriptors) × (make_poller os [] ≡ (setup d.epoll_fd d.event_fd, ok d))
        × (d.epoll_fd ≡ pos b)
        × (d.event_fd ≡ pos c)
        × (destroy_poller os d (setup d.epoll_fd d.event_fd)
            ≡ setup (pos b) (pos c) ++ epoll_del (pos b) (pos c) ∷ close (pos c) ∷ io_destroy ∷ [])
  unfolding make_poller make_epoll_fd make_event_fd watch destroy_poller assert_ok
  lifetime_lem a b c e p q r s = (
    record { epoll_fd = epoll_of; event_fd = event_of },
    assert_ok-pos (os [] (io_setup 512)) a (io_setup 512 ∷ []) (make_epoll_fd os) p
        ∙ assert_ok-pos epoll_of b (io_setup 512 ∷ epoll_create 512 ∷ [])
            (make_event_fd os epoll_of) q
        ∙ assert_ok-pos event_of c (io_setup 512 ∷ epoll_create 512 ∷ eventfd ∷ [])
            (watch os epoll_of event_of) r
        ∙ assert_ok-pos watch_of e (setup epoll_of event_of)
            (λ calls. (calls, ok (record { epoll_fd = epoll_of; event_fd = event_of }))) s,
    q,
    r,
    rw (q, r),
  )
