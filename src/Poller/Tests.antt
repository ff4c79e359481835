-- ===== src/Poller/Tests.antt =====
-- A kernel that meets the documented bounds, and the theorems of io_poller.cpp over it.
use dumbo.Base.{
  ℕ, zero, suc, ◌+◌, ◌%◌, ◌<◌, ◌≤◌, ◌≡◌, refl, List, [], ◌∷◌, Option, none, some, arith, length,
  take, length-take, get_elem?, ℤ, pos, negsuc, Bool, true, false,
}
use dumbo.Base.Results.{ok}
use dumbo.Ring.{Ring}
use dumbo.Ring.Refine.{Holds}
use dumbo.Poller.{Ready, event_fd, user, IoEvent, Kernel, count_event_fd, Lawful, Poller, poll}
use dumbo.Poller.Setup.{Os}
use dumbo.Poller.Poll.{poll_delivers}

abbrev ready : List Ready
ready = user (some 7) ∷ event_fd ∷ user none ∷ []

abbrev finished : List IoEvent
finished = record { message = 9; obj = 0; res = pos 512; res2 = 0 } ∷ []

-- The state says whether the file operations can be read.
abbrev answer : Bool → ℤ → Option (List IoEvent) × Bool
answer true (pos n) = (some (take n finished), true)
answer true (negsuc n) = (none, true)
answer false a = (none, false)

abbrev kernel : Kernel
kernel = record {
  State = Bool;
  epoll_pwait = λ s n. (some (take n ready), s);
  io_getevents = answer;
}

take-once : (n : ℕ) → count_event_fd (take n ready) ≤ 1
unfolding count_event_fd
take-once zero = omega arith
take-once (suc zero) = omega arith
take-once (suc (suc zero)) = omega arith
take-once (suc (suc (suc n))) = grind arith

kernel-Lawful : Lawful kernel
kernel-Lawful = record {
  epoll_bound = λ s n evs e. grind (arith, length-take n ready);
  epoll_once = λ s n evs e. grind (arith, take-once n);
  aio_bound = bound;
}
  where
    bound :
        (s : Bool) (n : ℕ) (evs : List IoEvent) → (answer s (pos n)).0 ≡ some evs → length evs ≤ n
    bound true n evs e = grind (arith, length-take n finished)
    bound false n evs e = cc

abbrev count : IoEvent → ℕ → ℕ
count e n = n + 1

abbrev fresh : Bool → Poller kernel count
fresh works = record {
  ring = record { buffer = 0 ∷ 0 ∷ 0 ∷ 0 ∷ []; tail = 0; head = 0 };
  store = 0;
  kernel = works;
}

fresh-Holds : Holds 2 (fresh true).ring []
fresh-Holds = record {
  small = omega arith;
  sized = refl;
  fits = omega arith;
  span = refl;
  in_range = omega arith;
  cells = λ i p. elim p [ ];
}

abbrev one_cell : Ring ℕ
one_cell = record { buffer = 5 ∷ []; tail = 0; head = 1 }

one_cell-Holds : Holds 0 one_cell (5 ∷ [])
one_cell-Holds = record {
  small = omega arith;
  sized = refl;
  fits = omega arith;
  span = refl;
  in_range = omega arith;
  cells = only;
}
  where
    only : (i : ℕ) → i < 1 → get_elem? {A = ℕ} (5 ∷ []) ((0 + i) % 1) ≡ get_elem? {A = ℕ} (5 ∷ []) i
    only zero p = refl
    only (suc i) p = absurd (omega arith)

poll_delivers_example :
    (r : Ring ℕ) × (poll kernel count (fresh true)
      ≡ ok (record { ring = r; store = 1; kernel = true }))
    × Holds 2 r (7 ∷ 9 ∷ [])
poll_delivers_example =
    poll_delivers kernel count 2 (fresh true) [] ready finished true true kernel-Lawful fresh-Holds
      (omega arith) (omega arith) refl refl

-- Every system call gives the next descriptor.
abbrev next_fd : Os
next_fd calls call = pos (length calls)
