-- ===== src/Scheduler/Queues.antt =====
-- The queues of scheduler.hpp under any sequence of its calls.
use dumbo.Base.{ℕ, ◌≡◌, ◌≢◌, List, [], ◌∷◌, ◌++◌, Option, none, some, true, false}
use dumbo.Base.Members.{is_in, erase, Distinct}
use dumbo.Scheduler.{Scheduler, awakened, pick_next, suspend, resume}

-- The queues hold no null pointer and no context twice, and a suspended context is not ready.
pub record IsValid (s : Scheduler) : Type 0 where
  pub ready : Distinct s.ready_queue
  pub wait : Distinct s.wait_queue
  pub non_null : is_in 0 s.ready_queue ≡ false
  pub wait_non_null : is_in 0 s.wait_queue ≡ false
  pub apart : (c : ℕ) → is_in c s.wait_queue ≡ true → is_in c s.ready_queue ≡ false

-- What fibers::scheduler::set_ready does with the queues: it takes the context out of the ready
-- queue, if it is there, and hands it to `awakened`.
abbrev pub SetsReady : (Scheduler → ℕ → Option Scheduler) → Type 0
SetsReady set_ready =
    (s : Scheduler) (c : ℕ)
    → set_ready s c ≡ awakened (record s { ready_queue = erase c s.ready_queue }) c

-- A call of the scheduler, the contexts that it hands out and those that it makes ready. The fiber
-- that suspends itself is the running one, so it is not in the ready queue; a fiber that waits in
-- this scheduler is woken by `resume` only.
pub data Step (set_ready : Scheduler → ℕ → Option Scheduler) (s t : Scheduler)
    : List ℕ → List ℕ → Type 0 where
  wakes :
      (c : ℕ)
      → is_in c s.wait_queue ≡ false
      → awakened s c ≡ some t
      → Step set_ready s t [] (c ∷ [])
  picks : (c : ℕ) → pick_next s ≡ some (some c, t) → Step set_ready s t (c ∷ []) []
  idles : pick_next s ≡ some (none, t) → Step set_ready s t [] []
  suspends :
      (c : ℕ)
      → c ≢ 0
      → is_in c s.ready_queue ≡ false
      → suspend s c ≡ some t
      → Step set_ready s t [] []
  resumes : (c : ℕ) → resume set_ready s c ≡ some t → Step set_ready s t [] (c ∷ [])

pub data Run (set_ready : Scheduler → ℕ → Option Scheduler) (s : Scheduler)
    : Scheduler → List ℕ → List ℕ → Type 0 where
  start : Run set_ready s s [] []
  next :
      {t u : Scheduler} {picked woken p w : List ℕ}
      → Run set_ready s t picked woken
      → Step set_ready t u p w
      → Run set_ready s u (picked ++ p) (woken ++ w)
