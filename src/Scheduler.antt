-- ===== src/Scheduler.antt =====
-- include/dumbo/v1/reactor/scheduler.hpp: the queues of ready and of suspended fibers of a reactor.
-- A context is its address, 0 the null pointer. `fibers::scheduler::set_ready` and the switch of
-- fibers are not this library's code. `none` is a failed assertion.
pub mod Queues
pub mod Fairness
pub mod Resumed
mod Tests
use dumbo.Base.{
  ℕ, List, [], ◌∷◌, ◌++◌, Option, none, some, Bool, true, false, not, ◌||◌, ◌==◌, if◌then◌else◌,
}
use dumbo.Base.Members.{is_in, erase}
use dumbo.Base.Faults.{◌>>=◌, ◌>>◌, assert}

pub record Scheduler : Type 0 where
  pub ready_queue : List ℕ
  pub wait_queue : List ℕ

pub empty : Scheduler
empty = record { ready_queue = []; wait_queue = [] }

pub awakened : Scheduler → ℕ → Option Scheduler
awakened s ctx = do
  assert (not (ctx == 0))
  assert (not (is_in ctx s.ready_queue))
  some (record s { ready_queue = s.ready_queue ++ ctx ∷ [] })

pick_from : Scheduler → List ℕ → Option (Option ℕ × Scheduler)
pick_from s [] = some (none, s)
pick_from s (victim ∷ rest) = do
  assert (not (victim == 0))
  assert (not (is_in victim rest))
  some (some victim, record s { ready_queue = rest })

-- `nullptr` is `none`.
pub pick_next : Scheduler → Option (Option ℕ × Scheduler)
unfolding pick_from
pick_next s = pick_from s s.ready_queue

pub has_ready_fibers : Scheduler → Bool
has_ready_fibers s = elim s.ready_queue [ [] ↦ false | c ∷ cs ↦ true ]

-- The event loop goes on instead of a wait.
pub suspend_until : Scheduler → ℕ → Scheduler
suspend_until s time = s

pub notify : Scheduler → Scheduler
notify s = s

-- `suspend` up to the switch to another fiber, and what runs when the fiber is resumed.
pub suspend : Scheduler → ℕ → Option Scheduler
suspend s ctx = do
  assert (not (is_in ctx s.wait_queue))
  some (record s { wait_queue = s.wait_queue ++ ctx ∷ [] })

pub suspended : Scheduler → ℕ → Option Scheduler
suspended s ctx = do assert (not (is_in ctx s.wait_queue)); some s

pub resume : (Scheduler → ℕ → Option Scheduler) → Scheduler → ℕ → Option Scheduler
resume set_ready s ctx = do
  assert (is_in ctx s.wait_queue)
  let rest = erase ctx s.wait_queue
  assert (not (is_in ctx rest))
  set_ready (record s { wait_queue = rest }) ctx
