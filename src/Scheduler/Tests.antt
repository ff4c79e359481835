-- ===== src/Scheduler/Tests.antt =====
-- A run of scheduler.hpp, and its theorems at it.
use dumbo.Base.{ℕ, ◌≡◌, refl, [], ◌∷◌, Option, arith}
use dumbo.Base.Members.{erase}
use dumbo.Scheduler.{Scheduler, awakened, pick_next, suspend, resume}
use dumbo.Scheduler.Queues.{IsValid, picks, suspends, resumes, Run, start, next}
use dumbo.Scheduler.Fairness.{run_lem}

abbrev set_ready : Scheduler → ℕ → Option Scheduler
set_ready s c = awakened (record s { ready_queue = erase c s.ready_queue }) c

abbrev busy : Scheduler
busy = record { ready_queue = 3 ∷ 4 ∷ []; wait_queue = 5 ∷ 6 ∷ [] }

busy-IsValid : IsValid busy
busy-IsValid = record {
  ready = (refl, (refl, tt));
  wait = (refl, (refl, tt));
  non_null = refl;
  wait_non_null = refl;
  apart = λ c h. ground arith;
}

abbrev later : Scheduler
later = record { ready_queue = 4 ∷ 5 ∷ []; wait_queue = 6 ∷ 7 ∷ [] }

-- 5 is resumed, 3 runs, 7 suspends itself.
busy-Run : Run set_ready busy later (3 ∷ []) (5 ∷ [])
unfolding resume awakened pick_next suspend
busy-Run = next (next (next start (resumes 5 refl)) (picks 3 refl)) (suspends 7 (λ e. cc) refl refl)

run_lem_example : IsValid later × (3 ∷ later.ready_queue ≡ 3 ∷ 4 ∷ 5 ∷ [])
run_lem_example = run_lem set_ready (λ s c. refl) busy-IsValid busy-Run
