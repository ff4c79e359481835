-- ===== src/Pool/Tests.antt =====
-- A pool with one busy and one free worker, and the theorems of thread_pool.cpp at it.
use dumbo.Base.{ℕ, ◌<◌, ◌≤◌, ◌≡◌, refl, [], ◌∷◌, some, none, arith, true, false, length}
use dumbo.Base.Members.{count}
use dumbo.Worker.{Worker, waiting}
use dumbo.Pool.{Pool, try_run, release}
use dumbo.Pool.Invariant.{IsValid, IsRunning}
use dumbo.Pool.Calls.{try_run_lem, release_lem}

abbrev idle : Worker
idle = record {
  place = waiting;
  joinable = true;
  task = none;
  stopping = false;
  finished = false;
  ready = false;
  processed = [];
}

abbrev two : Pool
two = record {
  min_size = 1;
  max_size = 3;
  free = 1 ∷ [];
  busy = 2 ∷ [];
  worker = λ a. idle;
  next = 3;
}

two-IsValid : IsValid two
two-IsValid = record {
  few_free = omega arith;
  few_busy = omega arith;
  once = λ a. ground arith;
  known = λ a h. ground arith;
  positive = omega arith;
}

two-IsRunning : IsRunning two
two-IsRunning = record { running = λ a h. refl }

try_run_lem_example :
    (length two.busy < 3
      → (a : ℕ) × (q : Pool) × (try_run two 9 ≡ some (true, q))
        × IsValid q
        × IsRunning q
        × (q.busy ≡ 2 ∷ a ∷ [])
        × (count a two.busy ≡ 0)
        × ((q.worker a).task ≡ some 9)
        × ((q.worker a).ready ≡ true))
    × (3 ≤ length two.busy → try_run two 9 ≡ some (false, two))
try_run_lem_example = try_run_lem two 9 two-IsValid two-IsRunning (λ e. absurd (omega arith))

release_lem_example :
    (q : Pool) × (release two 2 ≡ some q)
    × IsValid q
    × (count 2 q.busy ≡ 0)
    × (length two.free < 1 → (q.free ≡ 1 ∷ 2 ∷ []) × (q.worker 2 ≡ idle))
    × (1 ≤ length two.free
        → (q.free ≡ 1 ∷ []) × ((q.worker 2).finished ≡ true) × ((q.worker 2).joinable ≡ false))
release_lem_example =
    release_lem two 2 two-IsValid refl
      (record { place = refl; not_ready = refl; running = refl; joinable = refl })
