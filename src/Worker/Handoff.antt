-- ===== src/Worker/Handoff.antt =====
-- Which tasks a worker of thread_pool.hpp runs, and when its `stop` returns.
use mathlib.Core.List.{append-nil, append_assoc}
use dumbo.Base.{
  ℕ, ◌≡◌, ◌≢◌, refl, sym, ap, ◌∙◌, List, [], ◌∷◌, ◌++◌, Option, none, some, arith, true, false,
  ne→==,
}
use dumbo.Base.Faults.{◌>>=◌}
use dumbo.Worker.{
  starting, waiting, ended, Worker, Progress, blocked, failed, moved, thread_step, run, stop,
  make_worker,
}

-- The worker waits for a task.
pub record IsIdle (w : Worker) : Type 0 where
  pub place : w.place ≡ waiting
  pub not_ready : w.ready ≡ false
  pub running : w.stopping ≡ false
  pub joinable : w.joinable ≡ true

pub make_worker-running : make_worker.stopping ≡ false
unfolding make_worker
make_worker-running = refl

-- The worker after the task `t`, and the same worker with the task at hand.
abbrev pub after_task : Worker → ℕ → Worker
after_task w t = record w {
  task = some t;
  processed = w.processed ++ t ∷ [];
  ready = false;
  place = waiting;
}

abbrev pub handed : Worker → ℕ → Worker
handed w t = record w { task = some t; ready = true }

pub run_idle : (w : Worker) (t : ℕ) → w.stopping ≡ false → t ≢ 0 → run w t ≡ some (handed w t)
unfolding run
run_idle w t s z = rw (s, ne→== t 0 z)

pub step_handed :
    (w : Worker) (t : ℕ)
    → w.stopping ≡ false
    → w.place ≡ waiting
    → thread_step (handed w t) ≡ moved (after_task w t)
unfolding thread_step
step_handed w t s p = ground arith

blocked_idle : (w : Worker) → w.place ≡ waiting → w.ready ≡ false → thread_step w ≡ blocked
unfolding thread_step
blocked_idle w p r = ground arith

-- An idle worker that is given a task runs it in its next step, and then waits for the next one.
pub handoff :
    (w : Worker) (t : ℕ)
    → IsIdle w
    → t ≢ 0
    → (w₁ : Worker) × (run w t ≡ some w₁)
      × (thread_step w₁ ≡ moved (after_task w t))
      × (thread_step (after_task w t) ≡ blocked)
      × IsIdle (after_task w t)
handoff w t i z = (
  handed w t,
  run_idle w t i.running z,
  step_handed w t i.running i.place,
  blocked_idle (after_task w t) refl refl,
  record { place = refl; not_ready = refl; running = i.running; joinable = i.joinable },
)

abbrev and_then : Progress → (Worker → Option Worker) → Option Worker
and_then (moved w) f = f w
and_then blocked f = none
and_then failed f = none

-- Each task is handed over, and the thread makes one step.
pub serve : Worker → List ℕ → Option Worker
serve w [] = some w
serve w (t ∷ ts) = do w₁ ← run w t; and_then (thread_step w₁) (λ w₂. serve w₂ ts)

abbrev pub NonNull : List ℕ → Type 0
NonNull [] = Unit
NonNull (t ∷ ts) = (t ≢ 0) × NonNull ts

-- An idle worker that is given one task after another, none of them null, runs each of them once,
-- in order, and is idle again.
pub serve_lem :
    (ts : List ℕ) (w : Worker)
    → IsIdle w
    → NonNull ts
    → (w' : Worker) × (serve w ts ≡ some w') × (w'.processed ≡ w.processed ++ ts) × IsIdle w'
unfolding serve
serve_lem [] w i n = (w, refl, sym (append-nil w.processed), i)
serve_lem (t ∷ ts) w i n =
    let (w₁, e₁, e₂, e₃, i') = handoff w t i n.0 in
    let (w', e, p, i'') = serve_lem ts (after_task w t) i' n.1 in
    (
      w',
      rw e₁ (ap (λ q. and_then q (λ w₂. serve w₂ ts)) e₂ ∙ e),
      p ∙ append_assoc w.processed (t ∷ []) ts,
      i'',
    )

-- A task, not null, that is handed over before the thread has taken its lock for the first time,
-- and not after a stop, is lost: the thread clears `ready_`, waits, and is blocked with the task at
-- hand and not processed.
pub lost_wakeup :
    (w : Worker) (t : ℕ)
    → w.place ≡ starting
    → w.stopping ≡ false
    → t ≢ 0
    → (w₁ w₂ : Worker) × (run w t ≡ some w₁)
      × (thread_step w₁ ≡ moved w₂)
      × (thread_step w₂ ≡ blocked)
      × (w₂.task ≡ some t)
      × (w₂.processed ≡ w.processed)
unfolding thread_step
lost_wakeup w t p s z = (
  handed w t,
  record (handed w t) { ready = false; place = waiting },
  run_idle w t s z,
  ground arith,
  refl,
  refl,
  refl,
)

-- `stop` ends an idle worker, and returns at once from a worker that has been stopped. It does not
-- return if it comes before the thread has taken its lock for the first time.
pub stop_lem :
    (w : Worker)
    → (IsIdle w → (w' : Worker) × (stop w ≡ some w') × (w'.finished ≡ true) × (w'.joinable ≡ false))
      × (w.joinable ≡ false → stop w ≡ some w)
      × (w.joinable ≡ true → w.place ≡ starting → stop w ≡ none)
unfolding stop thread_step
stop_lem w = (
  λ i. (
    record w {
      stopping = true;
      ready = true;
      task = none;
      finished = true;
      place = ended;
      joinable = false;
    },
    rw (i.joinable, i.place),
    refl,
    refl,
  ),
  λ j. rw j,
  λ j p. rw (j, p),
)
