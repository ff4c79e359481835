-- ===== src/Worker.antt =====
-- `detail::Worker` of include/dumbo/v1/reactor/thread_pool.hpp: a thread that runs one task at a
-- time. What a thread does while it holds `mutex_` is one step; the thread holds it from the moment
-- that it leaves `cv_.wait` until it waits again. `none` is a failed assertion.
pub mod Handoff
mod Tests
use dumbo.Base.{
  ℕ, zero, suc, List, [], ◌∷◌, ◌++◌, Option, none, some, Bool, true, false, not, ◌==◌,
  if◌then◌else◌,
}
use dumbo.Base.Faults.{◌>>=◌, ◌>>◌, assert}

-- Where the thread is: before its first lock, in `cv_.wait`, or at its end.
pub data Place : Type 0 where
  starting waiting ended : Place

-- `processed` lists the tasks that were processed and submitted, in order.
pub record Worker : Type 0 where
  pub place : Place
  pub joinable : Bool
  pub task : Option ℕ
  pub stopping : Bool
  pub finished : Bool
  pub ready : Bool
  pub processed : List ℕ

pub make_worker : Worker
make_worker = record {
  place = starting;
  joinable = true;
  task = none;
  stopping = false;
  finished = false;
  ready = false;
  processed = [];
}

-- The body of the loop behind the wait.
after_wait : Worker → Option ℕ → Option Worker
after_wait w (some t) =
    some (record w { processed = w.processed ++ t ∷ []; ready = false; place = waiting })
after_wait w none = none

woken : Worker → Option Worker
unfolding after_wait
woken w =
    if w.stopping then some (record w { finished = true; place = ended }) else after_wait w w.task

-- What a step of the thread comes to: it is blocked, it fails an assertion, or it moves on.
pub data Progress : Type 0 where
  blocked : Progress
  failed : Progress
  moved : Worker → Progress

progress_of : Option Worker → Progress
progress_of none = failed
progress_of (some w) = moved w

step_at : Place → Worker → Progress
unfolding woken progress_of
step_at starting w = moved (record w { ready = false; place = waiting })
step_at waiting w = if w.ready then progress_of (woken w) else blocked
step_at ended w = blocked

-- One step of the worker's thread.
pub thread_step : Worker → Progress
unfolding step_at
thread_step w = step_at w.place w

-- The pool's thread hands a task over; 0 is the null pointer.
pub run : Worker → ℕ → Option Worker
run w task = do
  assert (not (task == 0))
  assert (not w.stopping)
  some (record w { task = some task; ready = true })

-- The part of `stop` before `thread_.join()`.
pub signal_stop : Worker → Worker
signal_stop w = if w.joinable then record w { stopping = true; ready = true; task = none } else w

-- `thread_.join()` returns once the thread has ended; `rounds` bounds the steps that are tried.
joined_at : ℕ → Place → Worker → Option Worker
unfolding thread_step
joined_at zero p w = none
joined_at (suc rounds) ended w = some (record w { joinable = false })
joined_at (suc rounds) p w = elim (thread_step w) [
  | moved w' ↦ joined_at rounds w'.place w'
  | _ ↦ none
]

-- `stop`; `none` is a join that does not return. Two steps end any thread that can end.
pub stop : Worker → Option Worker
unfolding signal_stop joined_at
stop w = if w.joinable then joined_at 3 w.place (signal_stop w) else some w

unfoldable pub is_finished : Worker → Bool
is_finished w = w.finished
