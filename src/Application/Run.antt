-- ===== src/Application/Run.antt =====
-- `run` of application.hpp: the first reactor's event loop between the start of the main function
-- and the joins; and the threads of the other reactors, which reactor.hpp starts and joins.
pub mod Joins
pub mod Answer
pub mod Boot
mod Tests
use dumbo.Base.{ℕ, List, [], ◌∷◌, ◌++◌, Option, none, some, if◌then◌else◌}
use dumbo.Base.Results.{Result, ok, err, ◌>>=◌, checked}
use dumbo.Message.{Outcome, result_of}
use dumbo.Mpsc.{Disruptor}
use dumbo.Poller.{Kernel, IoEvent}
use dumbo.Reactor.{World}
use dumbo.EventLoop.{EventLoop, event_loop}
use dumbo.Application.{ReactorInfo, Application, start_run}

-- The cpus whose reactors run in a thread of their own, and `local_engine_` of the main thread.
pub record Threads : Type 0 where
  pub started : List ℕ
  pub local_engine : Option ℕ

-- Reactor::start. In its thread a reactor is the local engine.
pub start : ReactorInfo → Threads → Threads
start r t =
    if r.own_thread
    then record t { started = t.started ++ r.cpu ∷ [] }
    else record t { local_engine = some r.cpu }

-- The second loop of the application's constructor.
pub start_each : List ReactorInfo → Threads → Threads
unfolding start
start_each [] t = t
start_each (r ∷ rs) t = start_each rs (start r t)

-- `engine()` in the main thread: `none` is the failed assertion.
pub engine : Threads → Option ℕ
engine t = t.local_engine

-- Reactor::join, with the threads joined so far.
pub join : ReactorInfo → List ℕ → List ℕ
join r joined = if r.own_thread then joined ++ r.cpu ∷ [] else joined

pub join_each : List ReactorInfo → List ℕ → List ℕ
unfolding join
join_each [] joined = joined
join_each (r ∷ rs) joined = join_each rs (join r joined)

module _ {R : Type 0} (k : Kernel) (complete : IoEvent → World R → World R) (d : Disruptor ℕ)
    (yield : EventLoop k complete d → Result (EventLoop k complete d)) where
  -- After the event loop: the other reactors' threads are joined, and the result is asked for.
  after_loop :
      Application d → ℕ → Option (EventLoop k complete d) → Result (Option (List ℕ × Outcome R))
  unfolding join_each
  after_loop app next none = ok none
  after_loop app next (some l) = do
    o ← checked (result_of (l.poller.store.store next))
    ok (some (join_each app.reactors [], o))

  -- The first reactor with what `run` submitted.
  pub started_loop : EventLoop k complete d → World R × Application d → EventLoop k complete d
  started_loop l (w, app) = record l { poller = record l.poller { store = w }; smp = app.smp }

  -- `l` is the first reactor, and `next` the address of the message; `none` if the event loop is
  -- still going after `fuel` turns.
  pub run : ℕ → Application d → EventLoop k complete d → ℕ → Result (Option (List ℕ × Outcome R))
  unfolding started_loop after_loop
  run fuel app l next = do
    submitted ← checked (start_run d app next l.poller.store)
    ended ← event_loop k complete d yield fuel (started_loop l submitted)
    after_loop app next ended
