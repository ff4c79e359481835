-- ===== src/EventLoop.antt =====
-- src/reactor/reactor.cpp: the event loop of one reactor. A turn polls the IO, hands what is in the
-- ring and then what is in the inbox to `process_fn`, and yields to the fibers. What the fibers do
-- until the loop is resumed is a parameter. In a consumer `none` is a failed assertion.
pub mod Turn
pub mod Run
pub mod Wake
pub mod Start
mod Tests
use dumbo.Base.{
  ℕ, zero, suc, ◌+◌, List, [], ◌∷◌, Option, none, some, Bool, true, false, ltb, ◌==◌, ◌||◌,
  if◌then◌else◌, pos,
}
use dumbo.Base.Results.{Result, ok, err, ◌>>=◌, checked}
use dumbo.Ring.{Ring, available}
use dumbo.Mpsc.{Disruptor}
use dumbo.Smp.{Smp, receive_all}
use dumbo.Poller.{Kernel, IoEvent, Poller, poll}
use dumbo.Pool.{Pool, stop_workers}
use dumbo.Reactor.{World, drain_ring, consume}

-- fibers::DEFAULT_CONTEXTS
abbrev pub default_contexts : ℕ
default_contexts = 2

module _ {R : Type 0} (k : Kernel) (complete : IoEvent → World R → World R) (d : Disruptor ℕ) where
  pub record EventLoop : Type 0 where
    pub cpu : ℕ
    pub poller : Poller k complete
    pub smp : Smp d
    pub pool : Pool
    pub running : Bool
    pub contexts : ℕ

  take_inbox : EventLoop → Poller k complete → Ring ℕ → World R → Result EventLoop
  take_inbox l p ring' w = do
    (count, smp', result) ← checked (receive_all d l.smp (pos l.cpu) consume (some w))
    w' ← checked result
    ok (record l { poller = record p { ring = ring'; store = w' }; smp = smp' })

  handle : EventLoop → Poller k complete → Result EventLoop
  unfolding take_inbox
  handle l p = do
    (ring', w) ← checked (drain_ring (available p.ring) p.ring p.store)
    take_inbox l p ring' w

  -- One turn of the loop up to `yield`.
  pub turn : EventLoop → Result EventLoop
  unfolding handle
  turn l = poll k complete l.poller >>= handle l

  -- The condition of the `while`.
  pub going : EventLoop → Bool
  going l = l.running || ltb default_contexts l.contexts

  module _ (yield : EventLoop → Result EventLoop) where
    pub stop : EventLoop → Result EventLoop
    stop l = do pool ← checked (stop_workers l.pool); ok (record l { pool = pool })

    -- `none`: the loop is still going after `fuel` turns.
    pub loop : ℕ → EventLoop → Result (Option EventLoop)
    unfolding turn going stop
    loop zero l = if going l then ok none else (stop l >>= λ l'. ok (some l'))
    loop (suc fuel) l =
        if going l then turn l >>= yield >>= loop fuel else (stop l >>= λ l'. ok (some l'))

    pub event_loop : ℕ → EventLoop → Result (Option EventLoop)
    unfolding loop
    event_loop fuel l = loop fuel (record l { running = true })
