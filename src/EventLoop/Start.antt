-- ===== src/EventLoop/Start.antt =====
-- The constructor of a reactor in reactor.hpp, with its parts, and how it is told to stop.
use dumbo.Base.{ℕ, [], false, arith}
use dumbo.Ring.{new}
use dumbo.Ring.Refine.{Holds, new-Holds}
use dumbo.Mpsc.{Disruptor}
use dumbo.Smp.{Smp}
use dumbo.Pool.{make_pool}
use dumbo.Pool.Invariant.{IsValid, make_pool-IsValid}
use dumbo.Poller.{Kernel, IoEvent}
use dumbo.Reactor.{World}
use dumbo.EventLoop.{EventLoop, default_contexts}

module _ {R : Type 0} (k : Kernel) (complete : IoEvent → World R → World R) (d : Disruptor ℕ) where
  -- The ring has 16384 cells, and the pool keeps one worker and has ten at most. The contexts are
  -- those of the thread.
  unfoldable pub make_reactor : Smp d → ℕ → World R → k.State → EventLoop k complete d
  make_reactor smp cpu w kernel = record {
    cpu = cpu;
    poller = record { ring = new 0 16384; store = w; kernel = kernel };
    smp = smp;
    pool = make_pool 1 10;
    running = false;
    contexts = default_contexts;
  }

  -- Reactor::stop, and `shutdown`, which does the same.
  pub tell_to_stop : EventLoop k complete d → EventLoop k complete d
  tell_to_stop l = record l { running = false }

  -- The ring of a new reactor is an empty ring of 2 ^ 14 cells, and its pool is valid.
  pub make_reactor-Holds :
      (smp : Smp d) (cpu : ℕ) (w : World R) (kernel : k.State)
      → Holds 14 (make_reactor smp cpu w kernel).poller.ring []
        × IsValid (make_reactor smp cpu w kernel).pool
  unfolding make_reactor
  make_reactor-Holds smp cpu w kernel = (new-Holds 0 14 (omega arith), (make_pool-IsValid 1 10).0)
