-- ===== src/Reactor/System.antt =====
-- The reactors of reactor.cpp together: any of them may call another, take what its inbox shows, or
-- run a fiber that it started, in any order. The IO of the reactors is left out.
mod Tests
use dumbo.Base.{ℕ, List, [], ◌∷◌, ◌++◌, Option, none, some, true, ◌≡◌, if◌then◌else◌, take, pos}
use dumbo.Base.Members.{is_in, erase}
use dumbo.Message.{Outcome, process}
use dumbo.Mpsc.{Disruptor}
use dumbo.Mpsc.Fifo.{Fifo}
use dumbo.Smp.{Smp, receive_all}
use dumbo.Smp.Routing.{queued}
use dumbo.Reactor.{Act, does, spawns, World, consume, fiber_body, run_at, run_at_async}

-- The messages for which acts start a fiber, in order.
unfoldable pub spawned_in : List Act → List ℕ
spawned_in [] = []
spawned_in (spawns a ∷ as') = a ∷ spawned_in as'
spawned_in (does a e ∷ as') = spawned_in as'

module _ (R : Type 0) (d : Disruptor ℕ) (f : Fifo d) where
  -- `pending` are the messages whose fibers were started and have not run, and `made` those that
  -- were sent first.
  pub record System : Type 0 where
    pub world : World R
    pub smp : Smp d
    pub pending : List ℕ
    pub made : List ℕ

  pub data Step : System → System → Type 0 where
    calls :
        (s : System) (cpu target context a : ℕ) (w : World R) (smp : Smp d)
        → run_at d cpu target context a s.world s.smp ≡ some (w, smp)
        → Step s (record s { world = w; smp = smp; made = a ∷ s.made })
    calls_async :
        (s : System) (cpu target context a : ℕ) (w : World R) (smp : Smp d)
        → run_at_async d cpu target context a s.world s.smp ≡ some (w, smp)
        → Step s (record s { world = w; smp = smp; made = a ∷ s.made })
    receives :
        (s : System) (cpu k : ℕ) (w : World R) (smp : Smp d) (as' : List Act)
        → receive_all d s.smp (pos cpu) consume (some s.world) ≡ some (k, smp, some w)
        → w.acts ≡ s.world.acts ++ as'
        → Step s (record s { world = w; smp = smp; pending = s.pending ++ spawned_in as' })
    runs :
        (s : System) (a : ℕ) (o : Outcome R) (w : World R) (smp : Smp d)
        → is_in a s.pending ≡ true
        → fiber_body d a o s.world s.smp ≡ some (w, smp)
        → Step s (record s { world = w; smp = smp; pending = erase a s.pending })

  pub data Steps : System → System → Type 0 where
    rest : (s : System) → Steps s s
    next : (s t u : System) → Step s t → Steps t u → Steps s u
