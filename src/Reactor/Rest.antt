-- ===== src/Reactor/Rest.antt =====
-- That the reactors of reactor.cpp together come to rest when no more calls are made.
use dumbo.Base.{ℕ, ◌+◌, ◌*◌, ◌≡◌, Option, none, some, Bool, if◌then◌else◌, take, length}
use dumbo.Message.Kept.{IsCall}
use dumbo.Mpsc.{Disruptor}
use dumbo.Mpsc.Fifo.{Fifo}
use dumbo.Smp.{Smp}
use dumbo.Smp.Routing.{queued}
use dumbo.Smp.Totals.{total}
use dumbo.Reactor.{World}
use dumbo.Reactor.System.{System, Step, calls, calls_async, receives, runs}

module _ {R : Type 0} where
  -- The work that a message in an inbox still makes: an answer is only to be finished.
  abbrev pub weight : World R → ℕ → ℕ
  weight w a = if (w.store a).returned then 1 else 3

module _ {R : Type 0} (d : Disruptor ℕ) (f : Fifo d) where
  abbrev sent_with : World R → Bool × Smp d → Option (World R × Smp d)
  sent_with w r = some (w, r.1)

  -- The work that is left: in the inboxes, and for the fibers that have not run.
  abbrev pub rank : System R d f → ℕ
  rank s = total d f (weight s.world) s.smp.inboxes + 2 * length s.pending

  abbrev pub AllCalls : System R d f → Type 0
  AllCalls s = (a : ℕ) → IsCall (s.world.store a)

  -- The messages that a step takes from an inbox, or the fiber that it runs; a new call is no such
  -- step.
  abbrev pub work : (s t : System R d f) → Step R d f s t → Option ℕ
  work s t (calls s₀ cpu target context a w smp e) = none
  work s t (calls_async s₀ cpu target context a w smp e) = none
  work s t (receives s₀ cpu k w smp as' e new) = some (length (take k (queued d f s₀.smp cpu)))
  work s t (runs s₀ a o w smp h e) = some 1

  pub data Works : ℕ → System R d f → System R d f → Type 0 where
    ends : (s : System R d f) → Works 0 s s
    goes_on :
        (n m : ℕ) (s t u : System R d f) (step : Step R d f s t)
        → work s t step ≡ some n
        → Works m t u
        → Works (n + m) s u
