-- ===== src/Windows/Completions/Exact.antt =====
-- What `poll` of msvc_io_poller.cpp delivers if the answers of the completion port are known.
use Prim.Native.Nat.{min}
use mathlib.Core.List.{append-nil}
use dumbo.Base.{
  ℕ, zero, suc, ◌+◌, ◌-◌, ◌^◌, ◌≤◌, ◌<◌, ◌≡◌, sym, subst, List, [], ◌∷◌, ◌++◌, some, ltb,
  if◌then◌else◌, arith, length, length-append, lt→ltb,
}
use dumbo.Base.Results.{ok}
use dumbo.Ring.{capacity}
use dumbo.Ring.Refine.{Holds, push_front_room, head-push_front, capacity_lem}
use dumbo.Windows.Completions.{
  Dequeued, Port, batch_size, report, write_at, Poller, complete, handled, handle_dequeued, rounds,
  poll,
}
use dumbo.Windows.Completions.Dequeue.{
  Dequeues, now, later, Ends, exhausted, idle, Outcome, delivered, outcome_later,
}

module _ (port : Port) where
  rounds_nothing :
      (k n : ℕ) (p : Poller port) (xs : List ℕ) (s : port.State)
      → Ends port n p.kernel (some s)
      → Holds k p.ring xs
      → Outcome port k p xs [] (some s) (rounds port n p)
  unfolding rounds handle_dequeued handled
  rounds_nothing k zero p xs s (exhausted s₀) h =
      delivered p.kernel p.ring (subst (Holds k p.ring) (sym (append-nil xs)) h)
  rounds_nothing k (suc n) p xs s (idle {s₁ = s₁} e eo i) h =
      rw (e, eo, i) (delivered s₁ p.ring (subst (Holds k p.ring) (sym (append-nil xs)) h))

  rounds_delivered :
      (k n left : ℕ) (p : Poller port) (xs : List ℕ) (cs : List (ℕ × Dequeued)) (s t : port.State)
      → Dequeues port n p.kernel cs left s
      → Ends port left s (some t)
      → Holds k p.ring xs
      → length xs + n ≤ 2 ^ k
      → p.ring.head + n < 2 ^ 63
      → Outcome port k p xs cs (some t) (rounds port n p)
  unfolding rounds handle_dequeued handled complete
  rounds_delivered k n left p xs cs s t (now n₀ s₀) ends h room small =
      rounds_nothing k n p xs t ends h
  rounds_delivered k (suc n) left p xs cs s t (later {a = a} {d = d} {cs = ds} {s₁ = s₁} e eo more)
        ends h room small =
      let (r, pushed, h') =
        push_front_room k p.ring (write_at a (report d) p.operations a).message xs h (omega arith)
          (omega arith) in
      let rest =
        rounds_delivered k n left
          (record { ring = r; operations = write_at a (report d) p.operations; kernel = s₁ })
          (xs ++ (write_at a (report d) p.operations a).message ∷ []) ds s t more ends h'
          (omega (arith, length-append xs ((write_at a (report d) p.operations a).message ∷ [])))
          (omega (arith, head-push_front p.ring _ pushed)) in
      rw e (
        subst
          (λ o.
            Outcome port k p xs ((a, d) ∷ ds) (some t)
              (handled port (rounds port n) (record p { kernel = s₁ }) d o))
          (sym eo) (rw pushed (outcome_later port k p xs a d r s₁ rest)))

  room_delivered :
      (m k left : ℕ) (p : Poller port) (xs : List ℕ) (cs : List (ℕ × Dequeued)) (s t : port.State)
      → Dequeues port (min m 10) p.kernel cs left s
      → Ends port left s (some t)
      → Holds k p.ring xs
      → m ≡ 2 ^ k - length xs
      → p.ring.head + 10 < 2 ^ 63
      → Outcome port k p xs cs (some t) (if ltb 0 m then rounds port (min m batch_size) p else ok p)
  unfolding rounds
  room_delivered zero k left p xs cs s t dequeues ends h e small =
      rounds_delivered k zero left p xs cs s t dequeues ends h (omega (arith, h.fits)) (omega arith)
  room_delivered (suc m) k left p xs cs s t dequeues ends h e small =
      rw (lt→ltb 0 (suc m) (omega arith)) (
        rounds_delivered k (min (suc m) 10) left p xs cs s t dequeues ends h (omega (arith, h.fits))
          (omega arith))

  -- If the port answers with the operations `cs` and then with none, or the rounds are used up,
  -- `poll` delivers exactly these.
  pub poll_delivered :
      (k left : ℕ) (p : Poller port) (xs : List ℕ) (cs : List (ℕ × Dequeued)) (s t : port.State)
      → Dequeues port (min (2 ^ k - length xs) 10) p.kernel cs left s
      → Ends port left s (some t)
      → Holds k p.ring xs
      → p.ring.head + 10 < 2 ^ 63
      → Outcome port k p xs cs (some t) (poll port p)
  unfolding poll
  poll_delivered k left p xs cs s t dequeues ends h small =
      let e = capacity_lem k p.ring xs h in
      room_delivered (capacity p.ring) k left p xs cs s t
        (subst (λ m. Dequeues port (min m 10) p.kernel cs left s) (sym e) dequeues) ends h e small
