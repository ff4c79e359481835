-- ===== src/Windows/Completions/Dequeue.antt =====
-- What one `poll` of msvc_io_poller.cpp delivers.
use Prim.Native.Nat.{min}
use mathlib.Core.List.{append-nil, append_assoc}
use dumbo.Base.{
  ℕ, zero, suc, ◌+◌, ◌-◌, ◌^◌, ◌≤◌, ◌<◌, ◌≡◌, refl, sym, subst, inl, inr, List, [], ◌∷◌, ◌++◌,
  Option, none, some, true, false, ltb, if◌then◌else◌, arith, length, length-append, Bool-cases,
  lt→ltb,
}
use dumbo.Base.Results.{Result, ok, err, terminated}
use dumbo.Ring.{Ring, capacity}
use dumbo.Ring.Refine.{Holds, push_front_room, head-push_front, capacity_lem}
use dumbo.Windows.Completions.{
  Dequeued, Port, batch_size, is_idle, report, write_at, Poller, complete, handled, handle_dequeued,
  rounds, poll,
}
use dumbo.Windows.Completions.Report.{reported, messages_of, message-write_at, messages_of-write_at}

module _ (port : Port) where
  -- Operations that successive calls dequeue, in `n` rounds of which `left` remain.
  pub data Dequeues : ℕ → port.State → List (ℕ × Dequeued) → ℕ → port.State → Type 0 where
    now : (n : ℕ) (s : port.State) → Dequeues n s [] n s
    later :
        {n left a : ℕ} {d : Dequeued} {cs : List (ℕ × Dequeued)} {s s₁ s₂ : port.State}
        → port.get_queued_completion_status s ≡ (d, s₁)
        → d.overlapped ≡ some a
        → Dequeues n s₁ cs left s₂
        → Dequeues (suc n) s ((a, d) ∷ cs) left s₂

  -- No round remains, or the next one finds the port idle, or the port fails.
  pub data Ends : ℕ → port.State → Option port.State → Type 0 where
    exhausted : (s : port.State) → Ends 0 s (some s)
    idle :
        {left : ℕ} {d : Dequeued} {s s₁ : port.State}
        → port.get_queued_completion_status s ≡ (d, s₁)
        → d.overlapped ≡ none
        → is_idle d.error_code ≡ true
        → Ends (suc left) s (some s₁)
    broken :
        {left : ℕ} {d : Dequeued} {s s₁ : port.State}
        → port.get_queued_completion_status s ≡ (d, s₁)
        → d.overlapped ≡ none
        → is_idle d.error_code ≡ false
        → Ends (suc left) s none

  -- The operations `cs` are delivered to a ring of 2 ^ k cells that held `xs`; the program ends if
  -- the port failed.
  pub data Outcome (k : ℕ) (p : Poller port) (xs : List ℕ) (cs : List (ℕ × Dequeued))
      : Option port.State → Result (Poller port) → Type 0 where
    delivered :
        (s : port.State) (r : Ring ℕ)
        → Holds k r (xs ++ messages_of p.operations cs)
        → Outcome k p xs cs
            (some s)
            (ok (record { ring = r; operations = reported p.operations cs; kernel = s }))
    ended : Outcome k p xs cs none (err terminated)

  -- What `n` rounds came to.
  abbrev pub Polled : ℕ → ℕ → Poller port → List ℕ → Result (Poller port) → Type 0
  Polled n k p xs r =
      (cs : List (ℕ × Dequeued)) × (left : ℕ) × (s : port.State) × (end : Option port.State)
      × Dequeues n p.kernel cs left s
      × Ends left s end
      × Outcome k p xs cs end r

  pub outcome_later :
      (k : ℕ) (p : Poller port) (xs : List ℕ) (a : ℕ) (d : Dequeued) (r : Ring ℕ) (s : port.State)
      {cs : List (ℕ × Dequeued)} {end : Option port.State} {res : Result (Poller port)}
      → Outcome k
          (record { ring = r; operations = write_at a (report d) p.operations; kernel = s })
          (xs ++ (write_at a (report d) p.operations a).message ∷ [])
          cs
          end
          res
      → Outcome k p xs ((a, d) ∷ cs) end res
  outcome_later k p xs a d r s {cs} (delivered t r' h) = delivered t r' (subst (Holds k r') held h)
    where
      held :
          xs
            ++ (write_at a (report d) p.operations a).message ∷ []
            ++ messages_of (write_at a (report d) p.operations) cs
          ≡ xs ++ messages_of p.operations ((a, d) ∷ cs)
      held =
          rw (message-write_at a d p.operations a, messages_of-write_at a d p.operations cs)
            (append_assoc xs ((p.operations a).message ∷ []) (messages_of p.operations cs))
  outcome_later k p xs a d r s ended = ended

  module _ (k n : ℕ) (again : Poller port → Result (Poller port))
      (ih : (q : Poller port) (ys : List ℕ)
        → Holds k q.ring ys
        → length ys + n ≤ 2 ^ k
        → q.ring.head + n < 2 ^ 63
        → Polled n k q ys (again q)) where
    handled-Polled :
        (p : Poller port) (xs : List ℕ) (d : Dequeued) (s : port.State) (o : Option ℕ)
        → Holds k p.ring xs
        → length xs + suc n ≤ 2 ^ k
        → p.ring.head + suc n < 2 ^ 63
        → port.get_queued_completion_status p.kernel ≡ (d, s)
        → d.overlapped ≡ o
        → Polled (suc n) k p xs (handled port again (record p { kernel = s }) d o)
    unfolding handled complete
    handled-Polled p xs d s none h room small e eo = elim (Bool-cases (is_idle d.error_code)) [
      | inl i ↦ rw i (
        [],
        suc n,
        p.kernel,
        some s,
        now (suc n) p.kernel,
        idle e eo i,
        delivered s p.ring (subst (Holds k p.ring) (sym (append-nil xs)) h),
      )
      | inr i ↦ rw i ([], suc n, p.kernel, none, now (suc n) p.kernel, broken e eo i, ended)
    ]
    handled-Polled p xs d s (some a) h room small e eo =
        let (r, pushed, h') =
          push_front_room k p.ring (write_at a (report d) p.operations a).message xs h (omega arith)
            (omega arith) in
        let (cs, left, s', end, ds, en, out) =
          ih (record { ring = r; operations = write_at a (report d) p.operations; kernel = s })
            (xs ++ (write_at a (report d) p.operations a).message ∷ []) h'
            (omega (arith, length-append xs ((write_at a (report d) p.operations a).message ∷ [])))
            (omega (arith, head-push_front p.ring _ pushed)) in
        rw pushed ((a, d) ∷ cs, left, s', end, later e eo ds, en, outcome_later k p xs a d r s out)

    handle_dequeued-Polled :
        (p : Poller port) (xs : List ℕ) (a : Dequeued × port.State)
        → Holds k p.ring xs
        → length xs + suc n ≤ 2 ^ k
        → p.ring.head + suc n < 2 ^ 63
        → port.get_queued_completion_status p.kernel ≡ a
        → Polled (suc n) k p xs (handle_dequeued port again p a)
    unfolding handle_dequeued
    handle_dequeued-Polled p xs (d, s) h room small e =
        handled-Polled p xs d s d.overlapped h room small e refl

  rounds-Polled :
      (k n : ℕ) (p : Poller port) (xs : List ℕ)
      → Holds k p.ring xs
      → length xs + n ≤ 2 ^ k
      → p.ring.head + n < 2 ^ 63
      → Polled n k p xs (rounds port n p)
  unfolding rounds
  rounds-Polled k zero p xs h room small = (
    [],
    0,
    p.kernel,
    some p.kernel,
    now 0 p.kernel,
    exhausted p.kernel,
    delivered p.kernel p.ring (subst (Holds k p.ring) (sym (append-nil xs)) h),
  )
  rounds-Polled k (suc n) p xs h room small =
      handle_dequeued-Polled k n (rounds port n) (rounds-Polled k n) p xs
        (port.get_queued_completion_status p.kernel) h room small refl

  room-Polled :
      (m k : ℕ) (p : Poller port) (xs : List ℕ)
      → Holds k p.ring xs
      → m ≡ 2 ^ k - length xs
      → p.ring.head + 10 < 2 ^ 63
      → Polled (min m 10) k p xs (if ltb 0 m then rounds port (min m batch_size) p else ok p)
  unfolding rounds
  room-Polled zero k p xs h e small =
      rounds-Polled k zero p xs h (omega (arith, h.fits)) (omega arith)
  room-Polled (suc m) k p xs h e small =
      rw (lt→ltb 0 (suc m) (omega arith))
        (rounds-Polled k (min (suc m) 10) p xs h (omega (arith, h.fits)) (omega arith))

  -- Whatever the completion port answers, and with positions of the ring that stay below 2 ^ 63,
  -- one `poll` dequeues operations until the port is idle, but at most 10 and at most as many as the
  -- ring has room for. It reports each to its operation and appends their messages in that order;
  -- only if the port fails it ends the program instead.
  pub poll_lem :
      (k : ℕ) (p : Poller port) (xs : List ℕ)
      → Holds k p.ring xs
      → p.ring.head + 10 < 2 ^ 63
      → Polled (min (2 ^ k - length xs) 10) k p xs (poll port p)
  unfolding poll
  poll_lem k p xs h small =
      subst (λ m. Polled (min m 10) k p xs (poll port p)) (capacity_lem k p.ring xs h)
        (room-Polled (capacity p.ring) k p xs h (capacity_lem k p.ring xs h) small)
