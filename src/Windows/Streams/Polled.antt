-- ===== src/Windows/Streams/Polled.antt =====
-- A `read` or `write` of the Windows port, and the `poll` of msvc_io_poller.cpp that finishes its
-- operation.
use Prim.Native.Nat.{min}
use dumbo.Base.{
  ℕ, ◌+◌, ◌-◌, ◌^◌, ◌<◌, ◌≡◌, refl, sym, ap, ◌∙◌, List, [], ◌∷◌, ◌++◌, some, Bool, true, false,
  if◌then◌else◌, map, length, subst, ℤ,
}
use dumbo.Base.Members.{is_in}
use dumbo.Base.Results.{Result, ok, err, thrown}
use dumbo.Ring.Refine.{Holds}
use dumbo.Windows.{dword, wait_for, Overlapped, Completion, Win, Os, sys, is_started}
use dumbo.Windows.Transfer.{Ended, bytes, failed}
use dumbo.Windows.Streams.{Direction, Stream, call_of, error_of, perform, stream_lem}
use dumbo.Windows.Completions.{Dequeued, Port, Poller, poll}
use dumbo.Windows.Completions.Report.{reported, messages_of, reported_lem}
use dumbo.Windows.Completions.Dequeue.{Dequeues, Ends, Outcome, delivered}
use dumbo.Windows.Completions.Exact.{poll_delivered}

-- The fields of an operation that `read` and `write` look at after the wait.
abbrev pub completion_of : Overlapped → Completion
completion_of o = record { status = o.status; size = o.size; error_code = o.error_code }

-- What a dequeued operation came to.
abbrev pub result_of : Dequeued → Result ℕ
result_of d = if d.status then ok d.num_bytes else err (thrown d.error_code)

messages_of-append :
    (operations : ℕ → Overlapped) (us vs : List (ℕ × Dequeued))
    → messages_of operations (us ++ vs) ≡ messages_of operations us ++ messages_of operations vs
messages_of-append operations [] vs = refl
messages_of-append operations ((a, d) ∷ us) vs =
    ap (◌∷◌ (operations a).message) (messages_of-append operations us vs)

completion_of-reported :
    (operations : ℕ → Overlapped) (us vs : List (ℕ × Dequeued)) (a : ℕ) (d : Dequeued)
    → is_in a (map (λ c. c.0) vs) ≡ false
    → completion_of (reported operations (us ++ (a, d) ∷ vs) a)
      ≡ record { status = d.status; size = d.num_bytes; error_code = d.error_code }
completion_of-reported operations us vs a d h =
    let (status, size, key, code) = reported_lem operations us vs a d h in
    rw (status, size, code) refl

module _ (win : Win) (port : Port) where
  -- Once a fiber has waited, what it reads of an operation is what the poll has left there.
  abbrev pub ReadsPolled : Poller port → Os win → ℕ → Type 0
  ReadsPolled p waited operation =
      (q : Poller port)
      → poll port p ≡ ok q
      → win.completion waited.kernel operation ≡ completion_of (q.operations operation)

  outcome-ok :
      (k : ℕ) (p : Poller port) (xs : List ℕ) (cs : List (ℕ × Dequeued)) (t : port.State)
      → (r : Result (Poller port)) → Outcome port k p xs cs (some t) r
      → (q : Poller port) × (r ≡ ok q)
        × Holds k q.ring (xs ++ messages_of p.operations cs)
        × (q.operations ≡ reported p.operations cs)
  outcome-ok k p xs cs t r (delivered s ring h) =
      (record { ring = ring; operations = reported p.operations cs; kernel = s }, refl, h, refl)

  -- What a poll has left at an address, if it returned.
  polled_completion : ℕ → Result (Poller port) → Completion
  polled_completion a (ok q) = completion_of (q.operations a)
  polled_completion a (err stop) = record { status = false; size = 0; error_code = 0 }

  pub found-ReadsPolled :
      (operation k left : ℕ) (p : Poller port) (xs : List ℕ) (us vs : List (ℕ × Dequeued))
      → (d : Dequeued) (t t' : port.State) (waited : Os win)
      → Dequeues port (min (2 ^ k - length xs) 10) p.kernel (us ++ (operation, d) ∷ vs) left t
      → Ends port left t (some t')
      → Holds k p.ring xs
      → p.ring.head + 10 < 2 ^ 63
      → is_in operation (map (λ c. c.0) vs) ≡ false
      → win.completion waited.kernel operation
        ≡ record { status = d.status; size = d.num_bytes; error_code = d.error_code }
      → ReadsPolled p waited operation
  unfolding polled_completion
  found-ReadsPolled operation k left p xs us vs d t t' waited dequeues ends h small last c q e =
      let (q', e', held, left_there) =
        outcome-ok k p xs (us ++ (operation, d) ∷ vs) t' (poll port p) (
          poll_delivered port k left p xs (us ++ (operation, d) ∷ vs) t t' dequeues ends h small) in
      c
      ∙ sym (completion_of-reported p.operations us vs operation d last)
      ∙ ap (λ f. completion_of (f operation)) (sym left_there)
      ∙ ap (polled_completion operation) (sym e' ∙ e)

  ended_as :
      (b : Bool) (s : Stream) (message operation : ℕ) (a : ℤ × Os win) (d : Dequeued)
      → is_started win a.0 a.1 ≡ true
      → win.completion (sys win a.1 (wait_for message)).1.kernel operation
        ≡ record { status = d.status; size = d.num_bytes; error_code = d.error_code }
      → d.status ≡ b
      → Ended win (error_of s) message operation a ((sys win a.1 (wait_for message)).1, result_of d)
  ended_as true s message operation (r, o) d e c h =
      subst
        (λ x. Ended win (error_of s) message operation (r, o) ((sys win o (wait_for message)).1, x))
        (ap (λ c. ok (c.size)) c ∙ rw h refl) (bytes r o e (ap (λ c. c.status) c ∙ h))
  ended_as false s message operation (r, o) d e c h =
      subst
        (λ x. Ended win (error_of s) message operation (r, o) ((sys win o (wait_for message)).1, x))
        (ap (λ c. err (thrown (c.error_code))) c ∙ rw h refl)
        (failed r o e (ap (λ c. c.status) c ∙ h))

  -- The operation of a `read` or `write` is started, and the completion port answers a `poll` with
  -- `us`, this operation with the answer `d`, and then `vs`, not the operation again, in the rounds
  -- that the ring has room for. Then `poll` puts the message of the operation into the ring in its
  -- turn; and if the fiber, after its wait, reads of the operation what the poll left there, the
  -- `read` or `write` returns the number of bytes in `d`, or throws the error in `d`.
  pub polled_lem :
      (dir : Direction) (s : Stream) (message operation buffer size : ℕ) (o : Os win)
      → (k left : ℕ) (p : Poller port) (xs : List ℕ) (us vs : List (ℕ × Dequeued)) (d : Dequeued)
      → (t t' : port.State)
      → is_started win
          (sys win o (call_of dir s message operation buffer (dword size))).0
          (sys win o (call_of dir s message operation buffer (dword size))).1
        ≡ true
      → Dequeues port (min (2 ^ k - length xs) 10) p.kernel (us ++ (operation, d) ∷ vs) left t
      → Ends port left t (some t')
      → Holds k p.ring xs
      → p.ring.head + 10 < 2 ^ 63
      → is_in operation (map (λ c. c.0) vs) ≡ false
      → (p.operations operation).message ≡ message
      → ReadsPolled p
          (sys win
            (sys win o (call_of dir s message operation buffer (dword size))).1
            (wait_for message)).1
          operation
      → (q : Poller port) × (poll port p ≡ ok q)
        × Holds k q.ring
            (xs ++ (messages_of p.operations us ++ message ∷ messages_of p.operations vs))
        × (perform win dir s message operation buffer size o ≡ (
          (sys win
              (sys win o (call_of dir s message operation buffer (dword size))).1
              (wait_for message)).1,
          result_of d,
        ))
  polled_lem dir s message operation buffer size o k left p xs us vs d t t' go dequeues ends h small
        last own reads_polled =
      let (q, e, held, left_there) =
        outcome-ok k p xs (us ++ (operation, d) ∷ vs) t' (poll port p) (
          poll_delivered port k left p xs (us ++ (operation, d) ∷ vs) t t' dequeues ends h small) in
      (
        q,
        e,
        subst (λ ms. Holds k q.ring (xs ++ ms))
            (messages_of-append p.operations us ((operation, d) ∷ vs)
              ∙ ap (λ m. messages_of p.operations us ++ m ∷ messages_of p.operations vs) own)
            held,
        stream_lem win dir s message operation buffer size o _ (
            ended_as d.status s message operation
              (sys win o (call_of dir s message operation buffer (dword size))) d go
              (reads_polled q e
                ∙ ap (λ f. completion_of (f operation)) left_there
                ∙ completion_of-reported p.operations us vs operation d last)
              refl),
      )
