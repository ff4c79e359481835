-- ===== src/Windows/Completions/Report.antt =====
-- What the poller of msvc_io_poller.cpp writes to the operations that it dequeues.
use dumbo.Base.{
  ℕ, ◌≡◌, refl, ap, ◌∙◌, inl, inr, List, [], ◌∷◌, ◌++◌, map, false, ◌==◌, arith, Bool-cases,
  ==_refl,
}
use dumbo.Base.Members.{is_in}
use dumbo.Windows.{Overlapped}
use dumbo.Windows.Completions.{Dequeued, report, write_at}

-- The operations after those dequeued were reported, and the messages of those dequeued.
abbrev pub reported : (ℕ → Overlapped) → List (ℕ × Dequeued) → ℕ → Overlapped
reported operations [] = operations
reported operations ((a, d) ∷ cs) = reported (write_at a (report d) operations) cs

abbrev pub messages_of : (ℕ → Overlapped) → List (ℕ × Dequeued) → List ℕ
messages_of operations [] = []
messages_of operations ((a, d) ∷ cs) = (operations a).message ∷ messages_of operations cs

pub message-write_at :
    (a : ℕ) (d : Dequeued) (operations : ℕ → Overlapped) (b : ℕ)
    → (write_at a (report d) operations b).message ≡ (operations b).message
unfolding write_at report
message-write_at a d operations b = elim (Bool-cases (b == a)) [
  | inl e ↦ rw e refl
  | inr e ↦ rw e refl
]

pub messages_of-write_at :
    (a : ℕ) (d : Dequeued) (operations : ℕ → Overlapped) (cs : List (ℕ × Dequeued))
    → messages_of (write_at a (report d) operations) cs ≡ messages_of operations cs
messages_of-write_at a d operations [] = refl
messages_of-write_at a d operations ((b, e) ∷ cs) =
    ap (λ m. m ∷ messages_of (write_at a (report d) operations) cs)
      (message-write_at a d operations b)
    ∙ ap (◌∷◌ (operations b).message) (messages_of-write_at a d operations cs)

reported_absent :
    (operations : ℕ → Overlapped) (cs : List (ℕ × Dequeued)) (a : ℕ)
    → is_in a (map (λ c. c.0) cs) ≡ false
    → reported operations cs a ≡ operations a
unfolding write_at
reported_absent operations [] a h = refl
reported_absent operations ((b, d) ∷ cs) a h =
    reported_absent (write_at b (report d) operations) cs a (ground (arith, h)) ∙ ground (arith, h)

reported-append :
    (operations : ℕ → Overlapped) (us vs : List (ℕ × Dequeued))
    → reported operations (us ++ vs) ≡ reported (reported operations us) vs
reported-append operations [] vs = refl
reported-append operations ((a, d) ∷ us) vs =
    reported-append (write_at a (report d) operations) us vs

-- After the operations of a list are reported, one of them that does not stand further behind in
-- the list holds the status, the size, the key and the error that its completion carried.
pub reported_lem :
    (operations : ℕ → Overlapped) (us vs : List (ℕ × Dequeued)) (a : ℕ) (d : Dequeued)
    → is_in a (map (λ c. c.0) vs) ≡ false
    → ((reported operations (us ++ (a, d) ∷ vs) a).status ≡ d.status)
      × ((reported operations (us ++ (a, d) ∷ vs) a).size ≡ d.num_bytes)
      × ((reported operations (us ++ (a, d) ∷ vs) a).completion_key ≡ d.completion_key)
      × ((reported operations (us ++ (a, d) ∷ vs) a).error_code ≡ d.error_code)
unfolding report write_at
reported_lem operations us vs a d h =
    let e : reported operations (us ++ (a, d) ∷ vs) a ≡ report d (reported operations us a) =
      ap (λ o. o a) (reported-append operations us ((a, d) ∷ vs))
      ∙ reported_absent (write_at a (report d) (reported operations us)) vs a h
      ∙ rw (==_refl a) in
    (
      ap (λ o. o.status) e,
      ap (λ o. o.size) e,
      ap (λ o. o.completion_key) e,
      ap (λ o. o.error_code) e,
    )
