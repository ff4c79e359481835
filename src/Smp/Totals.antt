-- ===== src/Smp/Totals.antt =====
-- The sum of a measure of the messages in all inboxes of smp_base.hpp, and how the calls change it.
use dumbo.Base.{
  ℕ, zero, suc, ◌+◌, ◌≤◌, ◌≡◌, refl, sym, ap, ◌∙◌, List, [], ◌∷◌, some, Bool, arith, inl, inr,
  Bool-cases, Option-cases, get_elem?, set, take, drop, take-append-drop, ℤ, pos,
}
use dumbo.Base.Faults.{nothing_done, done_same}
use dumbo.Base.Members.{weigh, weigh-append, weigh_le}
use dumbo.Mpsc
use dumbo.Mpsc.{Disruptor}
use dumbo.Mpsc.Fifo.{Fifo, send_lem, get_all_lem, visit}
use dumbo.Smp.Routing.{queued}
use dumbo.Smp.{Smp, valid_cpu, index, submit_to, receive_all}

module _ (d : Disruptor ℕ) (f : Fifo d) where
  open f use {contents}

  abbrev pub total : (ℕ → ℕ) → List d.State → ℕ
  total μ [] = 0
  total μ (q ∷ qs) = weigh μ (contents q) + total μ qs

  pub total_le : (μ ν : ℕ → ℕ) (qs : List d.State) → ((x : ℕ) → μ x ≤ ν x) → total μ qs ≤ total ν qs
  total_le μ ν [] h = omega arith
  total_le μ ν (q ∷ qs) h = omega (arith, weigh_le μ ν (contents q) h, total_le μ ν qs h)

  total-set :
      (μ : ℕ → ℕ) (i : ℕ) (qs : List d.State) (q q' : d.State)
      → get_elem? qs i ≡ some q
      → total μ (set qs i q') + weigh μ (contents q) ≡ total μ qs + weigh μ (contents q')
  total-set μ i [] q q' e = cc
  total-set μ zero (p ∷ qs) q q' e = omega (arith, ap (λ o. weigh μ (contents o)) (done_same p q e))
  total-set μ (suc i) (p ∷ qs) q q' e = omega (arith, total-set μ i qs q q' e)

  submit_to-some :
      (s s' : Smp d) (cpu : ℤ) (m : ℕ) (b : Bool)
      → submit_to d s cpu m ≡ some (b, s')
      → (q : d.State) × (get_elem? s.inboxes (index d cpu) ≡ some q)
        × (set s.inboxes (index d cpu) (Mpsc.send d q m).1 ≡ s'.inboxes)
  unfolding submit_to
  submit_to-some s s' cpu m b e = elim (Bool-cases (valid_cpu d s cpu)) [
    | inl v ↦ elim (Option-cases (get_elem? s.inboxes (index d cpu))) [
      | inl n ↦ absurd (nothing_done (b, s') (rw (v, n) at e))
      | inr (q, h) ↦ (q, h, ap (λ r. r.1.inboxes) (done_same _ _ (rw (v, h) at e)))
    ]
    | inr v ↦ absurd (nothing_done (b, s') (rw v at e))
  ]

  -- A submission that does not fail adds one message.
  pub total-submit_to :
      (s s' : Smp d) (cpu : ℤ) (m : ℕ) (b : Bool)
      → submit_to d s cpu m ≡ some (b, s')
      → (μ : ℕ → ℕ) → total μ s'.inboxes ≡ total μ s.inboxes + μ m
  total-submit_to s s' cpu m b e μ =
      let (q, h, same) = submit_to-some s s' cpu m b e in
      omega (
        arith,
        total-set μ (index d cpu) s.inboxes q (Mpsc.send d q m).1 h,
        ap (total μ) same,
        ap (weigh μ) (send_lem d f q m),
        weigh-append μ (contents q) (m ∷ []),
      )

  -- The consumer of `receive_all` visits exactly the messages that leave the inboxes, the first `k`
  -- of the cpu.
  pub total-receive_all :
      {W : Type 0} (s s' : Smp d) (c : ℕ) (fn : ℕ → W → W) (w w' : W) (k : ℕ)
      → receive_all d s (pos c) fn w ≡ some (k, s', w')
      → (w' ≡ visit fn (take k (queued d f s c)) w)
        × ((μ : ℕ → ℕ) → total μ s'.inboxes + weigh μ (take k (queued d f s c)) ≡ total μ s.inboxes)
  unfolding receive_all index
  total-receive_all s s' c fn w w' k e = elim (Bool-cases (valid_cpu d s (pos c))) [
    | inl v ↦ elim (Option-cases (get_elem? s.inboxes c)) [
      | inl n ↦ absurd (nothing_done (k, s', w') (rw (v, n) at e))
      | inr (q, h) ↦
          let same = done_same _ _ (rw (v, h) at e) in
          let (took, none_left) = get_all_lem d f fn q w in
          let r = Mpsc.get_all d fn q w in
          let visited : take r.0 (contents q) ≡ take k (queued d f s c) =
            ap (λ n. take n (contents q)) (ap (λ t. t.0) same) ∙ rw h refl in
          (
            ap (λ t. t.2) (sym same) ∙ took.visited ∙ ap (λ xs. visit fn xs w) visited,
            λ μ. omega (
              arith,
              total-set μ c s.inboxes q r.1 h,
              ap (λ t. total μ t.1.inboxes) same,
              ap (weigh μ) took.rest,
              weigh-append μ (take r.0 (contents q)) (drop r.0 (contents q)),
              ap (weigh μ) (take-append-drop r.0 (contents q)),
              ap (weigh μ) visited,
            ),
          )
    ]
    | inr v ↦ absurd (nothing_done (k, s', w') (rw v at e))
  ]
