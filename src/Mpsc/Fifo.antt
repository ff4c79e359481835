-- ===== src/Mpsc/Fifo.antt =====
-- What mpsc_queue.hpp relies on of the disruptor, and what its calls do then.
use dumbo.Base.{
  ℕ, zero, suc, ◌+◌, ◌≤◌, ◌<◌, ◌≡◌, refl, ap, ◌∙◌, ◌⊎◌, inl, inr, List, [], ◌∷◌, ◌++◌, some, arith,
  ◌==◌, length, get_elem?, take, drop, Bool-cases, ==_iff,
}
use dumbo.Mpsc.{Disruptor, send, for_events, get, get_all}

-- `contents` are the events that are published and not yet committed, oldest first. Published
-- events can be seen late: `has_events` counts those of the batch that the consumer is in.
pub record Fifo {A : Type 0} (d : Disruptor A) : Type 0 where
  pub contents : d.State → List A
  pub send_contents :
      (s : d.State) (x : A)
      → let (idx, s₁) = d.claim s 1 in
        contents (d.publish (d.write s₁ idx x) idx 1) ≡ contents s ++ x ∷ []
  pub has_events_bound : (s : d.State) → (d.has_events s).0 ≤ length (contents s)
  pub has_events_zero : (s : d.State) → (d.has_events s).0 ≡ 0 → contents s ≡ []
  pub has_events_contents : (s : d.State) → contents (d.has_events s).1 ≡ contents s
  pub get_event_contents :
      (s : d.State) (c : ℕ) (x : A) → get_elem? (contents s) c ≡ some x → d.get_event s c ≡ x
  pub commit_contents : (s : d.State) (n : ℕ) → contents (d.commit s n) ≡ drop n (contents s)

-- The calls of the consumer's function, in order.
abbrev pub visit : {A W : Type 0} → (A → W → W) → List A → W → W
visit fn [] w = w
visit fn (x ∷ xs) w = visit fn xs (fn x w)

get_elem?-drop {ℓ} :
    {A : Type ℓ} (c : ℕ) (xs : List A)
    → c < length xs
    → (x : A) × (get_elem? xs c ≡ some x) × (drop c xs ≡ x ∷ drop (suc c) xs)
get_elem?-drop c [] h = elim h [ ]
get_elem?-drop zero (x ∷ xs) h = (x, refl, refl)
get_elem?-drop (suc c) (x ∷ xs) h = get_elem?-drop c xs (omega arith)

module _ {A : Type 0} (d : Disruptor A) (f : Fifo d) where
  open f use {contents}

  for_events_lem :
      {W : Type 0} (fn : A → W → W) (s : d.State) (c left : ℕ) (w : W)
      → c + left ≤ length (contents s)
      → for_events d fn s c left w ≡ visit fn (take left (drop c (contents s))) w
  unfolding for_events
  for_events_lem fn s c zero w h = refl
  for_events_lem fn s c (suc left) w h =
      let (x, e, tail) = get_elem?-drop c (contents s) (omega arith) in
      rw (f.get_event_contents s c x e, tail)
        (for_events_lem fn s (c + 1) left (fn x w) (omega arith)
          ∙ ap (λ (k : ℕ). visit fn (take left (drop k (contents s))) (fn x w)) {y = suc c}
              (omega arith))

  pub send_lem : (s : d.State) (x : A) → contents (send d s x).1 ≡ contents s ++ x ∷ []
  unfolding send
  send_lem s x = f.send_contents s x

  -- What a call that took `n` events did.
  pub record Took {W : Type 0} (fn : A → W → W) (s : d.State) (w : W) (r : ℕ × d.State × W)
      : Type 0 where
    pub count : r.0 ≤ length (contents s)
    pub rest : contents r.1 ≡ drop r.0 (contents s)
    pub visited : r.2 ≡ visit fn (take r.0 (contents s)) w

  took_lem :
      {W : Type 0} (fn : A → W → W) (s : d.State) (w : W) (n : ℕ)
      → n ≤ (d.has_events s).0
      → let s₁ = (d.has_events s).1 in Took fn s w (n, d.commit s₁ n, for_events d fn s₁ 0 n w)
  took_lem fn s w n h =
      let s₁ = (d.has_events s).1 in
      let same = f.has_events_contents s in
      record {
        count = omega (arith, f.has_events_bound s);
        rest = f.commit_contents s₁ n ∙ ap (drop n) same;
        visited =
            for_events_lem fn s₁ 0 n w (omega (arith, f.has_events_bound s, ap length same))
            ∙ ap (λ xs. visit fn (take n xs) w) same;
      }

  Took-none :
      {W : Type 0} (fn : A → W → W) (s : d.State) (w : W) → Took fn s w (0, (d.has_events s).1, w)
  Took-none fn s w = record { count = omega arith; rest = f.has_events_contents s; visited = refl }

  -- Over a disruptor that is first in, first out, `get` hands the oldest events, at most as many as
  -- were asked for, to `fn` in order, and takes exactly those away. It takes none only if none was
  -- asked for or none is there.
  pub get_lem :
      {W : Type 0} (n : ℕ) (fn : A → W → W) (s : d.State) (w : W)
      → let r = get d n fn s w in
        Took fn s w r × (r.0 ≤ n) × (r.0 ≡ 0 → (n ≡ 0) ⊎ (contents s ≡ []))
  unfolding get
  get_lem n fn s w = elim (Bool-cases ((d.has_events s).0 == 0)) [
    | inl empty ↦
        rw empty
          (Took-none fn s w, omega arith, λ e. inr (f.has_events_zero s ((==_iff _ 0).0 empty)))
    | inr some_there ↦
        rw some_there (took_lem fn s w _ (omega arith), omega arith, λ e. inl (ground arith))
  ]

  -- `get_all` does so with every event that it sees, and it sees one if there is one.
  pub get_all_lem :
      {W : Type 0} (fn : A → W → W) (s : d.State) (w : W)
      → let r = get_all d fn s w in Took fn s w r × (r.0 ≡ 0 → contents s ≡ [])
  unfolding get_all
  get_all_lem fn s w = elim (Bool-cases ((d.has_events s).0 == 0)) [
    | inl empty ↦ rw empty (Took-none fn s w, λ e. f.has_events_zero s ((==_iff _ 0).0 empty))
    | inr some_there ↦ rw some_there (took_lem fn s w _ (omega arith), λ e. f.has_events_zero s e)
  ]
