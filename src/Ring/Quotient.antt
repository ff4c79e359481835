-- ===== src/Ring/Quotient.antt =====
-- Rings of ring_buffer.hpp up to the values that `pop_back` takes out of them.
use std.Equiv.{IsEquiv, iso_to_equiv}
use mathlib.Core.List.{append-nil, append_assoc}
use mathlib.Core.Logic.{∥∥₁_elim}
use mathlib.Core.HLevel.{Σ_prop_path, prop→set}
use mathlib.Core.Quot
use mathlib.Core.Quot.{Quot, Quot-set}
use native.Mathlib.Bridge.{le_prop}
use dumbo.Base.{
  ℕ, zero, suc, ◌+◌, ◌^◌, ◌≤◌, ◌<◌, ◌≡◌, refl, ap, ◌∙◌, List, [], ◌∷◌, ◌++◌, Option, none, some,
  arith, length, length-append,
}
use dumbo.Base.Faults.{◌>>=◌}
use dumbo.Ring.{Ring, new, pop_back, push_front}
use dumbo.Ring.Refine.{
  Holds, new-Holds, push_front_room, pop_back_value, pop_back_empty, head-push_front,
}

pop_next : (Ring ℕ → List ℕ) → Option (ℕ × Ring ℕ) → List ℕ
pop_next rest none = []
pop_next rest (some (x, r)) = x ∷ rest r

-- The values that `pop_back` takes out, in order, so many at most.
pub pop_all : ℕ → Ring ℕ → List ℕ
unfolding pop_next
pop_all zero r = []
pop_all (suc n) r = pop_next (pop_all n) (pop_back r)

pop_all_lem : (k n : ℕ) (r : Ring ℕ) (xs : List ℕ) → Holds k r xs → length xs ≤ n → pop_all n r ≡ xs
unfolding pop_all
pop_all_lem k zero r [] h b = refl
pop_all_lem k zero r (x ∷ xs) h b = absurd (omega arith)
pop_all_lem k (suc n) r [] h b = ap (pop_next (pop_all n)) (pop_back_empty k r h)
pop_all_lem k (suc n) r (x ∷ xs) h b =
    let (r', e, h') = pop_back_value k r x xs h in
    ap (pop_next (pop_all n)) e ∙ ap (◌∷◌ x) (pop_all_lem k n r' xs h' (omega arith))

-- Each of the values is pushed by `push_front`.
pub push_all : Ring ℕ → List ℕ → Option (Ring ℕ)
push_all r [] = some r
push_all r (x ∷ xs) = push_front r x >>= λ r'. push_all r' xs

push_all_lem :
    (k : ℕ) (r : Ring ℕ) (ys xs : List ℕ)
    → Holds k r ys
    → length ys + length xs ≤ 2 ^ k
    → r.head + length xs < 2 ^ 63
    → (r' : Ring ℕ) × (push_all r xs ≡ some r') × Holds k r' (ys ++ xs)
unfolding push_all
push_all_lem k r ys [] h room small = (r, refl, rw (append-nil ys) h)
push_all_lem k r ys (x ∷ xs) h room small =
    let (r₁, e₁, h₁) = push_front_room k r x ys h (omega arith) (omega arith) in
    let (r₂, e₂, h₂) =
      push_all_lem k r₁ (ys ++ x ∷ []) xs h₁ (omega (arith, length-append ys (x ∷ [])))
        (omega (arith, head-push_front r x e₁)) in
    (r₂, rw (e₁, e₂), rw (append_assoc ys (x ∷ []) xs) at h₂)

module _ (k : ℕ) where
  -- The rings that hold some values.
  abbrev pub ValidRing : Type 0
  ValidRing = (r : Ring ℕ) × ∥ ((xs : List ℕ) × Holds k r xs) ∥₁

  abbrev pub values : ValidRing → List ℕ
  values u = pop_all (2 ^ k) u.0

  abbrev pub SameValues : ValidRing → ValidRing → Type 0
  SameValues u v = values u ≡ values v

  -- A ring with no regard to where in the buffer its values stand, and what the other cells hold.
  abbrev pub RingClass : Type 0
  RingClass = Quot SameValues

  abbrev pub Bounded : Type 0
  Bounded = (xs : List ℕ) × (length xs ≤ 2 ^ k)

  Bounded-ext : (a b : Bounded) → a.0 ≡ b.0 → a ≡ b
  Bounded-ext a b h = Σ_prop_path (λ xs. le_prop) h

  fits-set : (xs : List ℕ) → IsSet (length xs ≤ 2 ^ k)
  fits-set xs = prop→set le_prop

  Bounded-set : IsSet Bounded
  Bounded-set = hlevel fits-set

  values_bounded : (u : ValidRing) → length (values u) ≤ 2 ^ k
  values_bounded (r, t) =
      ∥∥₁_elim t le_prop
        (λ p. omega (arith, p.1.fits, ap length (pop_all_lem k (2 ^ k) r p.0 p.1 p.1.fits)))

  pub contents : RingClass → Bounded
  contents =
      Quot.lift Bounded-set (λ u. (values u, values_bounded u))
        (λ u v h. Bounded-ext (values u, values_bounded u) (values v, values_bounded v) h)

  -- The ring into which the values are pushed, after its construction.
  filled : (b : Bounded) → 2 ^ k < 2 ^ 31 → (r : Ring ℕ) × Holds k r b.0
  unfolding new
  filled (xs, room) small =
      let (r, e, h) =
        push_all_lem k (new 0 (2 ^ k)) [] xs (new-Holds 0 k small) (omega arith) (omega arith) in
      (r, h)

  class_of : 2 ^ k < 2 ^ 31 → Bounded → RingClass
  class_of small b = let (r, h) = filled b small in Quot.mk (r, ∣ (b.0, h) ∣₁)

  -- For 2 ^ k cells, fewer than 2 ^ 31: the rings that hold some values, two of them being the same
  -- if `pop_back` takes the same values out of them, are exactly the lists of at most 2 ^ k values.
  -- The list of a ring is what `pop_back` takes out, and each list comes from a ring.
  pub contents-IsEquiv : 2 ^ k < 2 ^ 31 → IsEquiv contents
  unfolding contents class_of
  contents-IsEquiv small =
      (iso_to_equiv (record {
        fun = contents;
        inv = class_of small;
        rinv = λ b.
            Bounded-ext (contents (class_of small b)) b
              (pop_all_lem k (2 ^ k) (filled b small).0 b.0 (filled b small).1 b.1);
        linv =
            Quot.ind (λ q. Quot-set _ _)
              (λ u. Quot.sound (
                pop_all_lem k (2 ^ k) (filled (values u, values_bounded u) small).0 (values u)
                  (filled (values u, values_bounded u) small).1 (values_bounded u)));
      })).1
