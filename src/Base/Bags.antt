-- ===== src/Base/Bags.antt =====
-- Lists of addresses without their order, and the interleavings of two lists.
use Prim.Native.Nat.{ℕ, ◌+◌}
use mathlib.Core.Path.{◌≡◌}
use mathlib.Core.List.{List, [], ◌∷◌, ◌++◌}
use mathlib.Core.Quot
use mathlib.Core.Quot.{Quot}
use native.Mathlib.Omega.{arith}
use dumbo.Base.Members.{count, count-append}

-- Each address stands as often in both lists.
abbrev pub SameCount : List ℕ → List ℕ → Type 0
SameCount xs ys = (a : ℕ) → count a xs ≡ count a ys

abbrev pub Bag : Type 0
Bag = Quot SameCount

abbrev pub bag : List ℕ → Bag
bag xs = Quot.mk xs

pub bag-append :
    (xs ys zs : List ℕ) → SameCount ys zs → ◌≡◌ {A = Bag} (bag (xs ++ ys)) (bag (xs ++ zs))
bag-append xs ys zs h =
    Quot.sound (λ a. omega (arith, count-append a xs ys, count-append a xs zs, h a))

-- `ws` has the values of `us` and those of `vs`, each in their order.
pub data Interleaves {ℓ} {A : Type ℓ} : List A → List A → List A → Type ℓ where
  nothing : Interleaves [] [] []
  left : {us vs ws : List A} (x : A) → Interleaves us vs ws → Interleaves (x ∷ us) vs (x ∷ ws)
  right : {us vs ws : List A} (x : A) → Interleaves us vs ws → Interleaves us (x ∷ vs) (x ∷ ws)

pub count-Interleaves :
    (a : ℕ) (us vs ws : List ℕ) → Interleaves us vs ws → count a ws ≡ count a us + count a vs
count-Interleaves a us vs ws nothing = omega arith
count-Interleaves a us vs ws (left {us = us₁} {vs = vs₁} {ws = ws₁} x i) =
    omega (arith, count-Interleaves a us₁ vs₁ ws₁ i)
count-Interleaves a us vs ws (right {us = us₁} {vs = vs₁} {ws = ws₁} x i) =
    omega (arith, count-Interleaves a us₁ vs₁ ws₁ i)

-- Two interleavings of the same lists differ only in the order.
pub SameCount-Interleaves :
    (us vs ws zs : List ℕ) → Interleaves us vs ws → Interleaves us vs zs → SameCount ws zs
SameCount-Interleaves us vs ws zs i j a =
    omega (arith, count-Interleaves a us vs ws i, count-Interleaves a us vs zs j)
