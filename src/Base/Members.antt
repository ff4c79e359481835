-- ===== src/Base/Members.antt =====
-- Lists of addresses: membership, removal, and lists with no address twice.
use Prim.Native.Nat.{ℕ, ◌+◌, ◌<◌, ◌≤◌}
use mathlib.Core.Path.{◌≡◌, refl}
use mathlib.Core.Logic.{◌≢◌}
use mathlib.Core.Bool.{Bool, true, false, ◌||◌}
use mathlib.Core.List.{List, [], ◌∷◌, ◌++◌}
use native.Mathlib.Omega.{arith}
use dumbo.Base.Lists.{length}
use dumbo.Base.Tests.{◌==◌, if◌then◌else◌}

abbrev pub is_in : ℕ → List ℕ → Bool
is_in c [] = false
is_in c (x ∷ xs) = x == c || is_in c xs

-- Takes out the first occurrence.
abbrev pub erase : ℕ → List ℕ → List ℕ
erase c [] = []
erase c (x ∷ xs) = if x == c then xs else x ∷ erase c xs

pub is_in-append : (c : ℕ) (xs ys : List ℕ) → is_in c (xs ++ ys) ≡ (is_in c xs || is_in c ys)
is_in-append c [] ys = refl
is_in-append c (x ∷ xs) ys = ground (arith, is_in-append c xs ys)

-- No context stands twice.
abbrev pub Distinct : List ℕ → Type 0
Distinct [] = Unit
Distinct (x ∷ xs) = (is_in x xs ≡ false) × Distinct xs

pub Distinct-snoc :
    (xs : List ℕ) (c : ℕ) → Distinct xs → is_in c xs ≡ false → Distinct (xs ++ c ∷ [])
Distinct-snoc [] c d n = (refl, tt)
Distinct-snoc (x ∷ xs) c d n =
    (ground (arith, is_in-append x xs (c ∷ [])), Distinct-snoc xs c d.1 (ground arith))

pub is_in-prefix : (c : ℕ) (xs ys : List ℕ) → is_in c (xs ++ ys) ≡ false → is_in c xs ≡ false
is_in-prefix c xs ys h = ground (arith, h, is_in-append c xs ys)

pub Distinct-prefix : (xs ys : List ℕ) → Distinct (xs ++ ys) → Distinct xs
Distinct-prefix [] ys d = tt
Distinct-prefix (x ∷ xs) ys d =
    (ground (arith, d.0, is_in-append x xs ys), Distinct-prefix xs ys d.1)

pub is_in-erase_ne : (c e : ℕ) (xs : List ℕ) → c ≢ e → is_in e (erase c xs) ≡ is_in e xs
is_in-erase_ne c e [] h = refl
is_in-erase_ne c e (x ∷ xs) h = ground (arith, is_in-erase_ne c e xs h)

pub is_in-erase : (c : ℕ) (xs : List ℕ) → Distinct xs → is_in c (erase c xs) ≡ false
is_in-erase c [] d = refl
is_in-erase c (x ∷ xs) d = ground (arith, is_in-erase c xs d.1)

pub is_in-erase_le : (c e : ℕ) (xs : List ℕ) → is_in e xs ≡ false → is_in e (erase c xs) ≡ false
is_in-erase_le c e [] h = refl
is_in-erase_le c e (x ∷ xs) h = ground (arith, is_in-erase_le c e xs)

pub Distinct-erase : (c : ℕ) (xs : List ℕ) → Distinct xs → Distinct (erase c xs)
Distinct-erase c [] d = tt
Distinct-erase c (x ∷ xs) d = ground (arith, Distinct-erase c xs d.1, is_in-erase_le c x xs d.0)

pub erase_absent : (c : ℕ) (xs : List ℕ) → is_in c xs ≡ false → erase c xs ≡ xs
erase_absent c [] h = refl
erase_absent c (x ∷ xs) h = ground (arith, erase_absent c xs)

-- How often an address stands in a list.
abbrev pub count : ℕ → List ℕ → ℕ
count a [] = 0
count a (x ∷ xs) = (if x == a then 1 else 0) + count a xs

pub count-append : (c : ℕ) (us vs : List ℕ) → count c (us ++ vs) ≡ count c us + count c vs
count-append c [] vs = omega arith
count-append c (u ∷ us) vs = ground (arith, count-append c us vs)

pub count-erase :
    (a b : ℕ) (xs : List ℕ)
    → is_in a xs ≡ true
    → count b (erase a xs) + (if a == b then 1 else 0) ≡ count b xs
count-erase a b [] h = cc
count-erase a b (x ∷ xs) h = ground (arith, count-erase a b xs)

pub count-is_in : (a : ℕ) (xs : List ℕ) → is_in a xs ≡ true → 0 < count a xs
count-is_in a [] h = cc
count-is_in a (x ∷ xs) h = ground (arith, count-is_in a xs)

pub length-erase : (a : ℕ) (xs : List ℕ) → is_in a xs ≡ true → length (erase a xs) + 1 ≡ length xs
length-erase a [] h = cc
length-erase a (x ∷ xs) h = ground (arith, length-erase a xs)

-- The sum of a measure of the addresses in a list.
abbrev pub weigh : (ℕ → ℕ) → List ℕ → ℕ
weigh measure [] = 0
weigh measure (x ∷ xs) = measure x + weigh measure xs

pub weigh-append :
    (measure : ℕ → ℕ) (xs ys : List ℕ)
    → weigh measure (xs ++ ys) ≡ weigh measure xs + weigh measure ys
weigh-append measure [] ys = omega arith
weigh-append measure (x ∷ xs) ys = omega (arith, weigh-append measure xs ys)

pub weigh_le : (m₁ m₂ : ℕ → ℕ) (xs : List ℕ) → ((x : ℕ) → m₁ x ≤ m₂ x) → weigh m₁ xs ≤ weigh m₂ xs
weigh_le m₁ m₂ [] h = omega arith
weigh_le m₁ m₂ (x ∷ xs) h = omega (arith, h x, weigh_le m₁ m₂ xs h)

-- 1 for one address, 0 for the others.
abbrev pub occurs : ℕ → ℕ → ℕ
occurs a x = if x == a then 1 else 0

pub count-weigh : (a : ℕ) (xs : List ℕ) → count a xs ≡ weigh (occurs a) xs
count-weigh a [] = refl
count-weigh a (x ∷ xs) = omega (arith, count-weigh a xs)
