-- ===== src/Base/Faults.antt =====
-- Steps that can fault: `none` is a failed BOOST_ASSERT or undefined behaviour.
use mathlib.Core.Path.{◌≡◌, ap}
use mathlib.Core.Logic.{◌≢◌}
use mathlib.Core.Bool.{Bool, true, false}
use mathlib.Core.Option.{Option, none, some}
use native.Mathlib.Omega.{arith}

infixl 5 ◌>>=◌ ◌>>◌
abbrev pub ◌>>=◌ {ℓ κ} : {A : Type ℓ} {B : Type κ} → Option A → (A → Option B) → Option B
none >>= f = none
some a >>= f = f a

abbrev pub ◌>>◌ {ℓ} : {B : Type ℓ} → Option (Unit {0}) → Option B → Option B
m >> k = m >>= λ _. k

-- BOOST_ASSERT: `none` is the failed assertion.
abbrev pub assert : Bool → Option (Unit {0})
assert true = some tt
assert false = none

pub nothing_done {ℓ} : {A : Type ℓ} (a : A) → none ≢ some a
nothing_done a e = ground (arith, e)

pub done_same {ℓ} : {A : Type ℓ} (a b : A) → some a ≡ some b → a ≡ b
done_same a b e = ap (λ o. elim o [ none ↦ a | some c ↦ c ]) e
