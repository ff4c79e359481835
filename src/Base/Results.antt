-- ===== src/Base/Results.antt =====
-- The ways in which a call of the reactor does not return.
use Prim.Native.Nat.{ℕ}
use mathlib.Core.Option.{Option, none, some}

-- `asserted` also stands for undefined behaviour, `blocked` for a fiber that waits for ever; `thrown e` is an exception with the code `e`.
pub data Stop : Type 0 where
  asserted : Stop
  terminated : Stop
  blocked : Stop
  thrown : ℕ → Stop

pub data Result {ℓ} (A : Type ℓ) : Type ℓ where
  ok : A → Result A
  err : Stop → Result A

infixl 5 ◌>>=◌ ◌>>◌
abbrev pub ◌>>=◌ {ℓ κ} : {A : Type ℓ} {B : Type κ} → Result A → (A → Result B) → Result B
ok x >>= next = next x
err stop >>= next = err stop

abbrev pub ◌>>◌ {ℓ} : {B : Type ℓ} → Result (Unit {0}) → Result B → Result B
ok u >> k = k
err stop >> k = err stop

-- A fault of a callee.
abbrev pub checked {ℓ} : {A : Type ℓ} → Option A → Result A
checked none = err asserted
checked (some a) = ok a
