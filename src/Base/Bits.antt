-- ===== src/Base/Bits.antt =====
-- The bit mask of a power of two is the remainder.
use Prim.Native.Nat.{
  ℕ, zero, suc, ◌+◌, ◌-◌, ◌*◌, ◌/◌, ◌%◌, ◌^◌, ◌≤◌, ◌<◌, min, bit_and, digits, bit_and-bitwise,
}
use mathlib.Core.Path.{◌≡◌, ap, ◌∙◌, ◌≡⟨◌⟩◌, ◌∎}
use native.Mathlib.Omega.{arith}
use native.Mathlib.Nat.{pow-suc, mod-add-div', add-mul-mod_self_right, mod-eq_of_lt, mod-lt}

pub pow_pos : (k : ℕ) → 0 < 2 ^ k
pow_pos zero = omega arith
pow_pos (suc k) = omega (arith, pow-suc 2 k, pow_pos k)

pub mod-double : (a m : ℕ) → 0 < m → a % (2 * m) ≡ a / 2 % m * 2 + a % 2
mod-double a m h =
    a % (2 * m)
    ≡⟨ ap (λ x. x % (2 * m)) split ⟩ (low + a / 2 / m * (2 * m)) % (2 * m)
    ≡⟨ add-mul-mod_self_right low (a / 2 / m) (2 * m) ⟩ low % (2 * m)
    ≡⟨ mod-eq_of_lt {n = low} {m = 2 * m} (omega (arith, mod-lt (a / 2) h)) ⟩ low ∎
  where
    low : ℕ
    low = a / 2 % m * 2 + a % 2

    split : a ≡ low + a / 2 / m * (2 * m)
    split = omega (arith, mod-add-div' (a / 2) m)

-- The digits that `bit_and` stands for, when the right number is a mask.
masked : (fuel k a : ℕ) → a ≤ fuel → digits (λ n. zero) min fuel a (2 ^ k - 1) ≡ a % 2 ^ k
masked zero k zero h = omega (arith, mod-eq_of_lt {n = 0} (pow_pos k))
masked (suc fuel) k zero h = omega (arith, mod-eq_of_lt {n = 0} (pow_pos k))
masked zero k (suc a) h = absurd (omega arith)
masked (suc fuel) zero (suc a) h = omega (arith, masked fuel zero (suc a / 2) (omega arith))
masked (suc fuel) (suc k) (suc a) h =
    ap (λ m. digits (λ n. zero) min fuel (suc a / 2) m * 2 + min (suc a % 2) ((2 ^ suc k - 1) % 2))
      half
    ∙ omega (
      arith,
      masked fuel k (suc a / 2) (omega arith),
      mod-double (suc a) (2 ^ k) (pow_pos k),
      ap (λ m. suc a % m) {x = 2 ^ suc k} {y = 2 * 2 ^ k} (omega (arith, pow-suc 2 k)),
      odd,
    )
  where
    half : (2 ^ suc k - 1) / 2 ≡ 2 ^ k - 1
    half = omega (arith, pow-suc 2 k, pow_pos k)

    odd : (2 ^ suc k - 1) % 2 ≡ 1
    odd = omega (arith, pow-suc 2 k, pow_pos k)

pub bit_and_mask : (k a : ℕ) → bit_and a (2 ^ k - 1) ≡ a % 2 ^ k
bit_and_mask k a = bit_and-bitwise a (2 ^ k - 1) ∙ masked a k a (omega arith)
