-- ===== src/Base/Shifts.antt =====
-- `bit_or` of numbers that have no binary digit in common is the sum.
use Prim.Native.Nat.{
  ℕ, zero, suc, ◌+◌, ◌*◌, ◌/◌, ◌%◌, ◌^◌, ◌≤◌, ◌<◌, max, bit_or, digits, bit_or-bitwise,
}
use mathlib.Core.Path.{◌≡◌, ap, ◌∙◌}
use native.Mathlib.Omega.{arith}
use native.Mathlib.Nat.{pow-suc}
use dumbo.Base.Bits.{pow_pos, mod-double}

-- The left number has its digits above the lowest `k`, the right one below.
high_low :
    (fuel k a b : ℕ) → a ≤ fuel → a % 2 ^ k ≡ 0 → b < 2 ^ k → digits (λ n. n) max fuel a b ≡ a + b
high_low zero k zero b h q p = omega arith
high_low (suc fuel) k zero b h q p = omega arith
high_low zero k (suc a) b h q p = absurd (omega arith)
high_low (suc fuel) zero (suc a) b h q p =
    omega (arith, high_low fuel zero (suc a / 2) (b / 2) (omega arith) (omega arith) (omega arith))
high_low (suc fuel) (suc k) (suc a) b h q p = omega (
  arith,
  high_low fuel k (suc a / 2) (b / 2) (omega arith) (omega (arith, split))
      (omega (arith, pow-suc 2 k)),
  split,
)
  where
    split : suc a / 2 % 2 ^ k * 2 + suc a % 2 ≡ 0
    split = omega (
      arith,
      mod-double (suc a) (2 ^ k) (pow_pos k),
      ap (λ m. suc a % m) {x = 2 ^ suc k} {y = 2 * 2 ^ k} (omega (arith, pow-suc 2 k)),
      q,
    )

low_high :
    (fuel k a b : ℕ) → a ≤ fuel → b % 2 ^ k ≡ 0 → a < 2 ^ k → digits (λ n. n) max fuel a b ≡ a + b
low_high zero k zero b h q p = omega arith
low_high (suc fuel) k zero b h q p = omega arith
low_high zero k (suc a) b h q p = absurd (omega arith)
low_high (suc fuel) zero (suc a) b h q p = absurd (omega arith)
low_high (suc fuel) (suc k) (suc a) b h q p = omega (
  arith,
  low_high fuel k (suc a / 2) (b / 2) (omega arith) (omega (arith, split))
      (omega (arith, pow-suc 2 k)),
  split,
)
  where
    split : b / 2 % 2 ^ k * 2 + b % 2 ≡ 0
    split = omega (
      arith,
      mod-double b (2 ^ k) (pow_pos k),
      ap (λ m. b % m) {x = 2 ^ suc k} {y = 2 * 2 ^ k} (omega (arith, pow-suc 2 k)),
      q,
    )

pub bit_or-high_low : (k a b : ℕ) → a % 2 ^ k ≡ 0 → b < 2 ^ k → bit_or a b ≡ a + b
bit_or-high_low k a b q p = bit_or-bitwise a b ∙ high_low a k a b (omega arith) q p

pub bit_or-low_high : (k a b : ℕ) → b % 2 ^ k ≡ 0 → a < 2 ^ k → bit_or a b ≡ a + b
bit_or-low_high k a b q p = bit_or-bitwise a b ∙ low_high a k a b (omega arith) q p
