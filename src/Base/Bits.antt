-- ===== src/Base/Bits.antt =====
-- Bitwise or of fields that do not overlap is addition, at every width. In the models `x & (2^k-1)`
-- is `x % 2 ^ k`, `x >> k` is `x / 2 ^ k`, `x << k` is `x * 2 ^ k`, and `|` is the native `bit_or`.
use Prim.Native.Nat.{
  ℕ, zero, suc, ◌+◌, ◌*◌, ◌/◌, ◌^◌, ◌≤◌, ◌<◌, max, bit_or, digits, bit_or-bitwise,
}
use mathlib.Core.Path.{◌≡◌, ◌∙◌, ap}
use native.Mathlib.Nat.{pow-suc}
use native.Mathlib.Omega.{arith}

abbrev or_digits : ℕ → ℕ → ℕ → ℕ
or_digits n a b = digits (λ b. b) max n a b

high_halved : (b k : ℕ) → b * 2 ^ suc k ≡ 2 * (b * 2 ^ k)
high_halved b k = omega (arith, pow-suc 2 k, ap (λ (t : ℕ). b * t) (pow-suc 2 k))

half_high : (b k : ℕ) → b * 2 ^ suc k / 2 ≡ b * 2 ^ k
half_high b k = omega (arith, high_halved b k)

or_digits-disjoint : (n a b k : ℕ) → a ≤ n → a < 2 ^ k → or_digits n a (b * 2 ^ k) ≡ a + b * 2 ^ k
or_digits-disjoint zero zero b k h lt = omega arith
or_digits-disjoint zero (suc a) b k h lt = absurd (omega arith)
or_digits-disjoint (suc n) zero b k h lt = omega arith
or_digits-disjoint (suc n) (suc a) b zero h lt = absurd (omega arith)
or_digits-disjoint (suc n) (suc a) b (suc k) h lt = omega (
  arith,
  high_halved b k,
  pow-suc 2 k,
  or_digits-disjoint n (suc a / 2) b k (omega arith) (omega (arith, pow-suc 2 k)),
  ap (λ (t : ℕ). or_digits n (suc a / 2) t) (half_high b k),
)

-- The low field below bit `k`, the high field from bit `k` on.
pub bit_or-disjoint : (a b k : ℕ) → a < 2 ^ k → bit_or a (b * 2 ^ k) ≡ a + b * 2 ^ k
bit_or-disjoint a b k lt =
    bit_or-bitwise a (b * 2 ^ k) ∙ or_digits-disjoint a a b k (omega arith) lt
