-- ===== src/Sequencing/Lfsr/State.antt =====
-- The shift register never stops at zero: the highest bit of the mask is that of no shifted state.
use Prim.Native.Nat.{bit_xor, digits, differ, bit_xor-bitwise}
use native.Mathlib.Nat.{pow-suc, mod-lt}
use nandfs.Base.{
  ℕ, zero, suc, ◌/◌, ◌%◌, ◌^◌, ◌<◌, ◌≤◌, ◌≡◌, refl, ◌∙◌, inl, inr, arith, ◌==◌, Bool-cases,
}
use nandfs.Sequencing.Lfsr.{lfsr_mask, tact_lfsr, tacts, gen_rand_bit, get_random_num}

abbrev xor_digits : ℕ → ℕ → ℕ → ℕ
xor_digits n a b = digits (λ b. b) differ n a b

differ_lt : (a b : ℕ) → a < 2 → b < 2 → differ a b < 2
differ_lt zero b la lb = lb
differ_lt (suc a) zero la lb = la
differ_lt (suc a) (suc b) la lb = differ_lt a b (omega arith) (omega arith)

differ-zero : (a : ℕ) → differ a 0 ≡ a
differ-zero zero = refl
differ-zero (suc a) = refl

-- A bit above all of the first number stays the highest of the exclusive or.
xor_digits-high :
    (k n a b : ℕ)
    → a ≤ n
    → a < 2 ^ k
    → 2 ^ k ≤ b
    → b < 2 ^ suc k
    → (2 ^ k ≤ xor_digits n a b) × (xor_digits n a b < 2 ^ suc k)
xor_digits-high k zero zero b h la lo hi = (lo, hi)
xor_digits-high k zero (suc a) b h la lo hi = absurd (omega arith)
xor_digits-high k (suc n) zero b h la lo hi = (lo, hi)
xor_digits-high zero (suc n) (suc a) b h la lo hi = absurd (omega arith)
xor_digits-high (suc k) (suc n) (suc a) b h la lo hi =
    let p = pow-suc 2 k in
    let q = pow-suc 2 (suc k) in
    let rest =
      xor_digits-high k n (suc a / 2) (b / 2) (omega arith) (omega (arith, p)) (omega (arith, p))
        (omega (arith, p, q)) in
    omega (arith, p, q, rest.0, rest.1, differ_lt (suc a % 2) (b % 2) (omega arith) (omega arith))

xor_digits-zero : (n a : ℕ) → a ≤ n → xor_digits n a 0 ≡ a
xor_digits-zero zero zero h = refl
xor_digits-zero (suc n) zero h = refl
xor_digits-zero zero (suc a) h = absurd (omega arith)
xor_digits-zero (suc n) (suc a) h =
    omega (arith, xor_digits-zero n (suc a / 2) (omega arith), differ-zero (suc a % 2))

-- The states of the register.
abbrev pub IsState : ℕ → Type 0
IsState s = (1 ≤ s) × (s < 2 ^ 32)

tact_lfsr-IsState : (s : ℕ) → IsState s → IsState (tact_lfsr s)
unfolding tact_lfsr
tact_lfsr-IsState s h = elim (Bool-cases (s % 2 == 0)) [
  | inl e ↦
      let same : bit_xor (s / 2) 0 ≡ s / 2 =
        bit_xor-bitwise (s / 2) 0 ∙ xor_digits-zero (s / 2) (s / 2) (omega arith) in
      rw (e, same) (ground arith)
  | inr e ↦
      let (lo, hi) =
        xor_digits-high 31 (s / 2) (s / 2) lfsr_mask (omega arith) (omega arith) (omega arith)
          (omega arith) in
      rw (e, bit_xor-bitwise (s / 2) lfsr_mask) (omega (arith, lo, hi))
]

tacts-IsState : (i s : ℕ) → IsState s → IsState (tacts i s)
unfolding tacts
tacts-IsState zero s h = h
tacts-IsState (suc i) s h = tacts-IsState i (tact_lfsr s) (tact_lfsr-IsState s h)

pow_pos : (k : ℕ) → 1 ≤ 2 ^ k
pow_pos zero = omega arith
pow_pos (suc k) = omega (arith, pow-suc 2 k, pow_pos k)

-- From a state of 32 bits that is not zero, get_random_num gives a number of the bits asked for and
-- leaves a state of 32 bits that is not zero, the one that gen_rand_bit leaves.
pub get_random_num_lem :
    (bits_num s : ℕ)
    → IsState s
    → ((get_random_num bits_num s).0 < 2 ^ bits_num)
      × IsState ((get_random_num bits_num s).1)
      × ((get_random_num bits_num s).1 ≡ (gen_rand_bit bits_num s).1)
unfolding get_random_num gen_rand_bit
get_random_num_lem bits_num s h = (mod-lt s (pow_pos bits_num), tacts-IsState bits_num s h, refl)
