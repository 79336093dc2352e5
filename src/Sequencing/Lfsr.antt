-- ===== src/Sequencing/Lfsr.antt =====
-- The random bits of NANDFS/src/sequencing/lfsr.c and lfsr.h: a shift register of 32 bits, whose state
-- `lfsr_state` is passed on. `1 << n` is that of 32 bits, for n below 32.
pub mod State
use Prim.Native.Nat.{bit_xor}
use nandfs.Base.{ℕ, zero, suc, ◌+◌, ◌/◌, ◌%◌, ◌^◌, ◌==◌, Bool, true, false, if◌then◌else◌}

abbrev pub lfsr_mask : ℕ
lfsr_mask = 0x80200003

abbrev pub lfsr_state_initial : ℕ
lfsr_state_initial = 0x63478395

unfoldable pub tact_lfsr : ℕ → ℕ
tact_lfsr s = bit_xor (s / 2) (if s % 2 == 0 then 0 else lfsr_mask)

unfoldable pub tacts : ℕ → ℕ → ℕ
tacts zero s = s
tacts (suc i) s = tacts i (tact_lfsr s)

-- The bit, and the state after it.
unfoldable pub gen_rand_bit : ℕ → ℕ → ℕ × ℕ
gen_rand_bit needed_prob s = (if s % 2 ^ needed_prob == 0 then 1 else 0, tacts needed_prob s)

unfoldable pub get_random_num : ℕ → ℕ → ℕ × ℕ
get_random_num bits_num s = (s % 2 ^ bits_num, (gen_rand_bit bits_num s).1)
