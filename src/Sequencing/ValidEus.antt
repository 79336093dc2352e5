-- ===== src/Sequencing/ValidEus.antt =====
-- The queue of erase units known to be good, of NANDFS/src/sequencing/sequencingUtils.c:
-- seq_is_eu_known_valid, seq_set_eu_known_valid and seq_check_eu_status. nandCheckEuStatus of the
-- chip's driver is the parameter `nand_check_eu_status`; the queue has SEQ_VALID_EU_Q_SIZE entries.
use nandfs.Base.{
  ℕ, zero, suc, ◌-◌, ◌%◌, ◌^◌, ◌<◌, ◌≡◌, refl, sym, ap, ◌∙◌, inl, inr, Bool, true, false, ◌||◌,
  arith, leb, ◌==◌, if◌then◌else◌, Bool-cases, update, ==_iff,
}

abbrev pub seq_valid_eu_q_size : ℕ
seq_valid_eu_q_size = 32

-- CALC_EU_START, with the mask 0xffffffe0 of a chip with 32 pages in an erase unit.
unfoldable pub calc_eu_start : ℕ → ℕ
calc_eu_start phy_addr = phy_addr - phy_addr % 2 ^ 5

-- The search over the first `n` entries.
unfoldable pub is_among : ℕ → (ℕ → ℕ) → ℕ → Bool
is_among zero eus eu_addr = false
is_among (suc n) eus eu_addr = is_among n eus eu_addr || (eus n == eu_addr)

unfoldable pub seq_is_eu_known_valid : (ℕ → ℕ) → ℕ → Bool
seq_is_eu_known_valid eus eu_addr = is_among seq_valid_eu_q_size eus eu_addr

-- The rounds of the loop from the last entry, `i`, down to the second.
unfoldable pub shift : ℕ → (ℕ → ℕ) → ℕ → ℕ
shift zero eus = eus
shift (suc i) eus = shift i (update eus (suc i) (eus i))

unfoldable pub seq_set_eu_known_valid : (ℕ → ℕ) → ℕ → ℕ → ℕ
seq_set_eu_known_valid eus eu_addr = update (shift (seq_valid_eu_q_size - 1) eus) 0 eu_addr

unfoldable pub seq_check_eu_status : (ℕ → Bool) → (ℕ → ℕ) → ℕ → Bool × (ℕ → ℕ)
seq_check_eu_status nand_check_eu_status eus eu_addr =
    let eu_start = calc_eu_start eu_addr in
    if seq_is_eu_known_valid eus eu_start
    then (true, eus)
    else if nand_check_eu_status eu_start
    then (true, seq_set_eu_known_valid eus eu_start)
    else (false, eus)

shift_lem :
    (n : ℕ) (eus : ℕ → ℕ) (i : ℕ)
    → shift n eus i ≡ (if i == 0 then eus 0 else if leb i n then eus (i - 1) else eus i)
unfolding shift update
shift_lem zero eus i = ground arith
shift_lem (suc n) eus zero = shift_lem n (update eus (suc n) (eus n)) zero ∙ ground arith
shift_lem (suc n) eus (suc j) =
    shift_lem n (update eus (suc n) (eus n)) (suc j) ∙ elim (Bool-cases (j == n)) [
      | inl e ↦ let same : j ≡ n = (==_iff j n).0 e in rw same (ground arith)
      | inr e ↦ ground arith
    ]

is_among_ext :
    (n : ℕ) (f g : ℕ → ℕ) (a : ℕ) → ((i : ℕ) → i < n → f i ≡ g i) → is_among n f a ≡ is_among n g a
unfolding is_among
is_among_ext zero f g a h = refl
is_among_ext (suc n) f g a h =
    rw (h n (omega arith), is_among_ext n f g a (λ i l. h i (omega arith))) refl

is_among_first :
    (n : ℕ) (f : ℕ → ℕ) (a : ℕ)
    → is_among (suc n) f a ≡ ((f 0 == a) || is_among n (λ i. f (suc i)) a)
unfolding is_among
is_among_first zero f a = ground arith
is_among_first (suc n) f a = ground (arith, is_among_first n f a)

set_entry :
    (eus : ℕ → ℕ) (eu_addr i : ℕ) → i < 31 → seq_set_eu_known_valid eus eu_addr (suc i) ≡ eus i
unfolding seq_set_eu_known_valid update
set_entry eus eu_addr i l = ground (arith, shift_lem 31 eus (suc i))

-- After a unit is entered, the known ones are that unit and those of all entries but the last.
pub set_eu_known_valid_lem :
    (eus : ℕ → ℕ) (eu_addr other : ℕ)
    → seq_is_eu_known_valid (seq_set_eu_known_valid eus eu_addr) other
      ≡ ((eu_addr == other) || is_among (seq_valid_eu_q_size - 1) eus other)
unfolding seq_is_eu_known_valid seq_set_eu_known_valid update
set_eu_known_valid_lem eus eu_addr other =
    is_among_first 31 (seq_set_eu_known_valid eus eu_addr) other
    ∙ rw
        (is_among_ext 31 (λ i. seq_set_eu_known_valid eus eu_addr (suc i)) eus other
          (set_entry eus eu_addr))
        refl

-- Every known unit is a good one, as far as the driver says.
abbrev pub IsSound : (ℕ → Bool) → (ℕ → ℕ) → Type 0
IsSound nand_check_eu_status eus =
    (eu_addr : ℕ)
    → eu_addr % 2 ^ 5 ≡ 0
    → seq_is_eu_known_valid eus eu_addr ≡ true
    → nand_check_eu_status eu_addr ≡ true

among_fewer :
    (n : ℕ) (eus : ℕ → ℕ) (a : ℕ) → is_among n eus a ≡ true → is_among (suc n) eus a ≡ true
unfolding is_among
among_fewer n eus a h = ground arith

start_aligned : (eu_addr : ℕ) → calc_eu_start eu_addr % 2 ^ 5 ≡ 0
unfolding calc_eu_start
start_aligned eu_addr = omega arith

set-IsSound :
    (check : ℕ → Bool) (eus : ℕ → ℕ) (eu_addr : ℕ)
    → IsSound check eus
    → check eu_addr ≡ true
    → IsSound check (seq_set_eu_known_valid eus eu_addr)
unfolding seq_is_eu_known_valid
set-IsSound check eus eu_addr v good other aligned known =
    let now = set_eu_known_valid_lem eus eu_addr other in
    elim (Bool-cases (eu_addr == other)) [
      | inl e ↦ ap check (sym ((==_iff eu_addr other).0 e)) ∙ good
      | inr e ↦
          let among : is_among 31 eus other ≡ true = ground arith in
          v other aligned (among_fewer 31 eus other among)
    ]

-- seq_check_eu_status with a queue of good units gives what the driver says of the erase unit of the
-- address, keeps only good units in the queue, and knows the unit afterwards if it is good.
pub check_eu_status_lem :
    (nand_check_eu_status : ℕ → Bool) (eus : ℕ → ℕ) (eu_addr : ℕ)
    → IsSound nand_check_eu_status eus
    → let (res, eus1) = seq_check_eu_status nand_check_eu_status eus eu_addr in
      (res ≡ nand_check_eu_status (calc_eu_start eu_addr))
      × IsSound nand_check_eu_status eus1
      × (res ≡ true → seq_is_eu_known_valid eus1 (calc_eu_start eu_addr) ≡ true)
unfolding seq_check_eu_status
check_eu_status_lem check eus eu_addr v =
    let start : ℕ = calc_eu_start eu_addr in
    elim (Bool-cases (seq_is_eu_known_valid eus start)) [
      | inl k ↦ rw k (sym (v start (start_aligned eu_addr) k), v, λ h. k)
      | inr k ↦ elim (Bool-cases (check start)) [
        | inl c ↦ rw (k, c) (refl, set-IsSound check eus start v c, λ h. entered eus start)
        | inr c ↦ rw (k, c) (refl, v, λ h. absurd (cc))
      ]
    ]
  where
    entered : (eus : ℕ → ℕ) (a : ℕ) → seq_is_eu_known_valid (seq_set_eu_known_valid eus a) a ≡ true
    entered eus a = set_eu_known_valid_lem eus a a ∙ ground arith
