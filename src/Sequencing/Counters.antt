-- ===== src/Sequencing/Counters.antt =====
-- The obsolete-page counters of NANDFS/src/sequencing/sequencingUtils.c, four bits each, two in a
-- byte: get_counter_level, change_counter_level and increment_counter, as built without
-- EXACT_COUNTERS. `counters` is the array of bytes.
use nandfs.Base.{
  ltb, List, [], ◌∷◌, ℕ, ◌+◌, ◌*◌, ◌/◌, ◌%◌, ◌^◌, ◌<◌, ◌≤◌, ◌≡◌, refl, ap, ◌∙◌, inl, inr, Bool,
  true, false, arith, ◌==◌, if◌then◌else◌, Bool-cases, bit_or, update, ==_iff,
}
use nandfs.Base.Bits.{bit_or-disjoint}

abbrev pub obs_count_level_7 : ℕ
obs_count_level_7 = 8

-- IS_EVEN
unfoldable pub is_even : ℕ → Bool
is_even num = num % 2 == 0

unfoldable pub get_counter_level : (ℕ → ℕ) → ℕ → ℕ
get_counter_level counters seg_id =
    if is_even seg_id then counters (seg_id / 2) % 16 else counters (seg_id / 2) / 2 ^ 4 % 16

-- The byte, with the level in the low or in the high half; the array's type keeps eight bits.
unfoldable pub change_counter_level : (ℕ → ℕ) → ℕ → ℕ → ℕ → ℕ
change_counter_level counters level seg_id =
    let seg_counter_location = seg_id / 2 in
    let byte = counters seg_counter_location in
    if is_even seg_id
    then update counters seg_counter_location (bit_or level (byte / 2 ^ 4 % 16 * 2 ^ 4) % 256)
    else update counters seg_counter_location (bit_or (byte % 16) (level * 2 ^ 4) % 256)

unfoldable pub increment_counter : (ℕ → ℕ) → ℕ → ℕ → ℕ
increment_counter counters seg_id =
    let counter_level = get_counter_level counters seg_id in
    if obs_count_level_7 == get_counter_level counters seg_id
    then counters
    else change_counter_level counters (counter_level + 1) seg_id

low_byte :
    (level byte : ℕ)
    → level < 16
    → let b = bit_or level (byte / 2 ^ 4 % 16 * 2 ^ 4) % 256 in
      (b % 16 ≡ level) × (b / 2 ^ 4 % 16 ≡ byte / 2 ^ 4 % 16)
low_byte level byte l = omega (arith, bit_or-disjoint level (byte / 2 ^ 4 % 16) 4)

high_byte :
    (level byte : ℕ)
    → level < 16
    → let b = bit_or (byte % 16) (level * 2 ^ 4) % 256 in
      (b % 16 ≡ byte % 16) × (b / 2 ^ 4 % 16 ≡ level)
high_byte level byte l = omega (arith, bit_or-disjoint (byte % 16) level 4)

-- A level of four bits that is set for a segment is read back for it, and the levels of all others
-- stay, that of the segment in the other half of the byte too.
pub change_counter_level_lem :
    (counters : ℕ → ℕ) (level seg_id other : ℕ)
    → level < 16
    → get_counter_level (change_counter_level counters level seg_id) other
      ≡ (if other == seg_id then level else get_counter_level counters other)
unfolding get_counter_level change_counter_level is_even update
change_counter_level_lem counters level seg_id other l =
    let byte : ℕ = counters (seg_id / 2) in
    let low = low_byte level byte l in
    let high = high_byte level byte l in
    elim (Bool-cases (other / 2 == seg_id / 2)) [
      | inl e ↦
          let same : other / 2 ≡ seg_id / 2 = (==_iff (other / 2) (seg_id / 2)).0 e in
          let here : counters (other / 2) ≡ byte = ap counters same in
          elim (Bool-cases (is_even seg_id)) [
            | inl s ↦ elim (Bool-cases (is_even other)) [
              | inl o ↦
                  let d : (other == seg_id) ≡ true = ground (arith, same) in rw (s, o, e, d) low.0
              | inr o ↦
                  let d : (other == seg_id) ≡ false = ground arith in
                  rw (s, o, e, d) (low.1 ∙ rw here refl)
            ]
            | inr s ↦ elim (Bool-cases (is_even other)) [
              | inl o ↦
                  let d : (other == seg_id) ≡ false = ground arith in
                  rw (s, o, e, d) (high.0 ∙ rw here refl)
              | inr o ↦
                  let d : (other == seg_id) ≡ true = ground (arith, same) in rw (s, o, e, d) high.1
            ]
          ]
      | inr e ↦
          let d : (other == seg_id) ≡ false = ground arith in
          elim (Bool-cases (is_even seg_id)) [
            | inl s ↦ rw (s, e, d) refl
            | inr s ↦ rw (s, e, d) refl
          ]
    ]

-- Where a level may be.
abbrev pub IsLevels : (ℕ → ℕ) → Type 0
IsLevels counters = (seg_id : ℕ) → get_counter_level counters seg_id ≤ obs_count_level_7

-- The abstract counter: a number that stops at the highest level.
abbrev pub capped : ℕ → ℕ
capped level = if ltb obs_count_level_7 level then obs_count_level_7 else level

increment_counter_step :
    (counters : ℕ → ℕ) (seg_id other : ℕ)
    → IsLevels counters
    → get_counter_level (increment_counter counters seg_id) other
      ≡ capped (get_counter_level counters other + (if other == seg_id then 1 else 0))
unfolding increment_counter
increment_counter_step counters seg_id other v =
    let level : ℕ = get_counter_level counters seg_id in
    let set = change_counter_level_lem counters (level + 1) seg_id other in
    elim (Bool-cases (obs_count_level_7 == level)) [
      | inl e ↦ rw e (elim (Bool-cases (other == seg_id)) [
        | inl d ↦
            let same : get_counter_level counters other ≡ level =
              ap (get_counter_level counters) ((==_iff other seg_id).0 d) in
            rw d (ground arith)
        | inr d ↦ rw d (ground (arith, v other))
      ])
      | inr e ↦ rw e (
          set (ground (arith, v seg_id)) ∙ elim (Bool-cases (other == seg_id)) [
            | inl d ↦
                let same : get_counter_level counters other ≡ level =
                  ap (get_counter_level counters) ((==_iff other seg_id).0 d) in
                rw d (ground (arith, v seg_id))
            | inr d ↦ rw d (ground (arith, v other))
          ])
    ]

-- The pages of segments become obsolete one after another.
unfoldable pub increments : (ℕ → ℕ) → List ℕ → ℕ → ℕ
increments counters [] = counters
increments counters (seg_id ∷ rest) = increments (increment_counter counters seg_id) rest

abbrev pub count : ℕ → List ℕ → ℕ
count a [] = 0
count a (x ∷ xs) = (if a == x then 1 else 0) + count a xs

-- After any sequence of increments the level of each segment is the number of times that it came up,
-- added to what it was and capped at the highest level: no increment runs over into the counter that
-- shares the byte. At the start no level is above the highest one.
pub increments_lem :
    (counters : ℕ → ℕ) (marks : List ℕ) (seg_id : ℕ)
    → IsLevels counters
    → get_counter_level (increments counters marks) seg_id
      ≡ capped (get_counter_level counters seg_id + count seg_id marks)
unfolding increments
increments_lem counters [] seg_id v = ground (arith, v seg_id)
increments_lem counters (m ∷ marks) seg_id v =
    let step = λ (t : ℕ). increment_counter_step counters m t v in
    increments_lem (increment_counter counters m) marks seg_id (λ t. ground (arith, step t))
    ∙ ground (arith, step seg_id)
