-- ===== src/Tests/ReclaimRuns.antt =====
-- The last page of a unit, random bits, the choice of a segment and marking, at concrete values.
use nandfs.Base.{
  ℕ, ◌^◌, ◌<◌, ◌≡◌, ◌⊎◌, refl, Bool, true, false, arith, ltb, ◌==◌, if◌then◌else◌, some,
}
use nandfs.Addr.{LogAddr, get_logical_segment}
use nandfs.Sequencing.Counters.{get_counter_level, is_even}
use nandfs.Sequencing.SegMap.{
  SegMap, phy_address_empty, get_reclaimed_segment, get_reclaimed_offset,
}
use nandfs.Sequencing.LastPage.{find_last_valid_page_in_eu, find_last_valid_page_in_eu_lem}
use nandfs.Sequencing.Lfsr.{lfsr_state_initial, get_random_num, gen_rand_bit}
use nandfs.Sequencing.Lfsr.State.{IsState, get_random_num_lem}
use nandfs.Sequencing.Reclaim.{ObsCounters, Marks, find_segment_to_reclaim, mark_as_obsolete}
use nandfs.Sequencing.Reclaim.Choice.{IsEligible, IsChosen, find_segment_to_reclaim_lem}
use nandfs.Sequencing.Reclaim.Obsolete.{IsMarked, mark_as_obsolete_lem}

-- The buffer holds the number of the page read last; pages up to 70 are used.
find_last_valid_page_in_eu_lem_example :
    (find_last_valid_page_in_eu (λ b a. (0, a)) (λ b. ltb b 71) 0 64).0 ≡ 70
find_last_valid_page_in_eu_lem_example =
    find_last_valid_page_in_eu_lem (λ b a. (0, a)) (λ b. ltb b 71) 0 64 70
      (λ b a lo hi. (refl, refl)) (omega arith) (omega arith) (omega arith)

get_random_num_lem_example :
    ((get_random_num 9 lfsr_state_initial).0 < 2 ^ 9)
    × IsState ((get_random_num 9 lfsr_state_initial).1)
    × ((get_random_num 9 lfsr_state_initial).1 ≡ (gen_rand_bit 9 lfsr_state_initial).1)
get_random_num_lem_example = get_random_num_lem 9 lfsr_state_initial (omega arith, omega arith)

-- Segments 0 and 1 are at level 3 and 9, segments 2 and 3 at 0 and 5, all others at 0.
abbrev levels : ObsCounters
levels = record {
  counters = λ i. if i == 0 then 0x93 else if i == 1 then 0x50 else 0;
  counter = 40;
  free_counter = 100;
}

abbrev segments : SegMap
segments = record {
  seg_to_slot_map = λ i. i;
  reclaimed_logical_addr = record { byte0 = 5; byte1 = 0x70; byte2 = 0; byte3 = 0xff };
  previously_written_segment = 6;
  reserve_eu_addr = phy_address_empty;
  n_segments = 509;
  is_eu_reserve = 1;
  new_slot_id = 509;
  sequence_num = 3;
}

find_segment_to_reclaim_lem_example :
    let rec = get_reclaimed_segment segments in
    let (res, m1) = find_segment_to_reclaim segments levels in
    let i = get_reclaimed_segment m1 in
    ((res ≡ 1)
      × (m1 ≡ segments)
      × ((j : ℕ) → IsEligible levels.counters rec j → get_counter_level levels.counters j ≡ 0))
    ⊎ ((res ≡ 0) × (get_reclaimed_offset m1 ≡ 0) × IsChosen levels.counters rec 8 i)
find_segment_to_reclaim_lem_example = find_segment_to_reclaim_lem segments levels (omega arith)

-- The flash is the set of the pages with the flag, and every write succeeds.
abbrev program : (ℕ → Bool) → ℕ → ℕ × (ℕ → Bool)
program f a = (0, λ x. if x == a then true else f x)

abbrev marked : (ℕ → Bool) → ℕ → Bool
marked f a = f a

program_marks : (f : ℕ → Bool) (a : ℕ) → (program f a).0 ≡ 0 → marked ((program f a).1) a ≡ true
program_marks f a h = ground arith

abbrev marks : Marks (ℕ → Bool)
marks = record { obs = levels; lfsr_state = lfsr_state_initial; flash = λ a. false }

-- Page 9 of segment 0.
abbrev page : LogAddr
page = record { byte0 = 9; byte1 = 0; byte2 = 0; byte3 = 0xff }

mark_as_obsolete_lem_example :
    (r : ℕ × Marks (ℕ → Bool)) × (mark_as_obsolete program marked (λ b. some 9) marks page false
      ≡ some r)
    × IsMarked marked marks (get_logical_segment page) 9 false r
unfolding get_counter_level get_logical_segment is_even
mark_as_obsolete_lem_example =
    mark_as_obsolete_lem program marked (λ b. some 9) marks page 9 false program_marks refl
      (omega arith)

abbrev marks_after : Marks (ℕ → Bool)
marks_after = record {
  obs = record { counters = levels.counters; counter = 41; free_counter = 100 };
  lfsr_state = (gen_rand_bit 4 lfsr_state_initial).1;
  flash = λ x. if x == 9 then true else false;
}
