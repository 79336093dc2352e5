-- ===== src/Sequencing/Reclaim.antt =====
-- Choosing the segment to reclaim, the pages that are copied and the counters of the whole chip:
-- findSegmentToReclaim, is_page_to_copy and init_obs_counters of
-- NANDFS/src/sequencing/sequencingUtils.c, and markAsObsolete of NANDFS/src/sequencing/sequencing.c, as
-- built without EXACT_COUNTERS.
pub mod Choice
pub mod Obsolete
use nandfs.Base.{
  ℕ, zero, suc, ◌+◌, ◌-◌, ◌%◌, ◌^◌, Bool, true, false, not, ◌&&◌, ◌||◌, leb, ◌==◌, if◌then◌else◌,
  Option, none, some, ◌>>=◌,
}
use nandfs.Addr.{LogAddr, get_logical_segment}
use nandfs.Sequencing.Counters.{get_counter_level, change_counter_level, increment_counter}
use nandfs.Sequencing.Lfsr.{gen_rand_bit}
use nandfs.Sequencing.SegMap.{
  SegMap, seq_segments_count, phy_address_empty, get_reclaimed_segment, set_reclaimed_segment,
  set_reclaimed_offset,
}

-- `obs_pages_per_seg_counters`; an `int32_t` is its bit pattern.
pub record ObsCounters : Type 0 where
  pub counters : ℕ → ℕ
  pub counter : ℕ
  pub free_counter : ℕ

abbrev pub obs_count_no_obsoletes : ℕ
obs_count_no_obsoletes = 0

abbrev pub obs_count_level_0 : ℕ
obs_count_level_0 = 1

abbrev pub obs_count_full : ℕ
obs_count_full = 9

-- INCREASE_OBS_COUNT, DECREMENT_OBS_COUNT and DECREMENT_FREE_COUNT
unfoldable pub increase_obs_count : ObsCounters → ObsCounters
increase_obs_count o = record o { counter = (o.counter + 1) % 2 ^ 32 }

unfoldable pub decrement_obs_count : ObsCounters → ObsCounters
decrement_obs_count o = record o { counter = (o.counter + 2 ^ 32 - 1) % 2 ^ 32 }

unfoldable pub decrement_free_count : ObsCounters → ObsCounters
decrement_free_count o = record o { free_counter = (o.free_counter + 2 ^ 32 - 1) % 2 ^ 32 }

-- The levels after the first `n` rounds of init_obs_counters, which has 512.
unfoldable pub init_levels : ℕ → (ℕ → ℕ) → ℕ → ℕ
init_levels zero counters = counters
init_levels (suc n) counters =
    change_counter_level (init_levels n counters) obs_count_no_obsoletes n

unfoldable pub init_obs_counters : ObsCounters → ObsCounters
init_obs_counters o = record {
  counters = init_levels 512 o.counters;
  counter = 0;
  free_counter = 0;
}

-- The test of findSegmentToReclaim on segment `i`.
unfoldable pub is_candidate : (ℕ → ℕ) → ℕ → ℕ → ℕ → Bool
is_candidate counters reclaimed obs_level i =
    leb obs_level (get_counter_level counters i)
    && not (i == reclaimed)
    && not (get_counter_level counters i == obs_count_full)

-- The inner loop over `n` segments from `i` on.
unfoldable pub find_candidate : ℕ → (ℕ → Bool) → ℕ → Option ℕ
find_candidate zero p i = none
find_candidate (suc n) p i = let rest = find_candidate n p (i + 1) in if p i then some i else rest

-- Either search, or what follows it.
unfoldable pub or_else : Option ℕ → Option ℕ → Option ℕ
or_else rest none = rest
or_else rest (some i) = some i

-- The outer loop from a level down to level 1.
unfoldable pub find_level : ℕ → (ℕ → ℕ) → ℕ → Option ℕ
find_level zero counters reclaimed = none
find_level (suc level) counters reclaimed =
    or_else (find_level level counters reclaimed)
      (find_candidate seq_segments_count (is_candidate counters reclaimed (suc level)) 0)

unfoldable pub reclaim_from : SegMap → Option ℕ → ℕ × SegMap
reclaim_from m none = (1, m)
reclaim_from m (some i) = (0, set_reclaimed_offset (set_reclaimed_segment m i) 0)

unfoldable pub find_segment_to_reclaim : SegMap → ObsCounters → ℕ × SegMap
find_segment_to_reclaim m o = reclaim_from m (find_level 8 o.counters (get_reclaimed_segment m))

abbrev pub obs_flag_true : ℕ
obs_flag_true = 0

abbrev pub cp_not_part_of_cp : ℕ
cp_not_part_of_cp = 3

-- The obsolete flag and the checkpoint flag of the page are read from its spare area. 1 to copy it.
unfoldable pub is_page_to_copy : (ℕ → ℕ) → (ℕ → ℕ) → ObsCounters → ℕ → ℕ × ObsCounters
is_page_to_copy obs_flag checkpoint_flag o phy_addr =
    let obsolete = obs_flag phy_addr == obs_flag_true in
    if obsolete || not (checkpoint_flag phy_addr == cp_not_part_of_cp)
    then (0, if obsolete then decrement_obs_count o else decrement_free_count o)
    else (1, o)

-- POWER_SEQ_PAGES_PER_SLOT - 3
abbrev pub obs_needed_prob : ℕ
obs_needed_prob = 4

-- What markAsObsolete reads and writes: the counters, the random bits and the flash.
pub record Marks (F : Type 0) : Type 0 where
  pub obs : ObsCounters
  pub lfsr_state : ℕ
  pub flash : F

-- The counters of the segment, once the page is marked.
unfoldable pub count_obsolete : {F : Type 0} → Marks F → ℕ → Marks F
count_obsolete s seg =
    let o = increase_obs_count s.obs in
    let (bit, random) = gen_rand_bit obs_needed_prob s.lfsr_state in
    if obs_count_no_obsoletes == get_counter_level o.counters seg
    then record s {
      obs = record o { counters = change_counter_level o.counters obs_count_level_0 seg };
    }
    else if bit == 0
    then record s { obs = o; lfsr_state = random }
    else record s {
      obs = record o { counters = increment_counter o.counters seg };
      lfsr_state = random;
    }

-- The driver's write of the obsolete byte gives a result, 0 for success, and the flash after it;
-- `is_page_marked_obsolete` reads the flag of a page. `translate` is logicalAddressToPhysical.
module _ {F : Type 0} (program_obsolete : F → ℕ → ℕ × F)
    (is_page_marked_obsolete : F → ℕ → Bool) where
  unfoldable pub mark_page : Marks F → ℕ → ℕ → Bool → ℕ × Marks F
  mark_page s seg phy_addr is_after_reboot =
      let (res, flash) = program_obsolete s.flash phy_addr in
      if phy_addr == phy_address_empty
      then (1, s)
      else if is_page_marked_obsolete s.flash phy_addr
      then (0, if is_after_reboot then record s { obs = increase_obs_count s.obs } else s)
      else if not (res == 0)
      then (1, record s { flash = flash })
      else (0, count_obsolete (record s { flash = flash }) seg)

  unfoldable pub mark_as_obsolete :
      (LogAddr → Option ℕ) → Marks F → LogAddr → Bool → Option (ℕ × Marks F)
  mark_as_obsolete translate s b is_after_reboot = translate b >>= λ phy_addr.
      some (mark_page s (get_logical_segment b) phy_addr is_after_reboot)
