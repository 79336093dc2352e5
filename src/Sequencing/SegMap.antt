-- ===== src/Sequencing/SegMap.antt =====
-- The map from segments to slots: `segment_map` of NANDFS/src/sequencing/sequencing.h, its macros, and
-- the functions of NANDFS/src/sequencing/sequencingUtils.c that search it. There are 512 slots; the
-- segments below 509 hold data, those from 510 on are reserves. Its queue of known good units is in
-- ValidEus.
pub mod Empty
use nandfs.Base.{
  ℕ, zero, suc, ◌+◌, ◌-◌, ◌*◌, ◌/◌, ◌%◌, ◌^◌, Bool, true, false, not, ◌&&◌, ◌||◌, ltb, leb, ◌==◌,
  if◌then◌else◌, update,
}
use nandfs.Addr.{
  LogAddr, empty_address, get_logical_segment, get_logical_offset, set_logical_segment,
  set_logical_offset,
}

pub record SegMap : Type 0 where
  pub seg_to_slot_map : ℕ → ℕ
  pub reclaimed_logical_addr : LogAddr
  pub previously_written_segment : ℕ
  pub reserve_eu_addr : ℕ
  pub n_segments : ℕ
  pub is_eu_reserve : ℕ
  pub new_slot_id : ℕ
  pub sequence_num : ℕ

abbrev pub seq_n_slots_count : ℕ
seq_n_slots_count = 512

abbrev pub seq_segments_count : ℕ
seq_segments_count = 509

abbrev pub seq_first_reserve_segment : ℕ
seq_first_reserve_segment = 510

abbrev pub seq_pages_per_slot : ℕ
seq_pages_per_slot = 128

abbrev pub seq_no_slot : ℕ
seq_no_slot = 0xfff

abbrev pub seq_no_segment_num : ℕ
seq_no_segment_num = 0xfff

abbrev pub phy_address_empty : ℕ
phy_address_empty = 0xffffffff

abbrev pub is_eu_reserve_true : ℕ
is_eu_reserve_true = 0

abbrev pub is_eu_reserve_false : ℕ
is_eu_reserve_false = 1

-- GET_SLOT
unfoldable pub get_slot : ℕ → ℕ
get_slot phy_addr = phy_addr / 2 ^ 7

-- GET_RECLAIMED_SEGMENT, GET_RECLAIMED_OFFSET and GET_RECLAIMED_SEGMENT_SLOT
unfoldable pub get_reclaimed_segment : SegMap → ℕ
get_reclaimed_segment m = get_logical_segment m.reclaimed_logical_addr

unfoldable pub get_reclaimed_offset : SegMap → ℕ
get_reclaimed_offset m = get_logical_offset m.reclaimed_logical_addr

unfoldable pub get_reclaimed_segment_slot : SegMap → ℕ
get_reclaimed_segment_slot m = m.seg_to_slot_map (get_reclaimed_segment m)

unfoldable pub set_reclaimed_segment : SegMap → ℕ → SegMap
set_reclaimed_segment m seg = record m {
  reclaimed_logical_addr = set_logical_segment m.reclaimed_logical_addr seg;
}

unfoldable pub set_reclaimed_offset : SegMap → ℕ → SegMap
set_reclaimed_offset m offset = record m {
  reclaimed_logical_addr = set_logical_offset m.reclaimed_logical_addr offset;
}

-- INCREMENT_RECLAIMED_OFFSET
unfoldable pub increment_reclaimed_offset : SegMap → SegMap
increment_reclaimed_offset m = set_reclaimed_offset m (get_reclaimed_offset m + 1)

unfoldable pub is_state_reclamation : SegMap → Bool
is_state_reclamation m =
    (m.n_segments == seq_segments_count) && not (m.new_slot_id == get_reclaimed_segment_slot m)

unfoldable pub is_seg_map_page_offset_overflowing : SegMap → Bool
is_seg_map_page_offset_overflowing m =
    leb seq_pages_per_slot (get_reclaimed_offset m) || (get_reclaimed_offset m == 0)

-- The assignments of the loop of init_seg_map in its first `n` rounds.
unfoldable pub init_slots : ℕ → (ℕ → ℕ) → ℕ → ℕ
init_slots zero slots = slots
init_slots (suc n) slots = update (init_slots n slots) n seq_no_slot

-- Every byte 0xff first, as init_struct leaves it.
unfoldable pub init_seg_map : SegMap
init_seg_map = record {
  seg_to_slot_map = init_slots seq_n_slots_count (λ i. 0xffff);
  reclaimed_logical_addr = empty_address;
  previously_written_segment = 0xffffffff;
  reserve_eu_addr = 0xffffffff;
  n_segments = 0;
  is_eu_reserve = is_eu_reserve_false;
  new_slot_id = 0xffffffff;
  sequence_num = 0xffffffffffffffff;
}

-- The loops over `n` segments from `i` on: how many have a slot, and the first of those that the
-- test picks, or `missing`.
unfoldable pub count_allocated : ℕ → (ℕ → ℕ) → ℕ → ℕ
count_allocated zero slots i = 0
count_allocated (suc n) slots i =
    count_allocated n slots (i + 1) + (if slots i == seq_no_slot then 0 else 1)

unfoldable pub count_segments : SegMap → Bool → ℕ
count_segments m is_reserve =
    if is_reserve
    then count_allocated 2 m.seg_to_slot_map seq_first_reserve_segment
    else count_allocated seq_segments_count m.seg_to_slot_map 0

unfoldable pub first_from : (ℕ → Bool) → ℕ → ℕ → ℕ → ℕ
first_from p missing zero i = missing
first_from p missing (suc n) i =
    let rest = first_from p missing n (i + 1) in if p i then i else rest

unfoldable pub find_first_empty_slot : SegMap → ℕ
find_first_empty_slot m =
    first_from (λ i. m.seg_to_slot_map i == seq_no_slot) seq_no_segment_num seq_segments_count 0

-- The inner loop of findEmptySlot: the index at which it stops.
unfoldable pub segment_of_slot : SegMap → ℕ → ℕ
segment_of_slot m slot_idx =
    first_from (λ i. m.seg_to_slot_map i == slot_idx) seq_n_slots_count seq_n_slots_count 0

unfoldable pub find_empty_slot : SegMap → ℕ
find_empty_slot m =
    first_from (λ s. segment_of_slot m s == seq_n_slots_count) phy_address_empty seq_n_slots_count 0

unfoldable pub is_address_reserve : SegMap → ℕ → Bool
is_address_reserve m phy_addr =
    let slot = get_slot phy_addr in
    (slot == m.seg_to_slot_map 510) || (slot == m.seg_to_slot_map 511)

-- The second assignment is to the segment too, as in the source.
unfoldable pub return_to_prev_seg : SegMap → SegMap
return_to_prev_seg m =
    let m1 =
      if is_state_reclamation m
      then m
      else record m { n_segments = (m.n_segments + 2 ^ 32 - 1) % 2 ^ 32 } in
    set_reclaimed_segment (set_reclaimed_segment m1 m1.previously_written_segment) 127
