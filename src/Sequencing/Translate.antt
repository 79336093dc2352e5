-- ===== src/Sequencing/Translate.antt =====
-- Where a logical address lies in the flash: logicalAddressToPhysical, calc_target_phy_addr and the
-- allocation of a reserve unit (allocReserveEU, get_valid_eu_addr_in_location, count_valid_eus) of
-- NANDFS/src/sequencing/sequencingUtils.c. `none` stands for a failed assertion or a loop whose rounds
-- are used up.
pub mod Target
pub mod Reserved
pub mod ValidUnits
use nandfs.Base.{
  ℕ, zero, suc, ◌+◌, ◌-◌, ◌*◌, ◌/◌, ◌%◌, ◌^◌, Bool, true, false, not, ◌&&◌, ◌||◌, ltb, ◌==◌,
  if◌then◌else◌, Option, none, some, ◌>>=◌,
}
use nandfs.Addr.{LogAddr, get_logical_segment, get_logical_offset}
use nandfs.Sequencing.Reserve.{
  Chip, calc_address, calc_offset_in_eu, calc_eu_offset, scan_segments, page_in_unit,
  logical_address_to_reserve_physical,
}
use nandfs.Sequencing.ValidEus.{calc_eu_start}
use nandfs.Sequencing.SegMap.{
  SegMap, seq_n_slots_count, seq_no_slot, seq_pages_per_slot, phy_address_empty,
  is_state_reclamation, get_reclaimed_segment, get_reclaimed_offset, get_reclaimed_segment_slot,
}

-- The state of reclamation, and the address lies in the part of the segment that is copied already.
unfoldable pub is_reclaimed : SegMap → LogAddr → Bool
is_reclaimed m a =
    is_state_reclamation m
    && (get_logical_segment a == get_reclaimed_segment m)
    && ltb (get_logical_offset a) (get_reclaimed_offset m)

-- The page that is expected to hold the address, whose unit may be bad.
unfoldable pub expected_page : SegMap → LogAddr → ℕ
expected_page m a =
    if is_reclaimed m a
    then calc_address m.new_slot_id 0 (get_logical_offset a)
    else calc_address (m.seg_to_slot_map (get_logical_segment a)) 0 (get_logical_offset a)

unfoldable pub logical_address_to_physical : Chip → SegMap → LogAddr → Option ℕ
logical_address_to_physical chip m a =
    let phy_page_addr = expected_page m a in
    if m.seg_to_slot_map (get_logical_segment a) == seq_no_slot
    then none
    else if not (ltb (get_logical_offset a) seq_pages_per_slot)
    then none
    else if chip.check_eu_status (calc_eu_start phy_page_addr)
    then some phy_page_addr
    else logical_address_to_reserve_physical chip m.seg_to_slot_map phy_page_addr

unfoldable pub calc_target_phy_addr : SegMap → ℕ
calc_target_phy_addr m =
    let offset = get_reclaimed_offset m in
    if not (m.reserve_eu_addr == phy_address_empty)
    then m.reserve_eu_addr + calc_offset_in_eu offset
    else if not (is_state_reclamation m)
    then calc_address (get_reclaimed_segment_slot m) 0 offset
    else calc_address m.new_slot_id 0 offset

-- The do-while loop of get_valid_eu_addr_in_location with `n` units left; the countdown is unsigned.
unfoldable pub nth_valid : ℕ → (ℕ → Bool) → ℕ → ℕ → ℕ
nth_valid zero ok phy_addr eu_location = phy_address_empty
nth_valid (suc n) ok phy_addr eu_location =
    let left = (eu_location + 2 ^ 32 - 1) % 2 ^ 32 in
    let found = nth_valid n ok (phy_addr + 2 ^ 5) left in
    let skipped = nth_valid n ok (phy_addr + 2 ^ 5) eu_location in
    if ok phy_addr then if left == 0 then phy_addr else found else skipped

unfoldable pub get_valid_eu_addr_in_location : (ℕ → Bool) → ℕ → ℕ → Option ℕ
get_valid_eu_addr_in_location ok slot_id eu_location =
    if ltb slot_id seq_n_slots_count
    then some (nth_valid 4 ok (calc_address slot_id 0 0) eu_location)
    else none

-- The loop of count_valid_eus with `n` units left.
unfoldable pub count_valid : ℕ → (ℕ → Bool) → ℕ → ℕ
count_valid zero ok phy_addr = 0
count_valid (suc n) ok phy_addr =
    (if ok phy_addr then 1 else 0) + count_valid n ok (phy_addr + 2 ^ 5)

unfoldable pub count_valid_eus : (ℕ → Bool) → ℕ → ℕ
count_valid_eus ok slot_id = count_valid 4 ok (calc_address slot_id 0 0)

-- GET_COPYBACK_EU
unfoldable pub get_copyback_eu : Chip → SegMap → Option ℕ
get_copyback_eu chip m =
    get_valid_eu_addr_in_location chip.check_eu_status (m.seg_to_slot_map 510) 2

abbrev pub seq_no_slot_and_eu_offset : ℕ
seq_no_slot_and_eu_offset = 0xffffff

-- The unit at the address is good, is not the one for copying back, and stands in for no other.
unfoldable pub is_free_reserve : Chip → ℕ → ℕ → Bool
is_free_reserve chip cb_eu_addr phy_addr =
    chip.check_eu_status phy_addr
    && not (cb_eu_addr == phy_addr)
    && (chip.slot_eu_offset phy_addr == seq_no_slot_and_eu_offset)

-- The search of allocReserveEU, once the unit for copying back is known.
unfoldable pub alloc_beside : Chip → SegMap → ℕ → ℕ → Option ℕ
alloc_beside chip m phy_addr cb_eu_addr =
    if cb_eu_addr == phy_address_empty
    then none
    else scan_segments 2 (is_free_reserve chip cb_eu_addr) m.seg_to_slot_map
        (calc_eu_offset phy_addr) 510
      >>= λ found. some (page_in_unit (calc_offset_in_eu phy_addr) found)

unfoldable pub alloc_reserve_eu : Chip → SegMap → ℕ → Option ℕ
alloc_reserve_eu chip m phy_addr = get_copyback_eu chip m >>= alloc_beside chip m phy_addr
