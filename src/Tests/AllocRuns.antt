-- ===== src/Tests/AllocRuns.antt =====
-- The segment map, the translation of addresses and reclamation on a concrete chip.
use nandfs.Base.{
  ℕ, suc, ◌+◌, ◌<◌, ◌≡◌, ◌⊎◌, refl, true, false, not, ◌&&◌, arith, ltb, ◌==◌, if◌then◌else◌, some,
}
use nandfs.Addr.{LogAddr, get_logical_segment, get_logical_offset}
use nandfs.Sequencing.Reserve.{
  Chip, calc_address, calc_offset_in_eu, calculate_slot_id_and_eu_offset, is_reserve_for,
  logical_address_to_reserve_physical, calc_eu_offset, scan_segments, scan_slot, found_or,
  page_in_unit, next_offset, next_address,
}
use nandfs.Sequencing.ValidEus.{calc_eu_start}
use nandfs.Sequencing.SegMap.{
  SegMap, seq_no_slot, phy_address_empty, find_empty_slot, get_reclaimed_offset,
  get_reclaimed_segment, get_reclaimed_segment_slot, increment_reclaimed_offset,
  is_state_reclamation,
}
use nandfs.Sequencing.SegMap.Empty.{find_empty_slot_lem}
use nandfs.Sequencing.Translate.{
  expected_page, is_reclaimed, nth_valid, alloc_beside, logical_address_to_physical,
  calc_target_phy_addr, get_valid_eu_addr_in_location, count_valid, count_valid_eus,
  get_copyback_eu, is_free_reserve, alloc_reserve_eu,
}
use nandfs.Sequencing.Translate.Target.{
  calc_target_phy_addr_lem, IsInjective, logical_address_to_physical_inj,
}
use nandfs.Sequencing.Translate.ValidUnits.{get_valid_eu_addr_in_location_lem}
use nandfs.Sequencing.Translate.Reserved.{NoReserve, mark_unit, alloc_reserve_eu_found}

-- Every segment but 510 has the slot of its own number; unit 1 of slot 7 is bad, and the reserve
-- slots are 510 and 511.
abbrev chip : Chip
chip = record {
  check_eu_status = λ a. not (a == 928);
  slot_eu_offset = λ a. 0xffffff;
  copy_back_flag = λ a. 1;
}

-- Segment 7 is being written, from offset 5 on.
abbrev rec_addr : LogAddr
rec_addr = record { byte0 = 5; byte1 = 0x70; byte2 = 0; byte3 = 0xff }

abbrev map : SegMap
map = record {
  seg_to_slot_map = λ i. if ltb 8 i && ltb i 510 then seq_no_slot else i;
  reclaimed_logical_addr = rec_addr;
  previously_written_segment = 6;
  reserve_eu_addr = phy_address_empty;
  n_segments = 8;
  is_eu_reserve = 1;
  new_slot_id = 7;
  sequence_num = 3;
}

find_empty_slot_lem_example :
    (find_empty_slot map < 512)
    × ((i : ℕ) → i < 512 → (map.seg_to_slot_map i == find_empty_slot map) ≡ false)
    × ((s : ℕ) → s < find_empty_slot map → (i : ℕ) × (i < 512) × (map.seg_to_slot_map i ≡ s))
find_empty_slot_lem_example = find_empty_slot_lem map 9 (omega arith) (omega arith)

calc_target_phy_addr_lem_example :
    logical_address_to_physical chip (increment_reclaimed_offset map) map.reclaimed_logical_addr
    ≡ some (calc_target_phy_addr map)
unfolding get_reclaimed_offset get_reclaimed_segment_slot get_reclaimed_segment calc_eu_start
    calc_target_phy_addr is_state_reclamation get_logical_offset get_logical_segment calc_address
calc_target_phy_addr_lem_example =
    calc_target_phy_addr_lem chip map (omega arith) (omega arith) refl refl refl

map-IsInjective : IsInjective map
unfolding is_state_reclamation
map-IsInjective = record { slots_ne = λ i j h e. ground arith; new_ne = λ i h. ground arith }

logical_address_to_physical_inj_example :
    (get_logical_segment rec_addr ≡ get_logical_segment rec_addr)
    × (get_logical_offset rec_addr ≡ get_logical_offset rec_addr)
unfolding expected_page logical_address_to_physical calc_eu_start is_reclaimed is_state_reclamation
    calc_address get_logical_segment get_logical_offset
logical_address_to_physical_inj_example =
    logical_address_to_physical_inj chip map rec_addr rec_addr 901 map-IsInjective refl refl refl
      refl

get_valid_eu_addr_in_location_lem_example :
    let ok = chip.check_eu_status in
    (r : ℕ) × (get_valid_eu_addr_in_location ok 7 2 ≡ some r)
    × (((r ≡ phy_address_empty) × (count_valid_eus ok 7 < 2))
        ⊎ ((e : ℕ) × (e < 4)
            × (r ≡ calc_address 7 e 0)
            × (ok r ≡ true)
            × (suc (count_valid e ok (calc_address 7 0 0)) ≡ 2)))
get_valid_eu_addr_in_location_lem_example =
    get_valid_eu_addr_in_location_lem chip.check_eu_status 7 2 (omega arith) (omega arith)
      (omega arith)

-- The unit for copying back is the second of slot 510.
copyback : get_copyback_eu chip map ≡ some 65312
unfolding get_copyback_eu get_valid_eu_addr_in_location nth_valid calc_address
copyback = refl

allocated : alloc_reserve_eu chip map 933 ≡ some 65349
unfolding alloc_reserve_eu alloc_beside get_copyback_eu get_valid_eu_addr_in_location nth_valid
    calc_address calc_eu_offset scan_segments scan_slot found_or page_in_unit next_offset
    next_address calc_offset_in_eu is_free_reserve
allocated = refl

none_marked :
    NoReserve (is_reserve_for chip (calculate_slot_id_and_eu_offset 933)) map.seg_to_slot_map
unfolding is_reserve_for calculate_slot_id_and_eu_offset
none_marked s e lo hi k = ground arith

alloc_reserve_eu_found_example :
    (unit : ℕ) × (65349 ≡ unit + calc_offset_in_eu 933)
    × (logical_address_to_reserve_physical (mark_unit chip unit 933) map.seg_to_slot_map 933
        ≡ some 65349)
alloc_reserve_eu_found_example =
    alloc_reserve_eu_found chip map 933 65312 65349 copyback refl none_marked allocated refl
