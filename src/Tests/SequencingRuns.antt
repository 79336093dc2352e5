-- ===== src/Tests/SequencingRuns.antt =====
-- Addresses, counters and erase units at concrete values.
use nandfs.Base.{
  ◌<◌, some, ◌≤◌, ◌⊎◌, ℕ, zero, suc, ◌+◌, ◌%◌, ◌^◌, ◌≡◌, refl, Bool, true, false, [], ◌∷◌, ◌==◌,
  arith, if◌then◌else◌,
}
use nandfs.Addr.{LogAddr, IsBytes, empty_address}
use nandfs.Sequencing.Counters.{
  get_counter_level, increments, IsLevels, capped, count, increments_lem,
}
use nandfs.Sequencing.Reserve.{
  scan_segments, scan_slot, calc_eu_offset, next_offset, next_address, found_or, page_in_unit, Chip,
  seq_phy_address_empty, calc_address, calc_offset_in_eu, calculate_slot_id_and_eu_offset,
  is_reserve_for, logical_address_to_reserve_physical,
}
use nandfs.Sequencing.Reserve.Search.{reserve_physical_lem}
use nandfs.Sequencing.ValidEus.{
  is_among, calc_eu_start, seq_is_eu_known_valid, seq_check_eu_status, IsSound, check_eu_status_lem,
}

abbrev address : LogAddr
address = record { byte0 = 0x34; byte1 = 0x12; byte2 = 0x56; byte3 = 0x80 }

address-IsBytes : IsBytes address
address-IsBytes = omega arith

empty-IsBytes : IsBytes empty_address
empty-IsBytes = omega arith

abbrev no_obsoletes : ℕ → ℕ
no_obsoletes i = 0

no_obsoletes-IsLevels : IsLevels no_obsoletes
unfolding get_counter_level
no_obsoletes-IsLevels seg_id = ground arith

increments_lem_example :
    get_counter_level (increments no_obsoletes (3 ∷ 2 ∷ 3 ∷ [])) 3
    ≡ capped (get_counter_level no_obsoletes 3 + count 3 (3 ∷ 2 ∷ 3 ∷ []))
increments_lem_example = increments_lem no_obsoletes (3 ∷ 2 ∷ 3 ∷ []) 3 no_obsoletes-IsLevels

abbrev none_known : ℕ → ℕ
none_known i = 0xffffffff

none_among : (n a : ℕ) → a % 2 ^ 5 ≡ 0 → is_among n none_known a ≡ false
unfolding is_among
none_among zero a h = refl
none_among (suc n) a h = let rest = none_among n a h in ground arith

-- A chip all of whose units but the third are good.
abbrev chip : ℕ → Bool
chip eu_addr = if eu_addr == 64 then false else true

none_known-IsSound : IsSound chip none_known
unfolding seq_is_eu_known_valid
none_known-IsSound eu_addr aligned known = absurd (let none = none_among 32 eu_addr aligned in cc)

check_eu_status_lem_example :
    let (res, eus1) = seq_check_eu_status chip none_known 100 in
    (res ≡ chip (calc_eu_start 100))
    × IsSound chip eus1
    × (res ≡ true → seq_is_eu_known_valid eus1 (calc_eu_start 100) ≡ true)
check_eu_status_lem_example = check_eu_status_lem chip none_known 100 none_known-IsSound

-- The unit at page 65472 stands in for the second unit of slot 3, and segment 511 is in slot 511.
abbrev replaced : Chip
replaced = record {
  check_eu_status = λ a. true;
  slot_eu_offset = λ a. if a == 65472 then 6145 else 0xffffff;
  copy_back_flag = λ a. 1;
}

abbrev same_slots : ℕ → ℕ
same_slots seg_id = seg_id

reserve_physical_lem_example :
    let expected = calculate_slot_id_and_eu_offset 420 in
    (address : ℕ) × (logical_address_to_reserve_physical replaced same_slots 420 ≡ some address)
    × (((address ≡ seq_phy_address_empty)
          × ((s e : ℕ)
              → 510 ≤ s
              → s < 512
              → e < 4
              → is_reserve_for replaced expected (calc_address (same_slots s) e 0) ≡ false))
        ⊎ ((s : ℕ) × (e : ℕ) × (510 ≤ s)
            × (s < 512)
            × (e < 4)
            × (address ≡ calc_address (same_slots s) e 0 + calc_offset_in_eu 420)
            × (is_reserve_for replaced expected (calc_address (same_slots s) e 0) ≡ true)))
reserve_physical_lem_example = reserve_physical_lem replaced same_slots 420

-- The third unit of segment 511 is found, and the fifth page in it.
reserve_found : logical_address_to_reserve_physical replaced same_slots 420 ≡ some 65476
unfolding logical_address_to_reserve_physical scan_segments scan_slot is_reserve_for calc_address
    calc_eu_offset calculate_slot_id_and_eu_offset next_offset next_address found_or page_in_unit
    calc_offset_in_eu
reserve_found = refl
