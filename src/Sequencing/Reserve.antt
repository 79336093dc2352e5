-- ===== src/Sequencing/Reserve.antt =====
-- Finding the erase unit that stands in for a bad one: logicalAddressToReservePhysical of
-- NANDFS/src/sequencing/sequencingUtils.c, with the sizes of the chip with small pages: 32 pages in an
-- erase unit, four units in a slot, 512 slots of which the segments from 510 on are reserves.
pub mod Search
use nandfs.Base.{
  ℕ, zero, suc, ◌+◌, ◌-◌, ◌*◌, ◌/◌, ◌%◌, ◌^◌, ◌<◌, ◌≤◌, ◌≡◌, refl, sym, ap, ◌∙◌, inl, inr, ◌⊎◌,
  Bool, true, false, ◌&&◌, arith, ◌==◌, if◌then◌else◌, Bool-cases, ==_iff, bit_or, Option, none,
  some, ◌>>=◌, subst,
}

-- What the driver says of a page: the state of its unit, and two fields of its spare area.
pub record Chip : Type 0 where
  pub check_eu_status : ℕ → Bool
  pub slot_eu_offset : ℕ → ℕ
  pub copy_back_flag : ℕ → ℕ

abbrev pub copy_back_flag_false : ℕ
copy_back_flag_false = 1

abbrev pub seq_phy_address_empty : ℕ
seq_phy_address_empty = 0xffffffff

unfoldable pub calc_address : ℕ → ℕ → ℕ → ℕ
calc_address slot_id eu_offset eu_page_offset = slot_id * 2 ^ 7 + eu_offset * 2 ^ 5 + eu_page_offset

unfoldable pub calc_offset_in_eu : ℕ → ℕ
calc_offset_in_eu phy_addr = phy_addr % 2 ^ 5

unfoldable pub calc_eu_offset : ℕ → ℕ
calc_eu_offset phy_addr = phy_addr % 2 ^ 7 / 2 ^ 5

unfoldable pub calculate_slot_id_and_eu_offset : ℕ → ℕ
calculate_slot_id_and_eu_offset phy_addr =
    bit_or (phy_addr % 2 ^ 7 / 2 ^ 5) (phy_addr / 2 ^ 7 * 2 ^ 11)

-- The unit at the address is good, and stands in for the expected one.
unfoldable pub is_reserve_for : Chip → ℕ → ℕ → Bool
is_reserve_for chip expected phy_addr =
    chip.check_eu_status phy_addr
    && (chip.slot_eu_offset phy_addr == expected)
    && (chip.copy_back_flag phy_addr == copy_back_flag_false)

-- The next unit of the slot and its address: behind the last unit comes the first.
unfoldable pub next_offset : ℕ → ℕ
next_offset offset = if offset + 1 == 4 then 0 else offset + 1

unfoldable pub next_address : ℕ → ℕ → ℕ
next_address offset address = if offset + 1 == 4 then address + 2 ^ 5 - 2 ^ 7 else address + 2 ^ 5

-- The do-while loop over the units of a slot, from the one in parallel on and around. The outer
-- option is empty if the loop has not ended after `k` rounds.
unfoldable pub scan_slot : ℕ → (ℕ → Bool) → ℕ → ℕ → ℕ → Option (Option ℕ)
scan_slot zero p eu_offset offset address = none
scan_slot (suc k) p eu_offset offset address =
    let rest = scan_slot k p eu_offset (next_offset offset) (next_address offset address) in
    if p address
    then some (some address)
    else if next_offset offset == eu_offset
    then some none
    else rest

-- The return out of both loops, or the next segment.
unfoldable pub found_or : Option (Option ℕ) → Option ℕ → Option (Option ℕ)
found_or rest none = rest
found_or rest (some address) = some (some address)

-- The loop over `n` reserve segments from `seg_idx` on.
unfoldable pub scan_segments : ℕ → (ℕ → Bool) → (ℕ → ℕ) → ℕ → ℕ → Option (Option ℕ)
scan_segments zero p seg_to_slot_map eu_offset seg_idx = some none
scan_segments (suc n) p seg_to_slot_map eu_offset seg_idx =
    let rest = scan_segments n p seg_to_slot_map eu_offset (seg_idx + 1) in
    scan_slot 4 p eu_offset eu_offset (calc_address (seg_to_slot_map seg_idx) eu_offset 0)
    >>= found_or rest

unfoldable pub page_in_unit : ℕ → Option ℕ → ℕ
page_in_unit eu_page_offset none = seq_phy_address_empty
page_in_unit eu_page_offset (some address) = address + eu_page_offset

unfoldable pub logical_address_to_reserve_physical : Chip → (ℕ → ℕ) → ℕ → Option ℕ
logical_address_to_reserve_physical chip seg_to_slot_map phy_addr =
    scan_segments 2 (is_reserve_for chip (calculate_slot_id_and_eu_offset phy_addr)) seg_to_slot_map
      (calc_eu_offset phy_addr) 510
    >>= λ found. some (page_in_unit (calc_offset_in_eu phy_addr) found)
