-- ===== src/Sequencing/Translate/Reserved.antt =====
-- allocReserveEU against the units of the reserve segments, and the way back by
-- logicalAddressToReservePhysical once the unit is marked.
use nandfs.Base.{
  ℕ, ◌+◌, ◌<◌, ◌≤◌, ◌≡◌, refl, ap, ◌∙◌, inl, inr, ◌⊎◌, Bool, true, false, arith, ◌==◌, Bool-cases,
  ==_iff, some, ◌>>=◌, update, update_self,
}
use nandfs.Sequencing.Reserve.{
  Chip, calc_address, calc_offset_in_eu, calc_eu_offset, calculate_slot_id_and_eu_offset,
  is_reserve_for, page_in_unit, copy_back_flag_false, logical_address_to_reserve_physical,
}
use nandfs.Sequencing.Reserve.Search.{scan_segments_lem, unit_lt, reserve_physical_lem}
use nandfs.Sequencing.SegMap.{SegMap, phy_address_empty}
use nandfs.Sequencing.Translate.{get_copyback_eu, is_free_reserve, alloc_beside, alloc_reserve_eu}

-- No unit of the reserve segments passes the test.
abbrev pub NoReserve : (ℕ → Bool) → (ℕ → ℕ) → Type 0
NoReserve p slots = (s e : ℕ) → 510 ≤ s → s < 512 → e < 4 → p (calc_address (slots s) e 0) ≡ false

-- The unit at the address is a unit of a reserve segment that passes the test.
abbrev pub InReserve : (ℕ → Bool) → (ℕ → ℕ) → ℕ → Type 0
InReserve p slots unit =
    (s : ℕ) × (e : ℕ) × (510 ≤ s)
    × (s < 512)
    × (e < 4)
    × (unit ≡ calc_address (slots s) e 0)
    × (p unit ≡ true)

-- Where there is a unit for copying back, allocReserveEU ends. It gives the page with the same offset
-- in a unit of a reserve segment that is good, is not that unit and stands in for no other; or no
-- address, and then no unit of a reserve segment is such.
pub alloc_reserve_eu_lem :
    (chip : Chip) (m : SegMap) (phy_addr cb_eu_addr : ℕ)
    → get_copyback_eu chip m ≡ some cb_eu_addr
    → (cb_eu_addr == phy_address_empty) ≡ false
    → let p = is_free_reserve chip cb_eu_addr in
      (r : ℕ) × (alloc_reserve_eu chip m phy_addr ≡ some r)
      × (((r ≡ phy_address_empty) × NoReserve p m.seg_to_slot_map)
          ⊎ ((unit : ℕ) × InReserve p m.seg_to_slot_map unit
              × (r ≡ unit + calc_offset_in_eu phy_addr)))
unfolding alloc_reserve_eu alloc_beside page_in_unit
alloc_reserve_eu_lem chip m phy_addr cb_eu_addr copyback some_unit =
    let p = is_free_reserve chip cb_eu_addr in
    let page : ℕ = calc_offset_in_eu phy_addr in
    let (f, run, found) =
      scan_segments_lem 2 p m.seg_to_slot_map (calc_eu_offset phy_addr) 510 512 (unit_lt phy_addr)
        refl in
    (
      page_in_unit page f,
      ap (λ o. o >>= alloc_beside chip m phy_addr) copyback
          ∙ rw some_unit (ap (λ o. o >>= λ g. some (page_in_unit page g)) run),
      elim found [
        | inl (e, none_of) ↦ inl (ap (page_in_unit page) e, none_of)
        | inr (s, e, l, a, k, same, ok) ↦ inr (
          calc_address (m.seg_to_slot_map s) e 0,
          (s, e, l, a, k, refl, ok),
          ap (page_in_unit page) same,
        )
      ],
    )

-- The chip once the first page of the unit has been written with its mark: what the unit stands in
-- for, and that it is no unit for copying back.
unfoldable pub mark_unit : Chip → ℕ → ℕ → Chip
mark_unit chip unit phy_addr = record chip {
  slot_eu_offset = update chip.slot_eu_offset unit (calculate_slot_id_and_eu_offset phy_addr);
  copy_back_flag = update chip.copy_back_flag unit copy_back_flag_false;
}

marked_other :
    (chip : Chip) (unit phy_addr expected a : ℕ)
    → (a == unit) ≡ false
    → is_reserve_for (mark_unit chip unit phy_addr) expected a ≡ is_reserve_for chip expected a
unfolding is_reserve_for mark_unit update
marked_other chip unit phy_addr expected a ne = ground arith

marked_self :
    (chip : Chip) (unit phy_addr : ℕ)
    → chip.check_eu_status unit ≡ true
    → is_reserve_for (mark_unit chip unit phy_addr) (calculate_slot_id_and_eu_offset phy_addr) unit
      ≡ true
unfolding is_reserve_for mark_unit
marked_self chip unit phy_addr ok =
    rw
      (
        ok,
        update_self chip.slot_eu_offset unit (calculate_slot_id_and_eu_offset phy_addr),
        update_self chip.copy_back_flag unit copy_back_flag_false,
      )
      (ground arith)

free_good :
    (chip : Chip) (cb unit : ℕ)
    → is_free_reserve chip cb unit ≡ true
    → chip.check_eu_status unit ≡ true
unfolding is_free_reserve
free_good chip cb unit h = ground arith

-- A bad unit for which no unit stood in: once allocReserveEU has given a page for it and the unit of
-- that page is marked, logicalAddressToReservePhysical gives that same page.
pub alloc_reserve_eu_found :
    (chip : Chip) (m : SegMap) (phy_addr cb_eu_addr r : ℕ)
    → get_copyback_eu chip m ≡ some cb_eu_addr
    → (cb_eu_addr == phy_address_empty) ≡ false
    → NoReserve (is_reserve_for chip (calculate_slot_id_and_eu_offset phy_addr)) m.seg_to_slot_map
    → alloc_reserve_eu chip m phy_addr ≡ some r
    → (r == phy_address_empty) ≡ false
    → (unit : ℕ) × (r ≡ unit + calc_offset_in_eu phy_addr)
      × (logical_address_to_reserve_physical
            (mark_unit chip unit phy_addr)
            m.seg_to_slot_map
            phy_addr
          ≡ some r)
alloc_reserve_eu_found chip m phy_addr cb r copyback some_unit none_before run ne =
    let (r1, run1, outcome) = alloc_reserve_eu_lem chip m phy_addr cb copyback some_unit in
    let same : r ≡ r1 = cc (run, run1) in
    elim outcome [
      | inl (gone, none_of) ↦ absurd (ground (arith, same, gone))
      | inr (unit, (s, e, lo, hi, k, at, ok), page) ↦
          let (r2, run2, back) =
            reserve_physical_lem (mark_unit chip unit phy_addr) m.seg_to_slot_map phy_addr in
          let good = marked_self chip unit phy_addr (free_good chip cb unit ok) in
          (
            unit,
            same ∙ page,
            run2
                ∙ ap some (elim back [
                  | inl (gone, none_of) ↦ absurd (cc (none_of s e lo hi k, good, at))
                  | inr (t, d, lo2, hi2, k2, at2, ok2) ↦
                      elim (Bool-cases (calc_address (m.seg_to_slot_map t) d 0 == unit)) [
                        | inl q ↦
                            let here : calc_address (m.seg_to_slot_map t) d 0 ≡ unit =
                              (==_iff _ unit).0 q in
                            omega (arith, at2, here, page, same)
                        | inr q ↦ absurd (
                            cc (
                              marked_other chip unit phy_addr
                                  (calculate_slot_id_and_eu_offset phy_addr) _ q,
                              ok2,
                              none_before t d lo2 hi2 k2,
                            ))
                      ]
                ]),
          )
    ]
