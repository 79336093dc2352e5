-- ===== src/Sequencing/Translate/Target.antt =====
-- The page that calc_target_phy_addr chooses is where logicalAddressToPhysical finds it once the offset
-- is advanced, and different addresses lie on different pages.
use nandfs.Base.{
  ℕ, ◌+◌, ◌<◌, ◌≡◌, ◌∙◌, ap, sym, inl, inr, Bool, true, false, not, ◌&&◌, arith, ◌==◌,
  if◌then◌else◌, Bool-cases, some,
}
use nandfs.Addr.{LogAddr, IsBytes, get_logical_segment, get_logical_offset}
use nandfs.Addr.Fields.{set_logical_offset_lem}
use nandfs.Sequencing.Reserve.{Chip, calc_address}
use nandfs.Sequencing.ValidEus.{calc_eu_start}
use nandfs.Sequencing.SegMap.{
  SegMap, seq_no_slot, phy_address_empty, is_state_reclamation, get_reclaimed_segment,
  get_reclaimed_offset, get_reclaimed_segment_slot, set_reclaimed_offset,
  increment_reclaimed_offset,
}
use nandfs.Sequencing.Translate.{
  is_reclaimed, expected_page, logical_address_to_physical, calc_target_phy_addr,
}

-- Advancing the offset of the reclaimed address.
pub increment_reclaimed_offset_lem :
    (m : SegMap)
    → IsBytes m.reclaimed_logical_addr
    → get_reclaimed_offset m < 128
    → let m1 = increment_reclaimed_offset m in
      (get_reclaimed_offset m1 ≡ get_reclaimed_offset m + 1)
      × (get_reclaimed_segment m1 ≡ get_reclaimed_segment m)
      × (is_state_reclamation m1 ≡ is_state_reclamation m)
unfolding increment_reclaimed_offset set_reclaimed_offset get_reclaimed_offset get_reclaimed_segment
    is_state_reclamation get_reclaimed_segment_slot
increment_reclaimed_offset_lem m v l =
    let a = m.reclaimed_logical_addr in
    let (o, s, p) = set_logical_offset_lem (get_logical_offset a + 1) v (omega arith) in
    (o, s, ap (λ (x : ℕ). (m.n_segments == 509) && not (m.new_slot_id == m.seg_to_slot_map x)) s)

-- In reclamation, and only there, the reclaimed address counts as copied once its offset is advanced.
is_reclaimed-increment :
    (m : SegMap)
    → IsBytes m.reclaimed_logical_addr
    → get_reclaimed_offset m < 128
    → is_reclaimed (increment_reclaimed_offset m) m.reclaimed_logical_addr ≡ is_state_reclamation m
unfolding is_reclaimed get_reclaimed_segment get_reclaimed_offset
is_reclaimed-increment m v l =
    let (o, s, r) = increment_reclaimed_offset_lem m v l in ground (arith, o, s, r)

-- Without a reserve unit, the chosen page is where the reclaimed address is expected once its offset
-- has been advanced.
expected_page-increment :
    (m : SegMap)
    → IsBytes m.reclaimed_logical_addr
    → get_reclaimed_offset m < 128
    → (m.reserve_eu_addr == phy_address_empty) ≡ true
    → expected_page (increment_reclaimed_offset m) m.reclaimed_logical_addr ≡ calc_target_phy_addr m
unfolding expected_page calc_target_phy_addr increment_reclaimed_offset set_reclaimed_offset
    get_reclaimed_segment_slot get_reclaimed_segment get_reclaimed_offset
expected_page-increment m v l none_used =
    let a = m.reclaimed_logical_addr in
    ap
      (λ (b : Bool).
        if b
        then calc_address m.new_slot_id 0 (get_logical_offset a)
        else calc_address (m.seg_to_slot_map (get_logical_segment a)) 0 (get_logical_offset a))
      (is_reclaimed-increment m v l)
    ∙ ground arith

-- Where the segment being written has a slot, its offset lies in the slot, no reserve unit is in use
-- and the unit of the chosen page is good, the page that calc_target_phy_addr gives is the one that the
-- reclaimed address is translated to after its offset has been advanced, in and out of reclamation.
pub calc_target_phy_addr_lem :
    (chip : Chip) (m : SegMap)
    → IsBytes m.reclaimed_logical_addr
    → get_reclaimed_offset m < 128
    → (get_reclaimed_segment_slot m == seq_no_slot) ≡ false
    → (m.reserve_eu_addr == phy_address_empty) ≡ true
    → chip.check_eu_status (calc_eu_start (calc_target_phy_addr m)) ≡ true
    → logical_address_to_physical chip (increment_reclaimed_offset m) m.reclaimed_logical_addr
      ≡ some (calc_target_phy_addr m)
unfolding logical_address_to_physical increment_reclaimed_offset set_reclaimed_offset
    get_reclaimed_offset get_reclaimed_segment_slot get_reclaimed_segment
calc_target_phy_addr_lem chip m v l slot none_used good =
    rw (slot, expected_page-increment m v l none_used, good) (ground arith)

-- The slots of the allocated segments differ from each other and from the spare slot.
pub record IsInjective (m : SegMap) : Type 0 where
  pub slots_ne :
      (i j : ℕ)
      → (m.seg_to_slot_map i == seq_no_slot) ≡ false
      → m.seg_to_slot_map i ≡ m.seg_to_slot_map j
      → i ≡ j
  pub new_ne :
      (i : ℕ) → is_state_reclamation m ≡ true → (m.seg_to_slot_map i == m.new_slot_id) ≡ false

address_fields :
    (s t o p : ℕ) → o < 128 → p < 128 → calc_address s 0 o ≡ calc_address t 0 p → (s ≡ t) × (o ≡ p)
unfolding calc_address
address_fields s t o p lo lp e = omega arith

is_reclaimed_fields :
    (m : SegMap) (a : LogAddr)
    → is_reclaimed m a ≡ true
    → (is_state_reclamation m ≡ true) × (get_logical_segment a ≡ get_reclaimed_segment m)
unfolding is_reclaimed
is_reclaimed_fields m a e = ground arith

expected_page_inj :
    (m : SegMap) (a b : LogAddr)
    → IsInjective m
    → (m.seg_to_slot_map (get_logical_segment a) == seq_no_slot) ≡ false
    → get_logical_offset a < 128
    → get_logical_offset b < 128
    → expected_page m a ≡ expected_page m b
    → (get_logical_segment a ≡ get_logical_segment b)
      × (get_logical_offset a ≡ get_logical_offset b)
unfolding expected_page
expected_page_inj m a b inj slot la lb e = elim (Bool-cases (is_reclaimed m a)) [
  | inl ra ↦ elim (Bool-cases (is_reclaimed m b)) [
    | inl rb ↦
        let (s, o) = address_fields m.new_slot_id m.new_slot_id _ _ la lb (rw (ra, rb) at e) in
        (((is_reclaimed_fields m a ra).1) ∙ sym ((is_reclaimed_fields m b rb).1), o)
    | inr rb ↦
        let (s, o) = address_fields m.new_slot_id _ _ _ la lb (rw (ra, rb) at e) in
        absurd (ground (arith, inj.new_ne (get_logical_segment b) ((is_reclaimed_fields m a ra).0)))
  ]
  | inr ra ↦ elim (Bool-cases (is_reclaimed m b)) [
    | inl rb ↦
        let (s, o) = address_fields _ m.new_slot_id _ _ la lb (rw (ra, rb) at e) in
        absurd (ground (arith, inj.new_ne (get_logical_segment a) ((is_reclaimed_fields m b rb).0)))
    | inr rb ↦
        let (s, o) = address_fields _ _ _ _ la lb (rw (ra, rb) at e) in (inj.slots_ne _ _ slot s, o)
  ]
]

good_page :
    (chip : Chip) (m : SegMap) (a : LogAddr) (page : ℕ)
    → chip.check_eu_status (calc_eu_start (expected_page m a)) ≡ true
    → logical_address_to_physical chip m a ≡ some page
    → ((m.seg_to_slot_map (get_logical_segment a) == seq_no_slot) ≡ false)
      × (get_logical_offset a < 128)
      × (expected_page m a ≡ page)
unfolding logical_address_to_physical
good_page chip m a page g e = ground arith

-- Two logical addresses whose segments have slots, whose offsets lie in a slot and whose units are
-- good are translated to the same page only if their segments and offsets agree, where the slots of
-- the segments differ from each other and, in reclamation, from the new slot.
pub logical_address_to_physical_inj :
    (chip : Chip) (m : SegMap) (a b : LogAddr) (page : ℕ)
    → IsInjective m
    → chip.check_eu_status (calc_eu_start (expected_page m a)) ≡ true
    → chip.check_eu_status (calc_eu_start (expected_page m b)) ≡ true
    → logical_address_to_physical chip m a ≡ some page
    → logical_address_to_physical chip m b ≡ some page
    → (get_logical_segment a ≡ get_logical_segment b)
      × (get_logical_offset a ≡ get_logical_offset b)
logical_address_to_physical_inj chip m a b page inj ga gb ea eb =
    let (sa, la, pa) = good_page chip m a page ga ea in
    let (sb, lb, pb) = good_page chip m b page gb eb in
    expected_page_inj m a b inj sa la lb (pa ∙ sym pb)
