-- ===== src/Sequencing/NextPage/Stored.antt =====
-- What allocAndWriteBlock writes inside a segment that is being allocated is read back at the address
-- it gives.
use nandfs.Base.{
  ℕ, suc, ◌<◌, ◌≤◌, ◌≡◌, refl, ap, ◌∙◌, inl, inr, true, false, ◌==◌, Option, some, arith,
  Bool-cases,
}
use nandfs.Addr.{IsBytes, no_segment_num}
use nandfs.Sequencing.Reserve.{calc_address, calc_offset_in_eu}
use nandfs.Sequencing.ValidEus.{calc_eu_start}
use nandfs.Sequencing.SegMap.{
  seq_no_slot, phy_address_empty, is_eu_reserve_false, get_reclaimed_segment, get_reclaimed_offset,
  get_reclaimed_segment_slot, is_state_reclamation, is_seg_map_page_offset_overflowing,
}
use nandfs.Sequencing.Translate.{calc_target_phy_addr}
use nandfs.Sequencing.Pages.{Driver, Writer}
use nandfs.Sequencing.Alloc.{enter_unit, find_target, use_target, copy_pages, next_round}
use nandfs.Sequencing.NextPage.{after_pages, find_in_segments, find_next_free_page}

module _ {F : Type 0} (d : Driver F) where
  -- A segment is being allocated in its slot, all of whose units are good.
  pub record IsAllocating (slot : ℕ) (w : Writer F) : Type 0 where
    pub bytes : IsBytes w.seg_map.reclaimed_logical_addr
    pub some_segment : (get_reclaimed_segment w.seg_map == no_segment_num) ≡ false
    pub state : is_state_reclamation w.seg_map ≡ false
    pub at : get_reclaimed_segment_slot w.seg_map ≡ slot
    pub some_slot : (slot == seq_no_slot) ≡ false
    pub regular : w.seg_map.is_eu_reserve ≡ is_eu_reserve_false
    pub unused : w.seg_map.reserve_eu_addr ≡ phy_address_empty
    pub good :
        (o : ℕ) → o < 128 → d.check_eu_status w.flash (calc_eu_start (calc_address slot 0 o)) ≡ true

  module _ (slot : ℕ) (w : Writer F) (v : IsAllocating slot w) where
    pub target_lem :
        calc_target_phy_addr w.seg_map ≡ calc_address slot 0 (get_reclaimed_offset w.seg_map)
    unfolding calc_target_phy_addr
    target_lem =
        let e : (w.seg_map.reserve_eu_addr == phy_address_empty) ≡ true =
          ground (arith, v.unused) in
        rw (e, v.state, v.at) refl

    entered_map :
        record (w.seg_map) {
          is_eu_reserve = is_eu_reserve_false;
          reserve_eu_addr = phy_address_empty;
        }
        ≡ w.seg_map
    entered_map = rw (← v.regular, ← v.unused) refl

    find_target_lem :
        get_reclaimed_offset w.seg_map < 128
        → find_target d w ≡ some (0, calc_address slot 0 (get_reclaimed_offset w.seg_map), w)
    unfolding find_target enter_unit
    find_target_lem l =
        let good : d.check_eu_status w.flash (calc_eu_start (calc_target_phy_addr w.seg_map))
            ≡ true =
          ap (λ a. d.check_eu_status w.flash (calc_eu_start a)) target_lem ∙ v.good _ l in
        elim (Bool-cases (calc_offset_in_eu (get_reclaimed_offset w.seg_map) == 0)) [
          | inl e ↦ rw (e, entered_map, good, target_lem) refl
          | inr e ↦ rw (e, target_lem) refl
        ]

    inside_lem :
        1 ≤ get_reclaimed_offset w.seg_map
        → get_reclaimed_offset w.seg_map < 128
        → is_seg_map_page_offset_overflowing w.seg_map ≡ false
    unfolding is_seg_map_page_offset_overflowing
    inside_lem a l = ground arith

    copy_pages_free :
        (k ok_error_code : ℕ)
        → 1 ≤ get_reclaimed_offset w.seg_map
        → get_reclaimed_offset w.seg_map < 128
        → copy_pages d (suc k) ok_error_code w ≡ some (some ok_error_code, w)
    unfolding copy_pages use_target next_round
    copy_pages_free k ok_error_code a l = rw (inside_lem a l, find_target_lem l, v.state) refl

    find_in_segments_free :
        (wear cp : Writer F → Option (ℕ × Writer F)) (n ok_error_code : ℕ)
        → 1 ≤ get_reclaimed_offset w.seg_map
        → get_reclaimed_offset w.seg_map < 128
        → find_in_segments d wear cp (suc n) ok_error_code false w ≡ some (ok_error_code, w)
    unfolding find_in_segments after_pages
    find_in_segments_free wear cp n ok_error_code a l =
        let here : copy_pages d 129 ok_error_code w ≡ some (some ok_error_code, w) =
          copy_pages_free 128 ok_error_code a l in
        rw (inside_lem a l, here) refl

    -- Inside the slot the page at the offset is free.
    pub find_next_free_page_lem :
        (wear cp : Writer F → Option (ℕ × Writer F)) (ok_error_code : ℕ)
        → 1 ≤ get_reclaimed_offset w.seg_map
        → get_reclaimed_offset w.seg_map < 128
        → find_next_free_page d wear cp ok_error_code w ≡ some (ok_error_code, w)
    unfolding find_next_free_page
    find_next_free_page_lem wear cp ok_error_code a l =
        find_in_segments_free wear cp 508 ok_error_code a l
