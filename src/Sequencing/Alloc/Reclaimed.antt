-- ===== src/Sequencing/Alloc/Reclaimed.antt =====
-- Reclamation inside a segment: one round of the inner loop of findNextFreePage.
use nandfs.Base.{
  ℕ, ◌<◌, ◌≡◌, ◌⊎◌, inl, inr, refl, ap, ◌∙◌, Bool, true, false, not, ◌&&◌, ◌||◌, ◌==◌,
  if◌then◌else◌, Option, none, some, arith, Bool-cases, subst, ltb, ◌>>=◌,
}
use nandfs.Addr.{IsBytes, get_logical_segment, get_logical_offset, no_segment_num}
use nandfs.Nand.{get_checkpoint_flag, get_obs_flag}
use nandfs.Sequencing.Reserve.{calc_address, calc_offset_in_eu}
use nandfs.Sequencing.ValidEus.{calc_eu_start}
use nandfs.Sequencing.SegMap.{
  seq_no_slot, phy_address_empty, is_eu_reserve_true, is_eu_reserve_false, get_reclaimed_segment,
  get_reclaimed_offset, get_reclaimed_segment_slot, increment_reclaimed_offset,
  is_state_reclamation, is_address_reserve,
}
use nandfs.Sequencing.Translate.{
  is_reclaimed, expected_page, calc_target_phy_addr, logical_address_to_physical,
}
use nandfs.Sequencing.Reclaim.{is_page_to_copy, decrement_obs_count, decrement_free_count}
use nandfs.Sequencing.Pages.{Driver, Writer, chip_of, copy_from, copy_valid_block}
use nandfs.Sequencing.Pages.Copy.{IsCopy, IsDriver, IsFaulty, IsCopied, copy_from_lem}
use nandfs.Sequencing.Alloc.{enter_unit, find_target, copy_page, reclaim_page, use_target}

module _ {F : Type 0} (d : Driver F) where
  -- Whether the page is to be copied: not obsolete and of no checkpoint.
  abbrev pub is_valid : F → ℕ → Bool
  is_valid f a =
      not (get_obs_flag 0 (d.read_page_flags f a) == 0)
      && (get_checkpoint_flag 0 (d.read_page_flags f a) == 3)

  -- The segment in the slot `old` is being moved to the slot `new`, both of whose units are good; the
  -- pages of the old slot have 0xff in the byte for bad units.
  pub record IsReclaiming (old new : ℕ) (w : Writer F) : Type 0 where
    pub bytes : IsBytes w.seg_map.reclaimed_logical_addr
    pub some_segment : (get_reclaimed_segment w.seg_map == no_segment_num) ≡ false
    pub state : is_state_reclamation w.seg_map ≡ true
    pub from : get_reclaimed_segment_slot w.seg_map ≡ old
    pub to : w.seg_map.new_slot_id ≡ new
    pub ne : (old == new) ≡ false
    pub slot : (old == seq_no_slot) ≡ false
    pub regular : w.seg_map.is_eu_reserve ≡ is_eu_reserve_false
    pub unused : w.seg_map.reserve_eu_addr ≡ phy_address_empty
    pub good_old :
        (o : ℕ) → o < 128 → d.check_eu_status w.flash (calc_eu_start (calc_address old 0 o)) ≡ true
    pub good_new :
        (o : ℕ) → o < 128 → d.check_eu_status w.flash (calc_eu_start (calc_address new 0 o)) ≡ true
    pub unmarked :
        (o : ℕ) → o < 128 → ((d.read_page_total w.flash (calc_address old 0 o)).1) 517 ≡ 255

  -- One round at offset `o`: the page is not to be copied, and the search ends there; or it is copied and
  -- the offset is advanced; or the copy has failed.
  abbrev pub IsRound : ℕ → ℕ → ℕ → Writer F → Option ℕ × Writer F → Type 0
  IsRound ok_error_code old new w (res, r) =
      let o = get_reclaimed_offset w.seg_map in
      ((res ≡ some ok_error_code)
        × (is_valid w.flash (calc_address old 0 o) ≡ false)
        × (r.flash ≡ w.flash)
        × (r.seg_map ≡ w.seg_map))
      ⊎ ((is_valid w.flash (calc_address old 0 o) ≡ true)
          × (((res ≡ none)
                × (r.seg_map ≡ increment_reclaimed_offset w.seg_map)
                × IsCopy ((d.read_page_total w.flash (calc_address old 0 o)).1)
                    ((d.read_page_total r.flash (calc_address new 0 o)).1))
              ⊎ ((res ≡ some 1) × IsFaulty d w.flash (calc_address old 0 o) (calc_address new 0 o)))
          × ((c : ℕ)
              → (c == calc_address new 0 o) ≡ false
              → (d.read_page_total r.flash c ≡ d.read_page_total w.flash c)
                × (d.read_page_flags r.flash c ≡ d.read_page_flags w.flash c))
          × ((u : ℕ) → d.check_eu_status r.flash u ≡ d.check_eu_status w.flash u))

  module _ (ok_error_code old new : ℕ) (w : Writer F) (v : IsReclaiming old new w) where
    target_lem :
        calc_target_phy_addr w.seg_map ≡ calc_address new 0 (get_reclaimed_offset w.seg_map)
    unfolding calc_target_phy_addr
    target_lem =
        let e : (w.seg_map.reserve_eu_addr == phy_address_empty) ≡ true =
          ground (arith, v.unused) in
        rw (e, v.state, v.to) refl

    entered_map :
        record (w.seg_map) {
          is_eu_reserve = is_eu_reserve_false;
          reserve_eu_addr = phy_address_empty;
        }
        ≡ w.seg_map
    entered_map = rw (← v.regular, ← v.unused) refl

    find_target_lem :
        get_reclaimed_offset w.seg_map < 128
        → find_target d w ≡ some (0, calc_address new 0 (get_reclaimed_offset w.seg_map), w)
    unfolding find_target enter_unit
    find_target_lem l =
        let good : d.check_eu_status w.flash (calc_eu_start (calc_target_phy_addr w.seg_map))
            ≡ true =
          ap (λ a. d.check_eu_status w.flash (calc_eu_start a)) target_lem ∙ v.good_new _ l in
        elim (Bool-cases (calc_offset_in_eu (get_reclaimed_offset w.seg_map) == 0)) [
          | inl e ↦ rw (e, entered_map, good, target_lem) refl
          | inr e ↦ rw (e, target_lem) refl
        ]

    slot_lem :
        w.seg_map.seg_to_slot_map (get_logical_segment w.seg_map.reclaimed_logical_addr) ≡ old
    unfolding get_reclaimed_segment_slot get_reclaimed_segment
    slot_lem = v.from

    not_reclaimed : is_reclaimed w.seg_map w.seg_map.reclaimed_logical_addr ≡ false
    unfolding is_reclaimed get_reclaimed_offset
    not_reclaimed = ground arith

    expected_lem :
        expected_page w.seg_map w.seg_map.reclaimed_logical_addr
        ≡ calc_address old 0 (get_reclaimed_offset w.seg_map)
    unfolding expected_page get_reclaimed_offset
    expected_lem =
        rw not_reclaimed (
          ap (λ s. calc_address s 0 (get_logical_offset w.seg_map.reclaimed_logical_addr)) slot_lem)

    source_lem :
        get_reclaimed_offset w.seg_map < 128
        → logical_address_to_physical (chip_of d w.flash) w.seg_map w.seg_map.reclaimed_logical_addr
          ≡ some (calc_address old 0 (get_reclaimed_offset w.seg_map))
    unfolding logical_address_to_physical chip_of get_reclaimed_offset
    source_lem l =
        let slot : (w.seg_map.seg_to_slot_map (get_logical_segment w.seg_map.reclaimed_logical_addr)
              == seq_no_slot)
            ≡ false =
          ap (λ (s : ℕ). s == seq_no_slot) slot_lem ∙ v.slot in
        let low : ltb (get_logical_offset w.seg_map.reclaimed_logical_addr) 128 ≡ true =
          ground arith in
        rw (slot, low, expected_lem, v.good_old _ l) refl

    copy_page_lem :
        get_reclaimed_offset w.seg_map < 128
        → IsDriver d
        → is_valid w.flash (calc_address old 0 (get_reclaimed_offset w.seg_map)) ≡ true
        → (r : Option ℕ × Writer F) × (copy_page d w
              (calc_address new 0 (get_reclaimed_offset w.seg_map))
              (calc_address old 0 (get_reclaimed_offset w.seg_map))
            ≡ some r)
          × IsRound ok_error_code old new w r
    unfolding copy_page copy_valid_block
    copy_page_lem l driver valid =
        let o : ℕ = get_reclaimed_offset w.seg_map in
        let source : ℕ = calc_address old 0 o in
        let target : ℕ = calc_address new 0 o in
        let org : ℕ = if is_address_reserve w.seg_map source then source else 0 in
        let regular : (w.seg_map.is_eu_reserve == is_eu_reserve_true) ≡ false =
          ground (arith, v.regular) in
        let ((res, w1), ran) : (x : ℕ × Writer F) × (copy_from d w target org source ≡ x) =
          (copy_from d w target org source, refl) in
        let (done, kept, others, status) : IsCopied d w target source (res, w1) =
          subst (IsCopied d w target source) ran (
            copy_from_lem d w target org source driver v.bytes v.some_segment regular
              (v.unmarked o l) (v.good_new o l)) in
        elim done [
          | inl (ok, copied) ↦ (
            (none, record w1 { seg_map = increment_reclaimed_offset w1.seg_map }),
            rw (source_lem l, ok) refl,
            inr (
              valid,
              inl (refl, ap (λ u. increment_reclaimed_offset u.seg_map) kept, copied),
              others,
              status,
            ),
          )
          | inr (bad, fault) ↦ (
            (some 1, w1),
            rw (source_lem l, bad) refl,
            inr (valid, inr (refl, fault), others, status),
          )
        ]

    copied :
        (a : ℕ)
        → is_valid w.flash a ≡ true
        → ((get_obs_flag 0 (d.read_page_flags w.flash a) == 0)
            || not (get_checkpoint_flag 0 (d.read_page_flags w.flash a) == 3))
          ≡ false
    copied a e = ground (arith, e)

    not_copied :
        (a : ℕ)
        → is_valid w.flash a ≡ false
        → ((get_obs_flag 0 (d.read_page_flags w.flash a) == 0)
            || not (get_checkpoint_flag 0 (d.read_page_flags w.flash a) == 3))
          ≡ true
    not_copied a e = ground (arith, e)

    pub round_lem :
        get_reclaimed_offset w.seg_map < 128
        → IsDriver d
        → (r : Option ℕ × Writer F) × ((find_target d w >>= use_target d ok_error_code) ≡ some r)
          × IsRound ok_error_code old new w r
    unfolding use_target reclaim_page is_page_to_copy
    round_lem l driver =
        let a : ℕ = calc_address old 0 (get_reclaimed_offset w.seg_map) in
        elim (Bool-cases (is_valid w.flash a)) [
          | inl valid ↦
              let (r, ran, out) = copy_page_lem l driver valid in
              (r, rw (find_target_lem l, v.state, source_lem l, copied a valid, ran) refl, out)
          | inr invalid ↦ (
            (
              some ok_error_code,
              record w {
                obs =
                    if get_obs_flag 0 (d.read_page_flags w.flash a) == 0
                    then decrement_obs_count w.obs
                    else decrement_free_count w.obs;
              },
            ),
            rw (find_target_lem l, v.state, source_lem l, not_copied a invalid) refl,
            inl (refl, invalid, refl, refl),
          )
        ]
