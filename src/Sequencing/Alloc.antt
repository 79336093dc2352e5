-- ===== src/Sequencing/Alloc.antt =====
-- Looking for a free page inside a segment: the inner loop of findNextFreePage of
-- NANDFS/src/sequencing/sequencingUtils.c. `none` stands for a failed assertion or a loop whose rounds
-- are used up.
pub mod Reclaimed
pub mod Walk
use nandfs.Base.{ℕ, zero, suc, not, ◌==◌, if◌then◌else◌, Option, none, some, ◌>>=◌}
use nandfs.Nand.{get_checkpoint_flag, get_obs_flag}
use nandfs.Sequencing.Reserve.{calc_offset_in_eu}
use nandfs.Sequencing.ValidEus.{calc_eu_start}
use nandfs.Sequencing.SegMap.{
  SegMap, phy_address_empty, is_eu_reserve_true, is_eu_reserve_false, get_reclaimed_offset,
  increment_reclaimed_offset, is_state_reclamation, is_seg_map_page_offset_overflowing,
  is_address_reserve,
}
use nandfs.Sequencing.Translate.{
  alloc_reserve_eu, calc_target_phy_addr, logical_address_to_physical,
}
use nandfs.Sequencing.Reclaim.{is_page_to_copy}
use nandfs.Sequencing.Pages.{Driver, Writer, chip_of, copy_valid_block}

abbrev pub error_flash_full : ℕ
error_flash_full = 3

abbrev pub error_no_reserve_eu : ℕ
error_no_reserve_eu = 4

-- Reserve units are bad ones' replacements: the result, the unit, and the map that names it.
unfoldable pub take_reserve : SegMap → ℕ → ℕ × ℕ × SegMap
take_reserve m found =
    let m1 = record m { is_eu_reserve = is_eu_reserve_true } in
    if found == phy_address_empty
    then (error_no_reserve_eu, found, m1)
    else (0, found, record m1 { reserve_eu_addr = found })

module _ {F : Type 0} (d : Driver F) where
  -- The page to write to at the start of a unit, or inside one.
  unfoldable pub enter_unit : Writer F → Option (ℕ × ℕ × Writer F)
  enter_unit w =
      let m = record (w.seg_map) {
        is_eu_reserve = is_eu_reserve_false;
        reserve_eu_addr = phy_address_empty;
      } in
      let target = calc_target_phy_addr m in
      let replaced = alloc_reserve_eu (chip_of d w.flash) m target >>= λ found.
      let (res, unit, m1) = take_reserve m found in some (res, unit, record w { seg_map = m1 }) in
      if d.check_eu_status w.flash (calc_eu_start target)
      then some (0, target, record w { seg_map = m })
      else replaced

  unfoldable pub find_target : Writer F → Option (ℕ × ℕ × Writer F)
  find_target w =
      let entered = enter_unit w in
      if calc_offset_in_eu (get_reclaimed_offset w.seg_map) == 0
      then entered
      else some (0, calc_target_phy_addr w.seg_map, w)

  -- The result of a return out of the loop, or `none` for the next round.
  unfoldable pub copy_page : Writer F → ℕ → ℕ → Option (Option ℕ × Writer F)
  copy_page w target phy_addr =
      copy_valid_block d w target (if is_address_reserve w.seg_map phy_addr then phy_addr else 0)
      >>= λ r.
          let (res, w1) = r in
          some (
            if res == 0
            then (none, record w1 { seg_map = increment_reclaimed_offset w1.seg_map })
            else (some 1, w1))

  unfoldable pub reclaim_page : ℕ → Writer F → ℕ → ℕ → Option (Option ℕ × Writer F)
  reclaim_page ok_error_code w target phy_addr =
      let flags = d.read_page_flags w.flash in
      let (copy, o) =
        is_page_to_copy (λ a. get_obs_flag 0 (flags a)) (λ a. get_checkpoint_flag 0 (flags a)) w.obs
          phy_addr in
      let w1 = record w { obs = o } in
      let copied = copy_page w1 target phy_addr in
      if copy == 0 then some (some ok_error_code, w1) else copied

  unfoldable pub use_target : ℕ → ℕ × ℕ × Writer F → Option (Option ℕ × Writer F)
  use_target ok_error_code (res, target, w) =
      let reclaimed =
        logical_address_to_physical (chip_of d w.flash) w.seg_map w.seg_map.reclaimed_logical_addr
        >>= reclaim_page ok_error_code w target in
      if not (res == 0)
      then some (some res, w)
      else if not (is_state_reclamation w.seg_map)
      then some (some ok_error_code, w)
      else reclaimed

  unfoldable pub next_round :
      (Writer F → Option (Option ℕ × Writer F)) → Option ℕ × Writer F → Option (Option ℕ × Writer F)
  next_round rest (none, w) = rest w
  next_round rest (some res, w) = some (some res, w)

  -- The inner loop of findNextFreePage in at most `k` rounds; `none` inside: the segment has ended.
  unfoldable pub copy_pages : ℕ → ℕ → Writer F → Option (Option ℕ × Writer F)
  copy_pages zero ok_error_code w = none
  copy_pages (suc k) ok_error_code w =
      let round =
        find_target w >>= use_target ok_error_code >>= next_round (copy_pages k ok_error_code) in
      if is_seg_map_page_offset_overflowing w.seg_map then some (none, w) else round
