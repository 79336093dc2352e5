-- ===== src/Sequencing/NextPage.antt =====
-- Allocating and writing a page: findNextFreePage and is_flash_full of
-- NANDFS/src/sequencing/sequencingUtils.c and allocAndWriteBlock of NANDFS/src/sequencing/sequencing.c.
pub mod Stored
pub mod Written
pub mod Readback
use nandfs.Base.{
  ℕ, zero, suc, ◌+◌, Bool, true, false, ◌&&◌, ltb, ◌==◌, if◌then◌else◌, Option, none, some, ◌>>=◌,
}
use nandfs.Addr.{LogAddr, is_address_empty}
use nandfs.Nand.{Bytes, set_vots_flag, copy_prev_address_to_flags}
use nandfs.Sequencing.Counters.{change_counter_level}
use nandfs.Sequencing.SegMap.{
  SegMap, seq_segments_count, phy_address_empty, is_eu_reserve_true, get_reclaimed_segment,
  increment_reclaimed_offset, is_state_reclamation, is_seg_map_page_offset_overflowing,
}
use nandfs.Sequencing.Translate.{calc_target_phy_addr}
use nandfs.Sequencing.Reclaim.{ObsCounters, obs_count_full, decrement_free_count}
use nandfs.Sequencing.Pages.{Driver, Writer, write_block}
use nandfs.Sequencing.Alloc.{error_flash_full, error_no_reserve_eu, copy_pages}
use nandfs.Sequencing.NextSegment.{move_to_next_segment}

abbrev pub is_commit_not : ℕ
is_commit_not = 0

abbrev pub is_commit_last : ℕ
is_commit_last = 2

-- The loop of is_flash_full with `n` segments left from `i` on. IS_SEGMENT_FULL takes the byte at the
-- number of the segment; what lies behind the 256 counters is read too.
unfoldable pub all_full : ℕ → (ℕ → ℕ) → ℕ → Bool
all_full zero counters i = true
all_full (suc n) counters i = (counters i == obs_count_full) && all_full n counters (i + 1)

unfoldable pub is_flash_full : ObsCounters → Bool
is_flash_full o = all_full seq_segments_count o.counters 0

-- IS_NO_RESERVE_EUS
unfoldable pub is_no_reserve_eus : SegMap → Bool
is_no_reserve_eus m =
    (m.is_eu_reserve == is_eu_reserve_true) && (m.reserve_eu_addr == phy_address_empty)

-- The page to be written. In a commit the caller's buffer is the one that is written.
unfoldable pub page_buf : Bytes → Bool → LogAddr → ℕ → Bytes
page_buf content only_vots prev is_commit =
    let buf =
      if is_commit == is_commit_not
      then (λ i. if ltb i 512 then content i else 0xff)
      else content in
    copy_prev_address_to_flags 512 (if only_vots then set_vots_flag 512 buf 0 else buf) prev

-- Once the page is written.
unfoldable pub advance : {F : Type 0} → Writer F → Writer F
advance w = record w {
  seg_map = increment_reclaimed_offset w.seg_map;
  obs = if is_state_reclamation w.seg_map then w.obs else decrement_free_count w.obs;
}

module _ {F : Type 0} (d : Driver F) (perform_wear_leveling : Writer F → Option (ℕ × Writer F))
    (cp_write : Writer F → Option (ℕ × Writer F)) where
  -- The end of a round of the outer loop.
  unfoldable pub after_pages :
      Bool → (Bool → Writer F → Option (ℕ × Writer F)) → Option ℕ × Writer F → Option (ℕ × Writer F)
  after_pages moved rest (some res, w) = some (res, w)
  after_pages moved rest (none, w) =
      let o = record (w.obs) {
        counters =
            change_counter_level w.obs.counters obs_count_full (get_reclaimed_segment w.seg_map);
      } in
      rest moved (if moved then record w { obs = o } else w)

  -- The outer loop with `n` rounds left; a slot has 128 pages.
  unfoldable pub find_in_segments : ℕ → ℕ → Bool → Writer F → Option (ℕ × Writer F)
  find_in_segments zero ok_error_code moved w = some (error_flash_full, w)
  find_in_segments (suc n) ok_error_code moved w =
      let rest = find_in_segments n ok_error_code in
      let here = copy_pages d 129 ok_error_code w >>= after_pages moved rest in
      let next = move_to_next_segment d perform_wear_leveling cp_write w >>= λ r.
      (if r.0 == 0
        then (copy_pages d 129 ok_error_code (r.1) >>= after_pages true rest)
        else some r) in
      if is_seg_map_page_offset_overflowing w.seg_map then next else here

  unfoldable pub find_next_free_page : ℕ → Writer F → Option (ℕ × Writer F)
  find_next_free_page ok_error_code w = find_in_segments seq_segments_count ok_error_code false w

  -- The caller's address is left as it is in the first two cases.
  unfoldable pub alloc_and_write_block :
      Writer F → LogAddr → Bytes → Bool → LogAddr → ℕ → Option (ℕ × LogAddr × Writer F)
  alloc_and_write_block w log_addr content only_vots prev is_commit =
      let (written, w1) =
        write_block d w (page_buf content only_vots prev is_commit)
          (calc_target_phy_addr w.seg_map) in
      let w2 = advance w1 in
      let next = find_next_free_page (if is_address_empty written then 1 else 0) w2 >>= λ r.
      some (r.0, written, r.1) in
      if is_flash_full w.obs
      then some (error_flash_full, log_addr, w)
      else if is_no_reserve_eus w.seg_map
      then some (error_no_reserve_eu, log_addr, w)
      else if is_commit == is_commit_last
      then some (0, written, w2)
      else next
