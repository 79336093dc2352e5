-- ===== src/Sequencing/ReadCheckpoint/Translated.antt =====
-- The pages of a segment that is being allocated are found in its slot.
use nandfs.Base.{ℕ, ◌<◌, ◌≡◌, refl, ap, ◌∙◌, true, ltb, some, arith}
use nandfs.Addr.{LogAddr, get_logical_segment, get_logical_offset}
use nandfs.Sequencing.Reserve.{calc_address}
use nandfs.Sequencing.SegMap.{get_reclaimed_segment, get_reclaimed_segment_slot}
use nandfs.Sequencing.Translate.{logical_address_to_physical, expected_page, is_reclaimed}
use nandfs.Sequencing.Pages.{Driver, Writer, chip_of}
use nandfs.Sequencing.NextPage.Stored.{IsAllocating}

module _ {F : Type 0} (d : Driver F) where
  pub translated :
      (slot : ℕ) (w : Writer F) (a : LogAddr)
      → IsAllocating d slot w
      → get_logical_segment a ≡ get_reclaimed_segment w.seg_map
      → get_logical_offset a < 128
      → logical_address_to_physical (chip_of d w.flash) w.seg_map a
        ≡ some (calc_address slot 0 (get_logical_offset a))
  unfolding logical_address_to_physical expected_page is_reclaimed get_reclaimed_segment_slot
      chip_of
  translated slot w a v seg l =
      let at : w.seg_map.seg_to_slot_map (get_logical_segment a) ≡ slot =
        ap w.seg_map.seg_to_slot_map seg ∙ v.at in
      let inside : ltb (get_logical_offset a) 128 ≡ true = ground arith in
      rw (v.state, at, v.some_slot, inside, v.good (get_logical_offset a) l) refl
