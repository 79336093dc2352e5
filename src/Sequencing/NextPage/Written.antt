-- ===== src/Sequencing/NextPage/Written.antt =====
-- A write to the reclaimed address of a segment that is being allocated.
use nandfs.Base.{
  ℕ, ◌<◌, ◌≤◌, ◌≡◌, refl, ap, ◌∙◌, inl, inr, true, false, ◌==◌, if◌then◌else◌, arith, Bool-cases,
  update,
}
use nandfs.Addr.{empty_address, no_segment_num, copy_logical_address}
use nandfs.Addr.Fields.{copy_logical_address_lem}
use nandfs.Nand.{Bytes, set_seg_type_flag, set_bit, get_obs_flag}
use nandfs.Sequencing.ValidEus.{calc_eu_start}
use nandfs.Sequencing.SegMap.{
  SegMap, is_eu_reserve_true, get_reclaimed_segment, get_reclaimed_offset,
  get_reclaimed_segment_slot, increment_reclaimed_offset, set_reclaimed_offset,
  is_state_reclamation,
}
use nandfs.Sequencing.Translate.Target.{increment_reclaimed_offset_lem}
use nandfs.Sequencing.Alloc.Walk.{increment-IsBytes}
use nandfs.Sequencing.Pages.{
  Driver, Writer, nand_program_total_page, block_buffer, block_page, write_block,
}
use nandfs.Sequencing.Pages.Copy.{IsDriver}
use nandfs.Sequencing.NextPage.Stored.{IsAllocating}

set_seg_type_flag_bad : (b : Bytes) (v : ℕ) → set_seg_type_flag 512 b v 517 ≡ b 517
unfolding set_seg_type_flag set_bit update
set_seg_type_flag_bad b v = refl

slot_of :
    (m : SegMap)
    → get_reclaimed_segment (increment_reclaimed_offset m) ≡ get_reclaimed_segment m
    → get_reclaimed_segment_slot (increment_reclaimed_offset m) ≡ get_reclaimed_segment_slot m
unfolding get_reclaimed_segment_slot increment_reclaimed_offset set_reclaimed_offset
slot_of m s = ap m.seg_to_slot_map s

module _ {F : Type 0} (d : Driver F) where
  -- The flash once the buffer is programmed into the page with success.
  abbrev pub IsWritten : Writer F → ℕ → Bytes → F → Type 0
  IsWritten w page buf f =
      (write_block d w buf page ≡ (w.seg_map.reclaimed_logical_addr, record w { flash = f }))
      × ((i : ℕ) → i < 527 → ((d.read_page_total f page).1) i ≡ set_seg_type_flag 512 buf 3 i)
      × ((c : ℕ) → (c == page) ≡ false → d.read_page_total f c ≡ d.read_page_total w.flash c)
      × ((u : ℕ) → d.check_eu_status f u ≡ d.check_eu_status w.flash u)
      × ((b : Bytes) × (len : ℕ) × (527 ≤ len) × (f ≡ (d.program_page_a w.flash b page len).1))

  pub write_block_written :
      (slot page : ℕ) (w : Writer F) (buf : Bytes)
      → IsDriver d
      → IsAllocating d slot w
      → buf 517 ≡ 255
      → d.check_eu_status w.flash (calc_eu_start page) ≡ true
      → ((b : Bytes) (len : ℕ) → 527 ≤ len → (d.program_page_a w.flash b page len).0 ≡ 0)
      → (f : F) × IsWritten w page buf f
  unfolding write_block block_buffer block_page nand_program_total_page
  write_block_written slot page w buf driver v bad good succeeds =
      let img : Bytes = set_seg_type_flag 512 buf 3 in
      let len : ℕ = if get_obs_flag 512 img == 0 then 528 else 527 in
      let long : 527 ≤ len = elim (Bool-cases (get_obs_flag 512 img == 0)) [
        | inl e ↦ rw e (omega arith)
        | inr e ↦ rw e (omega arith)
      ] in
      let regular : (w.seg_map.is_eu_reserve == is_eu_reserve_true) ≡ false =
        ground (arith, v.regular) in
      let address : copy_logical_address empty_address w.seg_map.reclaimed_logical_addr
          ≡ w.seg_map.reclaimed_logical_addr =
        copy_logical_address_lem empty_address w.seg_map.reclaimed_logical_addr
          (record { in0 = omega arith; in1 = omega arith; in2 = omega arith; in3 = omega arith })
          v.bytes in
      (
        (d.program_page_a w.flash img page len).1,
        (
          rw (regular, succeeds img len long, address) refl,
          (λ i l.
              driver.programmed w.flash img page len (succeeds img len long) i (omega (arith, long))
                (omega arith)),
          (λ c h. (driver.others w.flash img page len c h).0),
          (λ u. driver.status w.flash img page len u (set_seg_type_flag_bad buf 3 ∙ bad) good),
          (img, len, long, refl),
        ),
      )

  -- Any state with the offset advanced and the same good units.
  pub increment-IsAllocating :
      (slot : ℕ) (w r : Writer F)
      → r.seg_map ≡ increment_reclaimed_offset w.seg_map
      → IsAllocating d slot w
      → get_reclaimed_offset w.seg_map < 128
      → ((u : ℕ) → d.check_eu_status r.flash u ≡ d.check_eu_status w.flash u)
      → IsAllocating d slot r
  unfolding increment_reclaimed_offset set_reclaimed_offset
  increment-IsAllocating slot w r e v l status =
      let (o, s, state) = increment_reclaimed_offset_lem w.seg_map v.bytes l in
      record {
        bytes = rw e (increment-IsBytes w.seg_map v.bytes);
        some_segment =
            ap (λ m. get_reclaimed_segment m == no_segment_num) e
            ∙ ap (λ (x : ℕ). x == no_segment_num) s
            ∙ v.some_segment;
        state = ap is_state_reclamation e ∙ state ∙ v.state;
        at = ap get_reclaimed_segment_slot e ∙ slot_of w.seg_map s ∙ v.at;
        some_slot = v.some_slot;
        regular = ap (λ m. m.is_eu_reserve) e ∙ v.regular;
        unused = ap (λ m. m.reserve_eu_addr) e ∙ v.unused;
        good = λ p lp. status _ ∙ v.good p lp;
      }
