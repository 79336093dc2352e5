-- ===== src/Sequencing/NextPage/Readback.antt =====
-- Reading back what allocAndWriteBlock has written.
use nandfs.Base.{
  ℕ, ◌+◌, ◌<◌, ◌≤◌, ◌≡◌, refl, ap, ◌∙◌, inl, inr, Bool, true, false, ◌&&◌, ◌==◌, if◌then◌else◌,
  Option, some, arith, Bool-cases, ltb, update,
}
use nandfs.Addr.{
  LogAddr, IsBytes, empty_address, copy_truncated_logical_address, get_logical_segment,
  get_logical_offset, no_segment_num, is_address_empty,
}
use nandfs.Addr.Fields.{copy_truncated_logical_address_lem}
use nandfs.Nand.{
  Bytes, get_vots_flag, get_bit, set_bit, set_vots_flag, set_seg_type_flag,
  copy_prev_address_to_flags, prev_address,
}
use nandfs.Sequencing.Reserve.{calc_address}
use nandfs.Sequencing.ValidEus.{calc_eu_start}
use nandfs.Sequencing.SegMap.{
  SegMap, seq_no_slot, phy_address_empty, is_eu_reserve_true, get_reclaimed_segment,
  get_reclaimed_offset, get_reclaimed_segment_slot,
}
use nandfs.Sequencing.Translate.{calc_target_phy_addr, logical_address_to_physical}
use nandfs.Sequencing.Translate.Target.{calc_target_phy_addr_lem, increment_reclaimed_offset_lem}
use nandfs.Sequencing.Pages.{Driver, Writer, chip_of, write_block}
use nandfs.Sequencing.Pages.Copy.{flags_cong, IsDriver}
use nandfs.Sequencing.NextPage.{
  is_flash_full, is_no_reserve_eus, find_next_free_page, page_buf, advance, alloc_and_write_block,
}
use nandfs.Sequencing.NextPage.Written.{write_block_written, increment-IsAllocating}
use nandfs.Sequencing.NextPage.Stored.{IsAllocating, target_lem, find_next_free_page_lem}

-- The buffer of a block that is written outside the reserve units.
abbrev page_image : Bytes → Bool → LogAddr → Bytes
page_image content only_vots prev = set_seg_type_flag 512 (page_buf content only_vots prev 0) 3

image_content :
    (content : Bytes) (only_vots : Bool) (prev : LogAddr) (i : ℕ)
    → i < 512
    → page_image content only_vots prev i ≡ content i
unfolding page_buf set_seg_type_flag set_vots_flag set_bit copy_prev_address_to_flags update
image_content content only_vots prev i l =
    let (a, b, c, e, f) : ((i == 516) ≡ false)
        × ((i == 514) ≡ false)
        × ((i == 513) ≡ false)
        × ((i == 512) ≡ false)
        × (ltb i 512 ≡ true) =
      ground arith in
    elim (Bool-cases only_vots) [
      | inl g ↦ rw (g, a, b, c, e, f) refl
      | inr g ↦ rw (g, a, b, c, e, f) refl
    ]

buf_bad :
    (content : Bytes) (only_vots : Bool) (prev : LogAddr)
    → page_buf content only_vots prev 0 517 ≡ 255
unfolding page_buf set_vots_flag set_bit copy_prev_address_to_flags update
buf_bad content true prev = refl
buf_bad content false prev = refl

image_vots :
    (content : Bytes) (only_vots : Bool) (prev : LogAddr)
    → get_vots_flag 512 (page_image content only_vots prev) ≡ (if only_vots then 0 else 3)
unfolding page_buf get_vots_flag get_bit set_seg_type_flag set_vots_flag set_bit
    copy_prev_address_to_flags update
image_vots content true prev = refl
image_vots content false prev = refl

truncated :
    (prev : LogAddr)
    → IsBytes prev
    → let a = copy_truncated_logical_address empty_address prev in
      (a.byte0 ≡ prev.byte0) × (a.byte1 ≡ prev.byte1) × (a.byte2 ≡ prev.byte2)
truncated prev v =
    let e =
      copy_truncated_logical_address_lem empty_address prev
        (record { in0 = omega arith; in1 = omega arith; in2 = omega arith; in3 = omega arith }) v in
    (ap (λ a. a.byte0) e, ap (λ a. a.byte1) e, ap (λ a. a.byte2) e)

image_prev :
    (content : Bytes) (only_vots : Bool) (prev : LogAddr)
    → IsBytes prev
    → (page_image content only_vots prev 512 ≡ prev.byte0)
      × (page_image content only_vots prev 513 ≡ prev.byte1)
      × (page_image content only_vots prev 514 ≡ prev.byte2)
unfolding page_buf set_seg_type_flag set_vots_flag set_bit copy_prev_address_to_flags prev_address
    update
image_prev content true prev v = truncated prev v
image_prev content false prev v = truncated prev v

pub not_empty :
    (m : SegMap)
    → (get_reclaimed_segment m == no_segment_num) ≡ false
    → is_address_empty m.reclaimed_logical_addr ≡ false
unfolding is_address_empty get_reclaimed_segment
not_empty m ne = ne

next_page_ne : (slot o : ℕ) → (calc_address slot 0 (o + 1) == calc_address slot 0 o) ≡ false
unfolding calc_address
next_page_ne slot o = ground arith

module _ {F : Type 0} (d : Driver F) where
  -- The page holds the content, whether it is one of votes, and the previous address.
  abbrev pub Holds : Bytes → Bytes → Bool → LogAddr → Type 0
  Holds q content only_vots prev =
      ((i : ℕ) → i < 512 → q i ≡ content i)
      × (get_vots_flag 512 q ≡ (if only_vots then 0 else 3))
      × (get_logical_offset (prev_address 512 q) ≡ get_logical_offset prev)
      × (get_logical_segment (prev_address 512 q) ≡ get_logical_segment prev)

  image-Holds :
      (q content : Bytes) (only_vots : Bool) (prev : LogAddr)
      → IsBytes prev
      → ((i : ℕ) → i < 527 → q i ≡ page_image content only_vots prev i)
      → Holds q content only_vots prev
  unfolding get_vots_flag get_bit get_logical_offset get_logical_segment prev_address
  image-Holds q content only_vots prev v same =
      let (a, b, c) = image_prev content only_vots prev v in
      let (e0, e1, e2) : (q 512 ≡ prev.byte0) × (q 513 ≡ prev.byte1) × (q 514 ≡ prev.byte2) =
        (same 512 (omega arith) ∙ a, same 513 (omega arith) ∙ b, same 514 (omega arith) ∙ c) in
      (
        (λ i l. same i (omega arith) ∙ image_content content only_vots prev i l),
        (flags_cong q (page_image content only_vots prev) (same 516 (omega arith))).1
            ∙ image_vots content only_vots prev,
        rw (e0, e1) refl,
        rw (e1, e2) refl,
      )

  advance-IsAllocating :
      (slot : ℕ) (w : Writer F) (f : F)
      → IsAllocating d slot w
      → get_reclaimed_offset w.seg_map < 128
      → ((u : ℕ) → d.check_eu_status f u ≡ d.check_eu_status w.flash u)
      → IsAllocating d slot (advance (record w { flash = f }))
  unfolding advance
  advance-IsAllocating slot w f v l status =
      increment-IsAllocating d slot w (advance (record w { flash = f })) refl v l status

  -- The flash once the page is programmed, and what is known of it.
  abbrev IsBlock : Writer F → ℕ → Bytes → Bool → LogAddr → F → Type 0
  IsBlock w page content only_vots prev f =
      (write_block d w (page_buf content only_vots prev 0) page
        ≡ (w.seg_map.reclaimed_logical_addr, record w { flash = f }))
      × Holds ((d.read_page_total f page).1) content only_vots prev
      × ((c : ℕ) → (c == page) ≡ false → d.read_page_total f c ≡ d.read_page_total w.flash c)
      × ((u : ℕ) → d.check_eu_status f u ≡ d.check_eu_status w.flash u)

  write_block_lem :
      (slot page : ℕ) (w : Writer F) (content : Bytes) (only_vots : Bool) (prev : LogAddr)
      → IsDriver d
      → IsAllocating d slot w
      → IsBytes prev
      → d.check_eu_status w.flash (calc_eu_start page) ≡ true
      → ((b : Bytes) (len : ℕ) → 527 ≤ len → (d.program_page_a w.flash b page len).0 ≡ 0)
      → (f : F) × IsBlock w page content only_vots prev f
  write_block_lem slot page w content only_vots prev driver v bytes good succeeds =
      let (f, (wrote, same, others, status, _)) =
        write_block_written d slot page w (page_buf content only_vots prev 0) driver v
          (buf_bad content only_vots prev) good succeeds in
      (f, (wrote, image-Holds _ content only_vots prev bytes same, others, status))

  -- The page at the offset is written, found again and left alone by what follows.
  abbrev pub IsStored :
      (Writer F → Option (ℕ × Writer F))
      → (Writer F → Option (ℕ × Writer F))
      → ℕ
      → Writer F
      → LogAddr
      → Bytes
      → Bool
      → LogAddr
      → Type 0
  IsStored wear cp slot w log_addr content only_vots prev =
      (r : Writer F) × (alloc_and_write_block d wear cp w log_addr content only_vots prev 0
        ≡ some (0, w.seg_map.reclaimed_logical_addr, r))
      × (logical_address_to_physical (chip_of d r.flash) r.seg_map w.seg_map.reclaimed_logical_addr
          ≡ some (calc_address slot 0 (get_reclaimed_offset w.seg_map)))
      × Holds ((d.read_page_total r.flash (calc_address slot 0 (get_reclaimed_offset w.seg_map))).1)
          content only_vots prev
      × ((c : ℕ)
          → (c == calc_address slot 0 (get_reclaimed_offset w.seg_map)) ≡ false
          → d.read_page_total r.flash c ≡ d.read_page_total w.flash c)
      × IsAllocating d slot r
      × (get_reclaimed_offset r.seg_map ≡ get_reclaimed_offset w.seg_map + 1)
      × (calc_target_phy_addr r.seg_map ≡ calc_address slot 0 (get_reclaimed_offset w.seg_map + 1))
      × (d.read_page_total r.flash (calc_target_phy_addr r.seg_map)
          ≡ d.read_page_total w.flash (calc_target_phy_addr r.seg_map))

  -- Where a segment is being allocated in a slot of good units, the page at its offset is neither the
  -- first nor the last one of the slot, the chip does not count as full and the program of the page
  -- succeeds, a block that is not part of a commit is written with success: the address given is the
  -- reclaimed one, it is translated to that page, and the page holds the content, the mark for votes and
  -- the previous address. No other page is changed, the offset has gone up by one and the segment is
  -- still being allocated. The next write is aimed at the page behind this one in the slot, which reads
  -- as it did before.
  pub alloc_and_write_block_lem :
      (wear cp : Writer F → Option (ℕ × Writer F)) (slot : ℕ) (w : Writer F) (log_addr : LogAddr)
      (content : Bytes) (only_vots : Bool) (prev : LogAddr)
      → IsDriver d
      → IsAllocating d slot w
      → IsBytes prev
      → 1 ≤ get_reclaimed_offset w.seg_map
      → get_reclaimed_offset w.seg_map < 127
      → is_flash_full w.obs ≡ false
      → ((b : Bytes) (len : ℕ)
          → 527 ≤ len
          → (d.program_page_a w.flash b
              (calc_address slot 0 (get_reclaimed_offset w.seg_map))
              len).0
            ≡ 0)
      → IsStored wear cp slot w log_addr content only_vots prev
  unfolding alloc_and_write_block is_no_reserve_eus advance chip_of
  alloc_and_write_block_lem wear cp slot w log_addr content only_vots prev driver v bytes a l
        not_full succeeds =
      let page : ℕ = calc_address slot 0 (get_reclaimed_offset w.seg_map) in
      let (f, (wrote, held, others, status)) =
        write_block_lem slot page w content only_vots prev driver v bytes (v.good _ (omega arith))
          succeeds in
      let r : Writer F = advance (record w { flash = f }) in
      let next : IsAllocating d slot r = advance-IsAllocating slot w f v (omega arith) status in
      let up : get_reclaimed_offset r.seg_map ≡ get_reclaimed_offset w.seg_map + 1 =
        (increment_reclaimed_offset_lem w.seg_map v.bytes (omega arith)).0 in
      let reserves : ((w.seg_map.is_eu_reserve == is_eu_reserve_true)
            && (w.seg_map.reserve_eu_addr == phy_address_empty))
          ≡ false =
        ground (arith, v.regular) in
      let filled : is_address_empty w.seg_map.reclaimed_logical_addr ≡ false =
        not_empty w.seg_map v.some_segment in
      let free : find_next_free_page d wear cp 0 r ≡ some (0, r) =
        find_next_free_page_lem d slot r next wear cp 0 (omega (arith, up)) (omega (arith, up)) in
      let aim : calc_target_phy_addr r.seg_map
          ≡ calc_address slot 0 (get_reclaimed_offset w.seg_map + 1) =
        target_lem d slot r next ∙ ap (calc_address slot 0) up in
      let unused : (w.seg_map.reserve_eu_addr == phy_address_empty) ≡ true =
        ground (arith, v.unused) in
      let some_slot : (get_reclaimed_segment_slot w.seg_map == seq_no_slot) ≡ false =
        ap (λ (x : ℕ). x == seq_no_slot) v.at ∙ v.some_slot in
      let target = target_lem d slot w v in
      let good : (chip_of d r.flash).check_eu_status
            (calc_eu_start (calc_target_phy_addr w.seg_map))
          ≡ true =
        ap (λ a. d.check_eu_status f (calc_eu_start a)) target
        ∙ status _
        ∙ v.good _ (omega arith) in
      (
        r,
        rw (target, wrote, not_full, reserves, filled, free) refl,
        calc_target_phy_addr_lem (chip_of d r.flash) w.seg_map v.bytes (omega arith) some_slot
              unused good
            ∙ ap some target,
        held,
        others,
        next,
        up,
        aim,
        others _ (ap (λ c. c == page) aim ∙ next_page_ne slot (get_reclaimed_offset w.seg_map)),
      )
