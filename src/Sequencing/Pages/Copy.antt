-- ===== src/Sequencing/Pages/Copy.antt =====
-- What a copy of a page keeps of it, and what copyValidBlock leaves in the flash.
use nandfs.Base.{
  ℕ, ◌<◌, ◌≤◌, ◌≡◌, ◌≢◌, ◌⊎◌, inl, inr, refl, ap, ◌∙◌, true, false, ◌==◌, if◌then◌else◌, update,
  arith, Bool-cases, ==_iff,
}
use nandfs.Addr.{IsBytes, empty_address, copy_logical_address, is_address_empty, no_segment_num}
use nandfs.Addr.Fields.{copy_logical_address_lem}
use nandfs.Nand.{
  Bytes, get_bit, set_bit, get_checkpoint_flag, get_vots_flag, get_copy_flag, get_obs_flag,
  get_seg_type_flag, set_copy_flag, set_slot_eu_offset, set_seg_type_flag,
}
use nandfs.Nand.Flags.{get_copy_flag-set_copy_flag, set_copy_flag_others, set_seg_type_flag_used}
use nandfs.Sequencing.Reserve.{calculate_slot_id_and_eu_offset}
use nandfs.Sequencing.Translate.{seq_no_slot_and_eu_offset}
use nandfs.Sequencing.ValidEus.{calc_eu_start}
use nandfs.Sequencing.SegMap.{SegMap, get_reclaimed_segment, phy_address_empty, is_eu_reserve_true}
use nandfs.Sequencing.Pages.{
  Driver, Writer, nand_program_total_page, block_buffer, block_page, write_block, copy_buffer,
  copy_from,
}

-- The content, the previous address, whether the page holds votes and that it is of no checkpoint are
-- those of the other page; the page is marked as a copy and in use.
pub record IsCopy (p q : Bytes) : Type 0 where
  pub content : (i : ℕ) → i < 516 → q i ≡ p i
  pub vots : get_vots_flag 512 q ≡ get_vots_flag 512 p
  pub checkpoint : get_checkpoint_flag 512 q ≡ get_checkpoint_flag 512 p
  pub copy : get_copy_flag 512 q ≡ 0
  pub used : get_seg_type_flag 512 q ≡ 3

-- What is known of the driver's functions: a page that is programmed with success has the bytes of the
-- buffer up to the length, and other pages and, where its unit is good and the buffer has 0xff in the
-- byte for bad units, the states of the units are unchanged.
pub record IsDriver {F : Type 0} (d : Driver F) : Type 0 where
  pub programmed :
      (f : F) (b : Bytes) (a len : ℕ)
      → (d.program_page_a f b a len).0 ≡ 0
      → (i : ℕ) → i < len
      → i < 528
      → ((d.read_page_total ((d.program_page_a f b a len).1) a).1) i ≡ b i
  pub others :
      (f : F) (b : Bytes) (a len c : ℕ)
      → (c == a) ≡ false
      → (d.read_page_total ((d.program_page_a f b a len).1) c ≡ d.read_page_total f c)
        × (d.read_page_flags ((d.program_page_a f b a len).1) c ≡ d.read_page_flags f c)
  pub status :
      (f : F) (b : Bytes) (a len u : ℕ)
      → b 517 ≡ 255
      → d.check_eu_status f (calc_eu_start a) ≡ true
      → d.check_eu_status ((d.program_page_a f b a len).1) u ≡ d.check_eu_status f u

-- The buffer that is written for a page outside the reserve units.
abbrev pub copy_image : Bytes → ℕ → Bytes
copy_image p org_phy_addr = set_seg_type_flag 512 (copy_buffer p org_phy_addr) 3

slot_others :
    (b : Bytes) (v : ℕ)
    → (get_checkpoint_flag 512 (set_slot_eu_offset 512 b v) ≡ get_checkpoint_flag 512 b)
      × (get_vots_flag 512 (set_slot_eu_offset 512 b v) ≡ get_vots_flag 512 b)
      × (get_copy_flag 512 (set_slot_eu_offset 512 b v) ≡ get_copy_flag 512 b)
unfolding get_checkpoint_flag get_vots_flag get_copy_flag get_bit set_slot_eu_offset update
slot_others b v = (refl, refl, refl)

copy_image_low : (p : Bytes) (org i : ℕ) → i < 516 → copy_image p org i ≡ p i
unfolding copy_buffer set_seg_type_flag set_slot_eu_offset set_copy_flag set_bit update
copy_image_low p org i l = ground arith

pub copy_image_bad : (p : Bytes) (org : ℕ) → copy_image p org 517 ≡ p 517
unfolding copy_buffer set_seg_type_flag set_slot_eu_offset set_copy_flag set_bit update
copy_image_bad p org = refl

-- The flags in the byte 516.
pub flags_cong :
    (q r : Bytes)
    → q 516 ≡ r 516
    → (get_checkpoint_flag 512 q ≡ get_checkpoint_flag 512 r)
      × (get_vots_flag 512 q ≡ get_vots_flag 512 r)
      × (get_copy_flag 512 q ≡ get_copy_flag 512 r)
      × (get_seg_type_flag 512 q ≡ get_seg_type_flag 512 r)
unfolding get_checkpoint_flag get_vots_flag get_copy_flag get_seg_type_flag get_bit
flags_cong q r e = rw e (refl, refl, refl, refl)

pub copy_image-IsCopy :
    (p q : Bytes) (org : ℕ) → ((i : ℕ) → i < 527 → q i ≡ copy_image p org i) → IsCopy p q
unfolding copy_buffer
copy_image-IsCopy p q org same =
    let offset : ℕ =
      if org == phy_address_empty
      then seq_no_slot_and_eu_offset
      else calculate_slot_id_and_eu_offset org in
    let (cp, vots, copy, used) = flags_cong q (copy_image p org) (same 516 (omega arith)) in
    let (used1, cp1, vots1, copy1) =
      set_seg_type_flag_used (set_slot_eu_offset 512 (set_copy_flag 512 p 0) offset) in
    let (cp2, vots2, copy2) = slot_others (set_copy_flag 512 p 0) offset in
    let (cp3, vots3, used3) = set_copy_flag_others p 0 in
    record {
      content = λ i l. same i (omega arith) ∙ copy_image_low p org i l;
      vots = vots ∙ vots1 ∙ vots2 ∙ vots3;
      checkpoint = cp ∙ cp1 ∙ cp2 ∙ cp3;
      copy = copy ∙ copy1 ∙ copy2 ∙ get_copy_flag-set_copy_flag p 0 (omega arith);
      used = used ∙ used1;
    }

-- The read of a page fails, or the write of its copy to another one does.
abbrev pub IsFaulty : {F : Type 0} → Driver F → F → ℕ → ℕ → Type 0
IsFaulty d f source phy_addr =
    ((d.read_page_total f source).0 ≢ 0)
    ⊎ ((org : ℕ) × (len : ℕ) × (527 ≤ len)
        × ((d.program_page_a f (copy_image ((d.read_page_total f source).1) org) phy_addr len).0
            ≢ 0))

-- A copy to the page `phy_addr` outside the reserve units: the page is a copy of the source afterwards,
-- or the read or the write has failed. Other pages, the segment map and the counters are unchanged.
abbrev pub IsCopied : {F : Type 0} → Driver F → Writer F → ℕ → ℕ → ℕ × Writer F → Type 0
IsCopied d w phy_addr source (res, r) =
    (((res ≡ 0)
        × IsCopy ((d.read_page_total w.flash source).1) ((d.read_page_total r.flash phy_addr).1))
      ⊎ ((res ≡ 1) × IsFaulty d w.flash source phy_addr))
    × (r ≡ record w { flash = r.flash })
    × ((c : ℕ)
        → (c == phy_addr) ≡ false
        → (d.read_page_total r.flash c ≡ d.read_page_total w.flash c)
          × (d.read_page_flags r.flash c ≡ d.read_page_flags w.flash c))
    × ((u : ℕ) → d.check_eu_status r.flash u ≡ d.check_eu_status w.flash u)

pub copied_address :
    (m : SegMap)
    → IsBytes m.reclaimed_logical_addr
    → (get_reclaimed_segment m == no_segment_num) ≡ false
    → is_address_empty (copy_logical_address empty_address m.reclaimed_logical_addr) ≡ false
unfolding is_address_empty get_reclaimed_segment
copied_address m v ne =
    ap is_address_empty (
      copy_logical_address_lem empty_address m.reclaimed_logical_addr
        (record { in0 = omega arith; in1 = omega arith; in2 = omega arith; in3 = omega arith }) v)
    ∙ ne

pub copy_from_lem :
    {F : Type 0} (d : Driver F) (w : Writer F) (phy_addr org source : ℕ)
    → IsDriver d
    → IsBytes w.seg_map.reclaimed_logical_addr
    → (get_reclaimed_segment w.seg_map == no_segment_num) ≡ false
    → (w.seg_map.is_eu_reserve == is_eu_reserve_true) ≡ false
    → ((d.read_page_total w.flash source).1) 517 ≡ 255
    → d.check_eu_status w.flash (calc_eu_start phy_addr) ≡ true
    → IsCopied d w phy_addr source (copy_from d w phy_addr org source)
unfolding copy_from write_block block_buffer block_page nand_program_total_page is_address_empty
copy_from_lem d w phy_addr org source driver v ne regular bad good =
    let p : Bytes = (d.read_page_total w.flash source).1 in
    let img : Bytes = copy_image p org in
    let len : ℕ = if get_obs_flag 512 img == 0 then 528 else 527 in
    let long : 527 ≤ len = elim (Bool-cases (get_obs_flag 512 img == 0)) [
      | inl e ↦ rw e (omega arith)
      | inr e ↦ rw e (omega arith)
    ] in
    elim (Bool-cases ((d.read_page_total w.flash source).0 == 0)) [
      | inr e ↦
          rw e
            (inr (refl, inl (λ z. ground (arith, e, z))), refl, (λ c h. (refl, refl)), (λ u. refl))
      | inl e ↦ elim (Bool-cases ((d.program_page_a w.flash img phy_addr len).0 == 0)) [
        | inr f ↦
            rw (e, regular, f)
              (
                inr (refl, inr (org, len, long, λ z. ground (arith, f, z))),
                refl,
                (λ c h. driver.others w.flash img phy_addr len c h),
                (λ u. driver.status w.flash img phy_addr len u (copy_image_bad p org ∙ bad) good),
              )
        | inl f ↦
            rw (e, regular, f, copied_address w.seg_map v ne)
              (
                inl (
                  refl,
                  copy_image-IsCopy p _ org (λ i l.
                      driver.programmed w.flash img phy_addr len ((==_iff _ 0).0 f) i
                        (omega (arith, long)) (omega arith)),
                ),
                refl,
                (λ c h. driver.others w.flash img phy_addr len c h),
                (λ u. driver.status w.flash img phy_addr len u (copy_image_bad p org ∙ bad) good),
              )
      ]
    ]
