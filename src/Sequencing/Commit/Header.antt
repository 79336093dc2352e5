-- ===== src/Sequencing/Commit/Header.antt =====
-- A checkpoint that is written in a segment's header lies on the pages from the offset on.
use nandfs.Base.{ℕ, zero, suc, ◌+◌, ◌<◌, ◌≤◌, ◌≡◌, refl, ap, sym, subst, ◌∙◌, false, ◌==◌, arith}
use nandfs.Nand.{Bytes}
use nandfs.Sequencing.Reserve.{calc_address}
use nandfs.Sequencing.SegMap.{
  get_reclaimed_segment, get_reclaimed_offset, increment_reclaimed_offset,
}
use nandfs.Sequencing.Translate.Target.{increment_reclaimed_offset_lem}
use nandfs.Sequencing.Pages.{Driver, Writer}
use nandfs.Sequencing.Pages.Copy.{IsDriver}
use nandfs.Sequencing.NextPage.Stored.{IsAllocating, target_lem}
use nandfs.Sequencing.NextPage.Written.{IsWritten, write_block_written, increment-IsAllocating}
use nandfs.Sequencing.Commit.{byte_to_write, write_header_page}
use nandfs.Sequencing.Commit.Pages.{HoldsPage}

address_ne :
    (slot a b : ℕ) → (a == b) ≡ false → (calc_address slot 0 a == calc_address slot 0 b) ≡ false
unfolding calc_address
address_ne slot a b ne = ground arith

module _ {F : Type 0} (d : Driver F) (slot : ℕ) where
  -- `P f o` says that the pages of the slot from offset `o` on can be programmed one after the other.
  abbrev pub IsWritable : (F → ℕ → Type 0) → Type 0
  IsWritable P =
      (f : F) (b : Bytes) (o len : ℕ)
      → P f o
      → o < 128
      → 527 ≤ len
      → ((d.program_page_a f b (calc_address slot 0 o) len).0 ≡ 0)
        × P ((d.program_page_a f b (calc_address slot 0 o) len).1) (o + 1)

  abbrev page_at : Writer F → ℕ → Bytes
  page_at w o = (d.read_page_total w.flash (calc_address slot 0 o)).1

  -- The state after one page: its flash, the offset, and that the rest is as before.
  pub record IsStep (w : Writer F) (buf : Bytes) (r : Writer F) : Type 0 where
    pub wrote : write_header_page d w buf ≡ (w.seg_map.reclaimed_logical_addr, r)
    pub page : IsWritten d w (calc_address slot 0 (get_reclaimed_offset w.seg_map)) buf r.flash
    pub same_obs : r.obs ≡ w.obs
    pub same_segment : get_reclaimed_segment r.seg_map ≡ get_reclaimed_segment w.seg_map
    pub same_lfsr : r.lfsr_state ≡ w.lfsr_state
    pub next : IsAllocating d slot r
    pub offset : get_reclaimed_offset r.seg_map ≡ get_reclaimed_offset w.seg_map + 1

  pub write_header_page_lem :
      (P : F → ℕ → Type 0) (w : Writer F) (buf : Bytes)
      → IsDriver d
      → IsWritable P
      → IsAllocating d slot w
      → buf 517 ≡ 255
      → get_reclaimed_offset w.seg_map < 128
      → P w.flash (get_reclaimed_offset w.seg_map)
      → (r : Writer F) × IsStep w buf r × P r.flash (get_reclaimed_offset r.seg_map)
  unfolding write_header_page
  write_header_page_lem P w buf driver writable v bad l free =
      let page : ℕ = calc_address slot 0 (get_reclaimed_offset w.seg_map) in
      let (f, (wrote, same, others, status, (b, len, long, programmed))) =
        write_block_written d slot page w buf driver v bad (v.good _ l)
          (λ b len long. (writable w.flash b _ len free l long).0) in
      let r : Writer F = record w { flash = f; seg_map = increment_reclaimed_offset w.seg_map } in
      let target = target_lem d slot w v in
      let up : get_reclaimed_offset r.seg_map ≡ get_reclaimed_offset w.seg_map + 1 =
        (increment_reclaimed_offset_lem w.seg_map v.bytes l).0 in
      (
        r,
        record {
          wrote = rw (target, wrote) refl;
          page = (wrote, same, others, status, (b, len, long, programmed));
          same_obs = refl;
          same_segment = (increment_reclaimed_offset_lem w.seg_map v.bytes l).1;
          same_lfsr = refl;
          next = increment-IsAllocating d slot w r refl v l status;
          offset = up;
        },
        subst (λ x. P x (get_reclaimed_offset r.seg_map)) (sym programmed)
            (subst (P _) (sym up) (writable w.flash b _ len free l long).1),
      )

  module _ (behind : ℕ → ℕ) (fs_data : Bytes) (n_bytes : ℕ) where
    -- `n` pages from the page `p` of the checkpoint on lie from the offset on in the flash of `r`; the
    -- other pages and what else is written to are as in `w`.
    pub record IsWrittenFrom (limit pages p n : ℕ) (w r : Writer F) : Type 0 where
      pub held :
          (e : ℕ)
          → e < n
          → HoldsPage
              (byte_to_write behind fs_data n_bytes w.obs w.lfsr_state)
              limit
              pages
              (p + e)
              (page_at r (get_reclaimed_offset w.seg_map + e))
      pub others :
          (c : ℕ)
          → ((e : ℕ)
              → e < n
              → (c == calc_address slot 0 (get_reclaimed_offset w.seg_map + e)) ≡ false)
          → d.read_page_total r.flash c ≡ d.read_page_total w.flash c
      pub same_obs : r.obs ≡ w.obs
      pub same_segment : get_reclaimed_segment r.seg_map ≡ get_reclaimed_segment w.seg_map
      pub next : IsAllocating d slot r
      pub offset : get_reclaimed_offset r.seg_map ≡ get_reclaimed_offset w.seg_map + n

    -- The first page is left alone by those that follow.
    held_from :
        (limit pages p n : ℕ) (w u r : Writer F) (buf : Bytes)
        → IsStep w buf u
        → HoldsPage
            (byte_to_write behind fs_data n_bytes w.obs w.lfsr_state)
            limit
            pages
            p
            (page_at u (get_reclaimed_offset w.seg_map))
        → IsWrittenFrom limit pages (p + 1) n u r
        → (e : ℕ) → e < suc n
        → HoldsPage
            (byte_to_write behind fs_data n_bytes w.obs w.lfsr_state)
            limit
            pages
            (p + e)
            (page_at r (get_reclaimed_offset w.seg_map + e))
    held_from limit pages p n w u r buf step first rest zero l =
        let o : ℕ = get_reclaimed_offset w.seg_map in
        let kept : page_at r o ≡ page_at u o =
          ap (λ q. q.1)
            (rest.others (calc_address slot 0 o)
              (λ e _. address_ne slot o _ (ground (arith, step.offset)))) in
        let at0 : o + 0 ≡ o = omega arith in
        let p0 : p + 0 ≡ p = omega arith in rw (at0, p0, kept) first
    held_from limit pages p n w u r buf step first rest (suc e) l =
        let o : get_reclaimed_offset w.seg_map + suc e ≡ get_reclaimed_offset u.seg_map + e =
          omega (arith, step.offset) in
        let pe : p + suc e ≡ p + 1 + e = omega arith in
        rw (o, pe, ← step.same_obs, ← step.same_lfsr) (rest.held e (omega arith))

    pub from_step :
        (limit pages p n : ℕ) (w u r : Writer F) (buf : Bytes)
        → IsStep w buf u
        → HoldsPage
            (byte_to_write behind fs_data n_bytes w.obs w.lfsr_state)
            limit
            pages
            p
            (page_at u (get_reclaimed_offset w.seg_map))
        → IsWrittenFrom limit pages (p + 1) n u r
        → IsWrittenFrom limit pages p (suc n) w r
    from_step limit pages p n w u r buf step first rest =
        let o : ℕ = get_reclaimed_offset w.seg_map in
        let up = step.offset in
        let (_, _, apart, _, _) = step.page in
        record {
          held = held_from limit pages p n w u r buf step first rest;
          others = λ c h.
              rest.others c (λ e l.
                ap (λ x. c == calc_address slot 0 x) (omega (arith, up)) ∙ h (suc e) (omega arith))
              ∙ apart c (ap (λ x. c == calc_address slot 0 x) (omega arith) ∙ h 0 (omega arith));
          same_obs = rest.same_obs ∙ step.same_obs;
          same_segment = rest.same_segment ∙ step.same_segment;
          next = rest.next;
          offset = omega (arith, up, rest.offset);
        }
