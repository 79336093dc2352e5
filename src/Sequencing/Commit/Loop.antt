-- ===== src/Sequencing/Commit/Loop.antt =====
-- The loop of commit that writes a checkpoint of several pages in a segment's header.
use nandfs.Base.{
  ℕ, zero, suc, ◌+◌, ◌-◌, ◌*◌, ◌≤◌, ◌≡◌, refl, ap, ◌∙◌, true, false, ltb, if◌then◌else◌, Option,
  some, arith,
}
use nandfs.Nand.{Bytes}
use nandfs.Sequencing.SegMap.{get_reclaimed_offset}
use nandfs.Sequencing.Pages.{Driver, Writer, set_cp_page_flag}
use nandfs.Sequencing.Pages.Copy.{IsDriver}
use nandfs.Sequencing.NextPage.Stored.{IsAllocating}
use nandfs.Sequencing.NextPage.Readback.{not_empty}
use nandfs.Sequencing.Commit.{
  seq_checkpoint_size, calculate_in_pages, byte_to_write, fill_page, fill_count, after_header,
  commit_pages,
}
use nandfs.Sequencing.Commit.Pages.{marked_bad, marked-HoldsPage, fill_count_lem}
use nandfs.Sequencing.Commit.Header.{
  IsWritable, IsStep, write_header_page_lem, IsWrittenFrom, from_step,
}

-- The index of the first byte of page `p`, or the end of the checkpoint.
abbrev pub first_byte : ℕ → ℕ → ℕ
first_byte cp_size p = if ltb (p * 512) cp_size then p * 512 else cp_size

pub first_byte_next :
    (cp_size p : ℕ)
    → first_byte cp_size p + fill_count cp_size (first_byte cp_size p) ≡ first_byte cp_size (p + 1)
unfolding fill_count
first_byte_next cp_size p = ground arith

pub not_yet :
    (cp_size n p : ℕ) → calculate_in_pages cp_size ≡ p + suc n → first_byte cp_size p ≡ p * 512
unfolding calculate_in_pages
not_yet cp_size n p total = ground (arith, total)

pub more :
    (cp_size n p : ℕ)
    → calculate_in_pages cp_size ≡ p + suc n
    → ltb (first_byte cp_size p) cp_size ≡ true
unfolding calculate_in_pages
more cp_size n p total = ground (arith, total)

module _ {F : Type 0} (d : Driver F) (wear cp : Writer F → Option (ℕ × Writer F)) (behind : ℕ → ℕ)
    (slot : ℕ) (fs_data : Bytes) (n_bytes : ℕ) (driver : IsDriver d) (P : F → ℕ → Type 0)
    (writable : IsWritable d slot P) where
  abbrev cp_size : ℕ
  cp_size = seq_checkpoint_size + n_bytes

  pub nothing_written :
      (limit pages p : ℕ) (w : Writer F)
      → IsAllocating d slot w
      → IsWrittenFrom d slot behind fs_data n_bytes limit pages p 0 w w
  nothing_written limit pages p w v = record {
    held = λ e l. ground arith;
    others = λ c h. refl;
    same_obs = refl;
    same_segment = refl;
    next = v;
    offset = omega arith;
  }

  abbrev pages : ℕ
  pages = calculate_in_pages cp_size

  -- The buffer of page `p`.
  abbrev page_of : ℕ → Writer F → Bytes
  page_of p w =
      set_cp_page_flag 512
        (fill_page (fill_count cp_size (first_byte cp_size p)) (first_byte cp_size p)
          (byte_to_write behind fs_data n_bytes w.obs w.lfsr_state))
        p (pages - 1)

  commit_pages_end :
      (p : ℕ) (w : Writer F)
      → pages ≡ p + 0
      → commit_pages d wear cp behind 1 fs_data n_bytes true p (first_byte cp_size p) w
        ≡ some (0, w)
  unfolding commit_pages calculate_in_pages
  commit_pages_end p w total =
      let over : ltb (first_byte cp_size p) cp_size ≡ false = ground (arith, total) in rw over refl

  commit_pages_step :
      (k p : ℕ) (w u : Writer F)
      → IsAllocating d slot w
      → ltb (first_byte cp_size p) cp_size ≡ true
      → IsStep d slot w (page_of p w) u
      → commit_pages d wear cp behind (suc k) fs_data n_bytes true p (first_byte cp_size p) w
        ≡ commit_pages d wear cp behind k fs_data n_bytes true
            (p + 1)
            (first_byte cp_size (p + 1))
            u
  unfolding commit_pages after_header
  commit_pages_step k p w u v more step =
      rw (more, step.wrote, not_empty w.seg_map v.some_segment, first_byte_next cp_size p) refl

  -- The loop from page `p` on, with `n` pages to come.
  pub commit_pages_lem :
      (n p : ℕ) (w : Writer F)
      → IsAllocating d slot w
      → pages ≡ p + n
      → get_reclaimed_offset w.seg_map + n ≤ 128
      → P w.flash (get_reclaimed_offset w.seg_map)
      → (r : Writer F) × (commit_pages d wear cp behind
            (suc n)
            fs_data
            n_bytes
            true
            p
            (first_byte cp_size p)
            w
          ≡ some (0, r))
        × IsWrittenFrom d slot behind fs_data n_bytes cp_size pages p n w r
  commit_pages_lem zero p w v total room free =
      (w, commit_pages_end p w total, nothing_written cp_size pages p w v)
  commit_pages_lem (suc n) p w v total room free =
      let bytes : ℕ → ℕ = byte_to_write behind fs_data n_bytes w.obs w.lfsr_state in
      let here : first_byte cp_size p ≡ p * 512 = not_yet cp_size n p total in
      let (spare, bad, filled) = fill_count_lem cp_size (first_byte cp_size p) bytes in
      let raw : Bytes =
        fill_page (fill_count cp_size (first_byte cp_size p)) (first_byte cp_size p) bytes in
      let (u, step, on) =
        write_header_page_lem d slot P w (page_of p w) driver writable v
          (marked_bad raw p (pages - 1) ∙ bad) (omega arith) free in
      let (_, same, _, _, _) = step.page in
      let first =
        marked-HoldsPage bytes cp_size pages p raw _ spare
          (λ i l below. filled i l (omega (arith, here)) ∙ ap (λ x. bytes (x + i)) here) same in
      let (r, ran, rest) =
        commit_pages_lem n (p + 1) u step.next (omega (arith, total)) (omega (arith, step.offset))
          on in
      (
        r,
        commit_pages_step (suc n) p w u v (more cp_size n p total) step ∙ ran,
        from_step d slot behind fs_data n_bytes cp_size pages p n w u r (page_of p w) step first
            rest,
      )
