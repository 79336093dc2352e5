-- ===== src/Sequencing/Commit/Checkpoint.antt =====
-- What commit leaves in the flash when it is part of a segment's header.
use nandfs.Base.{
  ℕ, suc, ◌+◌, ◌<◌, ◌≤◌, ◌≡◌, refl, ap, ◌∙◌, inl, inr, Bool, true, false, ltb, if◌then◌else◌,
  Option, some, ◌>>=◌, arith, Bool-cases,
}
use nandfs.Nand.{Bytes}
use nandfs.Sequencing.SegMap.{get_reclaimed_offset}
use nandfs.Sequencing.Pages.{Driver, Writer, set_cp_page_flag}
use nandfs.Sequencing.Pages.Copy.{IsDriver}
use nandfs.Sequencing.NextPage.Stored.{IsAllocating}
use nandfs.Sequencing.Commit.{
  seq_checkpoint_size, obs_counters_map_size, calculate_in_pages, byte_to_write, commit_pages,
  commit_single, commit,
}
use nandfs.Sequencing.Commit.Pages.{
  marked_bad, marked-HoldsPage, single_fill, single_page-marked, single_fill_lem,
}
use nandfs.Sequencing.Commit.Loop.{first_byte, nothing_written, commit_pages_lem}
use nandfs.Sequencing.Commit.Header.{IsWritable, write_header_page_lem, IsWrittenFrom, from_step}

IsAllocating-cp_written :
    {F : Type 0} (d : Driver F) (slot : ℕ) (w : Writer F) (b : Bool)
    → IsAllocating d slot w
    → IsAllocating d slot (record w { cp_written = b })
IsAllocating-cp_written d slot w b v = record {
  bytes = v.bytes;
  some_segment = v.some_segment;
  state = v.state;
  at = v.at;
  some_slot = v.some_slot;
  regular = v.regular;
  unused = v.unused;
  good = v.good;
}

module _ {F : Type 0} (d : Driver F) (wear cp : Writer F → Option (ℕ × Writer F)) (behind : ℕ → ℕ)
    (slot : ℕ) (fs_data : Bytes) (n_bytes : ℕ) (driver : IsDriver d) (P : F → ℕ → Type 0)
    (writable : IsWritable d slot P) where
  abbrev cp_size : ℕ
  cp_size = seq_checkpoint_size + n_bytes

  abbrev pages : ℕ
  pages = calculate_in_pages cp_size

  commit_single_lem :
      (w : Writer F)
      → IsAllocating d slot w
      → cp_size < 512
      → get_reclaimed_offset w.seg_map < 128
      → P w.flash (get_reclaimed_offset w.seg_map)
      → (r : Writer F) × (commit_single d wear cp behind fs_data n_bytes true w ≡ some (0, r))
        × IsWrittenFrom d slot behind fs_data n_bytes (n_bytes + obs_counters_map_size) 1 0 1 w r
  unfolding commit_single
  commit_single_lem w v short room free =
      let limit : ℕ = n_bytes + obs_counters_map_size in
      let bytes : ℕ → ℕ = byte_to_write behind fs_data n_bytes w.obs w.lfsr_state in
      let raw : Bytes = single_fill fs_data n_bytes w.obs in
      let (spare, bad, filled) = single_fill_lem behind fs_data n_bytes w.obs w.lfsr_state short in
      let (u, step, on) =
        write_header_page_lem d slot P w (set_cp_page_flag 512 raw 0 0) driver writable v
          (marked_bad raw 0 0 ∙ bad) room free in
      let (_, same, _, _, _) = step.page in
      let first =
        marked-HoldsPage bytes limit 1 0 raw _ spare
          (λ i l below. filled i l (omega (arith, below)) ∙ ap bytes (omega arith)) same in
      let marked = single_page-marked fs_data n_bytes w.obs in
      (
        u,
        rw (marked, step.wrote) refl,
        from_step d slot behind fs_data n_bytes limit 1 0 0 w u u (set_cp_page_flag 512 raw 0 0)
            step first
            (nothing_written d wear cp behind slot fs_data n_bytes driver P writable limit 1 1 u
              step.next),
      )

  one_page : cp_size < 512 → pages ≡ 1
  unfolding calculate_in_pages
  one_page short = ground arith

  commit_run :
      (w r : Writer F)
      → ltb cp_size 512 ≡ false
      → commit_pages d wear cp behind
          (suc pages)
          fs_data
          n_bytes
          true
          0
          (first_byte cp_size 0)
          (record w { cp_written = false })
        ≡ some (0, r)
      → commit d wear cp behind fs_data n_bytes true w
        ≡ some (0, record r { cp_written = w.cp_written })
  unfolding commit
  commit_run w r e ran =
      let rounds : pages + 1 ≡ suc pages = omega arith in
      let start : 0 ≡ first_byte cp_size 0 = ground arith in
      rw (e, rounds)
        (ap
          (λ x. x >>= λ (p : ℕ × Writer F). some (p.0, record (p.1) { cp_written = w.cp_written }))
          (ap
              (λ x.
                commit_pages d wear cp behind (suc pages) fs_data n_bytes true 0 x
                  (record w { cp_written = false }))
              start
            ∙ ran))

  with_cp_written :
      (limit n : ℕ) (w r : Writer F)
      → IsWrittenFrom d slot behind fs_data n_bytes limit n 0 n (record w { cp_written = false }) r
      → IsWrittenFrom d slot behind fs_data n_bytes limit n 0 n w
          (record r { cp_written = w.cp_written })
  with_cp_written limit n w r h = record {
    held = h.held;
    others = h.others;
    same_obs = h.same_obs;
    same_segment = h.same_segment;
    next = IsAllocating-cp_written d slot r w.cp_written h.next;
    offset = h.offset;
  }

  -- Where a segment is being allocated in a slot of good units whose pages can be programmed, and the
  -- checkpoint's pages fit behind the offset, commit as part of a header succeeds. Its pages lie from the
  -- offset on and hold the file system's data, then the counters and, where the checkpoint fills a page,
  -- the random state; the first, the last and the other pages are marked so. All other pages and the
  -- counters are unchanged and the offset has gone up by the number of pages.
  pub commit_lem :
      (w : Writer F)
      → IsAllocating d slot w
      → get_reclaimed_offset w.seg_map + pages ≤ 128
      → P w.flash (get_reclaimed_offset w.seg_map)
      → (r : Writer F) × (commit d wear cp behind fs_data n_bytes true w ≡ some (0, r))
        × IsWrittenFrom d slot behind fs_data n_bytes
            (if ltb cp_size 512 then n_bytes + obs_counters_map_size else cp_size)
            pages
            0
            pages
            w
            r
  unfolding commit
  commit_lem w v room free =
      let local : Writer F = record w { cp_written = false } in
      let vl : IsAllocating d slot local = IsAllocating-cp_written d slot w false v in
      elim (Bool-cases (ltb cp_size 512)) [
        | inl e ↦
            let one : pages ≡ 1 = one_page (ground arith) in
            let (r, ran, from) =
              commit_single_lem local vl (ground arith) (omega (arith, room, one)) free in
            (
              record r { cp_written = w.cp_written },
              rw (e, ran) refl,
              rw (e, one) (with_cp_written _ 1 w r from),
            )
        | inr e ↦
            let (r, ran, from) =
              commit_pages_lem d wear cp behind slot fs_data n_bytes driver P writable pages 0 local
                vl (omega arith) room free in
            (
              record r { cp_written = w.cp_written },
              commit_run w r e ran,
              rw e (with_cp_written _ pages w r from),
            )
      ]
