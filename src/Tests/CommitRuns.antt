-- ===== src/Tests/CommitRuns.antt =====
-- A checkpoint in the header of a segment of an empty simulated flash.
use nandfs.Base.{
  suc, ℕ, ◌+◌, ◌-◌, ◌%◌, ◌<◌, ◌≤◌, ◌==◌, true, false, update, ◌≡◌, refl, arith, ltb, if◌then◌else◌,
  some,
}
use nandfs.Nand.{Bytes, empty_buf}
use nandfs.Nand.Simulator.{Simulator, nand_program_page_a, program_main, get_fp, assert_below}
use nandfs.Nand.Simulator.Access.{read_page_lem, small, below}
use nandfs.Sequencing.Reserve.{calc_address}
use nandfs.Nand.Simulator.Driver.{spare_lem, simulator, simulator-IsDriver}
use nandfs.Sequencing.Pages.{Writer}
use nandfs.Addr.{LogAddr}
use nandfs.Sequencing.Commit.{calculate_in_pages, seq_checkpoint_size, commit, obs_byte}
use nandfs.Sequencing.ReadCheckpoint.{Memory, read_checkpoint_to_memory}
use nandfs.Sequencing.ReadCheckpoint.Start.{IsReadable}
use nandfs.Sequencing.ReadCheckpoint.Committed.{
  IsRestored, pages_of, last_address, read_checkpoint_to_memory-commit,
}
use nandfs.Sequencing.Commit.Header.{IsWritable}
use nandfs.Tests.FlashRuns.{writer_of, map_of, no_call, allocating, old_page, offset_lem}

-- The pages from the offset on have not been programmed.
abbrev Unprogrammed : Simulator → ℕ → Type 0
Unprogrammed f o = (q : ℕ) → o ≤ q → q < 128 → f.main_area_writes (calc_address 3 0 q) ≡ 0

writable : IsWritable simulator 3 Unprogrammed
unfolding nand_program_page_a program_main get_fp assert_below calc_address update
writable f b o len free l long =
    let page : ℕ = calc_address 3 0 o in
    let low : ltb page 65536 ≡ true = ground (arith, old_page o l) in
    let some_bytes : ((if ltb 528 (0 % 528 + len) then 528 - 0 % 528 else len) == 0) ≡ false =
      ground arith in
    let fresh = free o (omega arith) l in
    rw
      (small page (old_page o l), low, below page 0 (old_page o l) (omega arith), fresh, some_bytes)
      (
        refl,
        λ q a m.
            let ne : (calc_address 3 0 q == page) ≡ false = ground arith in
            rw ne (free q (omega (arith, a)) m),
      )

abbrev fs_state : Bytes
fs_state i = i

-- 300 bytes of the file system and 272 of the sequencing layer are two pages.
pages : calculate_in_pages (seq_checkpoint_size + 300) ≡ 2
unfolding calculate_in_pages
pages = refl

readable : IsReadable simulator 3
readable = record {
  reads = λ f o l. rw (read_page_lem f empty_buf (calc_address 3 0 o) (old_page o l)) refl;
  flags = λ f o l.
      rw
        (
          spare_lem f (calc_address 3 0 o) (old_page o l),
          read_page_lem f empty_buf (calc_address 3 0 o) (old_page o l),
        )
        refl;
}

abbrev blank : Memory
blank = record { fs_data = λ i. 0; obs_counters_map = λ i. 0 }

read_checkpoint_to_memory-commit_example :
    (r : Writer Simulator) × (b : LogAddr) × (t : Memory) × (commit simulator no_call no_call
        (λ i. 0)
        fs_state
        300
        true
        (writer_of (map_of 4 3))
      ≡ some (0, r))
    × (read_checkpoint_to_memory simulator r.flash r.seg_map
          (suc (pages_of 300))
          300
          (last_address 300 (writer_of (map_of 4 3)))
          blank
        ≡ some (0, b, t))
    × IsRestored 300 fs_state (obs_byte (writer_of (map_of 4 3)).obs) t
read_checkpoint_to_memory-commit_example =
    read_checkpoint_to_memory-commit simulator no_call no_call (λ i. 0) 3 fs_state 300 Unprogrammed
      (writer_of (map_of 4 3)) blank simulator-IsDriver writable readable allocating
      (omega (arith, offset_lem 4 3)) (omega (arith, offset_lem 4 3, pages)) (λ q a l. refl) refl
