-- ===== src/Sequencing/ReadCheckpoint/Committed.antt =====
-- readCheckpointToMemory after commit.
use nandfs.Base.{
  ℕ, suc, ◌+◌, ◌-◌, ◌<◌, ◌≤◌, ◌≡◌, refl, ap, sym, subst, ◌∙◌, inl, inr, true, false, ◌==◌, ltb,
  if◌then◌else◌, Option, some, ◌>>=◌, arith, Bool-cases,
}
use nandfs.Addr.{LogAddr, set_logical_offset}
use nandfs.Addr.Fields.{set_logical_offset_lem, set_offset-IsBytes}
use nandfs.Nand.{Bytes}
use nandfs.Sequencing.SegMap.{get_reclaimed_segment, get_reclaimed_offset}
use nandfs.Sequencing.Pages.{Driver, Writer}
use nandfs.Sequencing.Pages.Copy.{IsDriver}
use nandfs.Sequencing.NextPage.Stored.{IsAllocating}
use nandfs.Sequencing.Commit.{
  seq_checkpoint_size, obs_counters_map_size, calculate_in_pages, byte_to_write, obs_byte, commit,
}
use nandfs.Sequencing.Commit.Pages.{location}
use nandfs.Sequencing.Commit.Header.{IsWritable, IsWrittenFrom}
use nandfs.Sequencing.Commit.Checkpoint.{commit_lem}
use nandfs.Sequencing.Commit.Loop.{first_byte}
use nandfs.Sequencing.ReadCheckpoint.{
  Memory, cp_not_part_of_cp, is_checkpoint_more_than_one_page, read_pages, check_last,
  read_checkpoint_to_memory,
}
use nandfs.Sequencing.ReadCheckpoint.Stored.{byte_at}
use nandfs.Sequencing.ReadCheckpoint.Start.{IsReadable, IsAt, find_checkpoint_start_lem}
use nandfs.Sequencing.ReadCheckpoint.Roundtrip.{read_pages_lem}

-- What a commit has written, where it is read to.
abbrev pub limit_of : ℕ → ℕ
limit_of n_bytes =
    if ltb (seq_checkpoint_size + n_bytes) 512
    then n_bytes + obs_counters_map_size
    else seq_checkpoint_size + n_bytes

abbrev pub pages_of : ℕ → ℕ
pages_of n_bytes = calculate_in_pages (seq_checkpoint_size + n_bytes)

pages_positive : (n_bytes : ℕ) → 1 ≤ pages_of n_bytes
unfolding calculate_in_pages
pages_positive n_bytes = ground arith

-- A checkpoint that does not fill exactly one page ends with a page that is marked as its last.
last_mark :
    (n_bytes flag last : ℕ)
    → (seq_checkpoint_size + n_bytes == 512) ≡ false
    → is_checkpoint_more_than_one_page n_bytes ≡ true
    → last ≡ (
        if pages_of n_bytes == 0
        then flag
        else location (pages_of n_bytes) (0 + pages_of n_bytes - 1))
    → last ≡ 2
unfolding is_checkpoint_more_than_one_page calculate_in_pages
last_mark n_bytes flag last ne long e = ground arith

check_last_lem :
    (n_bytes flag last : ℕ) (a : LogAddr) (t : Memory)
    → (seq_checkpoint_size + n_bytes == 512) ≡ false
    → last ≡ (
        if pages_of n_bytes == 0
        then flag
        else location (pages_of n_bytes) (0 + pages_of n_bytes - 1))
    → check_last n_bytes (0, a, last, t) ≡ some (0, a, t)
unfolding check_last
check_last_lem n_bytes flag last a t ne e =
    elim (Bool-cases (is_checkpoint_more_than_one_page n_bytes)) [
      | inl long ↦ rw (last_mark n_bytes flag last ne long e) refl
      | inr short ↦ elim (Bool-cases (last == 2)) [
        | inl m ↦ rw (short, m) refl
        | inr m ↦ rw (short, m) refl
      ]
    ]

shifted : (x : ℕ) → 0 + x ≡ x
shifted x = omega arith

short_one : (n_bytes : ℕ) → is_checkpoint_more_than_one_page n_bytes ≡ false → pages_of n_bytes ≡ 1
unfolding is_checkpoint_more_than_one_page calculate_in_pages
short_one n_bytes short = ground arith

-- The bytes of the two parts of the memory.
abbrev pub IsRestored : (n_bytes : ℕ) → Bytes → Bytes → Memory → Type 0
IsRestored n_bytes fs_data counters t =
    ((i : ℕ) → i < n_bytes → t.fs_data i ≡ fs_data i)
    × ((i : ℕ) → i < obs_counters_map_size → t.obs_counters_map i ≡ counters i)

-- The address of the last page of the checkpoint.
abbrev pub last_address : {F : Type 0} → ℕ → Writer F → LogAddr
last_address n_bytes w =
    set_logical_offset w.seg_map.reclaimed_logical_addr
      (get_reclaimed_offset w.seg_map + (pages_of n_bytes - 1))

last_address-IsAt :
    {F : Type 0} (d : Driver F) (slot n_bytes : ℕ) (w r : Writer F)
    → IsAllocating d slot w
    → get_reclaimed_offset w.seg_map + pages_of n_bytes ≤ 128
    → get_reclaimed_segment r.seg_map ≡ get_reclaimed_segment w.seg_map
    → IsAt r (get_reclaimed_offset w.seg_map + (pages_of n_bytes - 1)) (last_address n_bytes w)
unfolding get_reclaimed_segment
last_address-IsAt d slot n_bytes w r v room seg =
    let x : ℕ = get_reclaimed_offset w.seg_map + (pages_of n_bytes - 1) in
    let (up, same, _) = set_logical_offset_lem x v.bytes (omega arith) in
    record { bytes = set_offset-IsBytes x v.bytes; segment = same ∙ sym seg; offset = up }

module _ {F : Type 0} (d : Driver F) (slot : ℕ) (behind : ℕ → ℕ) (fs_data : Bytes) (n_bytes : ℕ)
    (w : Writer F) where
  restored :
      (t : Memory)
      → ((j : ℕ)
          → j < limit_of n_bytes
          → byte_at n_bytes t j ≡ byte_to_write behind fs_data n_bytes w.obs w.lfsr_state j)
      → IsRestored n_bytes fs_data (obs_byte w.obs) t
  unfolding byte_to_write
  restored t same = (
    (λ i l.
        let low : ltb i n_bytes ≡ true = ground arith in
        let e = same i (ground arith) in ground (arith, e)),
    (λ i l.
        let high : ltb (n_bytes + i) n_bytes ≡ false = ground arith in
        let below : ltb (n_bytes + i) (264 + n_bytes) ≡ true = ground arith in
        let at : n_bytes + i - n_bytes ≡ i = omega arith in
        let e = same (n_bytes + i) (ground arith) in
        subst (λ x. t.obs_counters_map x ≡ obs_byte w.obs x) at (ground (arith, e, high, below))),
  )

  module _ (r : Writer F) (v : IsAllocating d slot r) (readable : IsReadable d slot)
      (from : IsWrittenFrom d slot behind fs_data n_bytes
        (limit_of n_bytes)
        (pages_of n_bytes)
        0
        (pages_of n_bytes)
        w
        r)
      (ne : (seq_checkpoint_size + n_bytes == 512) ≡ false)
      (room : get_reclaimed_offset w.seg_map + pages_of n_bytes ≤ 128) where
    -- The loop and the assertion behind it, from the first page on.
    read_all :
        (a : LogAddr) (s : Memory)
        → IsAt r (get_reclaimed_offset w.seg_map) a
        → (b : LogAddr) × (t : Memory) × ((read_pages d r.flash r.seg_map
                (suc (pages_of n_bytes))
                n_bytes
                0
                a
                cp_not_part_of_cp
                s
              >>= check_last n_bytes)
            ≡ some (0, b, t))
          × IsRestored n_bytes fs_data (obs_byte w.obs) t
    read_all a s at =
        let pages : ℕ = pages_of n_bytes in
        let start : first_byte (seq_checkpoint_size + n_bytes) 0 ≡ 0 = ground arith in
        let (b, last, t, ran, got, mark) =
          read_pages_lem d slot r v (readable.reads r.flash)
            (byte_to_write behind fs_data n_bytes w.obs w.lfsr_state) n_bytes (limit_of n_bytes)
            pages 0 cp_not_part_of_cp a s at.bytes at.segment (omega arith)
            (omega (arith, at.offset)) (λ e l. rw at.offset (from.held e l))
            (λ j l below. ground (arith, start)) (ground arith) in
        let run : read_pages d r.flash r.seg_map (suc pages) n_bytes 0 a cp_not_part_of_cp s
            ≡ some (0, b, last, t) =
          ap (λ x. read_pages d r.flash r.seg_map (suc pages) n_bytes x a cp_not_part_of_cp s)
            (sym start)
          ∙ ran in
        (
          b,
          t,
          ap (λ x. x >>= check_last n_bytes) run
              ∙ check_last_lem n_bytes cp_not_part_of_cp last b t ne mark,
          restored t got,
        )

-- Where a segment is being allocated in a slot of good units whose pages can be programmed and read, its
-- offset is not 0, the checkpoint's pages fit behind the offset and the checkpoint does not fill exactly
-- one page: after commit as part of a header, readCheckpointToMemory from the last page of the checkpoint
-- ends with success, and the memory holds the data of the file system and the counters that were
-- committed.
pub read_checkpoint_to_memory-commit :
    {F : Type 0} (d : Driver F) (wear cp : Writer F → Option (ℕ × Writer F)) (behind : ℕ → ℕ)
    (slot : ℕ) (fs_data : Bytes) (n_bytes : ℕ) (P : F → ℕ → Type 0) (w : Writer F) (s : Memory)
    → IsDriver d
    → IsWritable d slot P
    → IsReadable d slot
    → IsAllocating d slot w
    → 1 ≤ get_reclaimed_offset w.seg_map
    → get_reclaimed_offset w.seg_map + pages_of n_bytes ≤ 128
    → P w.flash (get_reclaimed_offset w.seg_map)
    → (seq_checkpoint_size + n_bytes == 512) ≡ false
    → (r : Writer F) × (b : LogAddr) × (t : Memory) × (commit d wear cp behind fs_data n_bytes true
          w
        ≡ some (0, r))
      × (read_checkpoint_to_memory d r.flash r.seg_map
            (suc (pages_of n_bytes))
            n_bytes
            (last_address n_bytes w)
            s
          ≡ some (0, b, t))
      × IsRestored n_bytes fs_data (obs_byte w.obs) t
unfolding read_checkpoint_to_memory
read_checkpoint_to_memory-commit d wear cp behind slot fs_data n_bytes P w s driver writable
      readable v inside room free ne =
    let pages : ℕ = pages_of n_bytes in
    let o : ℕ = get_reclaimed_offset w.seg_map in
    let cleared : Memory = record s {
      fs_data = λ (i : ℕ). if ltb i n_bytes then 0xff else s.fs_data i;
    } in
    let (r, ran, from) =
      commit_lem d wear cp behind slot fs_data n_bytes driver P writable w v room free in
    let last = last_address-IsAt d slot n_bytes w r v room from.same_segment in
    elim (Bool-cases (is_checkpoint_more_than_one_page n_bytes)) [
      | inl long ↦
          let (a, _, found, at) =
            find_checkpoint_start_lem d slot r from.next readable pages o inside (pages - 1)
              (suc pages) (last_address n_bytes w) (omega arith) last
              (omega (arith, room, pages_positive n_bytes))
              (λ x l.
                (from.held x (omega (arith, l, pages_positive n_bytes))).1
                ∙ ap (location pages) (shifted x)) in
          let (b, t, read, same) =
            read_all d slot behind fs_data n_bytes w r from.next readable from ne room a cleared
              at in
          (r, b, t, ran, rw (long, found) read, same)
      | inr short ↦
          let one : o + (pages - 1) ≡ o = omega (arith, short_one n_bytes short) in
          let (b, t, read, same) =
            read_all d slot behind fs_data n_bytes w r from.next readable from ne room
              (last_address n_bytes w) cleared
              (subst (λ x. IsAt r x (last_address n_bytes w)) one last) in
          (r, b, t, ran, rw short read, same)
    ]
