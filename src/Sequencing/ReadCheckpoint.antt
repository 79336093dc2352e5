-- ===== src/Sequencing/ReadCheckpoint.antt =====
-- Reading a checkpoint back: findCheckpointStart and readCheckpointToMemory of
-- NANDFS/src/sequencing/sequencingUtils.c.
pub mod Translated
pub mod Stored
pub mod Start
pub mod Roundtrip
pub mod Committed
use nandfs.Base.{
  ℕ, zero, suc, ◌+◌, ◌-◌, ◌%◌, ◌^◌, Bool, not, ◌&&◌, ltb, ◌==◌, if◌then◌else◌, Option, none, some,
  ◌>>=◌, update,
}
use nandfs.Addr.{LogAddr, get_logical_offset, set_logical_offset}
use nandfs.Nand.{Bytes, get_checkpoint_flag}
use nandfs.Sequencing.SegMap.{SegMap}
use nandfs.Sequencing.Translate.{logical_address_to_physical}
use nandfs.Sequencing.Pages.{Driver, chip_of}
use nandfs.Sequencing.Commit.{seq_checkpoint_size, fill_count}

abbrev pub cp_location_first : ℕ
cp_location_first = 0

abbrev pub cp_location_last : ℕ
cp_location_last = 2

abbrev pub cp_not_part_of_cp : ℕ
cp_not_part_of_cp = 3

-- IS_CHECKPOINT_MORE_THAN_ONE_PAGE
unfoldable pub is_checkpoint_more_than_one_page : ℕ → Bool
is_checkpoint_more_than_one_page n_bytes = ltb 512 (1 + seq_checkpoint_size + n_bytes)

-- What the memory holds: the data of the file system, and the bytes from the counters on.
pub record Memory : Type 0 where
  pub fs_data : Bytes
  pub obs_counters_map : Bytes

-- One byte of the buffer is stored at the index `i` of the checkpoint.
unfoldable pub store_byte : ℕ → ℕ → ℕ → Memory → Memory
store_byte n_bytes i byte s =
    if ltb i n_bytes
    then record s { fs_data = update s.fs_data i byte }
    else record s { obs_counters_map = update s.obs_counters_map (i - n_bytes) byte }

-- The inner loop, in `k` rounds from the index `i` of the checkpoint on.
unfoldable pub store_page : ℕ → ℕ → ℕ → Bytes → Memory → Memory
store_page zero n_bytes i buf s = s
store_page (suc k) n_bytes i buf s =
    store_byte n_bytes (i + k) (buf k) (store_page k n_bytes i buf s)

-- The assertion at the end of readCheckpointToMemory.
unfoldable pub check_last : ℕ → ℕ × LogAddr × ℕ × Memory → Option (ℕ × LogAddr × Memory)
check_last n_bytes (res, a, flag, s) =
    if (res == 0) && (not (flag == cp_location_last) && is_checkpoint_more_than_one_page n_bytes)
    then none
    else some (res, a, s)

module _ {F : Type 0} (d : Driver F) (f : F) (m : SegMap) where
  -- The loop of findCheckpointStart in at most `k` rounds; the flags it has read are in the buffer.
  unfoldable pub find_checkpoint_start : ℕ → LogAddr → Option (LogAddr × Bytes)
  find_checkpoint_start zero a = none
  find_checkpoint_start (suc k) a =
      let prev = set_logical_offset a ((get_logical_offset a + 2 ^ 32 - 1) % 2 ^ 32) in
      let rest = find_checkpoint_start k prev in
      logical_address_to_physical (chip_of d f) m a >>= λ phy_addr.
      (let flags = d.read_page_flags f phy_addr in
        if get_checkpoint_flag 0 flags == cp_location_first
        then some (a, flags)
        else if ltb 0 (get_logical_offset prev)
        then rest
        else some (prev, flags))

  -- The loop of readCheckpointToMemory in at most `k` rounds from the byte `i` on, with the flag of
  -- the page before.
  unfoldable pub read_pages : ℕ → ℕ → ℕ → LogAddr → ℕ → Memory → Option (ℕ × LogAddr × ℕ × Memory)
  read_pages zero n_bytes i a flag s = none
  read_pages (suc k) n_bytes i a flag s =
      let cp_size = seq_checkpoint_size + n_bytes in
      let next = set_logical_offset a (get_logical_offset a + 1) in
      let count = fill_count cp_size i in
      let read = λ (phy_addr : ℕ).
        (let (res, buf) = d.read_page_total f phy_addr in
          let seen = get_checkpoint_flag 512 buf in
          let skipped = read_pages k n_bytes i next seen s in
          let stored =
            read_pages k n_bytes (i + count) next seen (store_page count n_bytes i buf s) in
          if not (res == 0)
          then some (1, a, flag, s)
          else if seen == cp_not_part_of_cp
          then skipped
          else stored) in
      let paged = logical_address_to_physical (chip_of d f) m a >>= read in
      if ltb i cp_size then paged else some (0, a, flag, s)

  -- readCheckpointToMemory, with `k` rounds for each of the loops. The flag of the buffer before the
  -- first read is not used, since at least one page is read.
  unfoldable pub read_checkpoint_to_memory :
      ℕ → ℕ → LogAddr → Memory → Option (ℕ × LogAddr × Memory)
  read_checkpoint_to_memory k n_bytes a s =
      let cleared = record s { fs_data = λ (i : ℕ). if ltb i n_bytes then 0xff else s.fs_data i } in
      let start = find_checkpoint_start k a >>= λ r. some (r.0) in
      (if is_checkpoint_more_than_one_page n_bytes then start else some a) >>= λ from.
      (read_pages k n_bytes 0 from cp_not_part_of_cp cleared >>= check_last n_bytes)
