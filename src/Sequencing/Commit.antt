-- ===== src/Sequencing/Commit.antt =====
-- The checkpoint of the sequencing layer: commit of NANDFS/src/sequencing/sequencing.c and setIsCommit
-- of NANDFS/src/sequencing/sequencingUtils.c.
pub mod Pages
pub mod Header
pub mod Loop
pub mod Checkpoint
use nandfs.Base.{
  ℕ, zero, suc, ◌+◌, ◌-◌, ◌*◌, ◌/◌, ◌%◌, ◌^◌, Bool, true, false, not, ltb, ◌==◌, if◌then◌else◌,
  Option, none, some, ◌>>=◌, update,
}
use nandfs.Addr.{LogAddr, empty_address, is_address_empty}
use nandfs.Nand.{Bytes, empty_buf, set_checkpoint_flag}
use nandfs.Sequencing.SegMap.{increment_reclaimed_offset}
use nandfs.Sequencing.Translate.{calc_target_phy_addr}
use nandfs.Sequencing.Reclaim.{ObsCounters}
use nandfs.Sequencing.Pages.{Driver, Writer, write_block, set_cp_page_flag}
use nandfs.Sequencing.NextPage.{is_commit_last, alloc_and_write_block}

abbrev pub is_commit_regular : ℕ
is_commit_regular = 1

-- sizeof(obs_counters_map)
abbrev pub obs_counters_map_size : ℕ
obs_counters_map_size = 264

abbrev pub seq_checkpoint_size : ℕ
seq_checkpoint_size = obs_counters_map_size + 8

-- The counters as they lie in memory, the low byte of a number first.
unfoldable pub obs_byte : ObsCounters → ℕ → ℕ
obs_byte o i =
    if ltb i 256
    then o.counters i
    else if ltb i 260
    then o.counter / 2 ^ (8 * (i - 256)) % 256
    else o.free_counter / 2 ^ (8 * (i - 260)) % 256

-- Four bytes are lfsr_state; `behind` gives what follows it in memory.
unfoldable pub lfsr_byte : (ℕ → ℕ) → ℕ → ℕ → ℕ
lfsr_byte behind lfsr_state i = if ltb i 4 then lfsr_state / 2 ^ (8 * i) % 256 else behind (i - 4)

-- The byte of a checkpoint of several pages at an index.
unfoldable pub byte_to_write : (ℕ → ℕ) → Bytes → ℕ → ObsCounters → ℕ → ℕ → ℕ
byte_to_write behind fs_data n_bytes obs lfsr_state i =
    if ltb i n_bytes
    then fs_data i
    else if ltb i (obs_counters_map_size + n_bytes)
    then obs_byte obs (i - n_bytes)
    else lfsr_byte behind lfsr_state (i - n_bytes - obs_counters_map_size)

-- CALCULATE_IN_PAGES
unfoldable pub calculate_in_pages : ℕ → ℕ
calculate_in_pages size = size / 512 + (if size % 512 == 0 then 0 else 1)

-- The inner loop, in `k` rounds from the index `start` of the checkpoint on.
unfoldable pub fill_page : ℕ → ℕ → (ℕ → ℕ) → Bytes
fill_page zero start bytes = empty_buf
fill_page (suc k) start bytes = update (fill_page k start bytes) k (bytes (start + k))

-- The rounds of the inner loop: up to the end of the page or of the checkpoint.
unfoldable pub fill_count : ℕ → ℕ → ℕ
fill_count cp_size start = if not (ltb (cp_size - start) 512) then 512 else cp_size - start

-- The only page of a short checkpoint.
unfoldable pub single_page : Bytes → ℕ → ObsCounters → Bytes
single_page fs_data n_bytes obs =
    let counters : Bytes = λ i.
      if ltb i n_bytes
      then fs_data i
      else if ltb i (n_bytes + obs_counters_map_size)
      then obs_byte obs (i - n_bytes)
      else empty_buf i in
    set_checkpoint_flag 512 counters 0

unfoldable pub set_is_commit : Bool → ℕ
set_is_commit is_commit_last_page =
    if is_commit_last_page then is_commit_last else is_commit_regular

unfoldable pub increment_free_count : ObsCounters → ObsCounters
increment_free_count o = record o { free_counter = (o.free_counter + 1) % 2 ^ 32 }

unfoldable pub after_single : {F : Type 0} → ℕ × LogAddr × Writer F → Option (ℕ × Writer F)
after_single (res, _, w) = some (if res == 0 then 0 else 1, w)

-- The end of a round, once its page has been allocated and written.
unfoldable pub after_alloc :
    {F : Type 0}
    → (Writer F → Option (ℕ × Writer F))
    → ℕ × LogAddr × Writer F
    → Option (ℕ × Writer F)
after_alloc rest (res, _, w) =
    let continued = rest w in
    if res == 0 then (if w.cp_written then some (0, w) else continued) else some (1, w)

-- The end of a round in a header. A failed write leaves the offset where it was.
unfoldable pub after_header :
    {F : Type 0}
    → Writer F
    → (Writer F → Option (ℕ × Writer F))
    → LogAddr × Writer F
    → Option (ℕ × Writer F)
after_header before rest (log_addr, w) =
    let continued = rest w in
    if is_address_empty log_addr then some (1, record w { seg_map = before.seg_map }) else continued

module _ {F : Type 0} (d : Driver F) where
  -- A page that is written as part of a header, at the reclaimed address.
  unfoldable pub write_header_page : Writer F → Bytes → LogAddr × Writer F
  write_header_page w buf =
      let (log_addr, w1) = write_block d w buf (calc_target_phy_addr w.seg_map) in
      (log_addr, record w1 { seg_map = increment_reclaimed_offset w1.seg_map })

module _ {F : Type 0} (d : Driver F) (perform_wear_leveling : Writer F → Option (ℕ × Writer F))
    (cp_write : Writer F → Option (ℕ × Writer F)) (behind : ℕ → ℕ) where
  -- The loop over the pages in at most `k` rounds, with the index of the page and of its first byte.
  unfoldable pub commit_pages : ℕ → Bytes → ℕ → Bool → ℕ → ℕ → Writer F → Option (ℕ × Writer F)
  commit_pages zero fs_data n_bytes is_part_of_header cp_page_idx start w = none
  commit_pages (suc k) fs_data n_bytes is_part_of_header cp_page_idx start w =
      let cp_size = seq_checkpoint_size + n_bytes in
      let max = calculate_in_pages cp_size - 1 in
      let end = start + fill_count cp_size start in
      let page = λ (u : Writer F).
        set_cp_page_flag 512
          (fill_page (fill_count cp_size start) start
            (byte_to_write behind fs_data n_bytes u.obs u.lfsr_state))
          cp_page_idx max in
      let rest = commit_pages k fs_data n_bytes is_part_of_header (cp_page_idx + 1) end in
      let w1 = record w { obs = increment_free_count w.obs } in
      let allocated =
        alloc_and_write_block d perform_wear_leveling cp_write w1 empty_address (page w1) false
          empty_address (set_is_commit (not (ltb end cp_size)))
        >>= after_alloc rest in
      let header = after_header w rest (write_header_page d w (page w)) in
      if ltb start cp_size then (if is_part_of_header then header else allocated) else some (0, w)

  -- A short checkpoint, whose write in a header is not verified.
  unfoldable pub commit_single : Bytes → ℕ → Bool → Writer F → Option (ℕ × Writer F)
  commit_single fs_data n_bytes is_part_of_header w =
      let w1 = record w { obs = increment_free_count w.obs } in
      let allocated =
        alloc_and_write_block d perform_wear_leveling cp_write w1 empty_address
          (single_page fs_data n_bytes w1.obs) false empty_address is_commit_last
        >>= after_single in
      if is_part_of_header
      then some (0, (write_header_page d w (single_page fs_data n_bytes w.obs)).1)
      else allocated

  -- commit; cpWrittenDuringAllocation is a variable of its own.
  unfoldable pub commit : Bytes → ℕ → Bool → Writer F → Option (ℕ × Writer F)
  commit fs_data n_bytes is_part_of_header w =
      let cp_size = seq_checkpoint_size + n_bytes in
      let local = record w { cp_written = false } in
      let pages =
        commit_pages (calculate_in_pages cp_size + 1) fs_data n_bytes is_part_of_header 0 0 local in
      (if not (ltb cp_size 512)
        then pages
        else commit_single fs_data n_bytes is_part_of_header local)
      >>= λ r. some (r.0, record (r.1) { cp_written = w.cp_written })
