-- ===== src/Transactions/MinPages.antt =====
-- Making room for a write: abortTransaction and handleMinPages of NANDFS/src/fs/transactions.c.
pub mod Room
use nandfs.Base.{
  ℕ, zero, suc, ◌+◌, ◌-◌, ◌%◌, ◌^◌, Bool, true, false, not, ◌&&◌, ◌||◌, leb, ◌==◌, if◌then◌else◌,
  Option, none, some, ◌>>=◌,
}
use nandfs.Addr.{LogAddr}
use nandfs.Cache.State.{Block, CacheLruQ}
use nandfs.Cache.Lru.{fs_error_success}
use nandfs.World.{World, Transaction, put_transaction}
use nandfs.Sequencing.SegMap.{first_from}
use nandfs.Sequencing.Reclaim.{ObsCounters}
use nandfs.Transactions.{
  fs_max_n_transactions, t_type_unlink, t_type_temp, is_transaction_empty, init_transaction,
}
use nandfs.Transactions.Votes.{Pages, fs_error_io, delete_transaction_pages}

abbrev pub fs_error_wrt_thrshld : ℕ
fs_error_wrt_thrshld = 0xfffffffb

-- `x <= y` of two `int32_t`.
unfoldable pub le_int32 : ℕ → ℕ → Bool
le_int32 x y = leb ((x + 2 ^ 31) % 2 ^ 32) ((y + 2 ^ 31) % 2 ^ 32)

-- (NAND_PAGE_COUNT >> POWER_LOG_ADDRESSES_PER_BLOCK) + FS_DELETE_DIRENT_WRITES, for 65536 pages of 128
-- addresses.
abbrev pub fs_min_free_pages : ℕ
fs_min_free_pages = 524

-- FS_TOTAL_FREE_PAGES: the obsolete and the free pages, less those that dirty buffers will take.
unfoldable pub fs_total_free_pages : ObsCounters → ℕ → ℕ
fs_total_free_pages o dirty_count = (o.counter + o.free_counter + (2 ^ 32 - dirty_count)) % 2 ^ 32

unfoldable pub is_write_permitted : Transaction → Bool
is_write_permitted t = (t.t_type == t_type_unlink) || (t.t_type == t_type_temp)

-- What abortTransaction calls: fsCheckpointWriter and findNextFreePage, with the obsolete counters.
pub record Checkpoints (M : Type 0) : Type 0 where
  pub obs_counters : M → ObsCounters
  pub fs_checkpoint_writer : World M → ℕ × World M
  pub find_next_free_page : World M → ℕ × World M

-- The first transaction that may be aborted: neither the current one nor empty.
unfoldable pub find_victim : (ℕ → Transaction) → ℕ → ℕ
find_victim ts tid =
    first_from (λ i. not (i == tid) && not (is_transaction_empty ts i)) fs_max_n_transactions
      fs_max_n_transactions 0

module _ {M : Type 0} (pages : Pages M) (calls : Checkpoints M) (buffers : ℕ) where
  unfoldable pub is_min_free_pages_reached : World M → Bool
  is_min_free_pages_reached w =
      le_int32 (fs_total_free_pages (calls.obs_counters w.media) w.lru.dirty_count)
        fs_min_free_pages

  -- The end of abortTransaction, once the pages of the transaction are deleted.
  unfoldable pub checkpoint_aborted : World M → ℕ × World M
  checkpoint_aborted w =
      let (written, w1) = calls.fs_checkpoint_writer w in
      let (found, w2) = calls.find_next_free_page w1 in
      if not (written == 0)
      then (fs_error_io, w1)
      else if not (found == 0)
      then (found, w2)
      else (fs_error_success, w2)

  -- The walk has moved on the address in the transaction itself.
  unfoldable pub clear_aborted : ℕ → ℕ × LogAddr × World M → ℕ × World M
  clear_aborted tid (res, addr, w) =
      let w1 = put_transaction w tid (record (w.transactions tid) { prev_log_addr = addr }) in
      if not (res == 0)
      then (fs_error_io, w1)
      else checkpoint_aborted (record w1 { transactions = init_transaction w1.transactions tid })

  unfoldable pub abort_transaction : ℕ → Block → ℕ → World M → Option (ℕ × World M)
  abort_transaction k buffer tid w =
      delete_transaction_pages pages buffers k (w.transactions tid).prev_log_addr tid false buffer w
      >>= λ deleted. some (clear_aborted tid deleted)

  -- FS_VERIFY around an abort, and the next round.
  unfoldable pub after_abort : (World M → Option (ℕ × World M)) → ℕ × World M → Option (ℕ × World M)
  after_abort next (res, w) = if res == 0 then next w else some (fs_error_io, w)

  -- The loop in at most `k` rounds.
  unfoldable pub make_room :
      ℕ → (ℕ → World M → Option (ℕ × World M)) → ℕ → World M → Option (ℕ × World M)
  make_room zero abort tid w = none
  make_room (suc k) abort tid w =
      let i = find_victim w.transactions tid in
      let next = abort i w >>= after_abort (make_room k abort tid) in
      if not (is_min_free_pages_reached w)
      then some (fs_error_success, w)
      else if i == fs_max_n_transactions
      then some (fs_error_wrt_thrshld, w)
      else next

  unfoldable pub handle_min_pages : ℕ → Block → ℕ → World M → Option (ℕ × World M)
  handle_min_pages k buffer tid w =
      let room = make_room 3 (abort_transaction k buffer) tid w in
      if is_write_permitted (w.transactions tid) then some (fs_error_success, w) else room
