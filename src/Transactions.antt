-- ===== src/Transactions.antt =====
-- The table of transactions: findTidByFileId, getTidByFileId, getFreeTransactionId, init_transaction
-- and init_transactions of NANDFS/src/fs/transactions.c. The table is a function of the index; an
-- `int32_t` is its bit pattern.
pub mod Distinct
pub mod Votes
pub mod MinPages
pub mod Offsets
pub mod Write
pub mod Vot
use nandfs.Base.{ℕ, zero, suc, ◌+◌, Bool, true, false, not, ◌&&◌, ◌==◌, if◌then◌else◌, update}
use nandfs.Addr.{LogAddr, empty_address}
use nandfs.Cache.State.{Block}
use nandfs.World.{World, Transaction, put_transaction, tid_empty}
use nandfs.Files.Tables.{first_index, ino_num_empty}

abbrev pub fs_max_n_transactions : ℕ
fs_max_n_transactions = 2

abbrev pub t_type_empty : ℕ
t_type_empty = 0xffffffff

abbrev pub t_type_unlink : ℕ
t_type_unlink = 2

abbrev pub t_type_temp : ℕ
t_type_temp = 3

-- init_fsbuf: every byte 0xff.
abbrev pub empty_block : Block
empty_block = λ i. empty_address

-- IS_TRANSACTION_EMPTY
unfoldable pub is_transaction_empty : (ℕ → Transaction) → ℕ → Bool
is_transaction_empty ts tid = not (tid == tid_empty) && ((ts tid).ino_num == ino_num_empty)

unfoldable pub find_tid_by_file_id : (ℕ → Transaction) → ℕ → ℕ
find_tid_by_file_id ts ino_num =
    first_index (λ i. (ts i).ino_num == ino_num) fs_max_n_transactions 0

unfoldable pub get_free_transaction_id : (ℕ → Transaction) → ℕ
get_free_transaction_id ts = first_index (is_transaction_empty ts) fs_max_n_transactions 0

-- The fields on the parent of the indirect block and on votes keep their values.
unfoldable pub init_transaction : (ℕ → Transaction) → ℕ → ℕ → Transaction
init_transaction ts tid = update ts tid (record (ts tid) {
  t_type = t_type_empty;
  f_type = 0;
  prev_log_addr = empty_address;
  ino_log_addr = empty_address;
  file_size = 0xffffffff;
  file_offset = 0xffffffff;
  vots_count = 0;
  vots_buf_offset = 0;
  max_written_offset = 0;
  new_blocks_allocated = 0;
  ino_num = ino_num_empty;
  was_commited = 0;
  is_commiting = 0;
  vots_buf = empty_block;
  data_buf = empty_block;
  indirect_buf = empty_block;
})

-- The first `n` rounds of init_transactions.
unfoldable pub init_transactions : ℕ → (ℕ → Transaction) → ℕ → Transaction
init_transactions zero ts = ts
init_transactions (suc n) ts = init_transaction (init_transactions n ts) n

-- The end of getTidByFileId, with a free transaction. getInode takes the old content of the address and
-- the state, and gives a result, 0 for success, the address and the state after it: it reads through the
-- cache, which may write the buffers of other transactions.
module _ {M : Type 0} (get_inode : LogAddr → ℕ → World M → ℕ × LogAddr × World M) where
  unfoldable pub claim : World M → ℕ → ℕ → ℕ × World M
  claim w tid ino_num =
      let (res, addr, w1) = get_inode (w.transactions tid).ino_log_addr ino_num w in
      let w2 = put_transaction w1 tid (record (w1.transactions tid) { ino_log_addr = addr }) in
      if not (res == 0)
      then (0xffffffff, w2)
      else (tid, put_transaction w2 tid (record (w2.transactions tid) { ino_num = ino_num }))

  unfoldable pub get_tid_by_file_id : World M → ℕ → ℕ × World M
  get_tid_by_file_id w ino_num =
      let tid = find_tid_by_file_id w.transactions ino_num in
      let free = get_free_transaction_id w.transactions in
      if not (tid == tid_empty)
      then (tid, w)
      else if free == tid_empty
      then (tid_empty, w)
      else claim w free ino_num
