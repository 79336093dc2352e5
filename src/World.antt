-- ===== src/World.antt =====
-- What the file system layer shares: the cache, the transactions of NANDFS/src/fs/transactions.h and
-- the medium behind the sequencing layer.
use nandfs.Base.{ℕ, ◌-◌, ◌==◌, Bool, update}
use nandfs.Addr.{LogAddr}
use nandfs.Cache.State.{Block, CacheLruQ, CacheBlock}

-- `transaction_t`
pub record Transaction : Type 0 where
  pub t_type : ℕ
  pub f_type : ℕ
  pub was_commited : ℕ
  pub is_commiting : ℕ
  pub ino_num : ℕ
  pub prev_log_addr : LogAddr
  pub data_buf : Block
  pub vots_count : ℕ
  pub vots_buf_offset : ℕ
  pub vots_buf : Block
  pub ino_log_addr : LogAddr
  pub max_written_offset : ℕ
  pub new_blocks_allocated : ℕ
  pub file_size : ℕ
  pub file_offset : ℕ
  pub indirect_buf : Block
  pub parent_cid : ℕ
  pub parent_offset : ℕ
  pub is_voted : ℕ

-- The build's constants FS_CACHE_BUFFERS and LOG_ADDRESSES_PER_BLOCK.
pub record Geometry : Type 0 where
  pub buffers : ℕ
  pub entries : ℕ

-- CALC_IN_LOG_ADDRESSES(DIRECT_INDEX_LOCATION): ten direct entries and three indirect ones end an
-- inode.
abbrev pub direct_index : Geometry → ℕ
direct_index g = g.entries - 13

pub record World (M : Type 0) : Type 0 where
  pub lru : CacheLruQ
  pub transactions : ℕ → Transaction
  pub media : M

-- The sequencing layer as the cache sees it: allocAndWriteBlock, which may write a checkpoint with
-- the transactions in it, gives a result, the address written and the medium after it; readBlock
-- gives a result and the block.
pub record Sequencing (M : Type 0) : Type 0 where
  pub alloc_and_write_block : M → (ℕ → Transaction) → Block → Bool → LogAddr → ℕ × LogAddr × M
  pub read_block : M → LogAddr → ℕ × Block

-- IS_INDIRECT_INODE
abbrev pub is_indirect_inode : Transaction → Bool
is_indirect_inode t = t.file_offset == 0

abbrev pub tid_empty : ℕ
tid_empty = 0xffffffff

module _ {M : Type 0} where
  abbrev pub with_lru : World M → CacheLruQ → World M
  with_lru w q = record w { lru = q }

  abbrev pub cache_of : World M → ℕ → CacheBlock
  cache_of w cid = w.lru.caches cid

  abbrev pub put_cache : World M → ℕ → CacheBlock → World M
  put_cache w cid b = record w { lru = record (w.lru) { caches = update w.lru.caches cid b } }

  abbrev pub put_transaction : World M → ℕ → Transaction → World M
  put_transaction w tid t = record w { transactions = update w.transactions tid t }
