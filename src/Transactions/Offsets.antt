-- ===== src/Transactions/Offsets.antt =====
-- Offsets in a file and the indirect block of a transaction: calcIndirectBlockOffset of
-- NANDFS/src/fs/fsUtils.c, isOffsetInIndirect, changeTransactionMaxOffset, initWriteFields,
-- changeFileSize and findIndirectEntriesBlock of NANDFS/src/fs/transactions.c. An indirect block covers
-- 65536 bytes, for blocks of 512 bytes; the first offset behind the direct data, INDIRECT_DATA_OFFSET,
-- is a parameter. An `int32_t` is its bit pattern; INDIRECT_DATA_OFFSET is unsigned.
pub mod Laws
use nandfs.Base.{
  ℕ, zero, suc, ◌+◌, ◌-◌, ◌%◌, ◌^◌, Bool, true, false, not, ◌&&◌, ltb, leb, ◌==◌, if◌then◌else◌,
  update, Option, none, some, ◌>>=◌,
}
use nandfs.Addr.{LogAddr}
use nandfs.World.{World, Transaction, put_transaction, is_indirect_inode}
use nandfs.Cache.Indirect.{cache_remove_indirect_block}
use nandfs.Files.Tables.{ino_num_empty}

-- IS_NEGATIVE
abbrev pub is_negative : ℕ → Bool
is_negative x = leb (2 ^ 31) x

-- FS_MAX_FILESIZE, for 65536 pages of 512 bytes.
abbrev pub fs_max_filesize : ℕ
fs_max_filesize = 2 ^ 25

module _ (indirect_data_offset : ℕ) where
  unfoldable pub calc_indirect_block_offset : ℕ → ℕ
  calc_indirect_block_offset offset =
      if ltb offset indirect_data_offset
      then 0
      else offset - (offset - indirect_data_offset) % 2 ^ 16

  unfoldable pub is_offset_in_indirect : ℕ → Transaction → Bool
  is_offset_in_indirect offset t =
      let margin = (offset + 2 ^ 32 - t.file_offset) % 2 ^ 32 in
      if is_negative t.file_offset
      then false
      else if is_indirect_inode t
      then ltb offset indirect_data_offset
      else not (is_negative margin) && ltb margin (2 ^ 16)

-- The comparison is unsigned, as the field is.
unfoldable pub change_transaction_max_offset : Transaction → ℕ → Transaction
change_transaction_max_offset t max_offset =
    if ltb t.max_written_offset max_offset then record t { max_written_offset = max_offset } else t

unfoldable pub init_write_fields : Transaction → Transaction
init_write_fields t = record t { new_blocks_allocated = 0 }

-- The two fields of an inode that changeFileSize sets.
pub record InodeSizes : Type 0 where
  pub n_blocks : ℕ
  pub n_bytes : ℕ

-- `t` is the transaction, if there is one.
unfoldable pub change_file_size : Option Transaction → InodeSizes → InodeSizes
change_file_size none ino = ino
change_file_size (some t) ino =
    let indirect_max_offset = (t.file_offset + t.max_written_offset) % 2 ^ 32 in
    let n_blocks = (ino.n_blocks + t.new_blocks_allocated) % 2 ^ 32 in
    if t.max_written_offset == 0 then ino else record {
      n_blocks = n_blocks;
      n_bytes = if ltb ino.n_bytes indirect_max_offset then indirect_max_offset else ino.n_bytes;
    }
