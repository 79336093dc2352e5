-- ===== src/Transactions/Write.antt =====
-- Writing a block as part of a transaction: allocAndWriteBlockTid of NANDFS/src/fs/transactions.c. A
-- block is its four-byte entries; the bytes of directory entries are read out of them. handleMinPages
-- is the parameter `handle_min_pages`, which Transactions.MinPages models. `none` stands for a failed
-- assertion or a loop whose rounds are used up.
use nandfs.Base.{
  ℕ, zero, suc, ◌+◌, ◌-◌, ◌*◌, ◌/◌, ◌%◌, ◌^◌, Bool, true, false, not, ◌&&◌, ◌||◌, ◌==◌,
  if◌then◌else◌, Option, none, some, ◌>>=◌, ltb,
}
use nandfs.Addr.{
  LogAddr, empty_address, to_uint32, is_addr_empty, is_addr_free, mark_block_with_hole,
  mark_block_no_hole,
}
use nandfs.Cache.State.{Block, cache_id_empty, is_cached_addr, get_cid_from_addr}
use nandfs.Cache.Lru.{fs_error_success}
use nandfs.Cache.Find.{cache_get_cid_by_real_addr}
use nandfs.Cache.Free.{cache_force_free_cache}
use nandfs.Cache.Flush.{actual_write}
use nandfs.Cache.Access.{DataType, cache_access_cache}
use nandfs.World.{World, Geometry, Sequencing, Transaction}
use nandfs.Files.Tables.{ftype_dir, ino_num_empty}

-- DATA_TYPE_REGULAR, DATA_TYPE_VOTS, DATA_TYPE_ENTRIES, DATA_TYPE_DIRENTS and DATA_TYPE_INODE.
pub data BlockType : Type 0 where
  regular_block vots_block entries_block dirents_block inode_block : BlockType

-- What the cache makes of a type.
abbrev pub data_type : BlockType → DataType
data_type regular_block = DataType.other
data_type vots_block = DataType.other
data_type entries_block = DataType.entries
data_type dirents_block = DataType.other
data_type inode_block = DataType.inode

abbrev pub is_vots_block : BlockType → Bool
is_vots_block vots_block = true
is_vots_block regular_block = false
is_vots_block entries_block = false
is_vots_block dirents_block = false
is_vots_block inode_block = false

abbrev pub is_dirents_block : BlockType → Bool
is_dirents_block dirents_block = true
is_dirents_block regular_block = false
is_dirents_block entries_block = false
is_dirents_block vots_block = false
is_dirents_block inode_block = false

-- IS_SPARSE_FILE
unfoldable pub is_sparse_file : Transaction → Bool
is_sparse_file t = (t.ino_num == 0) || (t.f_type == ftype_dir)

unfoldable pub get_byte : Block → ℕ → ℕ
get_byte buf i = to_uint32 (buf (i / 4)) / 2 ^ (8 * (i % 4)) % 256

-- IS_DIRENT_EMPTY: the four bytes behind the type of the first directory entry.
unfoldable pub is_dirent_empty : Block → Bool
is_dirent_empty buf =
    get_byte buf 1 + get_byte buf 2 * 2 ^ 8 + get_byte buf 3 * 2 ^ 16 + get_byte buf 4 * 2 ^ 24
    == ino_num_empty

-- Whether one of the `n` entries from `i` on passes the test.
unfoldable pub any_entry : ℕ → (LogAddr → Bool) → Block → ℕ → Bool
any_entry zero p buf i = false
any_entry (suc n) p buf i = p (buf i) || any_entry n p buf (i + 1)

-- Whether one of the `n` bytes below `i` is the end of a path.
unfoldable pub any_path_end : ℕ → Block → ℕ → Bool
any_path_end zero buf i = false
any_path_end (suc n) buf i = (get_byte buf (i - 1) == 0) || any_path_end n buf (i - 1)

-- The case of a sparse file: what is not allocated, by the type of the block.
unfoldable pub has_content : ℕ → BlockType → Block → Bool
has_content entries dirents_block buf = not (is_dirent_empty buf)
has_content entries entries_block buf = any_entry entries (λ a. not (is_addr_empty a)) buf 0
has_content entries regular_block buf = true
has_content entries vots_block buf = true
has_content entries inode_block buf = true

unfoldable pub perform_alloc : ℕ → Transaction → BlockType → Block → Bool
perform_alloc entries t type buf = not (is_sparse_file t) || has_content entries type buf

unfoldable pub is_cacheable : ℕ → Transaction → BlockType → Bool
is_cacheable buffers t type =
    not (is_sparse_file t && ((t.ino_num == 0) || is_dirents_block type))
    && not (is_vots_block type)
    && not (buffers == 0)

-- The switch at the end: whether the address is marked to have a hole. The last 257 bytes of a block of
-- directory entries, of 4 * entries bytes, are looked at.
unfoldable pub has_hole : ℕ → BlockType → Block → Bool
has_hole entries entries_block buf = any_entry entries is_addr_free buf 0
has_hole entries dirents_block buf = not (any_path_end 257 buf (4 * entries))
has_hole entries regular_block buf = false
has_hole entries vots_block buf = false
has_hole entries inode_block buf = false

module _ {M : Type 0} (s : Sequencing M) (g : Geometry)
    (handle_min_pages : ℕ → World M → Option (ℕ × World M)) where
  -- The buffer of a block that is not written any more.
  unfoldable pub drop_cid : World M → LogAddr → ℕ → Option (ℕ × LogAddr × World M)
  drop_cid w log_addr cid =
      let freed = cache_force_free_cache g.buffers w cid >>= λ r.
      some (r.0, if r.0 == fs_error_success then empty_address else log_addr, r.1) in
      if cid == cache_id_empty
      then some (fs_error_success, empty_address, w)
      else if ltb cid g.buffers
      then freed
      else none

  unfoldable pub drop_block : World M → LogAddr → Option (ℕ × LogAddr × World M)
  drop_block w log_addr =
      if is_cached_addr log_addr
      then drop_cid w log_addr (get_cid_from_addr log_addr)
      else cache_get_cid_by_real_addr g.buffers w.lru log_addr >>= drop_cid w log_addr

  unfoldable pub place_block :
      World M → LogAddr → Block → BlockType → ℕ → ℕ → Option (ℕ × LogAddr × World M)
  place_block w log_addr buf type entry_offset tid =
      let t = w.transactions tid in
      let cached =
        cache_access_cache s g w buf log_addr entry_offset tid (data_type type) true >>= λ r.
        some (r.0.res, r.0.addr, r.1) in
      if perform_alloc g.entries t type buf && not (is_cacheable g.buffers t type)
      then some (actual_write s g w buf (is_vots_block type) tid)
      else if is_cacheable g.buffers t type
      then if perform_alloc g.entries t type buf then cached else drop_block w log_addr
      else some (fs_error_success, empty_address, w)

  -- The hole is marked where the block has been placed.
  unfoldable pub mark_hole : BlockType → Block → ℕ × LogAddr × World M → ℕ × LogAddr × World M
  mark_hole type buf (res, a, w) =
      if res == fs_error_success
      then (
        fs_error_success,
        if has_hole g.entries type buf then mark_block_with_hole a else mark_block_no_hole a,
        w,
      )
      else (res, a, w)

  unfoldable pub write_if_room :
      LogAddr → Block → BlockType → ℕ → ℕ → ℕ × World M → Option (ℕ × LogAddr × World M)
  write_if_room log_addr buf type entry_offset tid (res, w) =
      let placed =
        place_block w log_addr buf type entry_offset tid >>= λ r. some (mark_hole type buf r) in
      if res == fs_error_success then placed else some (res, log_addr, w)

  unfoldable pub alloc_and_write_block_tid :
      World M → LogAddr → Block → BlockType → ℕ → ℕ → Option (ℕ × LogAddr × World M)
  alloc_and_write_block_tid w log_addr buf type entry_offset tid =
      handle_min_pages tid w >>= write_if_room log_addr buf type entry_offset tid
