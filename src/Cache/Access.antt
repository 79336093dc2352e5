-- ===== src/Cache/Access.antt =====
-- Reading and writing through the cache: cache_set_write_buffer and cache_access_cache of
-- NANDFS/src/fs/cache.c.
pub mod Keep
pub mod Laws
pub mod Outcome
pub mod Files
use nandfs.Base.{
  ℕ, zero, suc, ◌+◌, Bool, true, false, not, ◌&&◌, ◌||◌, ◌==◌, if◌then◌else◌, Option, none, some,
  ◌>>=◌,
}
use nandfs.Addr.{
  LogAddr, empty_address, copy_logical_address, set_logical_offset, set_logical_segment,
  is_addr_empty,
}
use nandfs.Cache.State.{
  Block, CacheBlock, CacheLruQ, cache_id_empty, cache_dirty, cache_magic_seg, cache_is_dirty,
  is_cached_addr, get_cid_from_addr, is_negative, inc32, put_block,
}
use nandfs.Cache.Lru.{
  cache_remove_from_lru, cache_insert_to_lru, fs_error_success, fs_error_critical,
}
use nandfs.Cache.Find.{cache_get_cid_by_addr}
use nandfs.Cache.Flush.{cache_get_free_cache_id, fs_error_io}
use nandfs.World.{World, Geometry, Sequencing, direct_index, with_lru, cache_of}

abbrev pub fs_error_free_cache_acquirement : ℕ
fs_error_free_cache_acquirement = 0xfffffff8

-- DATA_TYPE_INODE, DATA_TYPE_ENTRIES, and the types whose blocks hold no addresses.
pub data DataType : Type 0 where
  inode entries other : DataType

-- CACHE_SET_PARENT_FIELDS
unfoldable pub set_parent_fields : CacheLruQ → ℕ → LogAddr → CacheLruQ
set_parent_fields q cid log_addr =
    let b = q.caches cid in
    let q1 = put_block q cid (record b { ref_count = inc32 b.ref_count }) in
    let child = get_cid_from_addr log_addr in
    if is_cached_addr log_addr
    then put_block q1 child (record (q1.caches child) { parent_cid = cid })
    else q

-- The rounds for `k` entries from `i` on, the order of the source's loop.
unfoldable pub adopt : ℕ → CacheLruQ → ℕ → Block → ℕ → CacheLruQ
adopt zero q cid buf i = q
adopt (suc k) q cid buf i = adopt k (set_parent_fields q cid (buf i)) cid buf (i + 1)

-- The entries of a block that may be cached addresses: an inode's ten direct entries, then its
-- indirect, double and triple ones, which follow them; every entry of a block of entries.
unfoldable pub adopt_entries : Geometry → CacheLruQ → ℕ → Block → DataType → CacheLruQ
adopt_entries g q cid buf inode = adopt 13 q cid buf (direct_index g)
adopt_entries g q cid buf entries = adopt g.entries q cid buf 0
adopt_entries g q cid buf other = q

unfoldable pub cache_set_write_buffer : Geometry → CacheLruQ → ℕ → Block → DataType → CacheLruQ
cache_set_write_buffer g q cid buf data_type =
    let q1 = put_block q cid (record (q.caches cid) { indirect_buf = buf; ref_count = 0 }) in
    let q2 = adopt_entries g q1 cid buf data_type in
    if is_addr_empty (q2.caches cid).log_addr
    then put_block q2 cid (record (q2.caches cid) { is_voted = 0 })
    else q2

-- The magic address of a buffer.
unfoldable pub magic_address : ℕ → LogAddr
magic_address cid = set_logical_offset (set_logical_segment empty_address cache_magic_seg) cid

-- Out of the queue and in again in front; the source drops the result of the insertion.
unfoldable pub touch : CacheLruQ → ℕ → CacheLruQ
touch q cid = (cache_insert_to_lru (cache_remove_from_lru q cid) cid).1

unfoldable pub set_tid : CacheLruQ → ℕ → ℕ → CacheLruQ
set_tid q cid tid = put_block q cid (record (q.caches cid) { tid = tid })

unfoldable pub mark_dirty : CacheLruQ → ℕ → Bool → CacheLruQ
mark_dirty q cid is_write =
    if is_write && not (cache_is_dirty q cid)
    then record (put_block q cid (record (q.caches cid) { is_dirty = cache_dirty })) {
      dirty_count = inc32 q.dirty_count;
    }
    else q

unfoldable pub note_log_addr : CacheLruQ → ℕ → LogAddr → CacheLruQ
note_log_addr q cid old_addr =
    let b = q.caches cid in
    if is_cached_addr old_addr
    then q
    else put_block q cid (record b { log_addr = copy_logical_address b.log_addr old_addr })

-- What an access gives back: the error code, the caller's buffer and its address.
pub record Access : Type 0 where
  pub res : ℕ
  pub buf : Block
  pub addr : LogAddr

-- A failed access leaves the caller's buffer and address.
abbrev pub failed : ℕ → Block → LogAddr → Access
failed res buf old_addr = record { res = res; buf = buf; addr = old_addr }

module _ {M : Type 0} (s : Sequencing M) (g : Geometry) where
  -- The transfer of the block, in one direction or the other.
  unfoldable pub transfer : CacheLruQ → ℕ → Block → DataType → Bool → Block × CacheLruQ
  transfer q cid buf data_type true = (buf, cache_set_write_buffer g q cid buf data_type)
  transfer q cid buf data_type false = ((q.caches cid).indirect_buf, q)

  -- The end of the function for a buffer that is dirty already.
  unfoldable pub access_dirty :
      World M → ℕ → Block → LogAddr → ℕ → DataType → Bool → Access × World M
  access_dirty w cid buf old_addr tid data_type is_write =
      let q1 = set_tid (touch w.lru cid) cid tid in
      let (buf1, q2) = transfer q1 cid buf data_type is_write in
      (
        record {
          res = fs_error_success;
          buf = buf1;
          addr = copy_logical_address old_addr (magic_address cid);
        },
        with_lru w q2,
      )

  -- The end of the function for a buffer that is clean or new.
  unfoldable pub access_clean :
      World M → ℕ → Block → LogAddr → ℕ → ℕ → DataType → Bool → Access × World M
  access_clean w cid buf old_addr parent_offset tid data_type is_write =
      let q1 = touch (note_log_addr w.lru cid old_addr) cid in
      let q2 = set_tid (mark_dirty q1 cid is_write) cid tid in
      let (buf1, q3) = transfer q2 cid buf data_type is_write in
      let q4 = put_block q3 cid (record (q3.caches cid) { parent_offset = parent_offset }) in
      (
        record {
          res = fs_error_success;
          buf = buf1;
          addr = copy_logical_address old_addr (magic_address cid);
        },
        with_lru w q4,
      )

  -- The block of a new buffer comes from flash, unless it is about to be written.
  unfoldable pub load_new : World M → ℕ → LogAddr → Bool → ℕ × World M
  load_new w cid old_addr is_write =
      let (res, block) = s.read_block w.media old_addr in
      let q = put_block w.lru cid (record (w.lru.caches cid) { indirect_buf = block }) in
      if is_write then (0, w) else (res, with_lru w q)

  -- The block has no buffer yet.
  unfoldable pub access_new :
      World M → Block → LogAddr → ℕ → ℕ → DataType → Bool → Option (Access × World M)
  access_new w buf old_addr parent_offset tid data_type is_write =
      cache_get_free_cache_id s g w >>= λ (cid, w1).
      if cid == cache_id_empty || is_negative cid
      then some (failed fs_error_free_cache_acquirement buf old_addr, w1)
      else (let (res, w2) = load_new w1 cid old_addr is_write in
          if not (res == 0)
          then some (failed fs_error_io buf old_addr, w2)
          else some (access_clean w2 cid buf old_addr parent_offset tid data_type is_write))

  -- The sanity check on a cached address compares the id with itself, so it passes; the ids that
  -- cache_get_cid_by_addr gives are never negative but for the empty one.
  unfoldable pub cache_access_cache :
      World M → Block → LogAddr → ℕ → ℕ → DataType → Bool → Option (Access × World M)
  cache_access_cache w buf old_addr parent_offset tid data_type is_write =
      cache_get_cid_by_addr g.buffers w.lru old_addr >>= λ cid.
      if cid == cache_id_empty
      then access_new w buf old_addr parent_offset tid data_type is_write
      else if is_cached_addr old_addr && not (get_cid_from_addr old_addr == cid)
      then some (failed fs_error_critical buf old_addr, w)
      else if cache_is_dirty w.lru cid
      then some (access_dirty w cid buf old_addr tid data_type is_write)
      else some (access_clean w cid buf old_addr parent_offset tid data_type is_write)
