-- ===== src/Cache/Free.antt =====
-- Giving buffers back: cache_free_by_real_addr, cache_force_free_cache and cache_init_tid_related of
-- NANDFS/src/fs/cache.c. A function that the source lets change the state returns the new one.
pub mod Laws
pub mod Force
use nandfs.Base.{ℕ, zero, suc, Bool, ◌&&◌, ◌==◌, if◌then◌else◌, Option, none, some, ◌>>=◌, update}
use nandfs.Addr.{LogAddr, copy_logical_address}
use nandfs.Cache.State.{
  Block, CacheBlock, CacheLruQ, cache_id_empty, cache_is_dirty, cache_init_by_cid, is_cached_addr,
  get_cid_from_addr, dec32, put_block,
}
use nandfs.Cache.Lru.{cache_remove_from_lru, fs_error_success, fs_error_critical}
use nandfs.Cache.Find.{cache_get_cid_by_real_addr}
use nandfs.World.{World, Transaction, with_lru, cache_of, put_cache, put_transaction}

abbrev pub fs_error_freeing_dirty_cache : ℕ
fs_error_freeing_dirty_cache = 0xfffffff3

-- Out of the queue, and every field as at the start.
unfoldable pub recycle : CacheLruQ → ℕ → CacheLruQ
recycle q cid = cache_init_by_cid (cache_remove_from_lru q cid) cid

abbrev pub dec_dirty_count : CacheLruQ → CacheLruQ
dec_dirty_count q = record q { dirty_count = dec32 q.dirty_count }

unfoldable pub dec_if_dirty : CacheLruQ → ℕ → CacheLruQ
dec_if_dirty q cid = if cache_is_dirty q cid then dec_dirty_count q else q

unfoldable pub cache_free_by_real_addr : ℕ → CacheLruQ → LogAddr → Option (ℕ × CacheLruQ)
cache_free_by_real_addr buffers q log_addr =
    cache_get_cid_by_real_addr buffers q log_addr >>= λ cid.
    if cid == cache_id_empty
    then some (fs_error_success, q)
    else if cache_is_dirty q cid
    then some (fs_error_freeing_dirty_cache, q)
    else some (fs_error_success, recycle q cid)

-- BLOCK_SET_INDEX
unfoldable pub block_set_index : Block → ℕ → LogAddr → Block
block_set_index buf num log_addr = update buf num (copy_logical_address (buf num) log_addr)

-- The loop that takes `cid` out of the parent fields of the buffers in the queue.
unfoldable pub omit_parent : ℕ → CacheLruQ → ℕ → ℕ → Option CacheLruQ
omit_parent zero q cid i = none
omit_parent (suc k) q cid i =
    let b = q.caches i in
    let q1 =
      if b.parent_cid == cid then put_block q i (record b { parent_cid = cache_id_empty }) else q in
    let rest = omit_parent k q1 cid (q1.caches i).next_in_turn in
    if i == cache_id_empty then some q else rest

module _ {M : Type 0} where
  -- The address of `cid` goes back to the entry of its parent block that referred to the buffer.
  unfoldable pub restore_in_parent : World M → ℕ → World M
  restore_in_parent w cid =
      let b = cache_of w cid in
      let parent = cache_of w b.parent_cid in
      if b.parent_cid == cache_id_empty
      then w
      else put_cache w b.parent_cid (record parent {
        indirect_buf = block_set_index parent.indirect_buf b.parent_offset b.log_addr;
      })

  -- The inode address of the transaction is the buffer `cid`.
  unfoldable pub is_inode_of : World M → ℕ → Bool
  is_inode_of w cid =
      let t = w.transactions (cache_of w cid).tid in
      is_cached_addr t.ino_log_addr && get_cid_from_addr t.ino_log_addr == cid

  unfoldable pub restore_in_transaction : World M → ℕ → World M
  restore_in_transaction w cid =
      let b = cache_of w cid in
      let t = w.transactions b.tid in
      if is_inode_of w cid
      then put_transaction w b.tid
          (record t { ino_log_addr = copy_logical_address t.ino_log_addr b.log_addr })
      else w

  unfoldable pub cache_force_free_cache : ℕ → World M → ℕ → Option (ℕ × World M)
  cache_force_free_cache buffers w cid =
      if cid == cache_id_empty
      then some (fs_error_critical, w)
      else (let w1 = restore_in_transaction (restore_in_parent w cid) cid in
          let q1 = cache_remove_from_lru w1.lru cid in
          let q2 = cache_init_by_cid (dec_if_dirty q1 cid) cid in
          omit_parent (suc buffers) q2 cid q2.mru_cid >>= λ q3.
          some (fs_error_success, with_lru w1 q3))

-- The rounds of cache_init_tid_related for the buffers below the given one.
unfoldable pub init_tid_loop : ℕ → CacheLruQ → ℕ → CacheLruQ
init_tid_loop zero q tid = q
init_tid_loop (suc i) q tid =
    let q1 = init_tid_loop i q tid in
    if (q1.caches i).tid == tid then recycle (dec_if_dirty q1 i) i else q1

unfoldable pub cache_init_tid_related : ℕ → CacheLruQ → ℕ → CacheLruQ
cache_init_tid_related buffers q tid = init_tid_loop buffers q tid
