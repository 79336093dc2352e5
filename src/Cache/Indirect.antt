-- ===== src/Cache/Indirect.antt =====
-- The active indirect block of a transaction: cache_remove_indirect_block and
-- cache_fix_indirect_leaf_indicator of NANDFS/src/fs/cache.c.
pub mod Laws
use nandfs.Base.{ℕ, not, ◌&&◌, ltb, ◌==◌, if◌then◌else◌, Option, some, ◌>>=◌}
use nandfs.Addr.{LogAddr}
use nandfs.Cache.State.{CacheLruQ, cache_id_empty, is_cached_addr, get_cid_from_addr, put_block}
use nandfs.Cache.Lru.{fs_error_success}
use nandfs.Cache.Find.{cache_get_cid_by_real_addr}
use nandfs.Cache.Free.{cache_force_free_cache}
use nandfs.World.{World, with_lru, cache_of, put_transaction, tid_empty}

unfoldable pub set_is_indirect_leaf : CacheLruQ → ℕ → ℕ → CacheLruQ
set_is_indirect_leaf q cid flag =
    put_block q cid (record (q.caches cid) { is_tid_indirect_leaf = flag })

module _ {M : Type 0} where
  -- The transaction learns whether the block was voted, and the parent that it lost a leaf.
  unfoldable pub note_indirect : World M → ℕ → World M
  note_indirect w cid =
      let b = cache_of w cid in
      let w1 = put_transaction w b.tid (record (w.transactions b.tid) { is_voted = b.is_voted }) in
      if not (b.tid == tid_empty) && not (b.parent_cid == cache_id_empty)
      then with_lru w1 (set_is_indirect_leaf w1.lru b.parent_cid 1)
      else w

  unfoldable pub remove_indirect : ℕ → World M → ℕ → Option (ℕ × World M)
  remove_indirect buffers w cid = cache_force_free_cache buffers (note_indirect w cid) cid

  unfoldable pub cache_remove_indirect_block : ℕ → World M → LogAddr → Option (ℕ × World M)
  cache_remove_indirect_block buffers w indirect_addr =
      if is_cached_addr indirect_addr
      then remove_indirect buffers w (get_cid_from_addr indirect_addr)
      else cache_get_cid_by_real_addr buffers w.lru indirect_addr >>= λ cid.
          if cid == cache_id_empty
          then some (fs_error_success, w)
          else remove_indirect buffers w cid

  -- The buffer that holds the parent of the indirect block at the offset, if it is cached. In the
  -- last case the source takes the parent of the double indirect block.
  unfoldable pub indirect_parent : ℕ → ℕ → World M → ℕ → LogAddr → ℕ → Option ℕ
  indirect_parent buffers double_data_offset w indirect_offset double_log_addr tid =
      let ino_log_addr = (w.transactions tid).ino_log_addr in
      if ltb indirect_offset double_data_offset && is_cached_addr ino_log_addr
      then some (get_cid_from_addr ino_log_addr)
      else if is_cached_addr double_log_addr
      then some (get_cid_from_addr double_log_addr)
      else cache_get_cid_by_real_addr buffers w.lru double_log_addr >>= λ cid.
          some (if cid == cache_id_empty then cache_id_empty else (cache_of w cid).parent_cid)

  unfoldable pub cache_fix_indirect_leaf_indicator :
      ℕ → ℕ → World M → ℕ → LogAddr → ℕ → ℕ → Option (World M)
  cache_fix_indirect_leaf_indicator buffers double_data_offset w indirect_offset double_log_addr tid
        flag =
      indirect_parent buffers double_data_offset w indirect_offset double_log_addr tid
      >>= λ parent_cid. some (
          if parent_cid == cache_id_empty
          then w
          else with_lru w (set_is_indirect_leaf w.lru parent_cid flag))
