-- ===== src/Cache/Flush.antt =====
-- Writing a buffer to flash: cache_fix_block_dependencies, cache_flush_cache, cache_get_free_cache_id
-- and cache_flush_transaction_blocks of NANDFS/src/fs/cache.c, and
-- allocAndWriteBlockTid_actualWrite of NANDFS/src/fs/transactions.c.
pub mod Laws
pub mod Evict
use nandfs.Base.{
  ℕ, zero, suc, ◌+◌, ◌-◌, Bool, true, false, not, ◌&&◌, ◌||◌, leb, ◌==◌, if◌then◌else◌, Option,
  none, some, ◌>>=◌, update,
}
use nandfs.Addr.{
  LogAddr, empty_address, copy_logical_address, set_logical_offset, set_logical_segment,
  get_logical_offset, get_logical_segment,
}
use nandfs.Cache.State.{
  Block, CacheBlock, CacheLruQ, cache_id_empty, entry_offset_empty, cache_is_dirty, is_cache_free,
  is_cached_addr, get_cid_from_addr, is_positive, is_negative, dec32,
}
use nandfs.Cache.Lru.{fs_error_success, fs_error_critical}
use nandfs.Cache.Find.{cache_get_lru_cid}
use nandfs.Cache.Free.{recycle, dec_if_dirty, is_inode_of}
use nandfs.World.{
  World, Transaction, Geometry, Sequencing, direct_index, is_indirect_inode, with_lru, cache_of,
  put_cache, put_transaction,
}

abbrev pub fs_error_io : ℕ
fs_error_io = 0xffffffff

abbrev pub fs_error_illegal_cid : ℕ
fs_error_illegal_cid = 0xfffffffa

abbrev pub fs_error_nonzero_ref_count : ℕ
fs_error_nonzero_ref_count = 0xfffffff9

abbrev pub fs_error_dec_zero_ref_count : ℕ
fs_error_dec_zero_ref_count = 0xfffffff1

-- The two setters applied to an entry: its spare byte stays.
unfoldable pub redirect : LogAddr → LogAddr → LogAddr
redirect entry_addr new_addr =
    set_logical_segment (set_logical_offset entry_addr (get_logical_offset new_addr))
      (get_logical_segment new_addr)

unfoldable pub refers_to : LogAddr → ℕ → Bool
refers_to a cid = is_cached_addr a && get_cid_from_addr a == cid

-- The first of the `k` entries from `i` on that stands for buffer `cid`.
unfoldable pub find_entry : ℕ → Block → ℕ → ℕ → Option ℕ
find_entry zero buf i cid = none
find_entry (suc k) buf i cid =
    let rest = find_entry k buf (i + 1) cid in if refers_to (buf i) cid then some i else rest

-- The first free buffer from `i` on.
unfoldable pub find_free : ℕ → CacheLruQ → ℕ → Option ℕ
find_free zero q i = none
find_free (suc k) q i =
    let rest = find_free k q (i + 1) in if is_cache_free q i then some i else rest

module _ {M : Type 0} (s : Sequencing M) (g : Geometry) where
  unfoldable pub actual_write : World M → Block → Bool → ℕ → ℕ × LogAddr × World M
  actual_write w buf is_data_vots tid =
      let t = w.transactions tid in
      let (res, log_addr, media) =
        s.alloc_and_write_block w.media w.transactions buf is_data_vots t.prev_log_addr in
      let w1 = record w { media = media } in
      if res == 0
      then (
        fs_error_success,
        log_addr,
        put_transaction w1 tid
            (record t { prev_log_addr = copy_logical_address t.prev_log_addr log_addr }),
      )
      else (fs_error_io, log_addr, w1)

  unfoldable pub fix_in_parent : World M → ℕ → ℕ → ℕ → LogAddr → ℕ × World M
  fix_in_parent w cid parent_cid parent_offset new_addr =
      let parent = cache_of w parent_cid in
      let entry = redirect (parent.indirect_buf parent_offset) new_addr in
      let amended = record parent {
        indirect_buf = update parent.indirect_buf parent_offset entry;
      } in
      if parent.ref_count == 0
      then (fs_error_dec_zero_ref_count, put_cache w parent_cid amended)
      else (
        fs_error_success,
        put_cache w parent_cid (record amended { ref_count = dec32 parent.ref_count }),
      )

  -- The entry found in the transaction's active indirect block.
  unfoldable pub redirect_entry : World M → ℕ → LogAddr → Option ℕ → World M
  redirect_entry w tid new_addr none = w
  redirect_entry w tid new_addr (some i) =
      let t = w.transactions tid in
      put_transaction w tid
        (record t { indirect_buf = update t.indirect_buf i (redirect (t.indirect_buf i) new_addr) })

  unfoldable pub fix_in_transaction : World M → ℕ → LogAddr → World M
  fix_in_transaction w cid new_addr =
      let b = cache_of w cid in
      let t = w.transactions b.tid in
      let start = if is_indirect_inode t then direct_index g else 0 in
      if is_inode_of w cid
      then put_transaction w b.tid (record t { ino_log_addr = redirect t.ino_log_addr new_addr })
      else if b.parent_offset == entry_offset_empty
      then w
      else redirect_entry w b.tid new_addr (find_entry (g.entries - start) t.indirect_buf start cid)

  unfoldable pub cache_fix_block_dependencies : World M → ℕ → LogAddr → ℕ × World M
  cache_fix_block_dependencies w cid new_addr =
      let b = cache_of w cid in
      if b.parent_cid == cache_id_empty
      then (fs_error_success, fix_in_transaction w cid new_addr)
      else fix_in_parent w cid b.parent_cid b.parent_offset new_addr

  -- The write of a dirty buffer and the change of what refers to it.
  unfoldable pub write_back : World M → ℕ → LogAddr → ℕ × LogAddr × World M
  write_back w cid log_addr =
      if cache_is_dirty w.lru cid
      then (let (res, new_addr, w1) =
            actual_write w (cache_of w cid).indirect_buf false (cache_of w cid).tid in
          if res == fs_error_success
          then (let (res2, w2) = cache_fix_block_dependencies w1 cid new_addr in
              (res2, new_addr, w2))
          else (res, new_addr, w1))
      else (fs_error_success, log_addr, w)

  unfoldable pub cache_flush_cache : World M → ℕ → LogAddr → ℕ × LogAddr × World M
  cache_flush_cache w cid log_addr =
      if not (is_negative cid) && leb g.buffers cid
      then (fs_error_illegal_cid, log_addr, w)
      else if is_positive (cache_of w cid).ref_count
      then (fs_error_nonzero_ref_count, log_addr, w)
      else if is_cache_free w.lru cid
      then (fs_error_success, log_addr, w)
      else (let (res, new_addr, w1) = write_back w cid log_addr in
          if res == fs_error_success
          then (fs_error_success, new_addr, with_lru w1 (recycle (dec_if_dirty w1.lru cid) cid))
          else (res, new_addr, w1))

  unfoldable pub evict : World M → Option (ℕ × World M)
  evict w = cache_get_lru_cid g.buffers w.lru cache_id_empty >>= λ lru_cid.
      if lru_cid == cache_id_empty
      then some (fs_error_critical, w)
      else (let (res, new_addr, w1) = cache_flush_cache w lru_cid empty_address in
          if res == fs_error_success then some (lru_cid, w1) else some (res, w1))

  -- The last part of cache_get_free_cache_id, after the search for a free buffer.
  unfoldable pub take_or_evict : World M → Option ℕ → Option (ℕ × World M)
  take_or_evict w (some i) = some (i, w)
  take_or_evict w none = evict w

  unfoldable pub cache_get_free_cache_id : World M → Option (ℕ × World M)
  cache_get_free_cache_id w = take_or_evict w (find_free g.buffers w.lru 0)

  -- One round over the buffers from `i` on. The result is the first error, or success.
  unfoldable pub flush_round : ℕ → World M → ℕ → ℕ → ℕ × World M
  flush_round zero w tid i = (fs_error_success, w)
  flush_round (suc k) w tid i =
      let skipped = flush_round k w tid (i + 1) in
      let (res, new_addr, w1) = cache_flush_cache w i empty_address in
      let rest = flush_round k w1 tid (i + 1) in
      if not ((cache_of w i).tid == tid) || is_positive (cache_of w i).ref_count
      then skipped
      else if res == fs_error_success
      then rest
      else (res, w1)

  unfoldable pub flush_rounds : ℕ → World M → ℕ → ℕ × World M
  flush_rounds zero w tid = (fs_error_success, w)
  flush_rounds (suc j) w tid =
      let (res, w1) = flush_round g.buffers w tid 0 in
      let rest = flush_rounds j w1 tid in if res == fs_error_success then rest else (res, w1)

  -- The assertion behind the loop body, that a round of flushes meets no referenced buffer, is left
  -- out: such buffers are skipped first.
  unfoldable pub cache_flush_transaction_blocks : World M → ℕ → ℕ × World M
  cache_flush_transaction_blocks w tid = flush_rounds 5 w tid
