-- ===== src/Cache/Flush/Laws.antt =====
-- A flush against the queue of ids.
use nandfs.Base.{
  ℕ, ◌<◌, ◌^◌, ◌≡◌, refl, inl, inr, Bool, true, false, not, update_self, List, arith, leb, ◌==◌,
  if◌then◌else◌, Bool-cases, Option, none, some, erase, ◌⊎◌, ◌&&◌,
}
use nandfs.Addr.{LogAddr, is_addr_empty}
use nandfs.Cache.State.{
  Block, CacheLruQ, CacheBlock, cache_id_empty, cache_is_dirty, is_cache_free, is_positive,
  is_negative, entry_offset_empty, cache_init_by_cid, initial_block,
}
use nandfs.Cache.Lru.{cache_remove_from_lru, fs_error_success}
use nandfs.Cache.Free.{recycle, is_inode_of}
use nandfs.Cache.Flush.{
  actual_write, cache_fix_block_dependencies, write_back, cache_flush_cache, fix_in_parent,
  fix_in_transaction, redirect_entry, fs_error_io, fs_error_nonzero_ref_count,
  fs_error_dec_zero_ref_count,
}
use nandfs.Cache.Invariant.{
  IsCache, SameQueue, SameQueue-IsCache, SameQueue-refl, put_block-SameQueue,
}
use nandfs.Cache.Invariant.Recycle.{recycle-IsCache}
use nandfs.World.{World, Transaction, Geometry, Sequencing}

module _ {M : Type 0} (s : Sequencing M) (g : Geometry) where
  -- The write leaves the cache as it is, and fails with FS_ERROR_IO only.
  actual_write_lem :
      (w : World M) (buf : Block) (is_data_vots : Bool) (tid : ℕ)
      → let (res, log_addr, r) = actual_write s g w buf is_data_vots tid in
        (r.lru ≡ w.lru) × ((res ≡ fs_error_success) ⊎ (res ≡ fs_error_io))
  unfolding actual_write
  actual_write_lem w buf is_data_vots tid =
      let t : Transaction = w.transactions tid in
      elim (Bool-cases (
        (s.alloc_and_write_block w.media w.transactions buf is_data_vots t.prev_log_addr).0 == 0)) [
          | inl e ↦ rw e (refl, inl refl)
          | inr e ↦ rw e (refl, inr refl)
        ]

  redirect_entry_lru :
      (w : World M) (tid : ℕ) (new_addr : LogAddr) (o : Option ℕ)
      → (redirect_entry s g w tid new_addr o).lru ≡ w.lru
  unfolding redirect_entry
  redirect_entry_lru w tid new_addr none = refl
  redirect_entry_lru w tid new_addr (some i) = refl

  fix_in_transaction_lru :
      (w : World M) (cid : ℕ) (new_addr : LogAddr)
      → (fix_in_transaction s g w cid new_addr).lru ≡ w.lru
  unfolding fix_in_transaction
  fix_in_transaction_lru w cid new_addr = elim (Bool-cases (is_inode_of w cid)) [
    | inl e ↦ rw e refl
    | inr e ↦ elim (Bool-cases ((w.lru.caches cid).parent_offset == entry_offset_empty)) [
      | inl h ↦ rw (e, h) refl
      | inr h ↦ rw (e, h) (redirect_entry_lru w _ new_addr _)
    ]
  ]

  fix_in_parent_lem :
      (w : World M) (cid parent_cid parent_offset : ℕ) (new_addr : LogAddr)
      → let (res, r) = fix_in_parent s g w cid parent_cid parent_offset new_addr in
        SameQueue w.lru r.lru × ((res ≡ fs_error_success) ⊎ (res ≡ fs_error_dec_zero_ref_count))
  unfolding fix_in_parent
  fix_in_parent_lem w cid parent_cid parent_offset new_addr =
      elim (Bool-cases ((w.lru.caches parent_cid).ref_count == 0)) [
        | inl e ↦ rw e (put_block-SameQueue w.lru parent_cid _ refl refl refl, inr refl)
        | inr e ↦ rw e (put_block-SameQueue w.lru parent_cid _ refl refl refl, inl refl)
      ]

  -- What a write-back may report.
  abbrev pub WriteBackResult : ℕ → Type 0
  WriteBackResult res =
      (res ≡ fs_error_success) ⊎ (res ≡ fs_error_io) ⊎ (res ≡ fs_error_dec_zero_ref_count)

  fix_block_dependencies_lem :
      (w : World M) (cid : ℕ) (new_addr : LogAddr)
      → let (res, r) = cache_fix_block_dependencies s g w cid new_addr in
        SameQueue w.lru r.lru × WriteBackResult res
  unfolding cache_fix_block_dependencies
  fix_block_dependencies_lem w cid new_addr =
      elim (Bool-cases ((w.lru.caches cid).parent_cid == cache_id_empty)) [
        | inl e ↦ rw e (rw (fix_in_transaction_lru w cid new_addr) (SameQueue-refl w.lru), inl refl)
        | inr e ↦
            let (same, res) =
              fix_in_parent_lem w cid (w.lru.caches cid).parent_cid (w.lru.caches cid).parent_offset
                new_addr in
            rw e (same, elim res [ inl h ↦ inl h | inr h ↦ inr (inr h) ])
      ]

  pub write_back_lem :
      (w : World M) (cid : ℕ) (log_addr : LogAddr)
      → let (res, new_addr, r) = write_back s g w cid log_addr in
        SameQueue w.lru r.lru × WriteBackResult res
  unfolding write_back
  write_back_lem w cid log_addr = elim (Bool-cases (cache_is_dirty w.lru cid)) [
    | inr d ↦ rw d (SameQueue-refl w.lru, inl refl)
    | inl d ↦
        let b : CacheBlock = w.lru.caches cid in
        let (same, res) = actual_write_lem w b.indirect_buf false b.tid in
        elim res [
          | inl e ↦
              let (kept, res2) =
                fix_block_dependencies_lem (actual_write s g w b.indirect_buf false b.tid).2 cid
                  (actual_write s g w b.indirect_buf false b.tid).1 in
              rw (d, e) (rw same at kept, res2)
          | inr e ↦ rw (d, e) (rw same (SameQueue-refl w.lru), inr (inl refl))
        ]
  ]

-- What a flush of `cid` comes to.
abbrev pub Flushed : {M : Type 0} → ℕ → World M → ℕ → List ℕ → ℕ → World M → Type 0
Flushed {M} buffers w cid xs res r =
    ((res ≡ fs_error_success)
      × (is_cache_free r.lru cid ≡ true)
      × IsCache buffers r.lru (if is_cache_free w.lru cid then xs else erase cid xs))
    ⊎ (((res ≡ fs_error_nonzero_ref_count)
          ⊎ (res ≡ fs_error_io)
          ⊎ (res ≡ fs_error_dec_zero_ref_count))
        × IsCache buffers r.lru xs)

legal : (cid n : ℕ) → cid < n → n < 2 ^ 31 → (not (is_negative cid) && leb n cid) ≡ false
legal cid n l m = ground arith

recycle_is_free : (q : CacheLruQ) (cid : ℕ) → is_cache_free (recycle q cid) cid ≡ true
unfolding recycle cache_init_by_cid is_cache_free cache_is_dirty is_addr_empty
recycle_is_free q cid = rw (update_self (cache_remove_from_lru q cid).caches cid initial_block) refl

module _ {M : Type 0} (s : Sequencing M) (g : Geometry) where
  -- cache_flush_cache on a buffer of a well-formed cache (IsCache) either succeeds, and then the
  -- buffer is free and, unless it was so before, out of the queue; or it reports that the buffer
  -- is referenced, that the write failed or that the parent's count is zero, and then the queue is
  -- as before. The count of dirty buffers is right in each case.
  pub flush_cache_lem :
      (w : World M) (cid : ℕ) (log_addr : LogAddr) (xs : List ℕ)
      → cid < g.buffers
      → IsCache g.buffers w.lru xs
      → let (res, new_addr, r) = cache_flush_cache s g w cid log_addr in
        Flushed g.buffers w cid xs res r
  unfolding cache_flush_cache
  flush_cache_lem w cid log_addr xs l v =
      let guard : (not (is_negative cid) && leb g.buffers cid) ≡ false =
        legal cid g.buffers l v.fits in
      elim (Bool-cases (is_positive (w.lru.caches cid).ref_count)) [
        | inl p ↦ rw (guard, p) (inr (inl refl, v))
        | inr p ↦ elim (Bool-cases (is_cache_free w.lru cid)) [
          | inl f ↦ rw (guard, p, f) (inl (refl, f, v))
          | inr f ↦
              let (same, res) = write_back_lem s g w cid log_addr in
              let kept = SameQueue-IsCache same v in
              elim res [
                | inl e ↦
                    rw (guard, p, f, e)
                      (inl (refl, recycle_is_free _ cid, recycle-IsCache cid l kept))
                | inr (inl e) ↦ rw (guard, p, f, e) (inr (inr (inl refl), kept))
                | inr (inr e) ↦ rw (guard, p, f, e) (inr (inr (inr refl), kept))
              ]
        ]
      ]
