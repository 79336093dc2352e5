-- ===== src/Cache/Access/Outcome.antt =====
-- cache_access_cache as a whole.
use nandfs.Base.{
  ℕ, ◌<◌, ◌≤◌, ◌^◌, ◌≡◌, refl, inl, inr, Bool, true, false, not, List, arith, ◌==◌, Bool-cases,
  ◌&&◌, ◌||◌, some, ◌⊎◌,
}
use nandfs.Addr.{LogAddr, IsBytes, is_addr_empty}
use nandfs.Cache.State.{
  Block, cache_id_empty, is_cached_addr, get_cid_from_addr, cache_is_dirty, is_negative,
}
use nandfs.Cache.Find.{cache_get_cid_by_addr}
use nandfs.Cache.Find.Laws.{get_cid_by_real_addr_lem}
use nandfs.Cache.Free.Laws.{holder, holder-Member}
use nandfs.Cache.Flush.{fs_error_io}
use nandfs.Cache.Flush.Evict.{FlushError, SomeCache, get_free_cache_id_lem}
use nandfs.Cache.Invariant.{
  IsCache, SameQueue, SameQueue-IsCache, SameQueue-refl, put_block-SameQueue,
}
use nandfs.Cache.Access.{
  DataType, Access, load_new, access_new, cache_access_cache, fs_error_free_cache_acquirement,
}
use nandfs.Cache.Access.Laws.{Served, access_dirty_lem, access_clean_lem}
use nandfs.World.{World, Geometry, Sequencing}

-- An access has served the caller, or has failed and left its buffer and its address.
abbrev pub Outcome : {M : Type 0} → ℕ → Block → LogAddr → ℕ → Bool → Access → World M → Type 0
Outcome {M} buffers buf old_addr tid is_write a r =
    ((cid : ℕ) × (ys : List ℕ) × Served buffers r a buf tid is_write cid ys)
    ⊎ (((a.res ≡ fs_error_free_cache_acquirement) ⊎ (a.res ≡ fs_error_io))
        × (a.buf ≡ buf)
        × (a.addr ≡ old_addr)
        × SomeCache buffers r.lru)

refused : (cid : ℕ) → FlushError cid → (cid == cache_id_empty || is_negative cid) ≡ true
refused cid h = ground arith

accepted : (cid n : ℕ) → cid < n → n ≤ 2 ^ 12 → (cid == cache_id_empty || is_negative cid) ≡ false
accepted cid n l m = ground arith

same_id : (b : Bool) (x : ℕ) → (b && not (x == x)) ≡ false
same_id b x = ground arith

-- The id that cache_get_cid_by_addr gives passes the test on it.
lookup :
    {M : Type 0} (g : Geometry) (w : World M) (xs : List ℕ)
    → IsCache g.buffers w.lru xs
    → (old_addr : LogAddr)
    → (is_cached_addr old_addr ≡ true → get_cid_from_addr old_addr < g.buffers)
    → (cid : ℕ) × (cache_get_cid_by_addr g.buffers w.lru old_addr ≡ some cid)
      × ((cid == cache_id_empty) ≡ false
          → (cid < g.buffers)
            × ((is_cached_addr old_addr && not (get_cid_from_addr old_addr == cid)) ≡ false))
unfolding cache_get_cid_by_addr holder
lookup g w xs v old_addr cached = elim (Bool-cases (is_cached_addr old_addr)) [
  | inl e ↦
      (get_cid_from_addr old_addr, rw e refl, λ h. (cached e, same_id (is_cached_addr old_addr) _))
  | inr e ↦ elim (Bool-cases (is_addr_empty old_addr)) [
    | inl h ↦ (cache_id_empty, rw (e, h) refl, λ k. absurd (cc))
    | inr h ↦ (
      holder w.lru old_addr xs,
      rw (e, h) (get_cid_by_real_addr_lem v.queue old_addr),
      λ k. ((holder-Member g.buffers w.lru old_addr xs v k).0, rw e refl),
    )
  ]
]

module _ {M : Type 0} (s : Sequencing M) (g : Geometry) (fits : g.buffers ≤ 2 ^ 12) (w : World M)
    (xs : List ℕ) (v : IsCache g.buffers w.lru xs) (buf : Block) (old_addr : LogAddr)
    (bytes : IsBytes old_addr) (parent_offset tid : ℕ) (data_type : DataType)
    (is_write : Bool) where
  load_new-SameQueue :
      (r : World M) (cid : ℕ) → SameQueue r.lru (load_new s g r cid old_addr is_write).1.lru
  unfolding load_new
  load_new-SameQueue r cid = elim (Bool-cases is_write) [
    | inl e ↦ rw e (SameQueue-refl r.lru)
    | inr e ↦ rw e (put_block-SameQueue r.lru cid _ refl refl refl)
  ]

  access_new_lem :
      (a : Access) × (r : World M) × (access_new s g w buf old_addr parent_offset tid data_type
          is_write
        ≡ some (a, r))
      × Outcome g.buffers buf old_addr tid is_write a r
  unfolding access_new
  access_new_lem =
      let (cid, w1, run, kept, res) = get_free_cache_id_lem s g w xs v in
      elim res [
        | inr error ↦
            (_, w1, rw run (rw (refused cid error) refl), inr (inl refl, refl, refl, kept))
        | inl (l, free) ↦
            let (res2, w2) = load_new s g w1 cid old_addr is_write in
            let loaded = SameQueue-IsCache (load_new-SameQueue w1 cid) kept.1 in
            elim (Bool-cases (res2 == 0)) [
              | inr e ↦ (
                _,
                w2,
                rw run (rw (accepted cid g.buffers l fits, e) refl),
                inr (inr refl, refl, refl, (kept.0, loaded)),
              )
              | inl e ↦ (
                _,
                _,
                rw run (rw (accepted cid g.buffers l fits, e) refl),
                inl (
                  cid,
                  _,
                  access_clean_lem s g fits w2 cid kept.0 l loaded buf old_addr bytes tid data_type
                      parent_offset is_write,
                ),
              )
            ]
      ]

  -- cache_access_cache, on a well-formed cache (IsCache), ends. It either serves the caller from
  -- the buffer that is then the most recently used one, or fails with
  -- FS_ERROR_FREE_CACHE_ACQUIREMENT or FS_ERROR_IO and leaves the caller's buffer and address; the
  -- queue stays a queue and the count of dirty buffers right. When it serves: the address given
  -- back is the magic address of the buffer, the buffer holds what the caller's buffer holds and
  -- belongs to the transaction, and after a write this is what the caller had, and is dirty. The
  -- buffers are at most 4096, and a cached address is that of a buffer.
  pub access_cache_lem :
      (is_cached_addr old_addr ≡ true → get_cid_from_addr old_addr < g.buffers)
      → (a : Access) × (r : World M) × (cache_access_cache s g w buf old_addr parent_offset tid
            data_type is_write
          ≡ some (a, r))
        × Outcome g.buffers buf old_addr tid is_write a r
  unfolding cache_access_cache
  access_cache_lem cached =
      let (cid, found, at) = lookup g w xs v old_addr cached in
      elim (Bool-cases (cid == cache_id_empty)) [
        | inl e ↦ let (a, r, run, out) = access_new_lem in (a, r, rw found (rw e run), out)
        | inr e ↦
            let (l, same) = at e in
            elim (Bool-cases (cache_is_dirty w.lru cid)) [
              | inl d ↦ (
                _,
                _,
                rw found (rw (e, same, d) refl),
                inl (
                  cid,
                  _,
                  access_dirty_lem s g fits w cid xs l v buf old_addr bytes tid data_type is_write
                      d,
                ),
              )
              | inr d ↦ (
                _,
                _,
                rw found (rw (e, same, d) refl),
                inl (
                  cid,
                  _,
                  access_clean_lem s g fits w cid xs l v buf old_addr bytes tid data_type
                      parent_offset is_write,
                ),
              )
            ]
      ]
