-- ===== src/Cache/Indirect/Laws.antt =====
-- The active indirect block of a transaction against the queue of ids.
use nandfs.Base.{
  ℕ, ◌<◌, ◌≡◌, refl, inl, inr, ◌⊎◌, true, not, ◌&&◌, List, ◌==◌, if◌then◌else◌, Bool-cases, some,
  erase,
}
use nandfs.Addr.{LogAddr}
use nandfs.Cache.State.{CacheLruQ, cache_id_empty, is_cached_addr, get_cid_from_addr}
use nandfs.Cache.Lru.{fs_error_success}
use nandfs.Cache.Find.Laws.{get_cid_by_real_addr_lem}
use nandfs.Cache.Free.Laws.{holder, holder-Member}
use nandfs.Cache.Free.Force.{force_free_cache_lem}
use nandfs.Cache.Indirect.{
  set_is_indirect_leaf, note_indirect, remove_indirect, cache_remove_indirect_block,
}
use nandfs.Cache.Invariant.{
  IsCache, SameQueue, SameQueue-IsCache, SameQueue-refl, put_block-SameQueue,
}
use nandfs.World.{World, cache_of, tid_empty}

set_is_indirect_leaf-SameQueue :
    (q : CacheLruQ) (cid flag : ℕ) → SameQueue q (set_is_indirect_leaf q cid flag)
unfolding set_is_indirect_leaf
set_is_indirect_leaf-SameQueue q cid flag = put_block-SameQueue q cid _ refl refl refl

module _ {M : Type 0} {buffers : ℕ} {xs : List ℕ} (w : World M) (v : IsCache buffers w.lru xs) where
  note_indirect-SameQueue : (cid : ℕ) → SameQueue w.lru (note_indirect w cid).lru
  unfolding note_indirect
  note_indirect-SameQueue cid =
      elim (Bool-cases (
        not ((cache_of w cid).tid == tid_empty)
        && not ((cache_of w cid).parent_cid == cache_id_empty))) [
          | inl e ↦ rw e (set_is_indirect_leaf-SameQueue w.lru (cache_of w cid).parent_cid 1)
          | inr e ↦ rw e (SameQueue-refl w.lru)
        ]

  remove_indirect_lem :
      (cid : ℕ)
      → cid < buffers
      → (r : World M) × (remove_indirect buffers w cid ≡ some (fs_error_success, r))
        × IsCache buffers r.lru (erase cid xs)
  unfolding remove_indirect
  remove_indirect_lem cid l =
      let noted = SameQueue-IsCache (note_indirect-SameQueue cid) v in
      let (r, run, kept, out) = force_free_cache_lem (note_indirect w cid) cid l noted in
      (r, run, kept)

  -- cache_remove_indirect_block, on a well-formed cache (IsCache), ends and succeeds. The buffer
  -- that the address stands for, by its magic address or by the one it was read from, has left the
  -- queue; if there is none, nothing has changed. A cached address is that of a buffer.
  pub remove_indirect_block_lem :
      (indirect_addr : LogAddr)
      → (is_cached_addr indirect_addr ≡ true → get_cid_from_addr indirect_addr < buffers)
      → let cid =
          if is_cached_addr indirect_addr
          then get_cid_from_addr indirect_addr
          else holder w.lru indirect_addr xs in
        (r : World M) × (cache_remove_indirect_block buffers w indirect_addr
          ≡ some (fs_error_success, r))
        × ((((cid == cache_id_empty) ≡ true) × (r ≡ w))
            ⊎ ((cid < buffers) × IsCache buffers r.lru (erase cid xs)))
  unfolding cache_remove_indirect_block holder
  remove_indirect_block_lem indirect_addr cached =
      elim (Bool-cases (is_cached_addr indirect_addr)) [
        | inl e ↦
            let (r, run, kept) = remove_indirect_lem (get_cid_from_addr indirect_addr) (cached e) in
            rw e (r, run, inr (cached e, kept))
        | inr e ↦
            let cid : ℕ = holder w.lru indirect_addr xs in
            let found = get_cid_by_real_addr_lem v.queue indirect_addr in
            elim (Bool-cases (cid == cache_id_empty)) [
              | inl h ↦ rw e (w, rw found (rw h refl), inl (h, refl))
              | inr h ↦
                  let (l, t, m) = holder-Member buffers w.lru indirect_addr xs v h in
                  let (r, run, kept) = remove_indirect_lem cid l in
                  rw e (r, rw found (rw h run), inr (l, kept))
            ]
      ]
