-- ===== src/Cache/Free/Force.antt =====
-- cache_force_free_cache against the queue of ids.
use nandfs.Base.{
  ℕ, zero, suc, ◌<◌, ◌≡◌, refl, ap, ◌∙◌, inl, inr, Bool, true, false, List, [], ◌∷◌, arith, ◌==◌,
  if◌then◌else◌, Bool-cases, ==_iff, some, erase, ◌>>=◌, length, has, update, ◌&&◌, ◌||◌,
}
use nandfs.Cache.State.{CacheLruQ, cache_id_empty, put_block, cache_init_by_cid}
use nandfs.Cache.Lru.Chain.{Chain, Chain-frame, head_cid}
use nandfs.Cache.Lru.{cache_remove_from_lru, fs_error_success}
use nandfs.Cache.Find.Laws.{length-queue}
use nandfs.Cache.Invariant.Recycle.{recycle_late-IsCache}
use nandfs.World.{World, with_lru}
use nandfs.Cache.Free.{
  omit_parent, cache_force_free_cache, restore_in_transaction, restore_in_parent, is_inode_of,
  dec_if_dirty,
}
use nandfs.Cache.Invariant.{
  IsCache, SameQueue, SameQueue-IsCache, SameQueue-refl, SameQueue-trans, SameQueue-choose,
  put_block-SameQueue,
}

abbrev omit : CacheLruQ → ℕ → ℕ → CacheLruQ
omit q cid i =
    if (q.caches i).parent_cid == cid
    then put_block q i (record (q.caches i) { parent_cid = cache_id_empty })
    else q

omit-SameQueue : (q : CacheLruQ) (cid i : ℕ) → SameQueue q (omit q cid i)
omit-SameQueue q cid i =
    SameQueue-choose _ (put_block-SameQueue q i _ refl refl refl) (SameQueue-refl q)

omit_parent_cid :
    (q : CacheLruQ) (cid i a : ℕ)
    → ((omit q cid i).caches a).parent_cid ≡ (
        if a == i && (q.caches a).parent_cid == cid
        then cache_id_empty
        else (q.caches a).parent_cid)
unfolding update
omit_parent_cid q cid i a = elim (Bool-cases (a == i)) [
  | inl e ↦ let same : a ≡ i = (==_iff a i).0 e in ground arith
  | inr e ↦ ground arith
]

merge :
    (m h : Bool) (p after cid : ℕ)
    → after ≡ (if m && p == cid then cache_id_empty else p)
    → (if h && after == cid then cache_id_empty else after)
      ≡ (if (m || h) && p == cid then cache_id_empty else p)
merge true true p after cid e = ground arith
merge true false p after cid e = ground arith
merge false h p after cid e = ground arith

-- The loop ends, keeps the queue, and leaves no buffer of the queue with the parent `cid`.
omit_parent_lem :
    (k : ℕ) (q : CacheLruQ) (cid prev : ℕ) (xs : List ℕ)
    → length xs < k
    → Chain q.caches prev xs
    → (r : CacheLruQ) × (omit_parent k q cid (head_cid xs) ≡ some r)
      × SameQueue q r
      × ((a : ℕ)
          → (r.caches a).parent_cid ≡ (
              if has a xs && (q.caches a).parent_cid == cid
              then cache_id_empty
              else (q.caches a).parent_cid))
unfolding omit_parent
omit_parent_lem zero q cid prev xs f h = absurd (omega arith)
omit_parent_lem (suc k) q cid prev [] f h = (q, refl, SameQueue-refl q, λ a. refl)
omit_parent_lem (suc k) q cid prev (x ∷ xs) f h =
    let real : (x == cache_id_empty) ≡ false = ground (arith, h.0) in
    let same = omit-SameQueue q cid x in
    let next : ((omit q cid x).caches x).next_in_turn ≡ head_cid xs = same.next_in_turn x ∙ h.2 in
    let (r, e, s, p) = omit_parent_lem k (omit q cid x) cid x xs (omega arith) (
      Chain-frame q.caches (omit q cid x).caches x xs
        (λ a la i. (same.prev_in_turn a, same.next_in_turn a)) h.3) in
    (
      r,
      rw real (ap (omit_parent k (omit q cid x) cid) next ∙ e),
      SameQueue-trans same s,
      λ a. p a ∙ merge (a == x) (has a xs) _ _ cid (omit_parent_cid q cid x a),
    )

module _ {M : Type 0} (w : World M) (cid : ℕ) where
  restore_in_transaction_lru : (restore_in_transaction w cid).lru ≡ w.lru
  unfolding restore_in_transaction
  restore_in_transaction_lru = elim (Bool-cases (is_inode_of w cid)) [
    | inl e ↦ rw e refl
    | inr e ↦ rw e refl
  ]

  restore_in_parent-SameQueue : SameQueue w.lru (restore_in_parent w cid).lru
  unfolding restore_in_parent
  restore_in_parent-SameQueue =
      elim (Bool-cases ((w.lru.caches cid).parent_cid == cache_id_empty)) [
        | inl e ↦ rw e (SameQueue-refl w.lru)
        | inr e ↦ rw e (put_block-SameQueue w.lru (w.lru.caches cid).parent_cid _ refl refl refl)
      ]

restore-SameQueue :
    {M : Type 0} (w : World M) (cid : ℕ)
    → SameQueue w.lru (restore_in_transaction (restore_in_parent w cid) cid).lru
restore-SameQueue w cid =
    rw (restore_in_transaction_lru (restore_in_parent w cid) cid)
      (restore_in_parent-SameQueue w cid)

parents_of :
    (q r : CacheLruQ) (cid : ℕ) (xs : List ℕ)
    → ((a : ℕ)
        → (r.caches a).parent_cid ≡ (
            if has a xs && (q.caches a).parent_cid == cid
            then cache_id_empty
            else (q.caches a).parent_cid))
    → (cid == cache_id_empty) ≡ false
    → (a : ℕ) → has a xs ≡ true
    → ((r.caches a).parent_cid == cid) ≡ false
parents_of q r cid xs p real a i = let e = p a in ground arith

-- cache_force_free_cache on a buffer of a well-formed cache (IsCache) ends and succeeds, whether
-- the buffer is clean or dirty. The buffer has left the queue, the count of dirty buffers is
-- right, and no buffer in the queue has it as its parent.
pub force_free_cache_lem :
    {M : Type 0} {buffers : ℕ} {xs : List ℕ} (w : World M) (cid : ℕ)
    → cid < buffers
    → IsCache buffers w.lru xs
    → (r : World M) × (cache_force_free_cache buffers w cid ≡ some (fs_error_success, r))
      × IsCache buffers r.lru (erase cid xs)
      × ((a : ℕ) → has a (erase cid xs) ≡ true → ((r.lru.caches a).parent_cid == cid) ≡ false)
unfolding cache_force_free_cache
force_free_cache_lem {M} {buffers} {xs} w cid l v =
    let real : (cid == cache_id_empty) ≡ false = ground (arith, v.fits) in
    let w1 : World M = restore_in_transaction (restore_in_parent w cid) cid in
    let q2 : CacheLruQ =
      cache_init_by_cid (dec_if_dirty (cache_remove_from_lru w1.lru cid) cid) cid in
    let freed : IsCache buffers q2 (erase cid xs) =
      recycle_late-IsCache cid l (SameQueue-IsCache (restore-SameQueue w cid) v) in
    let (r, e, s, p) =
      omit_parent_lem (suc buffers) q2 cid cache_id_empty (erase cid xs)
        (omega (arith, length-queue freed.queue)) freed.queue.chain in
    (
      with_lru w1 r,
      rw real (
          ap (λ o. o >>= λ q3. some (fs_error_success, with_lru w1 q3))
            (ap (omit_parent (suc buffers) q2 cid) freed.queue.mru ∙ e)),
      SameQueue-IsCache s freed,
      parents_of q2 r cid (erase cid xs) p real,
    )
