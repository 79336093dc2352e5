-- ===== src/Cache/Free/Laws.antt =====
-- Giving a buffer back by its address, or all of a transaction, against the queue of ids.
use nandfs.Base.{
  ℕ, zero, suc, ◌<◌, ◌≤◌, ◌≡◌, refl, ap, ◌∙◌, inl, inr, Bool, true, false, List, arith, ◌==◌, ltb,
  ◌&&◌, update, if◌then◌else◌, Bool-cases, some, erase, ◌⊎◌,
}
use nandfs.Addr.{LogAddr, is_address_empty, compare_addr}
use nandfs.Cache.State.{CacheLruQ, CacheBlock, cache_id_empty, cache_is_dirty, cache_init_by_cid}
use nandfs.Cache.Lru.{fs_error_success}
use nandfs.Cache.Find.Laws.{first_cid, Member, first_cid-Member, get_cid_by_real_addr_lem}
use nandfs.Cache.Free.{
  recycle, dec_if_dirty, cache_free_by_real_addr, fs_error_freeing_dirty_cache, init_tid_loop,
  cache_init_tid_related,
}
use nandfs.Cache.Invariant.{IsCache}
use nandfs.Cache.Lru.Queue.Remove.{remove-SameContent}
use nandfs.World.{tid_empty}
use nandfs.Cache.Invariant.Recycle.{dec_if_dirty-same, recycle-IsCache, recycle_clean-IsCache}

-- The buffer in the queue `xs` that holds the block at a real address.
unfoldable pub holder : CacheLruQ → LogAddr → List ℕ → ℕ
holder q log_addr xs =
    if is_address_empty log_addr
    then cache_id_empty
    else first_cid (λ a. compare_addr (q.caches a).log_addr log_addr) xs

pub holder-Member :
    (buffers : ℕ) (q : CacheLruQ) (log_addr : LogAddr) (xs : List ℕ)
    → IsCache buffers q xs
    → Member (λ a. compare_addr (q.caches a).log_addr log_addr) buffers xs (holder q log_addr xs)
unfolding holder
holder-Member buffers q log_addr xs v = choice (is_address_empty log_addr)
  where
    choice :
        (b : Bool)
        → Member
            (λ a. compare_addr (q.caches a).log_addr log_addr)
            buffers
            xs
            (if b
              then cache_id_empty
              else first_cid (λ a. compare_addr (q.caches a).log_addr log_addr) xs)
    choice true = λ h. absurd (cc)
    choice false = first_cid-Member _ buffers xs v.queue.bounded

-- On a well-formed cache (IsCache), cache_free_by_real_addr on an address that no buffer holds
-- succeeds and changes nothing; on a dirty buffer it fails and changes nothing; else it resets the
-- buffer and takes it out of the queue.
pub free_by_real_addr_lem :
    (buffers : ℕ) (q : CacheLruQ) (log_addr : LogAddr) (xs : List ℕ)
    → IsCache buffers q xs
    → let cid = holder q log_addr xs in
      (((cid == cache_id_empty) ≡ true)
        × (cache_free_by_real_addr buffers q log_addr ≡ some (fs_error_success, q)))
      ⊎ ((cache_is_dirty q cid ≡ true)
          × (cache_free_by_real_addr buffers q log_addr ≡ some (fs_error_freeing_dirty_cache, q)))
      ⊎ ((r : CacheLruQ) × (cache_free_by_real_addr buffers q log_addr ≡ some (fs_error_success, r))
          × IsCache buffers r (erase cid xs))
unfolding cache_free_by_real_addr holder
free_by_real_addr_lem buffers q log_addr xs v =
    let cid : ℕ = holder q log_addr xs in
    let found = get_cid_by_real_addr_lem v.queue log_addr in
    elim (Bool-cases (cid == cache_id_empty)) [
      | inl e ↦ inl (e, rw found (rw e refl))
      | inr e ↦ elim (Bool-cases (cache_is_dirty q cid)) [
        | inl d ↦ inr (inl (d, rw found (rw (e, d) refl)))
        | inr d ↦
            let (l, t, m) = holder-Member buffers q log_addr xs v e in
            inr (inr (recycle q cid, rw found (rw (e, d) refl), recycle_clean-IsCache cid l v d))
      ]
    ]

-- The ids that a run of cache_init_tid_related takes out of the queue, and those it leaves.
abbrev pub leave : ℕ → (ℕ → Bool) → List ℕ → List ℕ
leave zero p xs = xs
leave (suc n) p xs = if p n then erase n (leave n p xs) else leave n p xs

recycle_tid :
    (q : CacheLruQ) (cid a : ℕ)
    → ((recycle (dec_if_dirty q cid) cid).caches a).tid
      ≡ (if a == cid then tid_empty else (q.caches a).tid)
unfolding recycle cache_init_by_cid update
recycle_tid q cid a =
    let same = remove-SameContent (dec_if_dirty q cid) cid in
    elim (Bool-cases (a == cid)) [
      | inl e ↦ rw e refl
      | inr e ↦ rw e (
          ap (λ (b : CacheBlock). b.tid) (same.buffers a)
          ∙ ap (λ (b : CacheBlock). b.tid) ((dec_if_dirty-same q cid).2 a))
    ]

module _ (buffers tid : ℕ) (q : CacheLruQ) (xs : List ℕ) (v : IsCache buffers q xs) where
  abbrev is_related : ℕ → Bool
  is_related a = (q.caches a).tid == tid

  init_tid_loop_lem :
      (n : ℕ)
      → n ≤ buffers
      → IsCache buffers (init_tid_loop n q tid) (leave n is_related xs)
        × ((a : ℕ)
            → ((init_tid_loop n q tid).caches a).tid
              ≡ (if ltb a n && is_related a then tid_empty else (q.caches a).tid))
  unfolding init_tid_loop
  init_tid_loop_lem zero l = (v, λ a. ground arith)
  init_tid_loop_lem (suc n) l =
      let (w, t) = init_tid_loop_lem n (omega arith) in
      let here : ((init_tid_loop n q tid).caches n).tid ≡ (q.caches n).tid = t n ∙ ground arith in
      elim (Bool-cases (is_related n)) [
        | inl e ↦
            rw (here, e)
              (
                recycle-IsCache n (omega arith) w,
                λ a. recycle_tid (init_tid_loop n q tid) n a ∙ ground (arith, t a),
              )
        | inr e ↦ rw (here, e) (w, λ a. t a ∙ ground arith)
      ]

  -- On a well-formed cache (IsCache) and for a transaction id that is not the empty one,
  -- cache_init_tid_related takes exactly the buffers of the transaction out of the queue; the
  -- others stay in order and keep their transaction, and no buffer is left with this one.
  pub init_tid_related_lem :
      (tid == tid_empty) ≡ false
      → let r = cache_init_tid_related buffers q tid in
        IsCache buffers r (leave buffers (λ a. (q.caches a).tid == tid) xs)
        × ((a : ℕ) → a < buffers → ((r.caches a).tid == tid) ≡ false)
        × ((a : ℕ) → ((q.caches a).tid == tid) ≡ false → (r.caches a).tid ≡ (q.caches a).tid)
  unfolding cache_init_tid_related
  init_tid_related_lem real =
      let (w, t) = init_tid_loop_lem buffers (omega arith) in
      (w, λ a l. let e = t a in ground arith, λ a o. let e = t a in ground arith)
