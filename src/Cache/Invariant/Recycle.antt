-- ===== src/Cache/Invariant/Recycle.antt =====
-- The start of the cache and a buffer that is given back.
use nandfs.Base.{
  ℕ, zero, suc, ◌<◌, ◌^◌, ◌≡◌, refl, sym, ap, ◌∙◌, inl, inr, false, List, [], arith, ◌==◌,
  if◌then◌else◌, Bool-cases, ==_iff, update, has, erase, not-has-erase,
}
use nandfs.Cache.State.{
  CacheBlock, CacheLruQ, cache_is_dirty, cache_init_by_cid, init_loop, cache_init_lru_q,
  initial_block, dec32,
}
use nandfs.Cache.Free.{recycle, dec_if_dirty}
use nandfs.Cache.Lru.{cache_remove_from_lru}
use nandfs.Cache.Lru.Queue.{IsQueue}
use nandfs.Cache.Lru.Queue.Remove.{remove-IsQueue}
use nandfs.Cache.Invariant.{
  IsCache, dirty_below, dirty_below-le, dirty_below-put_block, dirty_below-ext, IsQueue-frame,
}

init_loop_lem : (n : ℕ) (q : CacheLruQ) (a : ℕ) → a < n → (init_loop n q).caches a ≡ initial_block
unfolding init_loop cache_init_by_cid update
init_loop_lem zero q a l = absurd (omega arith)
init_loop_lem (suc n) q a l = elim (Bool-cases (a == n)) [
  | inl e ↦ rw e refl
  | inr e ↦ rw e (init_loop_lem n q a (ground arith))
]

none_dirty :
    (n : ℕ) (q : CacheLruQ) → ((a : ℕ) → a < n → q.caches a ≡ initial_block) → dirty_below n q ≡ 0
unfolding dirty_below cache_is_dirty
none_dirty zero q h = refl
none_dirty (suc n) q h = rw (h n (omega arith), none_dirty n q (λ a l. h a (omega arith))) refl

-- cache_init_lru_q, with fewer than 2 ^ 31 buffers and whatever the memory held, gives an empty
-- queue whose buffers are all as cache_init_by_cid leaves them, and none of which is dirty.
pub init-IsCache :
    (buffers : ℕ) (q : CacheLruQ)
    → buffers < 2 ^ 31
    → IsCache buffers (cache_init_lru_q buffers q) []
      × ((a : ℕ) → a < buffers → (cache_init_lru_q buffers q).caches a ≡ initial_block)
unfolding cache_init_lru_q
init-IsCache buffers q l = (
  record {
    fits = l;
    queue = record {
      mru = refl;
      lru = refl;
      chain = tt;
      distinct = tt;
      bounded = tt;
      idle = λ a la o. rw (init_loop_lem buffers q a la) (refl, refl);
    };
    dirty = sym (none_dirty buffers (cache_init_lru_q buffers q) (init_loop_lem buffers q));
  },
  init_loop_lem buffers q,
)

-- A buffer off the queue may be reset.
init_by_cid-IsQueue :
    {buffers : ℕ} {q : CacheLruQ} {xs : List ℕ} (cid : ℕ)
    → has cid xs ≡ false
    → cid < buffers
    → IsQueue buffers q xs
    → IsQueue buffers (cache_init_by_cid q cid) xs
unfolding cache_init_by_cid update
init_by_cid-IsQueue {buffers} {q} {xs} cid o l v =
    IsQueue-frame refl refl
      (λ a. elim (Bool-cases (a == cid)) [
        | inl e ↦
            let links = v.idle cid l o in
            let same : a ≡ cid = (==_iff a cid).0 e in rw e (rw same (sym links.1, sym links.0))
        | inr e ↦ rw e (refl, refl)
      ])
      v

init_by_cid_dirty :
    (buffers : ℕ) (q r : CacheLruQ) (cid : ℕ)
    → buffers < 2 ^ 31
    → cid < buffers
    → q.dirty_count ≡ dirty_below buffers q
    → ((a : ℕ) → (r.caches a).is_dirty ≡ (q.caches a).is_dirty)
    → r.dirty_count ≡ (if cache_is_dirty q cid then dec32 q.dirty_count else q.dirty_count)
    → (cache_init_by_cid r cid).dirty_count ≡ dirty_below buffers (cache_init_by_cid r cid)
unfolding cache_init_by_cid cache_is_dirty
init_by_cid_dirty buffers q r cid fits l d same e =
    let change = dirty_below-put_block buffers r cid initial_block l in
    let few = dirty_below-le buffers q in
    let as_before = dirty_below-ext buffers q r same in ground (arith, same cid)

pub dec_if_dirty-same :
    (q : CacheLruQ) (cid : ℕ)
    → ((dec_if_dirty q cid).mru_cid ≡ q.mru_cid)
      × ((dec_if_dirty q cid).lru_cid ≡ q.lru_cid)
      × ((a : ℕ) → (dec_if_dirty q cid).caches a ≡ q.caches a)
      × ((dec_if_dirty q cid).dirty_count
          ≡ (if cache_is_dirty q cid then dec32 q.dirty_count else q.dirty_count))
unfolding dec_if_dirty
dec_if_dirty-same q cid = elim (Bool-cases (cache_is_dirty q cid)) [
  | inl e ↦ rw e (refl, refl, λ a. refl, refl)
  | inr e ↦ rw e (refl, refl, λ a. refl, refl)
]

module _ {buffers : ℕ} {q : CacheLruQ} {xs : List ℕ} (cid : ℕ) (l : cid < buffers)
    (v : IsCache buffers q xs) where
  -- A buffer that is given back, the count of dirty ones kept right, leaves the queue, and the
  -- others stay in order.
  pub recycle-IsCache : IsCache buffers (recycle (dec_if_dirty q cid) cid) (erase cid xs)
  unfolding recycle
  recycle-IsCache =
      let (m, e, c, d) = dec_if_dirty-same q cid in
      let start =
        IsQueue-frame m e
          (λ a. (
            ap (λ (b : CacheBlock). b.prev_in_turn) (c a),
            ap (λ (b : CacheBlock). b.next_in_turn) (c a),
          ))
          v.queue in
      let (queue, same) =
        remove-IsQueue buffers (dec_if_dirty q cid) cid xs (omega (arith, v.fits)) l start in
      record {
        fits = v.fits;
        queue = init_by_cid-IsQueue cid (not-has-erase cid xs v.queue.distinct) l queue;
        dirty =
            init_by_cid_dirty buffers q (cache_remove_from_lru (dec_if_dirty q cid) cid) cid v.fits
              l v.dirty
              (λ a.
                ap (λ (b : CacheBlock). b.is_dirty) (same.buffers a)
                ∙ ap (λ (b : CacheBlock). b.is_dirty) (c a))
              (same.dirty_count ∙ d);
      }

  -- The same, with the count corrected after the buffer has left the queue.
  pub recycle_late-IsCache :
      IsCache buffers
        (cache_init_by_cid (dec_if_dirty (cache_remove_from_lru q cid) cid) cid)
        (erase cid xs)
  unfolding cache_is_dirty
  recycle_late-IsCache =
      let r : CacheLruQ = cache_remove_from_lru q cid in
      let (m, e, c, d) = dec_if_dirty-same r cid in
      let (queue, same) = remove-IsQueue buffers q cid xs (omega (arith, v.fits)) l v.queue in
      let is_dirty = λ (a : ℕ). ap (λ (b : CacheBlock). b.is_dirty) (same.buffers a) in
      record {
        fits = v.fits;
        queue = init_by_cid-IsQueue cid (not-has-erase cid xs v.queue.distinct) l (
            IsQueue-frame m e
              (λ a. (
                ap (λ (b : CacheBlock). b.prev_in_turn) (c a),
                ap (λ (b : CacheBlock). b.next_in_turn) (c a),
              ))
              queue);
        dirty =
            init_by_cid_dirty buffers q (dec_if_dirty r cid) cid v.fits l v.dirty
              (λ a. ap (λ (b : CacheBlock). b.is_dirty) (c a) ∙ is_dirty a)
              (d ∙ rw (is_dirty cid, same.dirty_count) refl);
      }

  -- A clean buffer needs no correction of the count.
  pub recycle_clean-IsCache :
      cache_is_dirty q cid ≡ false → IsCache buffers (recycle q cid) (erase cid xs)
  unfolding dec_if_dirty
  recycle_clean-IsCache e =
      let at : IsCache buffers (recycle (dec_if_dirty q cid) cid) (erase cid xs) =
        recycle-IsCache in
      rw e at at
