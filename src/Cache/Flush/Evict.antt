-- ===== src/Cache/Flush/Evict.antt =====
-- Finding a buffer to use, and flushing all of a transaction, against the queue of ids.
use nandfs.Base.{
  ℕ, zero, suc, ◌+◌, ◌<◌, ◌≡◌, refl, ap, ◌∙◌, inl, inr, true, false, not, List, [], ◌∷◌, arith,
  ◌==◌, Bool-cases, Option-cases, some, ◌⊎◌, Below, subst,
}
use mathlib.Core.List.{reverse, reverse_aux}
use nandfs.Addr.{empty_address}
use nandfs.Cache.State.{CacheLruQ, cache_id_empty, is_cache_free}
use nandfs.Cache.Lru.{fs_error_success, fs_error_critical}
use nandfs.Cache.Find.{is_pinned}
use nandfs.Cache.Find.Laws.{first_cid, first_cid-Member, get_lru_cid_lem}
use nandfs.Cache.Flush.{
  cache_flush_cache, find_free, evict, take_or_evict, cache_get_free_cache_id, fs_error_io,
  fs_error_nonzero_ref_count, fs_error_dec_zero_ref_count,
}
use nandfs.Cache.Flush.Laws.{flush_cache_lem}
use nandfs.Cache.Invariant.{IsCache}
use nandfs.World.{World, Geometry, Sequencing}

-- What the functions that flush may report.
abbrev pub FlushError : ℕ → Type 0
FlushError res =
    (res ≡ fs_error_critical)
    ⊎ (res ≡ fs_error_nonzero_ref_count)
    ⊎ (res ≡ fs_error_io)
    ⊎ (res ≡ fs_error_dec_zero_ref_count)

-- The queue is a queue still, some of its ids apart.
abbrev pub SomeCache : ℕ → CacheLruQ → Type 0
SomeCache buffers q = (ys : List ℕ) × IsCache buffers q ys

find_free_lem :
    (k : ℕ) (q : CacheLruQ) (i c : ℕ)
    → find_free k q i ≡ some c
    → (c < i + k) × (is_cache_free q c ≡ true)
unfolding find_free
find_free_lem zero q i c h = absurd (cc)
find_free_lem (suc k) q i c h = elim (Bool-cases (is_cache_free q i)) [
  | inl f ↦ let e : i ≡ c = cc in (omega arith, subst (λ a. is_cache_free q a ≡ true) e f)
  | inr f ↦ let (l, t) = find_free_lem k q (i + 1) c (rw f at h) in (omega arith, t)
]

Below-reverse_aux : (n : ℕ) (xs ys : List ℕ) → Below n xs → Below n ys → Below n (reverse_aux xs ys)
Below-reverse_aux n [] ys h k = k
Below-reverse_aux n (x ∷ xs) ys h k = Below-reverse_aux n xs (x ∷ ys) h.1 (h.0, k)

not_success : (res : ℕ) → FlushError res → (res == fs_error_success) ≡ false
not_success res h = ground arith

module _ {M : Type 0} (s : Sequencing M) (g : Geometry) where
  -- What a flush gives, read without the queue.
  flush_cases :
      (w : World M) (cid : ℕ)
      → cid < g.buffers
      → SomeCache g.buffers w.lru
      → let (res, new_addr, r) = cache_flush_cache s g w cid empty_address in
        SomeCache g.buffers r.lru
        × (((res ≡ fs_error_success) × (is_cache_free r.lru cid ≡ true)) ⊎ FlushError res)
  flush_cases w cid l (xs, v) = elim (flush_cache_lem s g w cid empty_address xs l v) [
    | inl (e, f, c) ↦ ((_, c), inl (e, f))
    | inr (inl e, c) ↦ ((_, c), inr (inr (inl e)))
    | inr (inr (inl e), c) ↦ ((_, c), inr (inr (inr (inl e))))
    | inr (inr (inr e), c) ↦ ((_, c), inr (inr (inr (inr e))))
  ]

  -- A free buffer, or an error in place of its id.
  abbrev pub Acquired : ℕ → World M → Type 0
  Acquired cid r =
      SomeCache g.buffers r.lru
      × (((cid < g.buffers) × (is_cache_free r.lru cid ≡ true)) ⊎ FlushError cid)

  evict_lem :
      (w : World M) (xs : List ℕ)
      → IsCache g.buffers w.lru xs
      → (cid : ℕ) × (r : World M) × (evict s g w ≡ some (cid, r)) × Acquired cid r
  unfolding evict
  evict_lem w xs v =
      let cid : ℕ = first_cid (λ a. not (is_pinned w.lru cache_id_empty a)) (reverse xs) in
      let found = get_lru_cid_lem cache_id_empty v.queue in
      elim (Bool-cases (cid == cache_id_empty)) [
        | inl e ↦ (fs_error_critical, w, rw found (rw e refl), ((xs, v), inr (inl refl)))
        | inr e ↦
            let (l, t, m) =
              first_cid-Member _ g.buffers (reverse xs)
                (Below-reverse_aux g.buffers xs [] v.queue.bounded tt) e in
            let (kept, res) = flush_cases w cid l (xs, v) in
            elim res [
              | inl (success, f) ↦ (
                cid,
                (cache_flush_cache s g w cid empty_address).2,
                rw found (rw (e, success) refl),
                (kept, inl (l, f)),
              )
              | inr error ↦ (
                _,
                (cache_flush_cache s g w cid empty_address).2,
                rw found (rw (e, not_success _ error) refl),
                (kept, inr error),
              )
            ]
      ]

  -- cache_get_free_cache_id, on a well-formed cache (IsCache), ends. It gives a free buffer, or an
  -- error code, of which each is negative as an id; the queue stays a queue and the count of dirty
  -- buffers right.
  pub get_free_cache_id_lem :
      (w : World M) (xs : List ℕ)
      → IsCache g.buffers w.lru xs
      → (cid : ℕ) × (r : World M) × (cache_get_free_cache_id s g w ≡ some (cid, r))
        × SomeCache g.buffers r.lru
        × (((cid < g.buffers) × (is_cache_free r.lru cid ≡ true)) ⊎ FlushError cid)
  unfolding cache_get_free_cache_id take_or_evict
  get_free_cache_id_lem w xs v = elim (Option-cases (find_free g.buffers w.lru 0)) [
    | inl e ↦
        let (cid, r, run, acquired) = evict_lem w xs v in
        (cid, r, ap (take_or_evict s g w) e ∙ run, acquired.0, acquired.1)
    | inr (i, e) ↦
        let (l, f) = find_free_lem g.buffers w.lru 0 i e in
        (i, w, ap (take_or_evict s g w) e, (xs, v), inl (omega arith, f))
  ]
