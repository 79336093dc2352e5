-- ===== src/Cache/Invariant.antt =====
-- The invariant of the cache: the links spell a queue, and the count of dirty buffers is right.
pub mod Recycle
use nandfs.Base.{
  ℕ, zero, suc, ◌+◌, ◌<◌, ◌≤◌, ◌%◌, ◌^◌, ◌≡◌, refl, sym, ap, ◌∙◌, inl, inr, Bool, true, false, List,
  [], ◌∷◌, arith, ◌==◌, if◌then◌else◌, Bool-cases, ==_iff, update, has, erase, Below,
}
use nandfs.Cache.State.{
  CacheBlock, CacheLruQ, cache_id_empty, cache_is_dirty, cache_dirty, cache_init_by_cid, put_block,
  init_loop, cache_init_lru_q, initial_block, dec32, inc32,
}
use nandfs.Cache.Lru.{cache_remove_from_lru, cache_insert_to_lru}
use nandfs.Cache.Lru.SameContent.{SameContent, content}
use nandfs.Cache.Lru.Chain.{Chain, Chain-frame}
use nandfs.Cache.Lru.Queue.{IsQueue}

-- The number of dirty buffers below `n`.
unfoldable pub dirty_below : ℕ → CacheLruQ → ℕ
dirty_below zero q = 0
dirty_below (suc n) q = (if cache_is_dirty q n then 1 else 0) + dirty_below n q

pub record IsCache (buffers : ℕ) (q : CacheLruQ) (xs : List ℕ) : Type 0 where
  pub fits : buffers < 2 ^ 31
  pub queue : IsQueue buffers q xs
  pub dirty : q.dirty_count ≡ dirty_below buffers q

-- Two states with the same queue and the same dirty buffers.
pub record SameQueue (q r : CacheLruQ) : Type 0 where
  pub mru : r.mru_cid ≡ q.mru_cid
  pub lru : r.lru_cid ≡ q.lru_cid
  pub next_in_turn : (a : ℕ) → (r.caches a).next_in_turn ≡ (q.caches a).next_in_turn
  pub prev_in_turn : (a : ℕ) → (r.caches a).prev_in_turn ≡ (q.caches a).prev_in_turn
  pub is_dirty : (a : ℕ) → (r.caches a).is_dirty ≡ (q.caches a).is_dirty
  pub dirty_count : r.dirty_count ≡ q.dirty_count

pub dirty_below-ext :
    (n : ℕ) (q r : CacheLruQ)
    → ((a : ℕ) → (r.caches a).is_dirty ≡ (q.caches a).is_dirty)
    → dirty_below n r ≡ dirty_below n q
unfolding dirty_below cache_is_dirty
dirty_below-ext zero q r h = refl
dirty_below-ext (suc n) q r h = rw (h n, dirty_below-ext n q r h) refl

pub dirty_below-le : (n : ℕ) (q : CacheLruQ) → dirty_below n q ≤ n
unfolding dirty_below
dirty_below-le zero q = omega arith
dirty_below-le (suc n) q = ground (arith, dirty_below-le n q)

dirty_below_above :
    (n : ℕ) (q : CacheLruQ) (cid : ℕ) (b : CacheBlock)
    → n ≤ cid
    → dirty_below n (put_block q cid b) ≡ dirty_below n q
unfolding dirty_below cache_is_dirty update
dirty_below_above zero q cid b h = refl
dirty_below_above (suc n) q cid b h =
    let other : (n == cid) ≡ false = ground arith in
    rw (other, dirty_below_above n q cid b (omega arith)) refl

-- An assignment to a buffer changes the count by what it changes of that buffer.
pub dirty_below-put_block :
    (n : ℕ) (q : CacheLruQ) (cid : ℕ) (b : CacheBlock)
    → cid < n
    → dirty_below n (put_block q cid b) + (if cache_is_dirty q cid then 1 else 0)
      ≡ dirty_below n q + (if b.is_dirty == cache_dirty then 1 else 0)
unfolding dirty_below cache_is_dirty update
dirty_below-put_block zero q cid b l = absurd (omega arith)
dirty_below-put_block (suc n) q cid b l = elim (Bool-cases (n == cid)) [
  | inl e ↦
      let same : n ≡ cid = (==_iff n cid).0 e in
      let rest = dirty_below_above n q cid b (omega arith) in
      let here : (q.caches n).is_dirty ≡ (q.caches cid).is_dirty =
        ap (λ (x : ℕ). (q.caches x).is_dirty) same in
      rw (e, rest, here) (omega arith)
  | inr e ↦ rw e (omega (arith, dirty_below-put_block n q cid b (ground arith)))
]

-- A queue goes by the links and the ends alone.
pub IsQueue-frame :
    {buffers : ℕ} {q r : CacheLruQ} {xs : List ℕ}
    → r.mru_cid ≡ q.mru_cid
    → r.lru_cid ≡ q.lru_cid
    → ((a : ℕ)
        → ((r.caches a).prev_in_turn ≡ (q.caches a).prev_in_turn)
          × ((r.caches a).next_in_turn ≡ (q.caches a).next_in_turn))
    → IsQueue buffers q xs
    → IsQueue buffers r xs
IsQueue-frame {buffers} {q} {r} {xs} m l same v = record {
  mru = m ∙ v.mru;
  lru = l ∙ v.lru;
  chain = Chain-frame q.caches r.caches cache_id_empty xs (λ a la i. same a) v.chain;
  distinct = v.distinct;
  bounded = v.bounded;
  idle = λ a la o. ((same a).1 ∙ (v.idle a la o).0, (same a).0 ∙ (v.idle a la o).1);
}

pub SameQueue-IsCache :
    {buffers : ℕ} {q r : CacheLruQ} {xs : List ℕ}
    → SameQueue q r
    → IsCache buffers q xs
    → IsCache buffers r xs
SameQueue-IsCache {buffers} {q} {r} {xs} s v = record {
  fits = v.fits;
  queue = IsQueue-frame s.mru s.lru (λ a. (s.prev_in_turn a, s.next_in_turn a)) v.queue;
  dirty = s.dirty_count ∙ v.dirty ∙ sym (dirty_below-ext buffers q r s.is_dirty);
}

pub SameContent-dirty :
    {q r : CacheLruQ} (n : ℕ) → SameContent q r → dirty_below n r ≡ dirty_below n q
SameContent-dirty {q} {r} n s =
    dirty_below-ext n q r (λ a. ap (λ (b : CacheBlock). b.is_dirty) (s.buffers a))

pub SameQueue-refl : (q : CacheLruQ) → SameQueue q q
SameQueue-refl q = record {
  mru = refl;
  lru = refl;
  next_in_turn = λ a. refl;
  prev_in_turn = λ a. refl;
  is_dirty = λ a. refl;
  dirty_count = refl;
}

pub SameQueue-trans : {q r s : CacheLruQ} → SameQueue q r → SameQueue r s → SameQueue q s
SameQueue-trans h k = record {
  mru = k.mru ∙ h.mru;
  lru = k.lru ∙ h.lru;
  next_in_turn = λ a. k.next_in_turn a ∙ h.next_in_turn a;
  prev_in_turn = λ a. k.prev_in_turn a ∙ h.prev_in_turn a;
  is_dirty = λ a. k.is_dirty a ∙ h.is_dirty a;
  dirty_count = k.dirty_count ∙ h.dirty_count;
}

pub SameQueue-choose :
    (b : Bool) {q r s : CacheLruQ}
    → SameQueue q r
    → SameQueue q s
    → SameQueue q (if b then r else s)
SameQueue-choose true h k = h
SameQueue-choose false h k = k

-- An assignment to a buffer leaves a value that the new content has as well.
pub put_block_field {ℓ} :
    {A : Type ℓ} (q : CacheLruQ) (cid : ℕ) (b : CacheBlock) (f : CacheBlock → A)
    → f b ≡ f (q.caches cid)
    → (a : ℕ) → f ((put_block q cid b).caches a) ≡ f (q.caches a)
unfolding update
put_block_field q cid b f e a = elim (Bool-cases (a == cid)) [
  | inl h ↦ let same : a ≡ cid = (==_iff a cid).0 h in rw h (rw same e)
  | inr h ↦ rw h refl
]

-- An assignment to a buffer that leaves its links and its dirty flag.
pub put_block-SameQueue :
    (q : CacheLruQ) (cid : ℕ) (b : CacheBlock)
    → b.next_in_turn ≡ (q.caches cid).next_in_turn
    → b.prev_in_turn ≡ (q.caches cid).prev_in_turn
    → b.is_dirty ≡ (q.caches cid).is_dirty
    → SameQueue q (put_block q cid b)
put_block-SameQueue q cid b n p d = record {
  mru = refl;
  lru = refl;
  next_in_turn = put_block_field q cid b (λ c. c.next_in_turn) n;
  prev_in_turn = put_block_field q cid b (λ c. c.prev_in_turn) p;
  is_dirty = put_block_field q cid b (λ c. c.is_dirty) d;
  dirty_count = refl;
}
