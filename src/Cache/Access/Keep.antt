-- ===== src/Cache/Access/Keep.antt =====
-- What the steps of an access do to the queue of ids and the count of dirty buffers.
use nandfs.Base.{
  ℕ, zero, suc, ◌+◌, ◌<◌, ◌≡◌, refl, sym, ◌∙◌, inl, inr, Bool, true, false, List, ◌∷◌, arith,
  Bool-cases, erase, not-has-erase,
}
use nandfs.Addr.{LogAddr, is_addr_empty}
use nandfs.Cache.State.{
  Block, CacheLruQ, CacheBlock, cache_is_dirty, put_block, is_cached_addr, inc32, cache_dirty,
}
use nandfs.Cache.Lru.{cache_remove_from_lru}
use nandfs.Cache.Lru.SameContent
use nandfs.Cache.Lru.SameContent.{SameContent}
use nandfs.Cache.Lru.Queue.Remove.{remove-IsQueue}
use nandfs.Cache.Lru.Queue.Insert.{insert-IsQueue}
use nandfs.Cache.Access.{
  DataType, set_parent_fields, adopt, adopt_entries, cache_set_write_buffer, touch, set_tid,
  mark_dirty, note_log_addr,
}
use nandfs.Cache.Invariant.{
  IsCache, SameQueue, SameQueue-refl, SameQueue-trans, SameQueue-choose, put_block-SameQueue,
  SameContent-dirty, dirty_below, dirty_below-le, dirty_below-put_block, dirty_below-ext,
  IsQueue-frame, put_block_field,
}
use nandfs.World.{Geometry, direct_index}

-- Whatever the queue was, the buffer is in front of it, and the others keep their order.
pub touch-IsCache :
    (buffers : ℕ) (q : CacheLruQ) (cid : ℕ) (xs : List ℕ)
    → cid < buffers
    → IsCache buffers q xs
    → IsCache buffers (touch q cid) (cid ∷ erase cid xs) × SameContent q (touch q cid)
unfolding touch
touch-IsCache buffers q cid xs l v =
    let (out, same) = remove-IsQueue buffers q cid xs (omega (arith, v.fits)) l v.queue in
    let (ok, queue, same2) =
      insert-IsQueue buffers (cache_remove_from_lru q cid) cid (erase cid xs)
        (omega (arith, v.fits)) l (not-has-erase cid xs v.queue.distinct) out in
    let all = SameContent.trans same same2 in
    (
      record {
        fits = v.fits;
        queue = queue;
        dirty = all.dirty_count ∙ v.dirty ∙ sym (SameContent-dirty buffers all);
      },
      all,
    )

pub set_tid-SameQueue : (q : CacheLruQ) (cid tid : ℕ) → SameQueue q (set_tid q cid tid)
unfolding set_tid
set_tid-SameQueue q cid tid = put_block-SameQueue q cid _ refl refl refl

pub note_log_addr-SameQueue :
    (q : CacheLruQ) (cid : ℕ) (old_addr : LogAddr) → SameQueue q (note_log_addr q cid old_addr)
unfolding note_log_addr
note_log_addr-SameQueue q cid old_addr =
    SameQueue-choose (is_cached_addr old_addr) (SameQueue-refl q)
      (put_block-SameQueue q cid _ refl refl refl)

set_parent_fields-SameQueue :
    (q : CacheLruQ) (cid : ℕ) (log_addr : LogAddr) → SameQueue q (set_parent_fields q cid log_addr)
unfolding set_parent_fields
set_parent_fields-SameQueue q cid log_addr =
    SameQueue-choose (is_cached_addr log_addr)
      (SameQueue-trans (put_block-SameQueue q cid _ refl refl refl)
        (put_block-SameQueue _ _ _ refl refl refl))
      (SameQueue-refl q)

adopt-SameQueue :
    (k : ℕ) (q : CacheLruQ) (cid : ℕ) (buf : Block) (i : ℕ) → SameQueue q (adopt k q cid buf i)
unfolding adopt
adopt-SameQueue zero q cid buf i = SameQueue-refl q
adopt-SameQueue (suc k) q cid buf i =
    SameQueue-trans (set_parent_fields-SameQueue q cid (buf i))
      (adopt-SameQueue k (set_parent_fields q cid (buf i)) cid buf (i + 1))

adopt_entries-SameQueue :
    (g : Geometry) (q : CacheLruQ) (cid : ℕ) (buf : Block) (data_type : DataType)
    → SameQueue q (adopt_entries g q cid buf data_type)
unfolding adopt_entries
adopt_entries-SameQueue g q cid buf DataType.inode = adopt-SameQueue 13 q cid buf (direct_index g)
adopt_entries-SameQueue g q cid buf DataType.entries = adopt-SameQueue g.entries q cid buf 0
adopt_entries-SameQueue g q cid buf DataType.other = SameQueue-refl q

pub set_write_buffer-SameQueue :
    (g : Geometry) (q : CacheLruQ) (cid : ℕ) (buf : Block) (data_type : DataType)
    → SameQueue q (cache_set_write_buffer g q cid buf data_type)
unfolding cache_set_write_buffer
set_write_buffer-SameQueue g q cid buf data_type =
    SameQueue-trans
      (SameQueue-trans (put_block-SameQueue q cid _ refl refl refl)
        (adopt_entries-SameQueue g _ cid buf data_type))
      (SameQueue-choose _ (put_block-SameQueue _ cid _ refl refl refl) (SameQueue-refl _))

count_dirty :
    (buffers : ℕ) (q : CacheLruQ) (xs : List ℕ) (cid : ℕ)
    → cid < buffers
    → IsCache buffers q xs
    → cache_is_dirty q cid ≡ false
    → let r = put_block q cid (record (q.caches cid) { is_dirty = cache_dirty }) in
      inc32 q.dirty_count ≡ dirty_below buffers r
count_dirty buffers q xs cid l v clean =
    let change =
      dirty_below-put_block buffers q cid (record (q.caches cid) { is_dirty = cache_dirty }) l in
    ground (arith, dirty_below-le buffers q, v.dirty, v.fits)

-- A buffer becomes dirty and is counted, unless it was dirty already.
pub mark_dirty-IsCache :
    {buffers : ℕ} {q : CacheLruQ} {xs : List ℕ} (cid : ℕ) (is_write : Bool)
    → cid < buffers
    → IsCache buffers q xs
    → IsCache buffers (mark_dirty q cid is_write) xs
unfolding mark_dirty
mark_dirty-IsCache {buffers} {q} {xs} cid false l v = v
mark_dirty-IsCache {buffers} {q} {xs} cid true l v = elim (Bool-cases (cache_is_dirty q cid)) [
  | inl e ↦ rw e v
  | inr e ↦
      let b : CacheBlock = record (q.caches cid) { is_dirty = cache_dirty } in
      rw e (record {
        fits = v.fits;
        queue =
            IsQueue-frame refl refl
              (λ a. (
                put_block_field q cid b (λ c. c.prev_in_turn) refl a,
                put_block_field q cid b (λ c. c.next_in_turn) refl a,
              ))
              v.queue;
        dirty =
            count_dirty buffers q xs cid l v e
            ∙ sym (
                dirty_below-ext buffers (put_block q cid b)
                  (record (put_block q cid b) { dirty_count = inc32 q.dirty_count }) (λ a. refl));
      })
]

-- A value of a buffer that does not go by its count of references, its parent and its vote.
abbrev pub Stays {ℓ} : {A : Type ℓ} → (CacheBlock → A) → Type ℓ
Stays f =
    (b : CacheBlock) (n : ℕ)
    → (f (record b { ref_count = n }) ≡ f b)
      × (f (record b { parent_cid = n }) ≡ f b)
      × (f (record b { is_voted = n }) ≡ f b)

module _ {ℓ} {A : Type ℓ} (f : CacheBlock → A) (stays : Stays f) where
  set_parent_fields_stays :
      (q : CacheLruQ) (cid : ℕ) (log_addr : LogAddr) (a : ℕ)
      → f ((set_parent_fields q cid log_addr).caches a) ≡ f (q.caches a)
  unfolding set_parent_fields
  set_parent_fields_stays q cid log_addr a =
      let q1 : CacheLruQ =
        put_block q cid (record (q.caches cid) { ref_count = inc32 (q.caches cid).ref_count }) in
      elim (Bool-cases (is_cached_addr log_addr)) [
        | inr e ↦ rw e refl
        | inl e ↦
            rw e (
              put_block_field q1 _ _ f (stays _ cid).1 a
              ∙ put_block_field q cid _ f (stays _ _).0 a)
      ]

  adopt_stays :
      (k : ℕ) (q : CacheLruQ) (cid : ℕ) (buf : Block) (i a : ℕ)
      → f ((adopt k q cid buf i).caches a) ≡ f (q.caches a)
  unfolding adopt
  adopt_stays zero q cid buf i a = refl
  adopt_stays (suc k) q cid buf i a =
      adopt_stays k (set_parent_fields q cid (buf i)) cid buf (i + 1) a
      ∙ set_parent_fields_stays q cid (buf i) a

  adopt_entries_stays :
      (g : Geometry) (q : CacheLruQ) (cid : ℕ) (buf : Block) (data_type : DataType) (a : ℕ)
      → f ((adopt_entries g q cid buf data_type).caches a) ≡ f (q.caches a)
  unfolding adopt_entries
  adopt_entries_stays g q cid buf DataType.inode a = adopt_stays 13 q cid buf (direct_index g) a
  adopt_entries_stays g q cid buf DataType.entries a = adopt_stays g.entries q cid buf 0 a
  adopt_entries_stays g q cid buf DataType.other a = refl

  -- A write to a buffer leaves such a value as the new content gives it.
  pub set_write_buffer_stays :
      (g : Geometry) (q : CacheLruQ) (cid : ℕ) (buf : Block) (data_type : DataType) (a : ℕ)
      → f ((cache_set_write_buffer g q cid buf data_type).caches a)
        ≡ f (
            (put_block q cid (record (q.caches cid) { indirect_buf = buf; ref_count = 0 })).caches
              a)
  unfolding cache_set_write_buffer
  set_write_buffer_stays g q cid buf data_type a =
      let q1 : CacheLruQ =
        put_block q cid (record (q.caches cid) { indirect_buf = buf; ref_count = 0 }) in
      let q2 : CacheLruQ = adopt_entries g q1 cid buf data_type in
      elim (Bool-cases (is_addr_empty (q2.caches cid).log_addr)) [
        | inl e ↦ rw e (
            put_block_field q2 cid _ f (stays _ _).2 a
            ∙ adopt_entries_stays g q1 cid buf data_type a)
        | inr e ↦ rw e (adopt_entries_stays g q1 cid buf data_type a)
      ]
