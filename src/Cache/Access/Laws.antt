-- ===== src/Cache/Access/Laws.antt =====
-- An access to a block through the cache.
use nandfs.Base.{
  ℕ, ◌<◌, ◌≤◌, ◌^◌, ◌≡◌, refl, ap, ◌∙◌, inl, inr, Bool, true, false, List, ◌∷◌, arith, Bool-cases,
  erase, update_self,
}
use nandfs.Addr.{LogAddr, empty_address, copy_logical_address, IsBytes}
use nandfs.Addr.Fields.{
  set_logical_segment_lem, set_logical_offset_lem, set_segment-IsBytes, set_offset-IsBytes,
  copy_logical_address_lem,
}
use nandfs.Cache.State.{
  Block, CacheBlock, CacheLruQ, is_cached_addr, get_cid_from_addr, cache_magic_seg, cache_is_dirty,
  cache_dirty,
}
use nandfs.Cache.Lru.{fs_error_success}
use nandfs.Cache.Invariant.{
  IsCache, SameQueue, SameQueue-IsCache, SameQueue-refl, SameQueue-trans, put_block-SameQueue,
  put_block_field,
}
use nandfs.Cache.Access.Keep.{
  touch-IsCache, set_tid-SameQueue, note_log_addr-SameQueue, mark_dirty-IsCache,
  set_write_buffer-SameQueue, set_write_buffer_stays,
}
use nandfs.Cache.Access.{
  DataType, Access, magic_address, set_tid, mark_dirty, note_log_addr, touch, transfer,
  access_clean, access_dirty,
}
use nandfs.World.{World, Geometry, Sequencing}

empty_address-IsBytes : IsBytes empty_address
empty_address-IsBytes = omega arith

-- The magic address of a buffer whose id has at most 12 bits stands for that buffer.
pub magic_address_lem :
    (cid : ℕ)
    → cid < 2 ^ 12
    → (is_cached_addr (magic_address cid) ≡ true)
      × (get_cid_from_addr (magic_address cid) ≡ cid)
      × IsBytes (magic_address cid)
unfolding magic_address is_cached_addr get_cid_from_addr
magic_address_lem cid l =
    let b = set_segment-IsBytes cache_magic_seg empty_address-IsBytes in
    let (s, o, p) = set_logical_segment_lem cache_magic_seg empty_address-IsBytes (omega arith) in
    let (o2, s2, p2) = set_logical_offset_lem cid b l in
    (ground (arith, s, s2), o2, set_offset-IsBytes cid b)

-- What an access that succeeds has done with the buffer `cid`.
pub record Served {M : Type 0} (buffers : ℕ) (r : World M) (a : Access) (buf : Block) (tid : ℕ)
    (is_write : Bool) (cid : ℕ) (xs : List ℕ) : Type 0 where
  pub success : a.res ≡ fs_error_success
  pub real : cid < buffers
  pub cache : IsCache buffers r.lru (cid ∷ xs)
  pub magic : a.addr ≡ magic_address cid
  pub same_buf : (r.lru.caches cid).indirect_buf ≡ a.buf
  pub owner : (r.lru.caches cid).tid ≡ tid
  pub written : is_write ≡ true → (a.buf ≡ buf) × (cache_is_dirty r.lru cid ≡ true)

set_tid_owner : (q : CacheLruQ) (cid tid : ℕ) → ((set_tid q cid tid).caches cid).tid ≡ tid
unfolding set_tid
set_tid_owner q cid tid = rw (update_self q.caches cid (record (q.caches cid) { tid = tid })) refl

set_tid_dirty :
    (q : CacheLruQ) (cid tid : ℕ) → cache_is_dirty (set_tid q cid tid) cid ≡ cache_is_dirty q cid
unfolding set_tid cache_is_dirty
set_tid_dirty q cid tid = rw (update_self q.caches cid (record (q.caches cid) { tid = tid })) refl

mark_dirty_written : (q : CacheLruQ) (cid : ℕ) → cache_is_dirty (mark_dirty q cid true) cid ≡ true
unfolding mark_dirty cache_is_dirty
mark_dirty_written q cid = elim (Bool-cases (cache_is_dirty q cid)) [
  | inl e ↦ rw e e
  | inr e ↦ rw (e, update_self q.caches cid (record (q.caches cid) { is_dirty = cache_dirty })) refl
]

-- The transfer of the block, for the buffer itself.
module _ {M : Type 0} (s : Sequencing M) (g : Geometry) where
  transfer_lem :
      (q : CacheLruQ) (cid : ℕ) (buf : Block) (data_type : DataType) (is_write : Bool)
      → let (buf1, r) = transfer s g q cid buf data_type is_write in
        SameQueue q r
        × ((r.caches cid).indirect_buf ≡ buf1)
        × ((r.caches cid).tid ≡ (q.caches cid).tid)
        × (is_write ≡ true → buf1 ≡ buf)
  unfolding transfer
  transfer_lem q cid buf data_type false = (SameQueue-refl q, refl, refl, λ e. absurd (cc))
  transfer_lem q cid buf data_type true =
      let b : CacheBlock = record (q.caches cid) { indirect_buf = buf; ref_count = 0 } in
      (
        set_write_buffer-SameQueue g q cid buf data_type,
        set_write_buffer_stays (λ c. c.indirect_buf) (λ c n. (refl, refl, refl)) g q cid buf
              data_type cid
            ∙ rw (update_self q.caches cid b) refl,
        set_write_buffer_stays (λ c. c.tid) (λ c n. (refl, refl, refl)) g q cid buf data_type cid
            ∙ rw (update_self q.caches cid b) refl,
        λ e. refl,
      )

  -- The two ends of an access, for a buffer that holds the block by then.
  module _ (fits : g.buffers ≤ 2 ^ 12) (w : World M) (cid : ℕ) (xs : List ℕ) (l : cid < g.buffers)
      (v : IsCache g.buffers w.lru xs) (buf : Block) (old_addr : LogAddr) (bytes : IsBytes old_addr)
      (tid : ℕ) (data_type : DataType) where
    magic_copied : copy_logical_address old_addr (magic_address cid) ≡ magic_address cid
    magic_copied =
        copy_logical_address_lem old_addr (magic_address cid) bytes
          (magic_address_lem cid (omega arith)).2

    pub access_dirty_lem :
        (is_write : Bool)
        → cache_is_dirty w.lru cid ≡ true
        → let (a, r) = access_dirty s g w cid buf old_addr tid data_type is_write in
          Served g.buffers r a buf tid is_write cid (erase cid xs)
    unfolding access_dirty cache_is_dirty
    access_dirty_lem is_write d =
        let q1 : CacheLruQ = set_tid (touch w.lru cid) cid tid in
        let (touched, content) = touch-IsCache g.buffers w.lru cid xs l v in
        let (same, buf_of, tid_of, wrote) = transfer_lem q1 cid buf data_type is_write in
        let set = set_tid-SameQueue (touch w.lru cid) cid tid in
        let dirty : (q1.caches cid).is_dirty ≡ (w.lru.caches cid).is_dirty =
          set.is_dirty cid ∙ ap (λ (b : CacheBlock). b.is_dirty) (content.buffers cid) in
        record {
          success = refl;
          real = l;
          cache = SameQueue-IsCache (SameQueue-trans set same) touched;
          magic = magic_copied;
          same_buf = buf_of;
          owner = tid_of ∙ set_tid_owner (touch w.lru cid) cid tid;
          written = λ e. (wrote e, rw (same.is_dirty cid, dirty) d);
        }

    pub access_clean_lem :
        (parent_offset : ℕ) (is_write : Bool)
        → let (a, r) = access_clean s g w cid buf old_addr parent_offset tid data_type is_write in
          Served g.buffers r a buf tid is_write cid (erase cid xs)
    unfolding access_clean cache_is_dirty
    access_clean_lem parent_offset is_write =
        let q0 : CacheLruQ = note_log_addr w.lru cid old_addr in
        let q1 : CacheLruQ = touch q0 cid in
        let q2 : CacheLruQ = set_tid (mark_dirty q1 cid is_write) cid tid in
        let noted = SameQueue-IsCache (note_log_addr-SameQueue w.lru cid old_addr) v in
        let (touched, content) = touch-IsCache g.buffers q0 cid xs l noted in
        let marked = mark_dirty-IsCache cid is_write l touched in
        let (same, buf_of, tid_of, wrote) = transfer_lem q2 cid buf data_type is_write in
        let set = set_tid-SameQueue (mark_dirty q1 cid is_write) cid tid in
        let q3 : CacheLruQ = (transfer s g q2 cid buf data_type is_write).1 in
        let b : CacheBlock = record (q3.caches cid) { parent_offset = parent_offset } in
        let last = put_block-SameQueue q3 cid b refl refl refl in
        record {
          success = refl;
          real = l;
          cache = SameQueue-IsCache (SameQueue-trans (SameQueue-trans set same) last) marked;
          magic = magic_copied;
          same_buf = put_block_field q3 cid b (λ c. c.indirect_buf) refl cid ∙ buf_of;
          owner =
              put_block_field q3 cid b (λ c. c.tid) refl cid
              ∙ tid_of
              ∙ set_tid_owner (mark_dirty q1 cid is_write) cid tid;
          written = λ e. (
            wrote e,
            rw (last.is_dirty cid, same.is_dirty cid, set.is_dirty cid, e)
                (mark_dirty_written q1 cid),
          );
        }
