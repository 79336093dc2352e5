-- ===== src/Cache/Lru/Queue/Remove.antt =====
-- cache_remove_from_lru of NANDFS/src/fs/cache.c and the list of queued ids.
use nandfs.Base.{
  ℕ, ◌<◌, ◌≤◌, ◌≡◌, refl, sym, ap, ◌∙◌, inl, inr, false, List, [], ◌∷◌, ◌++◌, arith, has, ◌==◌,
  subst, has-ne, if◌then◌else◌, Bool-cases, erase, update, has-split, erase_of_not-has, erase-Below,
  erase-Distinct, has-append,
}
use nandfs.Cache.State.{CacheBlock, CacheLruQ, cache_id_empty}
use nandfs.Cache.Lru.{cache_remove_from_lru, unlink_neighbours, fix_lru, fix_mru}
use nandfs.Cache.Lru.Chain.{Chain-frame, head_cid, last_cid}
use nandfs.Cache.Lru.Unlink.{
  Unlinked, unlink-Chain, Chain-at, Distinct-at, last_cid-ne, head_cid-ne, last_cid-append,
  last_cid-mem,
}
use mathlib.Core.List.{append-nil}
use nandfs.Cache.Lru.Queue.{IsQueue, not-has-empty}
use nandfs.Cache.Lru.SameContent
use nandfs.Cache.Lru.SameContent.{SameContent}

neighbours_ends :
    (q : CacheLruQ) (cid : ℕ)
    → ((unlink_neighbours q cid).lru_cid ≡ q.lru_cid)
      × ((unlink_neighbours q cid).mru_cid ≡ q.mru_cid)
unfolding unlink_neighbours
neighbours_ends q cid = ground arith

-- The links after the removal, field by field.
module _ (q : CacheLruQ) (cid m n : ℕ) (em : (q.caches cid).prev_in_turn ≡ m)
    (en : (q.caches cid).next_in_turn ≡ n) (apart-m : (cid == m) ≡ false)
    (apart-n : (cid == n) ≡ false) where
  neighbours_less :
      (a : ℕ)
      → ((unlink_neighbours q cid).caches a).next_in_turn ≡ (
          if m == cache_id_empty
          then (q.caches a).next_in_turn
          else if a == m
          then n
          else (q.caches a).next_in_turn)
  unfolding unlink_neighbours update
  neighbours_less a = ground arith

  neighbours_more :
      (a : ℕ)
      → ((unlink_neighbours q cid).caches a).prev_in_turn ≡ (
          if n == cache_id_empty
          then (q.caches a).prev_in_turn
          else if a == n
          then m
          else (q.caches a).prev_in_turn)
  unfolding unlink_neighbours update
  neighbours_more a = ground arith

  remove-Unlinked : Unlinked q.caches (cache_remove_from_lru q cid).caches cid m n
  unfolding cache_remove_from_lru fix_lru fix_mru update
  remove-Unlinked = record {
    less = λ a l. ground (arith, neighbours_less a);
    more = λ a l. ground (arith, neighbours_more a);
  }

  remove_lru :
      (cache_remove_from_lru q cid).lru_cid
      ≡ (if q.lru_cid == cid then if n == cache_id_empty then m else n else q.lru_cid)
  unfolding cache_remove_from_lru fix_lru fix_mru
  remove_lru = ground (arith, neighbours_less cid, neighbours_more cid, neighbours_ends q cid)

  remove_mru :
      (cache_remove_from_lru q cid).mru_cid
      ≡ (if q.mru_cid == cid then if m == cache_id_empty then n else m else q.mru_cid)
  unfolding cache_remove_from_lru fix_lru fix_mru
  remove_mru = ground (arith, neighbours_less cid, neighbours_more cid, neighbours_ends q cid)

neighbours-SameContent : (q : CacheLruQ) (cid : ℕ) → SameContent q (unlink_neighbours q cid)
unfolding unlink_neighbours
neighbours-SameContent q cid =
    SameContent.trans (SameContent.choose _ (SameContent.here q) (SameContent.less q _ _))
      (SameContent.choose _ (SameContent.here _) (SameContent.more _ _ _))

pub remove-SameContent : (q : CacheLruQ) (cid : ℕ) → SameContent q (cache_remove_from_lru q cid)
unfolding cache_remove_from_lru fix_lru fix_mru
remove-SameContent q cid = SameContent.trans (neighbours-SameContent q cid) (
    SameContent.trans
      (SameContent.trans (SameContent.choose _ (SameContent.ends _) (SameContent.here _))
        (SameContent.choose _ (SameContent.ends _) (SameContent.here _)))
      (SameContent.trans (SameContent.more _ _ _) (SameContent.less _ _ _)))

off_both :
    (a : ℕ) (pre post : List ℕ)
    → has a (pre ++ post) ≡ false
    → (has a pre ≡ false) × (has a post ≡ false)
off_both a pre post h = ground (arith, has-append a pre post)

off_all :
    (a cid : ℕ) (pre post : List ℕ)
    → (a == cid) ≡ false
    → (has a pre ≡ false) × (has a post ≡ false)
    → has a (pre ++ (cid ∷ post)) ≡ false
off_all a cid pre post e h = ground (arith, has-append a pre (cid ∷ post))

other_end : (cid x t : ℕ) → (cid == x) ≡ false → (if x == cid then t else x) ≡ x
other_end cid x t h = ground arith

unchanged :
    {c g : ℕ → CacheBlock} {cid : ℕ}
    → Unlinked c g cid cache_id_empty cache_id_empty
    → (a : ℕ) → a < cache_id_empty
    → (a == cid) ≡ false
    → ((g a).prev_in_turn ≡ (c a).prev_in_turn) × ((g a).next_in_turn ≡ (c a).next_in_turn)
unchanged u a la ne =
    let real : (a == cache_id_empty) ≡ false = ground arith in
    (u.more a la ∙ rw (ne, real), u.less a la ∙ rw (ne, real))

-- An id in the queue, at the place that `pre` and `post` leave.
module _ (buffers : ℕ) (fits : buffers ≤ cache_id_empty) (q : CacheLruQ) (cid : ℕ)
    (l : cid < buffers) where
  remove_member :
      (pre post : List ℕ)
      → IsQueue buffers q (pre ++ (cid ∷ post))
      → erase cid (pre ++ (cid ∷ post)) ≡ pre ++ post
      → IsQueue buffers (cache_remove_from_lru q cid) (pre ++ post)
  remove_member pre post v e =
      let xs = pre ++ (cid ∷ post) in
      let at = Chain-at q.caches cache_id_empty cid pre post v.chain in
      let out = Distinct-at cid pre post v.distinct in
      let m : ℕ = last_cid cache_id_empty pre in
      let n : ℕ = head_cid post in
      let cid-m = last_cid-ne cid pre (omega arith) out.0 in
      let cid-n = head_cid-ne cid post (omega arith) out.1 in
      let u = remove-Unlinked q cid m n at.0 at.1 cid-m cid-n in
      record {
        mru = remove_mru q cid m n at.0 at.1 cid-m cid-n ∙ rw v.mru (mru_of pre post out cid-m);
        lru = remove_lru q cid m n at.0 at.1 cid-m cid-n ∙ rw v.lru (lru_of pre post out cid-n);
        chain =
            unlink-Chain q.caches (cache_remove_from_lru q cid).caches cid m n u cache_id_empty pre
              post refl refl (not-has-empty q.caches cache_id_empty xs v.chain) v.distinct v.chain;
        distinct = rw e at (erase-Distinct cid xs v.distinct);
        bounded = rw e at (erase-Below buffers cid xs v.bounded);
        idle = λ a la o. elim (Bool-cases (a == cid)) [
          | inl e ↦ (u.less a (omega arith) ∙ rw e refl, u.more a (omega arith) ∙ rw e refl)
          | inr e ↦
              let apart = off_both a pre post o in
              let links = v.idle a la (off_all a cid pre post e apart) in
              let a-m = last_cid-ne a pre (omega arith) apart.0 in
              let a-n = head_cid-ne a post (omega arith) apart.1 in
              (
                u.less a (omega arith) ∙ rw (e, a-m) links.0,
                u.more a (omega arith) ∙ rw (e, a-n) links.1,
              )
        ];
      }
    where
      mru_of :
          (pre post : List ℕ)
          → (has cid pre ≡ false) × (has cid post ≡ false)
          → (cid == last_cid cache_id_empty pre) ≡ false
          → (if head_cid (pre ++ (cid ∷ post)) == cid
              then if last_cid cache_id_empty pre == cache_id_empty
                then head_cid post
                else last_cid cache_id_empty pre
              else head_cid (pre ++ (cid ∷ post)))
            ≡ head_cid (pre ++ post)
      mru_of [] post out h = ground arith
      mru_of (z ∷ zs) post out h = ground arith

      lru_of :
          (pre post : List ℕ)
          → (has cid pre ≡ false) × (has cid post ≡ false)
          → (cid == head_cid post) ≡ false
          → (if last_cid cache_id_empty (pre ++ (cid ∷ post)) == cid
              then if head_cid post == cache_id_empty
                then last_cid cache_id_empty pre
                else head_cid post
              else last_cid cache_id_empty (pre ++ (cid ∷ post)))
            ≡ last_cid cache_id_empty (pre ++ post)
      lru_of pre [] out h =
          rw (last_cid-append cache_id_empty pre cid [], append-nil) (ground arith)
      lru_of pre (y ∷ ys) out h =
          rw
            (
              last_cid-append cache_id_empty pre cid (y ∷ ys),
              last_cid-append cache_id_empty pre y ys,
            )
            (rw (has-ne (last_cid y ys) cid (y ∷ ys) (last_cid-mem y ys) out.1) refl)

  -- An id off the queue: its links are empty, so nothing but empty links is written.
  remove_stranger :
      (xs : List ℕ)
      → IsQueue buffers q xs
      → has cid xs ≡ false
      → IsQueue buffers (cache_remove_from_lru q cid) xs
  remove_stranger xs v out =
      let links = v.idle cid l out in
      let e : ℕ = cache_id_empty in
      let cid-e : (cid == e) ≡ false = ground arith in
      let u = remove-Unlinked q cid e e links.1 links.0 cid-e cid-e in
      let cid-mru = head_cid-ne cid xs (omega arith) out in
      let cid-lru = last_cid-ne cid xs (omega arith) out in
      record {
        mru =
            remove_mru q cid e e links.1 links.0 cid-e cid-e
            ∙ rw v.mru (other_end cid (head_cid xs) _ cid-mru);
        lru =
            remove_lru q cid e e links.1 links.0 cid-e cid-e
            ∙ rw v.lru (other_end cid (last_cid e xs) _ cid-lru);
        chain =
            Chain-frame q.caches (cache_remove_from_lru q cid).caches e xs
              (λ a la i. unchanged u a la (has-ne a cid xs i out)) v.chain;
        distinct = v.distinct;
        bounded = v.bounded;
        idle = λ a la o. elim (Bool-cases (a == cid)) [
          | inl same ↦
              (u.less a (omega arith) ∙ rw same refl, u.more a (omega arith) ∙ rw same refl)
          | inr ne ↦
              let (more, less) = unchanged u a (omega arith) ne in
              let was = v.idle a la o in (less ∙ was.0, more ∙ was.1)
        ];
      }

-- cache_remove_from_lru, given the id of a buffer, takes it out of the queue that the links and
-- the two ends stand for, and keeps the order of the others. On an id that is not in the queue it
-- changes nothing of it. The contents of the buffers and the count of dirty ones stay.
pub remove-IsQueue :
    (buffers : ℕ) (q : CacheLruQ) (cid : ℕ) (xs : List ℕ)
    → buffers ≤ cache_id_empty
    → cid < buffers
    → IsQueue buffers q xs
    → IsQueue buffers (cache_remove_from_lru q cid) (erase cid xs)
      × SameContent q (cache_remove_from_lru q cid)
remove-IsQueue buffers q cid xs fits l v = elim (Bool-cases (has cid xs)) [
  | inl i ↦
      let (pre, post, s, e) = has-split cid xs i in
      (
        rw e (
            remove_member buffers fits q cid l pre post (subst (IsQueue buffers q) s v)
              (ap (erase cid) (sym s) ∙ e)),
        remove-SameContent q cid,
      )
  | inr o ↦ (
    rw (erase_of_not-has cid xs o) (remove_stranger buffers fits q cid l xs v o),
    remove-SameContent q cid,
  )
]
