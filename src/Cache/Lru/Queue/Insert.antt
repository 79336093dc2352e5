-- ===== src/Cache/Lru/Queue/Insert.antt =====
-- cache_insert_to_lru of NANDFS/src/fs/cache.c and the list of queued ids.
use nandfs.Base.{
  ℕ, ◌<◌, ◌≤◌, ◌≡◌, refl, sym, ◌∙◌, true, false, List, [], ◌∷◌, arith, has, ◌==◌, has-ne, subst,
  update,
}
use nandfs.Cache.State.{CacheBlock, CacheLruQ, cache_id_empty}
use nandfs.Cache.Lru.{cache_insert_to_lru, insert_before, fs_error_success}
use nandfs.Cache.Lru.Chain.{Chain-frame}
use nandfs.Cache.Lru.SameContent
use nandfs.Cache.Lru.SameContent.{SameContent}
use nandfs.Cache.Lru.Queue.{IsQueue}

-- The links after `cid` and the old head `y` are linked to each other.
module _ (c : ℕ → CacheBlock) (cid y : ℕ) (apart : (y == cid) ≡ false) where
  linked : ℕ → CacheBlock
  linked =
      let c1 = update c cid (record (c cid) { next_in_turn = y }) in
      update c1 y (record (c1 y) { prev_in_turn = cid })

  linked_new : ((linked cid).next_in_turn ≡ y) × ((linked cid).prev_in_turn ≡ (c cid).prev_in_turn)
  unfolding linked update
  linked_new = ground arith

  linked_old : ((linked y).prev_in_turn ≡ cid) × ((linked y).next_in_turn ≡ (c y).next_in_turn)
  unfolding linked update
  linked_old = ground arith

  linked_other :
      (a : ℕ)
      → (a == cid) ≡ false
      → (a == y) ≡ false
      → ((linked a).prev_in_turn ≡ (c a).prev_in_turn)
        × ((linked a).next_in_turn ≡ (c a).next_in_turn)
  unfolding linked update
  linked_other a p q = rw (q, p) (refl, refl)

apart_from :
    (a cid y : ℕ) (ys : List ℕ)
    → has a (cid ∷ y ∷ ys) ≡ false
    → ((a == cid) ≡ false) × ((a == y) ≡ false) × (has a (y ∷ ys) ≡ false)
apart_from a cid y ys h = ground arith

module _ (buffers : ℕ) (fits : buffers ≤ cache_id_empty) (q : CacheLruQ) (cid : ℕ)
    (l : cid < buffers) where
  insert_first :
      IsQueue buffers q [] → IsQueue buffers (record q { mru_cid = cid; lru_cid = cid }) (cid ∷ [])
  insert_first v =
      let links = v.idle cid l refl in
      record {
        mru = refl;
        lru = refl;
        chain = (omega arith, links.1, links.0, tt);
        distinct = (refl, tt);
        bounded = (l, tt);
        idle = λ a la o. v.idle a la refl;
      }

  insert_front :
      (y : ℕ) (ys : List ℕ)
      → IsQueue buffers q (y ∷ ys)
      → (apart : (y == cid) ≡ false) → has cid (y ∷ ys) ≡ false
      → IsQueue buffers
          (record q { caches = linked q.caches cid y apart; mru_cid = cid })
          (cid ∷ y ∷ ys)
  insert_front y ys v apart out =
      let c = q.caches in
      let new = linked_new c cid y apart in
      let old = linked_old c cid y apart in
      let links = v.idle cid l out in
      record {
        mru = refl;
        lru = v.lru;
        chain = (
          omega arith,
          new.1 ∙ links.1,
          new.0,
          (
            v.chain.0,
            old.0,
            old.1 ∙ v.chain.2,
            Chain-frame c (linked c cid y apart) y ys
                (λ a la i.
                  linked_other c cid y apart a (has-ne a cid ys i (ground arith))
                    (has-ne a y ys i v.distinct.0))
                v.chain.3,
          ),
        );
        distinct = (out, v.distinct);
        bounded = (l, v.bounded);
        idle = λ a la o.
            let off = apart_from a cid y ys o in
            let (more, less) = linked_other c cid y apart a off.0 off.1 in
            let was = v.idle a la off.2 in (less ∙ was.0, more ∙ was.1);
      }

abbrev Inserted : ℕ → CacheLruQ → ℕ → List ℕ → ℕ → Type 0
Inserted buffers q cid xs old =
    let (res, r) = insert_before q cid old in
    (res ≡ fs_error_success) × IsQueue buffers r (cid ∷ xs) × SameContent q r

-- cache_insert_to_lru succeeds on a buffer that is not in the queue, if the links and the two ends
-- stand for one, and puts it in front as the most recently used one. The contents of the buffers
-- and the count of dirty ones stay.
pub insert-IsQueue :
    (buffers : ℕ) (q : CacheLruQ) (cid : ℕ) (xs : List ℕ)
    → buffers ≤ cache_id_empty
    → cid < buffers
    → has cid xs ≡ false
    → IsQueue buffers q xs
    → let (res, r) = cache_insert_to_lru q cid in
      (res ≡ fs_error_success) × IsQueue buffers r (cid ∷ xs) × SameContent q r
unfolding cache_insert_to_lru insert_before linked
insert-IsQueue buffers q cid [] fits l out v =
    subst (Inserted buffers q cid []) (sym v.mru)
      (refl, insert_first buffers fits q cid l v, SameContent.ends q)
insert-IsQueue buffers q cid (y ∷ ys) fits l out v =
    let apart : (y == cid) ≡ false = ground arith in
    let real : (y == cache_id_empty) ≡ false = ground (arith, v.chain.0) in
    let first : ((q.caches y).prev_in_turn == cache_id_empty) ≡ true = ground (arith, v.chain.1) in
    subst (Inserted buffers q cid (y ∷ ys)) (sym v.mru) (
      rw (real, first)
        (
          refl,
          insert_front buffers fits q cid l y ys v apart out,
          SameContent.trans (SameContent.less q cid y)
              (SameContent.trans (SameContent.more _ y cid) (SameContent.ends _)),
        ))
