-- ===== src/Cache/Lru/Queue.antt =====
-- What it is for the array of buffers to hold a queue of cache ids, most recently used first.
pub mod Remove
pub mod Insert
use nandfs.Base.{ℕ, ◌<◌, ◌≡◌, refl, true, false, List, [], ◌∷◌, arith, has, Below, Distinct}
use nandfs.Cache.State.{CacheBlock, CacheLruQ, cache_id_empty}
use nandfs.Cache.Lru.Chain.{Chain, head_cid, last_cid}

-- Buffers off the queue are linked to nothing.
pub record IsQueue (buffers : ℕ) (q : CacheLruQ) (xs : List ℕ) : Type 0 where
  pub mru : q.mru_cid ≡ head_cid xs
  pub lru : q.lru_cid ≡ last_cid cache_id_empty xs
  pub chain : Chain q.caches cache_id_empty xs
  pub distinct : Distinct xs
  pub bounded : Below buffers xs
  pub idle :
      (a : ℕ)
      → a < buffers
      → has a xs ≡ false
      → ((q.caches a).next_in_turn ≡ cache_id_empty) × ((q.caches a).prev_in_turn ≡ cache_id_empty)

pub not-has-empty :
    (c : ℕ → CacheBlock) (prev : ℕ) (xs : List ℕ) → Chain c prev xs → has cache_id_empty xs ≡ false
not-has-empty c prev [] h = refl
not-has-empty c prev (x ∷ xs) h = ground (arith, not-has-empty c x xs h.3)
