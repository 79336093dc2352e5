-- ===== src/Cache/Lru/Chain.antt =====
-- The list that the links of the buffers spell.
use nandfs.Base.{ℕ, ◌<◌, ◌≡◌, true, List, [], ◌∷◌, arith, has}
use nandfs.Cache.State.{CacheBlock, cache_id_empty}

-- The first id, and the last one, or `d` if there is none.
abbrev pub head_cid : List ℕ → ℕ
head_cid [] = cache_id_empty
head_cid (x ∷ xs) = x

abbrev pub last_cid : ℕ → List ℕ → ℕ
last_cid d [] = d
last_cid d (x ∷ xs) = last_cid x xs

-- Each id is no empty id, points back to the one before it, and on to the one behind it.
abbrev pub Chain : (ℕ → CacheBlock) → ℕ → List ℕ → Type 0
Chain c prev [] = Unit
Chain c prev (x ∷ xs) =
    (x < cache_id_empty)
    × ((c x).prev_in_turn ≡ prev)
    × ((c x).next_in_turn ≡ head_cid xs)
    × Chain c x xs

-- Links of buffers off the list do not matter.
pub Chain-frame :
    (c g : ℕ → CacheBlock) (prev : ℕ) (xs : List ℕ)
    → ((a : ℕ)
        → a < cache_id_empty
        → has a xs ≡ true
        → ((g a).prev_in_turn ≡ (c a).prev_in_turn) × ((g a).next_in_turn ≡ (c a).next_in_turn))
    → Chain c prev xs
    → Chain g prev xs
Chain-frame c g prev [] same h = tt
Chain-frame c g prev (x ∷ xs) same h =
    ground (arith, same x h.0, Chain-frame c g x xs (λ a l m. same a l (ground (arith, m))) h.3)
