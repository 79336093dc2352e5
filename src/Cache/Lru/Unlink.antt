-- ===== src/Cache/Lru/Unlink.antt =====
-- Taking one buffer out of a chain.
use nandfs.Base.{
  ◌∙◌, has-ne, ne-has, not-has-append, ℕ, ◌<◌, ◌≡◌, refl, true, false, List, [], ◌∷◌, ◌++◌, arith,
  has, ◌==◌, if◌then◌else◌, Distinct,
}
use nandfs.Cache.State.{CacheBlock, cache_id_empty}
use nandfs.Cache.Lru.Chain.{Chain, head_cid, last_cid, Chain-frame}

-- `g` is `c` with `m` and `n` linked to each other and `cid` linked to nothing.
pub record Unlinked (c g : ℕ → CacheBlock) (cid m n : ℕ) : Type 0 where
  pub less :
      (a : ℕ)
      → a < cache_id_empty
      → (g a).next_in_turn
        ≡ (if a == cid then cache_id_empty else if a == m then n else (c a).next_in_turn)
  pub more :
      (a : ℕ)
      → a < cache_id_empty
      → (g a).prev_in_turn
        ≡ (if a == cid then cache_id_empty else if a == n then m else (c a).prev_in_turn)

pub last_cid-mem : (x : ℕ) (xs : List ℕ) → has (last_cid x xs) (x ∷ xs) ≡ true
last_cid-mem x [] = ground arith
last_cid-mem x (y ∷ xs) = ground (arith, last_cid-mem y xs)

pub head_cid-ne :
    (x : ℕ) (xs : List ℕ) → x < cache_id_empty → has x xs ≡ false → (x == head_cid xs) ≡ false
head_cid-ne x [] l h = ground arith
head_cid-ne x (y ∷ ys) l h = ground arith

pub last_cid-ne :
    (x : ℕ) (xs : List ℕ)
    → x < cache_id_empty
    → has x xs ≡ false
    → (x == last_cid cache_id_empty xs) ≡ false
last_cid-ne x [] l h = ground arith
last_cid-ne x (y ∷ ys) l h = ne-has x (last_cid y ys) (y ∷ ys) h (last_cid-mem y ys)

pub last_cid-append :
    (d : ℕ) (xs : List ℕ) (y : ℕ) (ys : List ℕ) → last_cid d (xs ++ (y ∷ ys)) ≡ last_cid y ys
last_cid-append d [] y ys = refl
last_cid-append d (x ∷ xs) y ys = last_cid-append x xs y ys

pub Chain-at :
    (c : ℕ → CacheBlock) (prev cid : ℕ) (pre post : List ℕ)
    → Chain c prev (pre ++ (cid ∷ post))
    → ((c cid).prev_in_turn ≡ last_cid prev pre) × ((c cid).next_in_turn ≡ head_cid post)
Chain-at c prev cid [] post h = (h.1, h.2)
Chain-at c prev cid (x ∷ pre) post h = Chain-at c x cid pre post h.3

pub Distinct-at :
    (cid : ℕ) (pre post : List ℕ)
    → Distinct (pre ++ (cid ∷ post))
    → (has cid pre ≡ false) × (has cid post ≡ false)
Distinct-at cid [] post d = (refl, d.0)
Distinct-at cid (x ∷ pre) post d =
    ground (arith, Distinct-at cid pre post d.1, not-has-append x cid pre post d.0)

module _ (c g : ℕ → CacheBlock) (cid m n : ℕ) (u : Unlinked c g cid m n) where
  less_same :
      (a : ℕ)
      → a < cache_id_empty
      → (a == cid) ≡ false
      → (a == m) ≡ false
      → (g a).next_in_turn ≡ (c a).next_in_turn
  less_same a l p q = u.less a l ∙ rw (p, q)

  more_same :
      (a : ℕ)
      → a < cache_id_empty
      → (a == cid) ≡ false
      → (a == n) ≡ false
      → (g a).prev_in_turn ≡ (c a).prev_in_turn
  more_same a l p q = u.more a l ∙ rw (p, q)

  -- Behind the gap nothing changes but the back link of the first buffer.
  after_gap :
      (post : List ℕ)
      → n ≡ head_cid post
      → has cid post ≡ false
      → has m post ≡ false
      → Distinct post
      → Chain c cid post
      → Chain g m post
  after_gap [] en out fresh d h = tt
  after_gap (y ∷ ys) en out fresh d h =
      let y-cid = has-ne y cid (y ∷ ys) (ground arith) out in
      let y-m = has-ne y m (y ∷ ys) (ground arith) fresh in
      (
        h.0,
        u.more y h.0 ∙ rw (y-cid, en) (ground arith),
        less_same y h.0 y-cid y-m ∙ h.2,
        Chain-frame c g y ys
            (λ a l i. (
              more_same a l (has-ne a cid ys i (ground arith)) (rw en (has-ne a y ys i d.0)),
              less_same a l (has-ne a cid ys i (ground arith)) (has-ne a m ys i (ground arith)),
            ))
            h.3,
      )

  -- Up to the gap nothing changes but the forward link of the last buffer.
  before_less :
      (x : ℕ) (pre post : List ℕ)
      → m ≡ last_cid x pre
      → n ≡ head_cid post
      → x < cache_id_empty
      → (x == cid) ≡ false
      → has x pre ≡ false
      → (c x).next_in_turn ≡ head_cid (pre ++ (cid ∷ post))
      → (g x).next_in_turn ≡ head_cid (pre ++ post)
  before_less x [] post em en l p out h = u.less x l ∙ rw (p, em) (ground arith)
  before_less x (z ∷ zs) post em en l p out h =
      let here : (x == m) ≡ false =
        rw em (ne-has x (last_cid z zs) (z ∷ zs) out (last_cid-mem z zs)) in
      less_same x l p here ∙ h

  pub unlink-Chain :
      (prev : ℕ) (pre post : List ℕ)
      → m ≡ last_cid prev pre
      → n ≡ head_cid post
      → has prev (pre ++ (cid ∷ post)) ≡ false
      → Distinct (pre ++ (cid ∷ post))
      → Chain c prev (pre ++ (cid ∷ post))
      → Chain g prev (pre ++ post)
  unlink-Chain prev [] post em en fresh d h =
      rw (← em) (after_gap post en d.0 (rw em (ground arith)) d.1 h.3)
  unlink-Chain prev (x ∷ pre) post em en fresh d h =
      let (out, x-cid, off) = not-has-append x cid pre post d.0 in
      (
        h.0,
        more_same x h.0 x-cid (rw en (head_cid-ne x post h.0 off)) ∙ h.1,
        before_less x pre post em en h.0 x-cid out h.2,
        unlink-Chain x pre post em en d.0 d.1 h.3,
      )
