-- ===== src/Cache/Find/Laws.antt =====
-- The walks against the list of ids that the links spell.
use nandfs.Base.{
  subst, ℕ, zero, suc, ◌<◌, ◌≤◌, ◌≡◌, refl, sym, ap, ◌+◌, ◌∙◌, inl, inr, Bool, true, false, not,
  List, [], ◌∷◌, arith, ◌==◌, if◌then◌else◌, Bool-cases, Option, some, length, length-le, Below,
  has,
}
use mathlib.Core.List.{reverse, reverse_aux}
use nandfs.Addr.{LogAddr, is_address_empty, compare_addr}
use nandfs.Cache.State.{CacheBlock, CacheLruQ, cache_id_empty}
use nandfs.Cache.Lru.Chain.{Chain, head_cid, last_cid}
use nandfs.Cache.Lru.Queue.{IsQueue}
use nandfs.Cache.Find.{find_real, cache_get_cid_by_real_addr, is_pinned, climb, cache_get_lru_cid}

-- The first id of the list that passes the test, or the empty id.
unfoldable pub first_cid : (ℕ → Bool) → List ℕ → ℕ
first_cid p [] = cache_id_empty
first_cid p (x ∷ xs) = if p x then x else first_cid p xs

has_self : (x : ℕ) (xs : List ℕ) → has x (x ∷ xs) ≡ true
has_self x xs = ground arith

has_later : (a x : ℕ) (xs : List ℕ) → has a xs ≡ true → has a (x ∷ xs) ≡ true
has_later a x xs h = ground arith

abbrev pub Member : (ℕ → Bool) → ℕ → List ℕ → ℕ → Type 0
Member p n xs c = (c == cache_id_empty) ≡ false → (c < n) × (p c ≡ true) × (has c xs ≡ true)

-- What first_cid gives is the empty id or a member that passes the test.
pub first_cid-Member :
    (p : ℕ → Bool) (n : ℕ) (xs : List ℕ) → Below n xs → Member p n xs (first_cid p xs)
unfolding first_cid
first_cid-Member p n [] b = λ h. absurd (cc)
first_cid-Member p n (x ∷ xs) b = elim (Bool-cases (p x)) [
  | inl e ↦
      let now : first_cid p (x ∷ xs) ≡ x = rw e refl in
      subst (Member p n (x ∷ xs)) (sym now) (λ h. (b.0, e, has_self x xs))
  | inr e ↦
      let later : first_cid p (x ∷ xs) ≡ first_cid p xs = rw e refl in
      subst (Member p n (x ∷ xs)) (sym later)
        (λ h. let (l, t, m) = first_cid-Member p n xs b.1 h in (l, t, has_later _ x xs m))
]

find_real_lem :
    (k : ℕ) (q : CacheLruQ) (log_addr : LogAddr) (prev : ℕ) (xs : List ℕ)
    → length xs < k
    → Chain q.caches prev xs
    → find_real k q log_addr (head_cid xs)
      ≡ some (first_cid (λ a. compare_addr (q.caches a).log_addr log_addr) xs)
unfolding find_real first_cid
find_real_lem zero q log_addr prev xs f h = absurd (omega arith)
find_real_lem (suc k) q log_addr prev [] f h = refl
find_real_lem (suc k) q log_addr prev (x ∷ xs) f h =
    ground (arith, find_real_lem k q log_addr x xs (omega arith) h.3)

module _ {buffers : ℕ} {q : CacheLruQ} {xs : List ℕ} (v : IsQueue buffers q xs) where
  pub length-queue : length xs ≤ buffers
  length-queue = length-le buffers xs v.distinct v.bounded

  -- cache_get_cid_by_real_addr, where the links spell a queue (IsQueue), ends, and gives the most
  -- recently used buffer that was read from the address, or the empty id if there is none or the
  -- address is empty.
  pub get_cid_by_real_addr_lem :
      (log_addr : LogAddr)
      → cache_get_cid_by_real_addr buffers q log_addr
        ≡ some (
            if is_address_empty log_addr
            then cache_id_empty
            else first_cid (λ a. compare_addr (q.caches a).log_addr log_addr) xs)
  unfolding cache_get_cid_by_real_addr
  get_cid_by_real_addr_lem log_addr = elim (Bool-cases (is_address_empty log_addr)) [
    | inl e ↦ rw e
    | inr e ↦ rw e (
        ap (find_real (suc buffers) q log_addr) v.mru
        ∙ find_real_lem (suc buffers) q log_addr cache_id_empty xs (omega (arith, length-queue))
            v.chain)
  ]

-- The back links spell the reversed list.
abbrev Back : (ℕ → CacheBlock) → List ℕ → Type 0
Back c [] = Unit
Back c (x ∷ xs) = (x < cache_id_empty) × ((c x).prev_in_turn ≡ head_cid xs) × Back c xs

Chain-Back :
    (c : ℕ → CacheBlock) (xs zs : List ℕ)
    → Chain c (head_cid zs) xs
    → Back c zs
    → Back c (reverse_aux xs zs)
Chain-Back c [] zs h b = b
Chain-Back c (x ∷ xs) zs h b = Chain-Back c xs (x ∷ zs) h.3 (h.0, h.1, b)

head_cid-reverse_aux : (xs zs : List ℕ) → head_cid (reverse_aux xs zs) ≡ last_cid (head_cid zs) xs
head_cid-reverse_aux [] zs = refl
head_cid-reverse_aux (x ∷ xs) zs = head_cid-reverse_aux xs (x ∷ zs)

climb_lem :
    (k : ℕ) (q : CacheLruQ) (except_cid x : ℕ) (zs : List ℕ)
    → length zs < k
    → Back q.caches (x ∷ zs)
    → climb k q except_cid x ≡ some (first_cid (λ a. not (is_pinned q except_cid a)) (x ∷ zs))
unfolding climb first_cid
climb_lem zero q except_cid x zs f h = absurd (omega arith)
climb_lem (suc k) q except_cid x [] f h = ground arith
climb_lem (suc k) q except_cid x (z ∷ zs) f h =
    ground (arith, climb_lem k q except_cid z zs (omega arith) h.2)

length-reverse_aux : (xs zs : List ℕ) → length (reverse_aux xs zs) ≡ length xs + length zs
length-reverse_aux [] zs = omega arith
length-reverse_aux (x ∷ xs) zs = omega (arith, length-reverse_aux xs (x ∷ zs))

abbrev climb_from : ℕ → CacheLruQ → ℕ → ℕ → Option ℕ
climb_from k q except_cid i =
    if i == cache_id_empty then some cache_id_empty else climb k q except_cid i

climb_queue :
    (k : ℕ) (q : CacheLruQ) (except_cid : ℕ) (ys : List ℕ)
    → length ys < suc k
    → Back q.caches ys
    → (if head_cid ys == cache_id_empty
        then some cache_id_empty
        else climb k q except_cid (head_cid ys))
      ≡ some (first_cid (λ a. not (is_pinned q except_cid a)) ys)
unfolding first_cid
climb_queue k q except_cid [] f h = refl
climb_queue k q except_cid (y ∷ ys) f h =
    let real : (y == cache_id_empty) ≡ false = ground (arith, h.0) in
    rw real (climb_lem k q except_cid y ys (omega arith) h)

-- cache_get_lru_cid, where the links spell a queue (IsQueue), ends, and gives the least recently
-- used buffer that is not pinned, or the empty id if all are.
pub get_lru_cid_lem :
    {buffers : ℕ} {q : CacheLruQ} {xs : List ℕ} (except_cid : ℕ)
    → IsQueue buffers q xs
    → cache_get_lru_cid buffers q except_cid
      ≡ some (first_cid (λ a. not (is_pinned q except_cid a)) (reverse xs))
unfolding cache_get_lru_cid
get_lru_cid_lem {buffers} {q} {xs} except_cid v =
    ap (climb_from (suc buffers) q except_cid) (v.lru ∙ sym (head_cid-reverse_aux xs []))
    ∙ climb_queue (suc buffers) q except_cid (reverse_aux xs [])
        (omega (arith, length-queue v, length-reverse_aux xs []))
        (Chain-Back q.caches xs [] v.chain tt)
