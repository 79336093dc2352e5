-- ===== src/Cache/Lru/SameContent.antt =====
-- Two states whose buffers differ at most in their links.
use nandfs.Base.{
  ℕ, ◌≡◌, refl, ◌∙◌, Bool, true, false, ap, sym, inl, inr, Bool-cases, ==_iff, ◌==◌, update,
  if◌then◌else◌,
}
use nandfs.Cache.State.{CacheBlock, CacheLruQ, set_less_recently_used, set_more_recently_used}

-- A buffer without its links.
abbrev pub content : CacheBlock → CacheBlock
content b = record b { next_in_turn = 0; prev_in_turn = 0 }

pub record SameContent (q r : CacheLruQ) : Type 0 where
  pub buffers : (a : ℕ) → content (r.caches a) ≡ content (q.caches a)
  pub dirty_count : r.dirty_count ≡ q.dirty_count

pub here : (q : CacheLruQ) → SameContent q q
here q = record { buffers = λ a. refl; dirty_count = refl }

pub trans : {q r s : CacheLruQ} → SameContent q r → SameContent r s → SameContent q s
trans h k = record {
  buffers = λ a. k.buffers a ∙ h.buffers a;
  dirty_count = k.dirty_count ∙ h.dirty_count;
}

pub choose :
    (b : Bool) {q r s : CacheLruQ}
    → SameContent q r
    → SameContent q s
    → SameContent q (if b then r else s)
choose true h k = h
choose false h k = k

content-update :
    (c : ℕ → CacheBlock) (i : ℕ) (b : CacheBlock)
    → content b ≡ content (c i)
    → (a : ℕ) → content (update c i b a) ≡ content (c a)
unfolding update
content-update c i b e a = elim (Bool-cases (a == i)) [
  | inl h ↦ rw h (e ∙ ap (λ (x : ℕ). content (c x)) (sym ((==_iff a i).0 h)))
  | inr h ↦ rw h refl
]

pub less : (q : CacheLruQ) (cid v : ℕ) → SameContent q (set_less_recently_used q cid v)
less q cid v = record { buffers = content-update q.caches cid _ refl; dirty_count = refl }

pub more : (q : CacheLruQ) (cid v : ℕ) → SameContent q (set_more_recently_used q cid v)
more q cid v = record { buffers = content-update q.caches cid _ refl; dirty_count = refl }

pub ends : (q : CacheLruQ) {l m : ℕ} → SameContent q (record q { lru_cid = l; mru_cid = m })
ends q = record { buffers = λ a. refl; dirty_count = refl }
