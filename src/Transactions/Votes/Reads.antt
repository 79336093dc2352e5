-- ===== src/Transactions/Votes/Reads.antt =====
-- What is read of the pages of a transaction, and that marking pages does not change it.
use nandfs.Base.{
  ℕ, ◌≡◌, ◌≢◌, refl, sym, ap, ◌∙◌, inl, inr, Bool, true, false, ◌==◌, if◌then◌else◌, Bool-cases,
  Option, none, some, Option-cases, List, [], ◌∷◌, subst,
}
use nandfs.Addr.{LogAddr, is_addr_empty}
use nandfs.Cache.State.{Block}
use nandfs.Cache.Free.{cache_free_by_real_addr}
use nandfs.World.{World}
use nandfs.Transactions.Votes.{
  Pages, free_marked, tr_mark_as_obsolete, verified, read_vots_and_prev,
}
use nandfs.Transactions.Votes.Chain.{Page, mark_all}

module _ {M : Type 0} (pages : Pages M) (buffers : ℕ) where
  -- Reading at `a` succeeds and gives the page, whatever the buffer holds.
  abbrev pub Reads : Bool → M → LogAddr → Page → Type 0
  Reads aliased m a p =
      (buffer : Block)
      → read_vots_and_prev pages buffers aliased m a buffer
        ≡ some (record {
          res = 0;
          buffer = if p.is_vots then p.votes else buffer;
          prev = p.prev;
          is_vots = p.is_vots;
        })

  -- The pages from an address back to the first one of the transaction.
  abbrev pub IsChain : Bool → M → LogAddr → List Page → Type 0
  IsChain aliased m a [] = is_addr_empty a ≡ true
  IsChain aliased m a (p ∷ ps) =
      (is_addr_empty a ≡ false)
      × (p.address ≡ a)
      × Reads aliased m a p
      × IsChain aliased m p.prev ps

  abbrev pub SameReads : M → M → Type 0
  SameReads m m1 =
      (aliased : Bool) (a : LogAddr) (buffer : Block)
      → read_vots_and_prev pages buffers aliased m1 a buffer
        ≡ read_vots_and_prev pages buffers aliased m a buffer

  -- Marking a page does not change what is read of any page.
  abbrev pub Stable : Type 0
  Stable =
      (m : M) (a : LogAddr) (r : Bool) (res : ℕ) (m1 : M)
      → pages.mark_as_obsolete m a r ≡ some (res, m1)
      → SameReads m m1

  pub IsChain-same :
      (aliased : Bool) (m m1 : M) (a : LogAddr) (ps : List Page)
      → SameReads m m1
      → IsChain aliased m a ps
      → IsChain aliased m1 a ps
  IsChain-same aliased m m1 a [] same h = h
  IsChain-same aliased m m1 a (p ∷ ps) same (full, at, reads, h) = (
    full,
    at,
    λ buffer. same aliased a buffer ∙ reads buffer,
    IsChain-same aliased m m1 p.prev ps same h,
  )

  abbrev media_of : World M → Option (ℕ × World M) → M
  media_of w none = w.media
  media_of w (some x) = x.1.media

  -- The media after tr_mark_as_obsolete are those after markAsObsolete.
  free_marked-media :
      (w : World M) (a : LogAddr) (c : ℕ) (m : M)
      → free_marked pages buffers w a (c, m) ≢ none
      → media_of w (free_marked pages buffers w a (c, m)) ≡ m
  unfolding free_marked
  free_marked-media w a c m some_result = elim (Bool-cases (c == 0)) [
    | inr e ↦ rw e refl
    | inl e ↦ elim (Option-cases (cache_free_by_real_addr buffers w.lru a)) [
      | inl n ↦ absurd (some_result (rw (e, n) refl))
      | inr (r, s) ↦ rw (e, s) refl
    ]
  ]

  pub tr_mark-SameReads :
      (w w1 : World M) (a : LogAddr) (r : Bool) (res : ℕ)
      → Stable
      → tr_mark_as_obsolete pages buffers w a r ≡ some (res, w1)
      → SameReads w.media w1.media
  unfolding tr_mark_as_obsolete
  tr_mark-SameReads w w1 a r res stable run =
      elim (Option-cases (pages.mark_as_obsolete w.media a r)) [
        | inl n ↦ absurd (cc (rw n at run))
        | inr ((c, m), s) ↦
            let run1 : free_marked pages buffers w a (c, m) ≡ some (res, w1) = rw s at run in
            let media : m ≡ w1.media =
              sym (free_marked-media w a c m (λ n. absurd (cc (n, run1)))) ∙ ap (media_of w) run1 in
            subst (λ x. SameReads w.media x) media (stable w.media a r c m s)
      ]

  pub mark_all-SameReads :
      (xs : List LogAddr) (r : Bool) (w w1 : World M) (res : ℕ)
      → Stable
      → mark_all pages buffers xs r w ≡ some (res, w1)
      → SameReads w.media w1.media
  unfolding verified
  mark_all-SameReads [] r w w1 res stable run =
      let same : w ≡ w1 = cc run in
      subst (λ x. SameReads w.media x) (ap (λ x. x.media) same) (λ al a b. refl)
  mark_all-SameReads (x ∷ xs) r w w1 res stable run =
      elim (Option-cases (tr_mark_as_obsolete pages buffers w x r)) [
        | inl n ↦ absurd (cc (rw n at run))
        | inr ((c, v), s) ↦
            let first = tr_mark-SameReads w v x r c stable s in
            elim (Bool-cases (c == 0)) [
              | inr e ↦
                  let same : v ≡ w1 = cc (rw (s, e) at run) in
                  subst (λ x. SameReads w.media x) (ap (λ x. x.media) same) first
              | inl e ↦
                  let rest = mark_all-SameReads xs r v w1 res stable (rw (s, e) at run) in
                  λ al a b. rest al a b ∙ first al a b
            ]
      ]
