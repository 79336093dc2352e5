-- ===== src/Transactions/Votes/Deletion.antt =====
-- deleteTransactionPages against the list of addresses that it marks.
use nandfs.Base.{
  ℕ, zero, suc, ◌<◌, ◌≡◌, refl, sym, ap, ◌∙◌, inl, inr, Bool, true, ◌==◌, Bool-cases, Option, none,
  some, ◌>>=◌, Option-cases, List, [], ◌∷◌, length, arith,
}
use nandfs.Addr.{LogAddr}
use nandfs.Cache.State.{Block}
use nandfs.Cache.Free.{cache_init_tid_related}
use nandfs.World.{World}
use nandfs.Transactions.Votes.{
  Pages, tr_mark_as_obsolete, verified, delete_step, delete_marked, delete_walk,
  delete_transaction_pages,
}
use nandfs.Transactions.Votes.Chain.{Page, mark_all}
use nandfs.Transactions.Votes.Reads.{
  Reads, IsChain, SameReads, Stable, IsChain-same, tr_mark-SameReads,
}

abbrev pub addresses : List Page → List LogAddr
addresses [] = []
addresses (p ∷ ps) = p.address ∷ addresses ps

module _ {M : Type 0} (pages : Pages M) (buffers : ℕ) where
  -- The result and the state, without the address that the walk has moved on to.
  abbrev pub outcome : Option (ℕ × LogAddr × World M) → Option (ℕ × World M)
  outcome none = none
  outcome (some (res, a, w)) = some (res, w)

  delete_one :
      (next : LogAddr → Block → World M → Option (ℕ × LogAddr × World M)) (a : LogAddr)
      (buffer : Block) (w : World M) (p : Page) (rest : List LogAddr) (r : Bool)
      → Reads pages buffers true w.media a p
      → Stable pages buffers
      → ((b : Block) (v : World M)
          → SameReads pages buffers w.media v.media
          → outcome (next p.prev b v) ≡ mark_all pages buffers rest r v)
      → outcome
          (tr_mark_as_obsolete pages buffers w a r >>= delete_marked pages buffers next a buffer)
        ≡ (tr_mark_as_obsolete pages buffers w a r
            >>= verified pages buffers (mark_all pages buffers rest r))
  unfolding delete_marked delete_step verified
  delete_one next a buffer w p rest r reads stable go =
      elim (Option-cases (tr_mark_as_obsolete pages buffers w a r)) [
        | inl n ↦ rw n refl
        | inr ((c, v), s) ↦
            let same = tr_mark-SameReads pages buffers w v a r c stable s in
            elim (Bool-cases (c == 0)) [
              | inr e ↦ rw (s, e) refl
              | inl e ↦ rw (s, e, same true a buffer, reads buffer) (go _ v same)
            ]
      ]

  delete_walk_lem :
      (ps : List Page) (k : ℕ) (r : Bool) (a : LogAddr) (buffer : Block) (w : World M)
      → Stable pages buffers
      → IsChain pages buffers true w.media a ps
      → length ps < k
      → outcome (delete_walk pages buffers k r a buffer w)
        ≡ mark_all pages buffers (addresses ps) r w
  unfolding delete_walk
  delete_walk_lem ps zero r a buffer w stable chain l = absurd (omega arith)
  delete_walk_lem [] (suc k) r a buffer w stable chain l = rw chain refl
  delete_walk_lem (p ∷ ps) (suc k) r a buffer w stable (full, at, reads, chain) l =
      let next = delete_walk pages buffers k r in
      let go = λ (b : Block) (v : World M) (same : SameReads pages buffers w.media v.media).
        delete_walk_lem ps k r p.prev b v stable
          (IsChain-same pages buffers true w.media v.media p.prev ps same chain) (omega arith) in
      rw full (
        delete_one next a buffer w p (addresses ps) r reads stable go
        ∙ ap
            (λ b.
              tr_mark_as_obsolete pages buffers w b r
              >>= verified pages buffers (mark_all pages buffers (addresses ps) r))
            (sym at))

  -- Where marking a page does not change what is read and the pages of a transaction can be read back
  -- from an address to the first one by reads that go astray as this call's do, deleteTransactionPages
  -- ends within one round more than there are pages: it forgets the buffers of the transaction and
  -- marks exactly its pages, from the last one back, up to the first failure.
  pub delete_transaction_pages_lem :
      (ps : List Page) (k : ℕ) (a : LogAddr) (tid : ℕ) (r : Bool) (buffer : Block) (w : World M)
      → Stable pages buffers
      → IsChain pages buffers true w.media a ps
      → length ps < k
      → outcome (delete_transaction_pages pages buffers k a tid r buffer w)
        ≡ mark_all pages buffers
            (addresses ps)
            r
            (record w { lru = cache_init_tid_related buffers w.lru tid })
  unfolding delete_transaction_pages
  delete_transaction_pages_lem ps k a tid r buffer w stable chain l =
      delete_walk_lem ps k r a buffer _ stable chain l
