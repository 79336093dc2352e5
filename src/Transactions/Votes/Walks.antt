-- ===== src/Transactions/Votes/Walks.antt =====
-- handleTransactionVOTs against the list of addresses that it marks.
use nandfs.Base.{
  ℕ, zero, suc, ◌<◌, ◌≡◌, refl, sym, ap, ◌∙◌, inl, inr, Bool, true, false, if◌then◌else◌,
  Bool-cases, Option, ◌>>=◌, List, [], ◌∷◌, ◌++◌, length, arith,
}
use nandfs.Addr.{LogAddr}
use nandfs.Cache.State.{Block}
use nandfs.World.{World}
use nandfs.Transactions.Votes.{
  Pages, tr_mark_as_obsolete, verified, perform_vots, handle_page, handle_transaction_vots,
}
use nandfs.Transactions.Votes.Chain.{
  voted, Page, mark_all, bind_verified, bind_cong, mark_all-append, perform_vots_lem, mark_one,
}
use nandfs.Transactions.Votes.Reads.{IsChain, SameReads, Stable, IsChain-same, mark_all-SameReads}

-- What handleTransactionVOTs marks for a page: its votes and then the page, if it holds votes.
abbrev pub page_marks : ℕ → Page → List LogAddr
page_marks entries p = if p.is_vots then voted entries 0 p.votes ++ (p.address ∷ []) else []

abbrev pub all_marks : ℕ → List Page → List LogAddr
all_marks entries [] = []
all_marks entries (p ∷ ps) = page_marks entries p ++ all_marks entries ps

module _ {M : Type 0} (pages : Pages M) (buffers : ℕ) where
  handle_vots_page :
      (entries : ℕ) (a : LogAddr) (r : Bool)
      (next : LogAddr → Block → World M → Option (ℕ × World M)) (w : World M) (p : Page)
      (rest : List LogAddr) (buffer : Block)
      → p.address ≡ a
      → p.is_vots ≡ true
      → ((v : World M)
          → SameReads pages buffers w.media v.media
          → next p.prev p.votes v ≡ mark_all pages buffers rest r v)
      → Stable pages buffers
      → handle_page pages buffers entries a r next w
          (record { res = 0; buffer = p.votes; prev = p.prev; is_vots = true })
        ≡ mark_all pages buffers ((voted entries 0 p.votes ++ (p.address ∷ [])) ++ rest) r w
  unfolding handle_page
  handle_vots_page entries a r next w p rest buffer at vots go stable =
      let vs : List LogAddr = voted entries 0 p.votes in
      let one : List LogAddr = p.address ∷ [] in
      let then_next : World M → Option (ℕ × World M) = next p.prev p.votes in
      let step : World M → Option (ℕ × World M) = λ v.
        tr_mark_as_obsolete pages buffers v p.address r
        >>= verified pages buffers (next p.prev p.votes) in
      ap
        (λ b.
          perform_vots pages buffers entries 0 p.votes r w
          >>= verified pages buffers (λ v.
            tr_mark_as_obsolete pages buffers v b r
            >>= verified pages buffers (next p.prev p.votes)))
        (sym at)
      ∙ ap (λ o. o >>= verified pages buffers step)
          (perform_vots_lem pages buffers entries 0 p.votes r w)
      ∙ bind_cong pages buffers (mark_all pages buffers vs r w) step
          (λ v. mark_all pages buffers one r v >>= verified pages buffers then_next)
          (λ res v e. sym (mark_one pages buffers p.address r v then_next))
      ∙ sym (
          bind_verified pages buffers (mark_all pages buffers vs r w) (mark_all pages buffers one r)
            then_next)
      ∙ ap (λ o. o >>= verified pages buffers then_next)
          (sym (mark_all-append pages buffers vs one r w))
      ∙ bind_cong pages buffers (mark_all pages buffers (vs ++ one) r w) then_next
          (mark_all pages buffers rest r)
          (λ res v e. go v (mark_all-SameReads pages buffers (vs ++ one) r w v res stable e))
      ∙ sym (mark_all-append pages buffers (vs ++ one) rest r w)

  plain_page :
      (entries : ℕ) (a : LogAddr) (r : Bool) (p : Page) (buffer : Block) (w : World M)
      (next : LogAddr → Block → World M → Option (ℕ × World M))
      → handle_page pages buffers entries a r next w
          (record { res = 0; buffer = buffer; prev = p.prev; is_vots = false })
        ≡ next p.prev buffer w
  unfolding handle_page
  plain_page entries a r p buffer w next = refl

  -- Where marking a page does not change what is read and the pages of a transaction can be read back
  -- from an address to the first one, handleTransactionVOTs ends within one round more than there are
  -- pages, and marks exactly the votes of each page that holds votes and then the page itself, from the
  -- last page back, up to the first failure.
  pub handle_transaction_vots_lem :
      (ps : List Page) (k entries : ℕ) (r : Bool) (a : LogAddr) (buffer : Block) (w : World M)
      → Stable pages buffers
      → IsChain pages buffers false w.media a ps
      → length ps < k
      → handle_transaction_vots pages buffers k entries r a buffer w
        ≡ mark_all pages buffers (all_marks entries ps) r w
  unfolding handle_transaction_vots
  handle_transaction_vots_lem ps zero entries r a buffer w stable chain l = absurd (omega arith)
  handle_transaction_vots_lem [] (suc k) entries r a buffer w stable chain l = rw chain refl
  handle_transaction_vots_lem (p ∷ ps) (suc k) entries r a buffer w stable (full, at, reads, chain)
        l =
      let next = handle_transaction_vots pages buffers k entries r in
      let go = λ (b : Block) (v : World M) (same : SameReads pages buffers w.media v.media).
        handle_transaction_vots_lem ps k entries r p.prev b v stable
          (IsChain-same pages buffers false w.media v.media p.prev ps same chain) (omega arith) in
      elim (Bool-cases p.is_vots) [
        | inl t ↦
            rw (full, reads buffer, t)
              (handle_vots_page entries a r next w p (all_marks entries ps) buffer at t (go p.votes)
                stable)
        | inr t ↦
            rw (full, reads buffer, t)
              (plain_page entries a r p buffer w next ∙ go buffer w (λ al b c. refl))
      ]
