-- ===== src/Transactions/Votes/FirstPage.antt =====
-- deleteTransactionPages on a transaction whose first page holds votes.
use nandfs.Base.{
  ℕ, zero, suc, ◌≡◌, refl, ap, ◌∙◌, inl, inr, Bool, true, false, ◌==◌, ==_iff, Bool-cases, none,
  some, Option-cases, List, [], ◌∷◌, ◌++◌, arith,
}
use nandfs.Addr.{LogAddr, IsBytes, is_addr_empty, get_logical_offset, get_logical_segment}
use nandfs.Cache.State.{Block}
use nandfs.Cache.Free.{cache_init_tid_related}
use nandfs.World.{World}
use nandfs.Sequencing.Reserve.{Chip}
use nandfs.Sequencing.SegMap.{SegMap, seq_no_slot}
use nandfs.Sequencing.Translate.{logical_address_to_physical}
use nandfs.Transactions.Votes.{
  Pages, fs_error_io, read_block, check_physical, tr_mark_as_obsolete, verified, read_vots_and_prev,
  delete_step, delete_marked, delete_walk, delete_transaction_pages,
}
use nandfs.Transactions.Votes.Chain.{Page, mark_all}
use nandfs.Transactions.Votes.Reads.{Reads, SameReads, Stable, tr_mark-SameReads}
use nandfs.Transactions.Votes.Deletion.{addresses}

-- The empty address has no page: logicalAddressToPhysical fails an assertion.
empty_untranslated :
    (chip : Chip) (m : SegMap) (a : LogAddr)
    → IsBytes a
    → is_addr_empty a ≡ true
    → logical_address_to_physical chip m a ≡ none
unfolding logical_address_to_physical is_addr_empty get_logical_offset
empty_untranslated chip m a v e =
    let low : a.byte0 ≡ 255 = ground arith in
    let high : a.byte1 ≡ 255 = ground arith in
    elim (Bool-cases (m.seg_to_slot_map (get_logical_segment a) == seq_no_slot)) [
      | inl s ↦ rw s refl
      | inr s ↦ rw (s, low, high) refl
    ]

-- The pages as logicalAddressToPhysical finds them.
abbrev pub located : {M : Type 0} → Pages M → (M → Chip) → (M → SegMap) → Pages M
located pages chip map = record pages {
  translate = λ m a. logical_address_to_physical (chip m) (map m) a;
}

module _ {M : Type 0} (pages : Pages M) (buffers : ℕ) where
  -- The pages from address `a` back to the one at `b`, which is not among them.
  abbrev pub IsLead : M → LogAddr → List Page → LogAddr → Type 0
  IsLead m a [] b = a ≡ b
  IsLead m a (p ∷ ps) b =
      (is_addr_empty a ≡ false)
      × (p.address ≡ a)
      × Reads pages buffers true m a p
      × IsLead m p.prev ps b

  -- The read of `b` fails an assertion.
  abbrev IsStuck : M → LogAddr → Type 0
  IsStuck m b = (buffer : Block) → read_vots_and_prev pages buffers true m b buffer ≡ none

  IsLead-same :
      (m m1 : M) (a b : LogAddr) (ps : List Page)
      → SameReads pages buffers m m1
      → IsLead m a ps b
      → IsLead m1 a ps b
  IsLead-same m m1 a b [] same h = h
  IsLead-same m m1 a b (p ∷ ps) same (full, at, reads, h) =
      (full, at, (λ buffer. same true a buffer ∙ reads buffer), IsLead-same m m1 p.prev b ps same h)

  -- Where a list of addresses is marked with success, its first one is.
  mark_first :
      (a : LogAddr) (rest : List LogAddr) (r : Bool) (w v : World M)
      → mark_all pages buffers (a ∷ rest) r w ≡ some (0, v)
      → (u : World M) × (tr_mark_as_obsolete pages buffers w a r ≡ some (0, u))
        × (mark_all pages buffers rest r u ≡ some (0, v))
  unfolding verified
  mark_first a rest r w v run = elim (Option-cases (tr_mark_as_obsolete pages buffers w a r)) [
    | inl n ↦ absurd (cc (rw n at run))
    | inr ((c, u), s) ↦ elim (Bool-cases (c == 0)) [
      | inr e ↦
          let failed : some (fs_error_io, u) ≡ some (0, v) = rw (s, e) at run in absurd (cc failed)
      | inl e ↦
          let zero_code : c ≡ 0 = (==_iff c 0).0 e in
          (u, s ∙ ap (λ (x : ℕ). some (x, u)) zero_code, rw (s, e) at run)
    ]
  ]

  -- The walk stores the empty address over that of the page at `b` and reads from there.
  delete_walk_stuck :
      (ps : List Page) (k : ℕ) (r : Bool) (a b : LogAddr) (buffer : Block) (w v : World M)
      → Stable pages buffers
      → IsLead w.media a ps b
      → is_addr_empty b ≡ false
      → IsStuck w.media b
      → mark_all pages buffers (addresses ps ++ (b ∷ [])) r w ≡ some (0, v)
      → delete_walk pages buffers k r a buffer w ≡ none
  unfolding delete_walk delete_marked delete_step
  delete_walk_stuck ps zero r a b buffer w v stable lead full stuck run = refl
  delete_walk_stuck [] (suc k) r a b buffer w v stable lead full stuck run =
      let (u, marked, rest) = mark_first b [] r w v run in
      let same = tr_mark-SameReads pages buffers w u b r 0 stable marked in
      rw (lead, full, marked, same true b buffer, stuck buffer) refl
  delete_walk_stuck (p ∷ ps) (suc k) r a b buffer w v stable (here, at, reads, lead) full stuck
        run =
      let (u, marked, rest) = mark_first p.address (addresses ps ++ (b ∷ [])) r w v run in
      let same = tr_mark-SameReads pages buffers w u p.address r 0 stable marked in
      rw (here, ← at, marked, same true p.address buffer, at, reads buffer)
        (delete_walk_stuck ps k r p.prev b _ u v stable
          (IsLead-same w.media u.media p.prev b ps same lead) full (λ x. same true b x ∙ stuck x)
          rest)

-- In a transaction whose first page, with no page before it, holds votes: where marking a page does not
-- change what is read, the pages behind the first one, any number of them, are read back to it, and all
-- of them and the first one are marked with success, deleteTransactionPages does not return, however
-- many rounds it is given.
pub delete_transaction_pages_stops :
    {M : Type 0} (flash : Pages M) (chip : M → Chip) (map : M → SegMap) (buffers : ℕ)
    (ps : List Page) (k : ℕ) (a b prev : LogAddr) (phy_addr tid : ℕ) (r : Bool) (buffer : Block)
    (w v : World M)
    → let pages = located flash chip map in
      Stable pages buffers
      → IsLead pages buffers w.media a ps b
      → is_addr_empty b ≡ false
      → logical_address_to_physical (chip w.media) (map w.media) b ≡ some phy_addr
      → (phy_addr == 0xffffffff) ≡ false
      → flash.read_page_flags w.media phy_addr ≡ (prev, true)
      → IsBytes prev
      → is_addr_empty prev ≡ true
      → mark_all pages buffers
          (addresses ps ++ (b ∷ []))
          r
          (record w { lru = cache_init_tid_related buffers w.lru tid })
        ≡ some (0, v)
      → delete_transaction_pages pages buffers k a tid r buffer w ≡ none
unfolding delete_transaction_pages read_vots_and_prev read_block check_physical
delete_transaction_pages_stops flash chip map buffers ps k a b prev phy_addr tid r buffer w v stable
      lead full at ok flags bytes none_before run =
    let nowhere = empty_untranslated (chip w.media) (map w.media) prev bytes none_before in
    delete_walk_stuck (located flash chip map) buffers ps k r a b buffer
      (record w { lru = cache_init_tid_related buffers w.lru tid }) v stable lead full
      (λ x. rw (at, ok, flags, nowhere) refl) run
