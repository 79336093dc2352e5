-- ===== src/Transactions/Vot/Outcome.antt =====
-- What a vote leaves of the votes buffer: with room left, and as the block fills up.
use nandfs.Base.{
  ℕ, ◌+◌, ◌<◌, ◌≡◌, ◌≢◌, ◌^◌, inl, inr, refl, sym, ap, ◌∙◌, true, false, ◌||◌, ◌⊎◌, ◌==◌, subst,
  not, ◌&&◌, Option, some, update_self, update_ne, arith, Bool-cases, ==_iff,
}
use nandfs.Addr.{LogAddr, IsBytes, compare_addr, empty_address, is_addr_empty}
use nandfs.Cache.State.{Block, cache_id_empty, entry_offset_empty}
use nandfs.Cache.Lru.{fs_error_success}
use nandfs.World.{World, Geometry, Transaction, put_transaction, cache_of}
use nandfs.Transactions.Write.{BlockType, vots_block, any_entry}
use nandfs.Transactions.Vot.{
  target, find_target, has_vot, add_vot, reset_vots, mark_voted, after_vots, store_vot, vote_target,
  write_vot,
}
use nandfs.Transactions.Vot.Room.{IsVotes, listed, add_vot_lem, add_vot-IsVotes}

offset_lem :
    (t : Transaction) (a : LogAddr) (entries : ℕ)
    → entries < 2 ^ 32
    → t.vots_buf_offset + 1 < entries
    → ((add_vot t a).vots_buf_offset == entries) ≡ false
unfolding add_vot
offset_lem t a entries l r = ground arith

full_lem :
    (t : Transaction) (a : LogAddr) (entries : ℕ)
    → entries < 2 ^ 32
    → t.vots_buf_offset + 1 ≡ entries
    → ((add_vot t a).vots_buf_offset == entries) ≡ true
unfolding add_vot
full_lem t a entries l r = ground arith

reset_vots-IsVotes : (entries : ℕ) (t : Transaction) → 0 < entries → IsVotes entries (reset_vots t)
unfolding reset_vots
reset_vots-IsVotes entries t pos = record {
  room = pos;
  distinct = λ i j a b. absurd (omega arith);
  bytes =
      λ i. record { in0 = omega arith; in1 = omega arith; in2 = omega arith; in3 = omega arith };
}

reset_vots_lem : (t : Transaction) (b : LogAddr) → has_vot (reset_vots t) b ≡ false
unfolding has_vot reset_vots any_entry
reset_vots_lem t b = refl

module _ {M : Type 0} where
  -- Marking a buffer as voted leaves the transactions and the medium.
  mark_voted_lem :
      (w : World M) (cid : ℕ)
      → ((mark_voted w cid).transactions ≡ w.transactions) × ((mark_voted w cid).media ≡ w.media)
  unfolding mark_voted
  mark_voted_lem w cid =
      elim (Bool-cases
        (not (cid == cache_id_empty) && not (is_addr_empty (cache_of w cid).log_addr))) [
          | inl e ↦ rw e (refl, refl)
          | inr e ↦ rw e (refl, refl)
        ]

  module _ (g : Geometry)
      (alloc_and_write : World M
        → LogAddr
        → Block
        → BlockType
        → ℕ
        → ℕ
        → Option (ℕ × LogAddr × World M)) where
    -- Where the votes below the offset are for different pages and at least two more fit into the block,
    -- a vote for a page succeeds: the votes still are for different pages and inside the block, the pages
    -- voted for are those before and the new one, and other transactions and the medium are unchanged.
    pub write_vot-room :
        (w : World M) (a : LogAddr) (tid cid : ℕ) (x : LogAddr)
        → g.entries < 2 ^ 32
        → IsVotes g.entries (w.transactions tid)
        → (w.transactions tid).vots_buf_offset + 1 < g.entries
        → find_target g.buffers w.lru a ≡ some (target cid x)
        → IsBytes x
        → (w1 : World M) × (write_vot g alloc_and_write w a tid ≡ some (fs_error_success, w1))
          × IsVotes g.entries (w1.transactions tid)
          × ((b : LogAddr)
              → has_vot (w1.transactions tid) b
                ≡ (has_vot (w.transactions tid) b || compare_addr x b))
          × ((j : ℕ) → (j == tid) ≡ false → w1.transactions j ≡ w.transactions j)
          × (w1.media ≡ w.media)
    unfolding write_vot vote_target store_vot
    write_vot-room w a tid cid x l v r found bytes =
        let t : Transaction = w.transactions tid in
        elim (Bool-cases (has_vot t x)) [
          | inl e ↦ (w, rw (found, e) refl, v, λ b. listed t x b e, λ j h. refl, refl)
          | inr e ↦
              let w1 : World M = put_transaction w tid (add_vot t x) in
              let at : (mark_voted w1 cid).transactions tid ≡ add_vot t x =
                ap (λ ts. ts tid) (mark_voted_lem w1 cid).0 ∙ update_self w.transactions tid _ in
              (
                mark_voted w1 cid,
                let not_full : ((add_vot t x).vots_buf_offset == g.entries) ≡ false =
                      offset_lem t x g.entries l r in
                    rw (found, e, not_full) refl,
                subst (IsVotes g.entries) (sym at) (add_vot-IsVotes g.entries t x l r v bytes e),
                λ b. ap (λ u. has_vot u b) at ∙ add_vot_lem g.entries t x b l v bytes,
                λ j h.
                    ap (λ ts. ts j) (mark_voted_lem w1 cid).0 ∙ update_ne w.transactions tid _ j h,
                (mark_voted_lem w1 cid).1,
              )
        ]

    -- A vote for a new page that fills the block: the block handed to be written has the votes before and
    -- the new one. If it is written, the vote succeeds and leaves no vote in the buffer, with room for the
    -- next ones; else the vote fails with the result of the write, and the state is what the write left.
    pub write_vot-full :
        (w : World M) (a : LogAddr) (tid cid : ℕ) (x : LogAddr) (res : ℕ) (y : LogAddr)
        (w2 : World M)
        → g.entries < 2 ^ 32
        → IsVotes g.entries (w.transactions tid)
        → (w.transactions tid).vots_buf_offset + 1 ≡ g.entries
        → find_target g.buffers w.lru a ≡ some (target cid x)
        → has_vot (w.transactions tid) x ≡ false
        → IsBytes x
        → alloc_and_write
            (put_transaction w tid (add_vot (w.transactions tid) x))
            empty_address
            (add_vot (w.transactions tid) x).vots_buf
            vots_block
            entry_offset_empty
            tid
          ≡ some (res, y, w2)
        → (w3 : World M) × (write_vot g alloc_and_write w a tid ≡ some (res, w3))
          × ((b : LogAddr)
              → has_vot (add_vot (w.transactions tid) x) b
                ≡ (has_vot (w.transactions tid) b || compare_addr x b))
          × (((res ≡ fs_error_success)
                × IsVotes g.entries (w3.transactions tid)
                × ((b : LogAddr) → has_vot (w3.transactions tid) b ≡ false))
              ⊎ ((res ≢ fs_error_success) × (w3 ≡ w2)))
    unfolding write_vot vote_target store_vot after_vots
    write_vot-full w a tid cid x res y w2 l v r found new bytes written =
        let t : Transaction = add_vot (w.transactions tid) x in
        let full : (t.vots_buf_offset == g.entries) ≡ true =
          full_lem (w.transactions tid) x g.entries l r in
        elim (Bool-cases (res == fs_error_success)) [
          | inr e ↦ (
            w2,
            rw (found, new, full, written, e) refl,
            λ b. add_vot_lem g.entries (w.transactions tid) x b l v bytes,
            inr ((λ ok. ground (arith, e, ok)), refl),
          )
          | inl e ↦
              let w3 : World M = put_transaction w2 tid (reset_vots (w2.transactions tid)) in
              let at : (mark_voted w3 cid).transactions tid ≡ reset_vots (w2.transactions tid) =
                ap (λ ts. ts tid) (mark_voted_lem w3 cid).0 ∙ update_self w2.transactions tid _ in
              let zero_res : res ≡ fs_error_success = (==_iff res fs_error_success).0 e in
              (
                mark_voted w3 cid,
                rw (found, new, full, written, zero_res) refl,
                λ b. add_vot_lem g.entries (w.transactions tid) x b l v bytes,
                inl (
                  zero_res,
                  subst (IsVotes g.entries) (sym at) (reset_vots-IsVotes g.entries _ (omega arith)),
                  λ b. ap (λ u. has_vot u b) at ∙ reset_vots_lem _ b,
                ),
              )
        ]
