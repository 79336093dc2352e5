-- ===== src/Transactions/Vot/Ends.antt =====
-- writeVot over allocAndWriteBlockTid.
use nandfs.Base.{
  ℕ, ◌+◌, ◌<◌, ◌≡◌, ◌≢◌, ◌⊎◌, ◌^◌, inl, inr, refl, sym, true, not, ◌&&◌, ◌==◌, List, subst, Option,
  some, arith, Bool-cases, ==_iff,
}
use nandfs.Addr.{LogAddr, IsBytes, empty_address, is_addr_empty, copy_logical_address}
use nandfs.Addr.Fields.{copy_logical_address_lem}
use nandfs.Cache.State.{
  Block, CacheLruQ, cache_id_empty, entry_offset_empty, is_cached_addr, get_cid_from_addr,
}
use nandfs.Cache.Lru.{fs_error_success}
use nandfs.Cache.Lru.Queue.{IsQueue}
use nandfs.Cache.Find.{cache_get_cid_by_real_addr}
use nandfs.Cache.Find.Laws.{get_cid_by_real_addr_lem}
use nandfs.Cache.Flush.{actual_write}
use nandfs.World.{World, Geometry, Sequencing, Transaction, put_transaction}
use nandfs.Transactions.Write.{
  vots_block, perform_alloc, has_content, is_cacheable, is_sparse_file, place_block, mark_hole,
  write_if_room, alloc_and_write_block_tid,
}
use nandfs.Transactions.Vot.{
  Target, nothing, target, buffer_target, real_target, find_target, has_vot, add_vot, vote_target,
  write_vot,
}
use nandfs.Transactions.Vot.Room.{IsVotes}
use nandfs.Transactions.Vot.Outcome.{write_vot-room, write_vot-full}

-- The address to vote for, if there is one, has bytes.
abbrev HasBytes : Target → Type 0
HasBytes nothing = Unit
HasBytes (target cid x) = IsBytes x

empty-IsBytes : IsBytes empty_address
empty-IsBytes = record {
  in0 = omega arith;
  in1 = omega arith;
  in2 = omega arith;
  in3 = omega arith;
}

copied-IsBytes : (a : LogAddr) → IsBytes a → IsBytes (copy_logical_address empty_address a)
copied-IsBytes a v =
    subst IsBytes (sym (copy_logical_address_lem empty_address a empty-IsBytes v)) v

module _ (q : CacheLruQ) (bytes : (cid : ℕ) → IsBytes (q.caches cid).log_addr) where
  buffer_target-HasBytes : (cid : ℕ) → HasBytes (buffer_target q cid)
  unfolding buffer_target
  buffer_target-HasBytes cid = elim (Bool-cases (is_addr_empty (q.caches cid).log_addr)) [
    | inl e ↦ rw e tt
    | inr e ↦ rw e (copied-IsBytes _ (bytes cid))
  ]

  real_target-HasBytes : (a : LogAddr) → IsBytes a → (cid : ℕ) → HasBytes (real_target q a cid)
  unfolding real_target
  real_target-HasBytes a v cid =
      elim (Bool-cases (not (cid == cache_id_empty) && ((q.caches cid).is_voted == 0))) [
        | inl e ↦ rw e (buffer_target-HasBytes cid)
        | inr e ↦ rw e (copied-IsBytes a v)
      ]

  find_target_ends :
      (buffers : ℕ) (xs : List ℕ) (a : LogAddr)
      → IsQueue buffers q xs
      → IsBytes a
      → (r : Target) × (find_target buffers q a ≡ some r) × HasBytes r
  unfolding find_target
  find_target_ends buffers xs a v ab = elim (Bool-cases (is_addr_empty a)) [
    | inl e ↦ (nothing, rw e refl, tt)
    | inr e ↦ elim (Bool-cases (is_cached_addr a)) [
      | inl f ↦ elim (Bool-cases ((q.caches (get_cid_from_addr a)).is_voted == 0)) [
        | inl h ↦
            (buffer_target q (get_cid_from_addr a), rw (e, f, h) refl, buffer_target-HasBytes _)
        | inr h ↦ (nothing, rw (e, f, h) refl, tt)
      ]
      | inr f ↦
          let (cid, at) : (c : ℕ) × (cache_get_cid_by_real_addr buffers q a ≡ some c) =
            (_, get_cid_by_real_addr_lem v a) in
          (real_target q a cid, rw (e, f, at) refl, real_target-HasBytes a ab cid)
    ]
  ]

module _ {M : Type 0} (s : Sequencing M) (g : Geometry)
    (handle_min_pages : ℕ → World M → Option (ℕ × World M)) (tid : ℕ)
    (ends : (u : World M) → (r : ℕ × World M) × (handle_min_pages tid u ≡ some r)) where
  place_vots :
      (w : World M) (a : LogAddr) (buf : Block) (e : ℕ)
      → place_block s g handle_min_pages w a buf vots_block e tid
        ≡ some (actual_write s g w buf true tid)
  unfolding place_block perform_alloc has_content is_cacheable
  place_vots w a buf e = elim (Bool-cases (is_sparse_file (w.transactions tid))) [
    | inr e1 ↦ rw e1 refl
    | inl e1 ↦ elim (Bool-cases ((w.transactions tid).ino_num == 0)) [
      | inl f ↦ rw (e1, f) refl
      | inr f ↦ rw (e1, f) refl
    ]
  ]

  write_vots_ends :
      (w : World M) (a : LogAddr) (buf : Block) (e : ℕ)
      → (r : ℕ × LogAddr × World M) × (alloc_and_write_block_tid s g handle_min_pages w a buf
            vots_block e tid
          ≡ some r)
  unfolding alloc_and_write_block_tid write_if_room
  write_vots_ends w a buf e =
      let ((code, u), at) = ends w in
      elim (Bool-cases (code == fs_error_success)) [
        | inl f ↦ (
          mark_hole s g handle_min_pages vots_block buf (actual_write s g u buf true tid),
          rw (at, f, place_vots u a buf e) refl,
        )
        | inr f ↦ ((code, a, u), rw (at, f) refl)
      ]

  -- The vote returns, and where it succeeds the votes are as they should be.
  abbrev pub IsVoted : World M → LogAddr → Type 0
  IsVoted w a =
      (r : ℕ × World M) × (write_vot g (alloc_and_write_block_tid s g handle_min_pages) w a tid
        ≡ some r)
      × (((r.0 ≡ fs_error_success) × IsVotes g.entries (r.1.transactions tid))
          ⊎ (r.0 ≢ fs_error_success))

  store_ends :
      (w : World M) (a : LogAddr) (cid : ℕ) (x : LogAddr)
      → g.entries < 2 ^ 32
      → IsVotes g.entries (w.transactions tid)
      → find_target g.buffers w.lru a ≡ some (target cid x)
      → IsBytes x
      → IsVoted w a
  unfolding write_vot vote_target
  store_ends w a cid x l v found bytes =
      let t : Transaction = w.transactions tid in
      let room = v.room in
      elim (Bool-cases (has_vot t x)) [
        | inl e ↦ ((fs_error_success, w), rw (found, e) refl, inl (refl, v))
        | inr e ↦ elim (Bool-cases (t.vots_buf_offset + 1 == g.entries)) [
          | inr f ↦
              let (w1, ran, kept, listed, others, media) =
                write_vot-room g (alloc_and_write_block_tid s g handle_min_pages) w a tid cid x l v
                  (ground arith) found bytes in
              ((fs_error_success, w1), ran, inl (refl, kept))
          | inl f ↦
              let ((res, y, u), written) =
                write_vots_ends (put_transaction w tid (add_vot t x)) empty_address
                  (add_vot t x).vots_buf entry_offset_empty in
              let (w3, ran, listed, out) =
                write_vot-full g (alloc_and_write_block_tid s g handle_min_pages) w a tid cid x res
                  y u l v ((==_iff (t.vots_buf_offset + 1) g.entries).0 f) found e bytes written in
              (
                (res, w3),
                ran,
                elim out [ inl (ok, kept, none_left) ↦ inl (ok, kept) | inr (bad, same) ↦ inr bad ],
              )
        ]
      ]

  -- Where the links of the cache spell a queue and making room for a write ends, writeVot, with
  -- allocAndWriteBlockTid for the block of votes, ends for every address and with any room left. If it
  -- succeeds, the votes below the offset still are for different pages and the offset is inside the block.
  -- Blocks have less than 2 ^ 32 entries, and the address and those of the buffers are made of bytes.
  pub write_vot_ends :
      (w : World M) (a : LogAddr) (xs : List ℕ)
      → IsQueue g.buffers w.lru xs
      → ((cid : ℕ) → IsBytes (w.lru.caches cid).log_addr)
      → IsBytes a
      → g.entries < 2 ^ 32
      → IsVotes g.entries (w.transactions tid)
      → IsVoted w a
  unfolding write_vot vote_target
  write_vot_ends w a xs queue bytes ab l v =
      let (goal, found, has_bytes) = find_target_ends w.lru bytes g.buffers xs a queue ab in
      go goal found has_bytes
    where
      go : (r : Target) → find_target g.buffers w.lru a ≡ some r → HasBytes r → IsVoted w a
      go nothing found h = ((fs_error_success, w), rw found refl, inl (refl, v))
      go (target cid x) found h = store_ends w a cid x l v found h
