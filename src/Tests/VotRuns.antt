-- ===== src/Tests/VotRuns.antt =====
-- Votes of a transaction whose block of votes has three entries, one of them taken.
use nandfs.Base.{
  ℕ, ◌≡◌, ◌≢◌, ◌⊎◌, inl, inr, Bool-cases, [], refl, false, ◌&&◌, ◌||◌, ◌+◌, ◌==◌, if◌then◌else◌,
  Option, some, arith, update,
}
use nandfs.Addr.{
  LogAddr, IsBytes, from_uint32, empty_address, compare_addr, copy_logical_address, is_addr_empty,
  get_logical_segment, is_address_empty, set_logical_spare, set_logical_segment, get_logical_spare,
  set_logical_offset, get_logical_offset,
}
use nandfs.Cache.State.{
  Block, cache_id_empty, is_cached_addr, cache_init_lru_q, init_loop, cache_init_by_cid,
}
use nandfs.Cache.Lru.{fs_error_success}
use nandfs.Cache.Find.{cache_get_cid_by_real_addr, find_real}
use nandfs.World.{World, Geometry, put_transaction}
use nandfs.Transactions.Write.{BlockType, any_entry}
use nandfs.Transactions.Vot.{target, find_target, real_target, has_vot, add_vot, write_vot}
use nandfs.Transactions.Vot.Room.{IsVotes}
use nandfs.Transactions.Vot.Outcome.{write_vot-room, write_vot-full}
use nandfs.Transactions.Vot.Ends.{IsVoted, write_vot_ends}
use nandfs.Cache.Invariant.Recycle.{init-IsCache}
use nandfs.Tests.CacheRuns.{transaction, start, memory, flash}

abbrev three : Geometry
three = record { buffers = 3; entries = 3 }

-- Votes for the page 30, and for 31 where there are two.
abbrev votes : ℕ → Block
votes n i =
    if i == 0
    then from_uint32 30
    else if (i == 1) && (n == 2)
    then from_uint32 31
    else empty_address

abbrev holding : ℕ → World ℕ
holding n = record {
  lru = start;
  transactions = λ tid. record transaction { vots_buf = votes n; vots_buf_offset = n };
  media = 100;
}

abbrev write_page : World ℕ → LogAddr → Block → BlockType → ℕ → ℕ → Option (ℕ × LogAddr × World ℕ)
write_page w a buf type entry_offset tid =
    some (0, from_uint32 w.media, record w { media = w.media + 1 })

abbrev page : LogAddr
page = from_uint32 40

page-IsBytes : IsBytes page
page-IsBytes = record { in0 = omega arith; in1 = omega arith; in2 = omega arith; in3 = omega arith }

votes-IsBytes : (n i : ℕ) → IsBytes (votes n i)
votes-IsBytes n i = elim (Bool-cases (i == 0)) [
  | inl e ↦
      rw e (record { in0 = omega arith; in1 = omega arith; in2 = omega arith; in3 = omega arith })
  | inr e ↦ elim (Bool-cases ((i == 1) && (n == 2))) [
    | inl f ↦
        rw (e, f)
          (record { in0 = omega arith; in1 = omega arith; in2 = omega arith; in3 = omega arith })
    | inr f ↦
        rw (e, f)
          (record { in0 = omega arith; in1 = omega arith; in2 = omega arith; in3 = omega arith })
  ]
]

one-IsVotes : IsVotes 3 ((holding 1).transactions 0)
one-IsVotes = record {
  room = omega arith;
  distinct = λ i j a b. absurd (omega arith);
  bytes = votes-IsBytes 1;
}

two-IsVotes : IsVotes 3 ((holding 2).transactions 0)
unfolding compare_addr
two-IsVotes = record {
  room = omega arith;
  distinct = λ i j a b. ground arith;
  bytes = votes-IsBytes 2;
}

page_target : (n : ℕ) → find_target 3 (holding n).lru page ≡ some (target cache_id_empty page)
unfolding find_target real_target cache_get_cid_by_real_addr find_real copy_logical_address
    is_addr_empty is_cached_addr get_logical_segment is_address_empty cache_init_lru_q
    set_logical_spare set_logical_segment get_logical_spare set_logical_offset get_logical_offset
page_target n = refl

new_page : has_vot ((holding 2).transactions 0) page ≡ false
unfolding has_vot any_entry compare_addr
new_page = refl

write_vot-room_example :
    (w1 : World ℕ) × (write_vot three write_page (holding 1) page 0 ≡ some (fs_error_success, w1))
    × IsVotes 3 (w1.transactions 0)
    × ((b : LogAddr)
        → has_vot (w1.transactions 0) b
          ≡ (has_vot ((holding 1).transactions 0) b || compare_addr page b))
    × ((j : ℕ) → (j == 0) ≡ false → w1.transactions j ≡ (holding 1).transactions j)
    × (w1.media ≡ 100)
write_vot-room_example =
    write_vot-room three write_page (holding 1) page 0 cache_id_empty page (omega arith) one-IsVotes
      (omega arith) (page_target 1) page-IsBytes

abbrev written : World ℕ
written = record (put_transaction (holding 2) 0 (add_vot ((holding 2).transactions 0) page)) {
  media = 101;
}

write_vot-full_example :
    (w3 : World ℕ) × (write_vot three write_page (holding 2) page 0 ≡ some (0, w3))
    × ((b : LogAddr)
        → has_vot (add_vot ((holding 2).transactions 0) page) b
          ≡ (has_vot ((holding 2).transactions 0) b || compare_addr page b))
    × (((0 ≡ fs_error_success)
          × IsVotes 3 (w3.transactions 0)
          × ((b : LogAddr) → has_vot (w3.transactions 0) b ≡ false))
        ⊎ ((0 ≢ fs_error_success) × (w3 ≡ written)))
write_vot-full_example =
    write_vot-full three write_page (holding 2) page 0 cache_id_empty page 0 (from_uint32 100)
      written (omega arith) two-IsVotes refl (page_target 2) new_page page-IsBytes refl

empty-IsBytes : IsBytes empty_address
empty-IsBytes = record {
  in0 = omega arith;
  in1 = omega arith;
  in2 = omega arith;
  in3 = omega arith;
}

start-IsBytes : (cid : ℕ) → IsBytes (start.caches cid).log_addr
unfolding cache_init_lru_q init_loop cache_init_by_cid update
start-IsBytes cid = elim (Bool-cases (cid == 2)) [
  | inl e ↦ rw e empty-IsBytes
  | inr e ↦ elim (Bool-cases (cid == 1)) [
    | inl f ↦ rw (e, f) empty-IsBytes
    | inr f ↦ elim (Bool-cases (cid == 0)) [
      | inl h ↦ rw (e, f, h) empty-IsBytes
      | inr h ↦ rw (e, f, h) empty-IsBytes
    ]
  ]
]

abbrev has_room : ℕ → World ℕ → Option (ℕ × World ℕ)
has_room tid w = some (0, w)

write_vot_ends_example : IsVoted flash three has_room 0 (λ u. ((0, u), refl)) (holding 2) page
write_vot_ends_example =
    write_vot_ends flash three has_room 0 (λ u. ((0, u), refl)) (holding 2) page []
      (init-IsCache 3 memory (omega arith)).0.queue start-IsBytes page-IsBytes (omega arith)
      two-IsVotes
