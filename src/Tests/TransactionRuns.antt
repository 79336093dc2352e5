-- ===== src/Tests/TransactionRuns.antt =====
-- Transactions of two pages, the last of which holds votes, and room for a write.
use nandfs.Base.{
  ℕ, ◌+◌, ◌≡◌, refl, Bool, true, false, ◌==◌, if◌then◌else◌, Option, Option-cases, none, some, List,
  [], ◌∷◌, ◌++◌, update, update_self, arith, inl, inr,
}
use nandfs.Addr.{
  LogAddr, from_uint32, empty_address, is_addr_empty, is_address_empty, get_logical_segment,
  get_logical_offset,
}
use nandfs.Cache.State.{Block, entry_offset_empty, cache_init_lru_q, init_loop, cache_init_by_cid}
use nandfs.Cache.Free.{
  cache_init_tid_related, cache_free_by_real_addr, init_tid_loop, recycle, dec_if_dirty,
}
use nandfs.Cache.Access.{Access, DataType, cache_access_cache}
use nandfs.Cache.Access.Files.{access_cache-SameFiles}
use nandfs.Cache.Lru.{fs_error_critical}
use nandfs.Cache.Find.{cache_get_cid_by_real_addr, find_real}
use nandfs.World.{World, Transaction}
use nandfs.Files.Tables.{ino_num_empty}
use nandfs.Transactions.{get_tid_by_file_id}
use nandfs.Transactions.Distinct.{KeepsFiles, OneEach, IsTid, get_tid_by_file_id_lem}
use nandfs.Transactions.Votes.{
  Pages, read_block, check_physical, read_vots_and_prev, handle_transaction_vots,
  tr_mark_as_obsolete, verified, delete_transaction_pages, free_marked,
}
use nandfs.Transactions.Votes.Chain.{Page, mark_all}
use nandfs.Transactions.Votes.Reads.{Stable, IsChain}
use nandfs.Transactions.Votes.Walks.{all_marks, handle_transaction_vots_lem}
use nandfs.Transactions.Votes.Deletion.{addresses, outcome, delete_transaction_pages_lem}
use nandfs.Transactions.Votes.FirstPage.{located, IsLead, delete_transaction_pages_stops}
use nandfs.Sequencing.Reserve.{Chip, calc_address}
use nandfs.Sequencing.SegMap.{is_state_reclamation}
use nandfs.Sequencing.Translate.{logical_address_to_physical, expected_page, is_reclaimed}
use nandfs.Tests.FlashRuns.{map_of}
use nandfs.Transactions.MinPages.{Checkpoints, make_room}
use nandfs.Transactions.MinPages.Room.{Empties, IsRoom, make_room_ends}
use nandfs.Transactions.Offsets.{calc_indirect_block_offset, is_offset_in_indirect}
use nandfs.Transactions.Offsets.Laws.{is_offset_in_indirect_lem}
use nandfs.Tests.CacheRuns.{flash, geometry, transaction, start, block}

-- Transaction 0 is on file 7, transaction 1 is empty.
abbrev table : ℕ → Transaction
table tid = if tid == 0 then transaction else record transaction { ino_num = ino_num_empty }

table-OneEach : OneEach table
table-OneEach = record { same = λ i j li lj full e. ground arith }

-- A read of an inode through the cache, which may write a buffer on its way.
abbrev after_read : World ℕ → LogAddr → Option (Access × World ℕ) → ℕ × LogAddr × World ℕ
after_read w old none = (fs_error_critical, old, w)
after_read w old (some (a, w1)) = (a.res, a.addr, w1)

abbrev inode_found : LogAddr → ℕ → World ℕ → ℕ × LogAddr × World ℕ
inode_found old ino_num w = after_read w old (
    cache_access_cache flash geometry w block (from_uint32 ino_num) entry_offset_empty 0
      DataType.inode false)

inode_found-KeepsFiles : KeepsFiles inode_found
inode_found-KeepsFiles a n w j =
    elim (Option-cases (
      cache_access_cache flash geometry w block (from_uint32 n) entry_offset_empty 0 DataType.inode
        false)) [
          | inl e ↦ rw e refl
          | inr ((r, w1), e) ↦ rw e (
              access_cache-SameFiles flash geometry w block (from_uint32 n) entry_offset_empty 0
                DataType.inode false r w1 e j)
        ]

abbrev files : World ℕ
files = record { lru = start; transactions = table; media = 0 }

get_tid_by_file_id_lem_example :
    OneEach ((get_tid_by_file_id inode_found files 9).1).transactions
    × IsTid files 9 (get_tid_by_file_id inode_found files 9)
get_tid_by_file_id_lem_example =
    get_tid_by_file_id_lem inode_found files 9 inode_found-KeepsFiles table-OneEach

-- Page 20 holds the votes for 30 and 31; before it page 10 was written. The media count the marks; the
-- empty address has no page.
abbrev last_page : LogAddr
last_page = from_uint32 20

abbrev first_page : LogAddr
first_page = from_uint32 10

abbrev votes : Block
votes i = if i == 0 then from_uint32 30 else if i == 1 then from_uint32 31 else empty_address

abbrev pages : Pages ℕ
pages = record {
  translate = λ m a. if is_addr_empty a then none else some a.byte0;
  read_page_flags = λ m p. if p == 20 then (first_page, true) else (empty_address, false);
  read_page_total = λ m p. (0, votes);
  mark_as_obsolete = λ m a r. some (0, m + 1);
}

abbrev state : World ℕ
state = record { lru = start; transactions = table; media = 0 }

abbrev two_pages : List Page
two_pages =
    record { address = last_page; prev = first_page; is_vots = true; votes = votes }
    ∷ record { address = first_page; prev = empty_address; is_vots = false; votes = block }
    ∷ []

pages-Stable : Stable pages 3
unfolding read_vots_and_prev read_block
pages-Stable m a r res m1 e aliased b buffer = refl

two_pages-IsChain : (aliased : Bool) → IsChain pages 3 aliased 0 last_page two_pages
unfolding read_vots_and_prev read_block check_physical is_addr_empty
two_pages-IsChain true = (refl, refl, λ b. refl, (refl, refl, λ b. refl, refl))
two_pages-IsChain false = (refl, refl, λ b. refl, (refl, refl, λ b. refl, refl))

handle_transaction_vots_lem_example :
    handle_transaction_vots pages 3 3 128 false last_page block state
    ≡ mark_all pages 3 (all_marks 128 two_pages) false state
handle_transaction_vots_lem_example =
    handle_transaction_vots_lem pages 3 two_pages 3 128 false last_page block state pages-Stable
      (two_pages-IsChain false) (omega arith)

-- Three marks: the two votes and the page that holds them.
votes_marked : all_marks 128 two_pages ≡ from_uint32 30 ∷ from_uint32 31 ∷ last_page ∷ []
unfolding is_addr_empty
votes_marked = refl

delete_transaction_pages_lem_example :
    outcome pages 3 (delete_transaction_pages pages 3 3 last_page 0 false block state)
    ≡ mark_all pages 3
        (addresses two_pages)
        false
        (record state { lru = cache_init_tid_related 3 start 0 })
delete_transaction_pages_lem_example =
    delete_transaction_pages_lem pages 3 two_pages 3 last_page 0 false block state pages-Stable
      (two_pages-IsChain true) (omega arith)

-- The same two pages, both with votes, found by logicalAddressToPhysical.
abbrev vote_pages : Pages ℕ
vote_pages = record pages {
  read_page_flags = λ m p. if p == 20 then (first_page, true) else (empty_address, true);
}

abbrev good_chip : ℕ → Chip
good_chip m = record {
  check_eu_status = λ u. true;
  slot_eu_offset = λ a. 0;
  copy_back_flag = λ a. 1;
}

abbrev both_votes : Pages ℕ
both_votes = located vote_pages good_chip (λ m. map_of 4 3)

abbrev last_one : List Page
last_one = record { address = last_page; prev = first_page; is_vots = true; votes = votes } ∷ []

both_votes-Stable : Stable both_votes 3
unfolding read_vots_and_prev read_block
both_votes-Stable m a r res m1 e aliased b buffer = refl

last_one-IsLead : IsLead both_votes 3 0 last_page last_one first_page
unfolding read_vots_and_prev read_block check_physical logical_address_to_physical expected_page
    is_reclaimed get_logical_segment get_logical_offset calc_address is_addr_empty
    is_state_reclamation
last_one-IsLead = (refl, refl, (λ b. refl), refl)

abbrev after_marks : World ℕ
after_marks = record state { lru = cache_init_tid_related 3 start 0; media = 2 }

both_marked :
    mark_all both_votes 3
      (addresses last_one ++ (first_page ∷ []))
      false
      (record state { lru = cache_init_tid_related 3 start 0 })
    ≡ some (0, after_marks)
unfolding is_addr_empty tr_mark_as_obsolete free_marked cache_free_by_real_addr verified
    cache_get_cid_by_real_addr find_real cache_init_tid_related init_tid_loop cache_init_lru_q
    init_loop cache_init_by_cid recycle dec_if_dirty is_address_empty update
both_marked = refl

first_page_found : logical_address_to_physical (good_chip 0) (map_of 4 3) first_page ≡ some 10
unfolding logical_address_to_physical expected_page is_reclaimed get_logical_segment
    get_logical_offset calc_address is_state_reclamation
first_page_found = refl

delete_transaction_pages_stops_example :
    delete_transaction_pages both_votes 3 5 last_page 0 false block state ≡ none
unfolding is_addr_empty
delete_transaction_pages_stops_example =
    delete_transaction_pages_stops vote_pages good_chip (λ m. map_of 4 3) 3 last_one 5 last_page
      first_page empty_address 10 0 false block state after_marks both_votes-Stable last_one-IsLead
      refl first_page_found refl refl
      (record { in0 = omega arith; in1 = omega arith; in2 = omega arith; in3 = omega arith }) refl
      both_marked

-- An abort that empties the transaction, on media that always have too few free pages.
abbrev scarce : Checkpoints ℕ
scarce = record {
  obs_counters = λ m. record { counters = λ i. 0; counter = 0; free_counter = 0 };
  fs_checkpoint_writer = λ w. (0, w);
  find_next_free_page = λ w. (0, w);
}

abbrev empty_it : ℕ → World ℕ → Option (ℕ × World ℕ)
empty_it i w = some (
  0,
  record w {
    transactions = update w.transactions i (record transaction { ino_num = ino_num_empty });
  },
)

empty_it-Empties : Empties pages scarce 3 (λ w. Unit) empty_it
unfolding update
empty_it-Empties i w p = (
  0,
  record w {
    transactions = update w.transactions i (record transaction { ino_num = ino_num_empty });
  },
  refl,
  λ ok. (same_file i w, λ j h. rw h refl, tt),
)
  where
    same_file :
        (i : ℕ) (w : World ℕ)
        → (update w.transactions i (record transaction { ino_num = ino_num_empty }) i).ino_num
          ≡ ino_num_empty
    same_file i w =
        rw (update_self w.transactions i (record transaction { ino_num = ino_num_empty })) refl

make_room_ends_example :
    (r : ℕ × World ℕ) × (make_room pages scarce 3 3 empty_it 1 state ≡ some r)
    × IsRoom pages scarce 3 (λ w. Unit) empty_it state 1 r
make_room_ends_example =
    make_room_ends pages scarce 3 (λ w. Unit) empty_it 1 state empty_it-Empties tt

-- The indirect block behind 5600 bytes of direct data.
in_indirect : Transaction
in_indirect = record transaction { file_offset = calc_indirect_block_offset 5600 80000 }

is_offset_in_indirect_lem_example :
    is_offset_in_indirect 5600 90000 in_indirect
    ≡ (calc_indirect_block_offset 5600 90000 == calc_indirect_block_offset 5600 80000)
unfolding in_indirect
is_offset_in_indirect_lem_example =
    is_offset_in_indirect_lem 5600 90000 80000 in_indirect (omega arith) (omega arith) (omega arith)
      refl
