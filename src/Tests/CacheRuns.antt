-- ===== src/Tests/CacheRuns.antt =====
-- A cache of three buffers, two of them in the queue, over a flash that writes at ascending addresses.
use nandfs.Base.{
  ℕ, ◌+◌, ◌<◌, ◌≡◌, refl, true, false, List, [], ◌∷◌, ◌==◌, arith, some, erase, has, ◌⊎◌,
}
use nandfs.Addr.{empty_address, from_uint32}
use nandfs.Cache.State.{
  Block, CacheLruQ, cache_id_empty, initial_block, cache_init_lru_q, get_cid_from_addr,
  is_cache_free,
}
use nandfs.Cache.Lru.{cache_remove_from_lru, cache_insert_to_lru, fs_error_success}
use nandfs.Cache.Lru.SameContent.{SameContent}
use nandfs.Cache.Lru.Queue.{IsQueue}
use nandfs.Cache.Lru.Queue.Remove.{remove-IsQueue}
use nandfs.Cache.Lru.Queue.Insert.{insert-IsQueue}
use nandfs.Cache.Free.{cache_force_free_cache, cache_init_tid_related}
use nandfs.Cache.Free.Laws.{leave, init_tid_related_lem}
use nandfs.Cache.Free.Force.{force_free_cache_lem}
use nandfs.Cache.Flush.{cache_flush_cache, cache_get_free_cache_id}
use nandfs.Cache.Flush.Laws.{Flushed, flush_cache_lem}
use nandfs.Cache.Flush.Evict.{FlushError, SomeCache, get_free_cache_id_lem}
use nandfs.Cache.Access.{DataType, Access, cache_access_cache, touch, mark_dirty, magic_address}
use nandfs.Cache.Access.Keep.{touch-IsCache, mark_dirty-IsCache}
use nandfs.Cache.Access.Laws.{magic_address_lem}
use nandfs.Cache.Access.Outcome.{Outcome, access_cache_lem}
use nandfs.Cache.Invariant.{IsCache}
use nandfs.Cache.Invariant.Recycle.{init-IsCache}
use nandfs.World.{World, Transaction, Geometry, Sequencing}

abbrev pub block : Block
block = λ i. from_uint32 i

abbrev pub transaction : Transaction
transaction = record {
  t_type = 0;
  f_type = 2;
  was_commited = 0;
  is_commiting = 0;
  ino_num = 7;
  prev_log_addr = empty_address;
  data_buf = block;
  vots_count = 0;
  vots_buf_offset = 0;
  vots_buf = block;
  ino_log_addr = empty_address;
  max_written_offset = 0;
  new_blocks_allocated = 0;
  file_size = 0;
  file_offset = 0;
  indirect_buf = block;
  parent_cid = cache_id_empty;
  parent_offset = 0;
  is_voted = 0;
}

abbrev pub flash : Sequencing ℕ
flash = record {
  alloc_and_write_block =
      λ media transactions buf is_data_vots prev. (0, from_uint32 media, media + 1);
  read_block = λ media addr. (0, block);
}

abbrev pub geometry : Geometry
geometry = record { buffers = 3; entries = 128 }

abbrev pub memory : CacheLruQ
memory = record { caches = λ a. initial_block; lru_cid = 9; mru_cid = 9; dirty_count = 9 }

-- Buffer 1, then the dirty buffer 2.
abbrev pub start : CacheLruQ
start = cache_init_lru_q 3 memory

abbrev lru : CacheLruQ
lru = mark_dirty (touch (touch start 1) 2) 2 true

abbrev queue : List ℕ
queue = 2 ∷ erase 2 (1 ∷ erase 1 [])

abbrev world : World ℕ
world = record { lru = lru; transactions = λ tid. transaction; media = 100 }

init-IsCache_example : IsCache 3 start [] × ((a : ℕ) → a < 3 → start.caches a ≡ initial_block)
init-IsCache_example = init-IsCache 3 memory (omega arith)

lru-IsCache : IsCache 3 lru queue
lru-IsCache =
    let one =
      (touch-IsCache 3 start 1 [] (omega arith) (init-IsCache 3 memory (omega arith)).0).0 in
    let two = (touch-IsCache 3 (touch start 1) 2 (1 ∷ erase 1 []) (omega arith) one).0 in
    mark_dirty-IsCache 2 true (omega arith) two

remove-IsQueue_example :
    IsQueue 3 (cache_remove_from_lru lru 1) (erase 1 queue)
    × SameContent lru (cache_remove_from_lru lru 1)
remove-IsQueue_example = remove-IsQueue 3 lru 1 queue (omega arith) (omega arith) lru-IsCache.queue

not_queued : has 0 queue ≡ false
unfolding erase
not_queued = refl

insert-IsQueue_example :
    let (res, r) = cache_insert_to_lru lru 0 in
    (res ≡ fs_error_success) × IsQueue 3 r (0 ∷ queue) × SameContent lru r
insert-IsQueue_example =
    insert-IsQueue 3 lru 0 queue (omega arith) (omega arith) not_queued lru-IsCache.queue

init_tid_related_lem_example :
    let r = cache_init_tid_related 3 lru 1 in
    IsCache 3 r (leave 3 (λ a. (lru.caches a).tid == 1) queue)
    × ((a : ℕ) → a < 3 → ((r.caches a).tid == 1) ≡ false)
    × ((a : ℕ) → ((lru.caches a).tid == 1) ≡ false → (r.caches a).tid ≡ (lru.caches a).tid)
init_tid_related_lem_example = init_tid_related_lem 3 1 lru queue lru-IsCache refl

force_free_cache_lem_example :
    (r : World ℕ) × (cache_force_free_cache 3 world 2 ≡ some (fs_error_success, r))
    × IsCache 3 r.lru (erase 2 queue)
    × ((a : ℕ) → has a (erase 2 queue) ≡ true → ((r.lru.caches a).parent_cid == 2) ≡ false)
force_free_cache_lem_example = force_free_cache_lem world 2 (omega arith) lru-IsCache

flush_cache_lem_example :
    let (res, new_addr, r) = cache_flush_cache flash geometry world 2 empty_address in
    Flushed 3 world 2 queue res r
flush_cache_lem_example =
    flush_cache_lem flash geometry world 2 empty_address queue (omega arith) lru-IsCache

get_free_cache_id_lem_example :
    (cid : ℕ) × (r : World ℕ) × (cache_get_free_cache_id flash geometry world ≡ some (cid, r))
    × SomeCache 3 r.lru
    × (((cid < 3) × (is_cache_free r.lru cid ≡ true)) ⊎ FlushError cid)
get_free_cache_id_lem_example = get_free_cache_id_lem flash geometry world queue lru-IsCache

magic_two : get_cid_from_addr (magic_address 2) < 3
magic_two = let e = (magic_address_lem 2 (omega arith)).1 in omega arith

access_cache_lem_example :
    (a : Access) × (r : World ℕ) × (cache_access_cache flash geometry world block
        (magic_address 2)
        5
        0
        DataType.entries
        true
      ≡ some (a, r))
    × Outcome 3 block (magic_address 2) 0 true a r
access_cache_lem_example =
    access_cache_lem flash geometry (omega arith) world queue lru-IsCache block (magic_address 2)
      (magic_address_lem 2 (omega arith)).2 5 0 DataType.entries true (λ h. magic_two)
