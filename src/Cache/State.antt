-- ===== src/Cache/State.antt =====
-- `cache_block`, `cache_lru_q` and the constants of NANDFS/src/fs/cache.h; cache_init_by_cid and
-- cache_init_lru_q of NANDFS/src/fs/cache.c. An `int32_t` is its bit pattern, below 2 ^ 32. The array
-- `caches` is a function of the index; FS_CACHE_BUFFERS is the parameter `buffers`.
use nandfs.Base.{ℕ, zero, suc, ◌+◌, ◌-◌, ◌%◌, ◌^◌, Bool, not, ◌&&◌, ltb, ◌==◌, update}
use nandfs.Addr.{LogAddr, empty_address, is_addr_empty, get_logical_segment, get_logical_offset}

-- A block as its array of four-byte entries: every access of the cache to the inside of a block,
-- inodes included, is to an entry at a multiple of four bytes.
abbrev pub Block : Type 0
Block = ℕ → LogAddr

pub record CacheBlock : Type 0 where
  pub is_tid_indirect_leaf : ℕ
  pub is_voted : ℕ
  pub ref_count : ℕ
  pub parent_cid : ℕ
  pub parent_offset : ℕ
  pub next_in_turn : ℕ
  pub prev_in_turn : ℕ
  pub tid : ℕ
  pub is_dirty : ℕ
  pub log_addr : LogAddr
  pub indirect_buf : Block

pub record CacheLruQ : Type 0 where
  pub caches : ℕ → CacheBlock
  pub lru_cid : ℕ
  pub mru_cid : ℕ
  pub dirty_count : ℕ

abbrev pub cache_id_empty : ℕ
cache_id_empty = 0xffffffff

abbrev pub entry_offset_empty : ℕ
entry_offset_empty = 0xffffffff

abbrev pub cache_dirty : ℕ
cache_dirty = 0

-- CACHE_MAGIC_SEG: the segment number of an address that stands for a cache id.
abbrev pub cache_magic_seg : ℕ
cache_magic_seg = 0xffe

-- `x > 0` on an `int32_t`.
abbrev pub is_positive : ℕ → Bool
is_positive x = ltb 0 x && ltb x (2 ^ 31)

-- `x < 0` on an `int32_t`.
abbrev pub is_negative : ℕ → Bool
is_negative x = not (ltb x (2 ^ 31))

abbrev pub inc32 : ℕ → ℕ
inc32 x = (x + 1) % 2 ^ 32

abbrev pub dec32 : ℕ → ℕ
dec32 x = (x + 2 ^ 32 - 1) % 2 ^ 32

unfoldable pub is_cached_addr : LogAddr → Bool
is_cached_addr a = get_logical_segment a == cache_magic_seg

unfoldable pub get_cid_from_addr : LogAddr → ℕ
get_cid_from_addr a = get_logical_offset a

unfoldable pub cache_is_dirty : CacheLruQ → ℕ → Bool
cache_is_dirty q cid = (q.caches cid).is_dirty == cache_dirty

-- IS_CACHE_FREE
unfoldable pub is_cache_free : CacheLruQ → ℕ → Bool
is_cache_free q cid = not (cache_is_dirty q cid) && is_addr_empty (q.caches cid).log_addr

-- What `init_struct` and the three setters after it leave in a buffer.
abbrev pub initial_block : CacheBlock
initial_block = record {
  is_tid_indirect_leaf = 0;
  is_voted = 0;
  ref_count = 0;
  parent_cid = 0xffffffff;
  parent_offset = 0xffffffff;
  next_in_turn = 0xffffffff;
  prev_in_turn = 0xffffffff;
  tid = 0xffffffff;
  is_dirty = 0xff;
  log_addr = empty_address;
  indirect_buf = λ i. empty_address;
}

-- Assignments to one field of one buffer.
abbrev pub put_block : CacheLruQ → ℕ → CacheBlock → CacheLruQ
put_block q cid b = record q { caches = update q.caches cid b }

abbrev pub set_less_recently_used : CacheLruQ → ℕ → ℕ → CacheLruQ
set_less_recently_used q cid num = put_block q cid (record (q.caches cid) { next_in_turn = num })

abbrev pub set_more_recently_used : CacheLruQ → ℕ → ℕ → CacheLruQ
set_more_recently_used q cid num = put_block q cid (record (q.caches cid) { prev_in_turn = num })

unfoldable pub cache_init_by_cid : CacheLruQ → ℕ → CacheLruQ
cache_init_by_cid q cid = put_block q cid initial_block

-- The first rounds of the loop of cache_init_lru_q.
unfoldable pub init_loop : ℕ → CacheLruQ → CacheLruQ
init_loop zero q = q
init_loop (suc i) q = cache_init_by_cid (init_loop i q) i

unfoldable pub cache_init_lru_q : ℕ → CacheLruQ → CacheLruQ
cache_init_lru_q buffers q = record (init_loop buffers q) {
  lru_cid = cache_id_empty;
  mru_cid = cache_id_empty;
  dirty_count = 0;
}
