-- ===== src/Cache/Find.antt =====
-- Searching the queue: cache_get_cid_by_real_addr, cache_get_lru_cid and cache_get_cid_by_addr of
-- NANDFS/src/fs/cache.c. A walk along the links has a round for each buffer and one more; `none`
-- means that it went on for longer.
pub mod Laws
use nandfs.Base.{ℕ, zero, suc, Bool, not, ◌||◌, ◌==◌, if◌then◌else◌, Option, none, some, ◌>>=◌}
use nandfs.Addr.{LogAddr, is_address_empty, is_addr_empty, compare_addr}
use nandfs.Cache.State.{CacheLruQ, cache_id_empty, is_positive, is_cached_addr, get_cid_from_addr}

unfoldable pub find_real : ℕ → CacheLruQ → LogAddr → ℕ → Option ℕ
find_real zero q log_addr cid = none
find_real (suc k) q log_addr cid =
    let rest = find_real k q log_addr (q.caches cid).next_in_turn in
    if cid == cache_id_empty
    then some cache_id_empty
    else if compare_addr (q.caches cid).log_addr log_addr
    then some cid
    else rest

unfoldable pub cache_get_cid_by_real_addr : ℕ → CacheLruQ → LogAddr → Option ℕ
cache_get_cid_by_real_addr buffers q log_addr =
    if is_address_empty log_addr
    then some cache_id_empty
    else find_real (suc buffers) q log_addr q.mru_cid

-- A buffer that may not be flushed: a cached block refers to it, or the active indirect block of a
-- transaction does, or it is the one excepted.
unfoldable pub is_pinned : CacheLruQ → ℕ → ℕ → Bool
is_pinned q except_cid i =
    is_positive (q.caches i).ref_count
    || except_cid == i
    || not ((q.caches i).is_tid_indirect_leaf == 0)

unfoldable pub climb : ℕ → CacheLruQ → ℕ → ℕ → Option ℕ
climb zero q except_cid i = none
climb (suc k) q except_cid i =
    let more = (q.caches i).prev_in_turn in
    let rest = climb k q except_cid more in
    if is_pinned q except_cid i
    then if more == cache_id_empty then some cache_id_empty else rest
    else some i

unfoldable pub cache_get_lru_cid : ℕ → CacheLruQ → ℕ → Option ℕ
cache_get_lru_cid buffers q except_cid =
    if q.lru_cid == cache_id_empty
    then some cache_id_empty
    else climb (suc buffers) q except_cid q.lru_cid

unfoldable pub cache_get_cid_by_addr : ℕ → CacheLruQ → LogAddr → Option ℕ
cache_get_cid_by_addr buffers q old_addr =
    if is_cached_addr old_addr
    then some (get_cid_from_addr old_addr)
    else if is_addr_empty old_addr
    then some cache_id_empty
    else cache_get_cid_by_real_addr buffers q old_addr
