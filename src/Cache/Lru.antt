-- ===== src/Cache/Lru.antt =====
-- The queue operations of NANDFS/src/fs/cache.c: cache_remove_from_lru and cache_insert_to_lru.
pub mod SameContent
pub mod Chain
pub mod Unlink
pub mod Queue
use nandfs.Base.{ℕ, Bool, not, ◌==◌, if◌then◌else◌}
use nandfs.Cache.State.{CacheLruQ, cache_id_empty, set_less_recently_used, set_more_recently_used}

-- The first part: the two neighbours of `cid` are linked to each other.
unfoldable pub unlink_neighbours : CacheLruQ → ℕ → CacheLruQ
unlink_neighbours q cid =
    let more = (q.caches cid).prev_in_turn in
    let q1 =
      if more == cache_id_empty
      then q
      else set_less_recently_used q more (q.caches cid).next_in_turn in
    let less = (q1.caches cid).next_in_turn in
    if less == cache_id_empty
    then q1
    else set_more_recently_used q1 less (q1.caches cid).prev_in_turn

-- The second part: the ends of the queue.
unfoldable pub fix_lru : CacheLruQ → ℕ → CacheLruQ
fix_lru q cid =
    let b = q.caches cid in
    if q.lru_cid == cid
    then record q {
      lru_cid = if b.next_in_turn == cache_id_empty then b.prev_in_turn else b.next_in_turn;
    }
    else q

unfoldable pub fix_mru : CacheLruQ → ℕ → CacheLruQ
fix_mru q cid =
    let b = q.caches cid in
    if q.mru_cid == cid
    then record q {
      mru_cid = if b.prev_in_turn == cache_id_empty then b.next_in_turn else b.prev_in_turn;
    }
    else q

-- The function returns 1 on its only path; the callers' tests of that result are left out.
unfoldable pub cache_remove_from_lru : CacheLruQ → ℕ → CacheLruQ
cache_remove_from_lru q cid =
    let q1 = fix_mru (fix_lru (unlink_neighbours q cid) cid) cid in
    set_less_recently_used (set_more_recently_used q1 cid cache_id_empty) cid cache_id_empty

abbrev pub fs_error_success : ℕ
fs_error_success = 0

abbrev pub fs_error_critical : ℕ
fs_error_critical = 0xfffffff7

-- The body, after `old_mru_cid` has been read.
unfoldable pub insert_before : CacheLruQ → ℕ → ℕ → ℕ × CacheLruQ
insert_before q cid old_mru_cid =
    if old_mru_cid == cache_id_empty
    then (fs_error_success, record q { mru_cid = cid; lru_cid = cid })
    else if not ((q.caches old_mru_cid).prev_in_turn == cache_id_empty)
    then (fs_error_critical, q)
    else let q1 = set_less_recently_used q cid old_mru_cid in
      let q2 = set_more_recently_used q1 old_mru_cid cid in
      (fs_error_success, record q2 { mru_cid = cid })

unfoldable pub cache_insert_to_lru : CacheLruQ → ℕ → ℕ × CacheLruQ
cache_insert_to_lru q cid = insert_before q cid q.mru_cid
