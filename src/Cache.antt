-- ===== src/Cache.antt =====
-- The block cache of NANDFS/src/fs/cache.c and cache.h: buffers in an array, chained into a queue
-- from the most to the least recently used one by the indices `next_in_turn` and `prev_in_turn`.
pub mod State
pub mod Lru
pub mod Find
pub mod Free
pub mod Flush
pub mod Access
pub mod Indirect
pub mod Invariant
