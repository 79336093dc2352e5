-- ===== src/Transactions/Vot.antt =====
-- Votes for the pages that a transaction replaces: writeVot of NANDFS/src/fs/transactions.c.
-- allocAndWriteBlockTid is the parameter `alloc_and_write`, which Transactions.Write models; it is
-- given the address to fill in, the block, the type, the offset of the entry and the transaction.
-- `none` stands for a failed assertion or a loop whose rounds are used up.
pub mod Room
pub mod Outcome
pub mod Ends
use nandfs.Base.{
  ℕ, ◌+◌, ◌%◌, ◌^◌, Bool, not, ◌&&◌, ◌==◌, if◌then◌else◌, Option, none, some, ◌>>=◌, update,
}
use nandfs.Addr.{LogAddr, empty_address, compare_addr, copy_logical_address, is_addr_empty}
use nandfs.Cache.State.{
  Block, CacheLruQ, cache_id_empty, entry_offset_empty, is_cached_addr, get_cid_from_addr,
}
use nandfs.Cache.Lru.{fs_error_success}
use nandfs.Cache.Find.{cache_get_cid_by_real_addr}
use nandfs.World.{World, Geometry, Transaction, cache_of, put_cache, put_transaction}
use nandfs.Transactions.{empty_block}
use nandfs.Transactions.Write.{BlockType, vots_block, any_entry}

-- What there is to vote for: nothing, or a buffer, if there is one, and an address.
pub data Target : Type 0 where
  nothing : Target
  target : ℕ → LogAddr → Target

-- An address of a buffer: the address of the page that the buffer replaces.
unfoldable pub buffer_target : CacheLruQ → ℕ → Target
buffer_target q cid =
    if is_addr_empty (q.caches cid).log_addr
    then nothing
    else target cid (copy_logical_address empty_address (q.caches cid).log_addr)

-- An address of the medium.
unfoldable pub real_target : CacheLruQ → LogAddr → ℕ → Target
real_target q a cid =
    if not (cid == cache_id_empty) && ((q.caches cid).is_voted == 0)
    then buffer_target q cid
    else target cid (copy_logical_address empty_address a)

unfoldable pub find_target : ℕ → CacheLruQ → LogAddr → Option Target
find_target buffers q a =
    let cid = get_cid_from_addr a in
    if is_addr_empty a
    then some nothing
    else if is_cached_addr a
    then (if not ((q.caches cid).is_voted == 0) then some nothing else some (buffer_target q cid))
    else cache_get_cid_by_real_addr buffers q a >>= λ found. some (real_target q a found)

-- Whether the address is in the votes buffer.
unfoldable pub has_vot : Transaction → LogAddr → Bool
has_vot t a = any_entry t.vots_buf_offset (λ b. compare_addr b a) t.vots_buf 0

unfoldable pub add_vot : Transaction → LogAddr → Transaction
add_vot t a =
    let i = t.vots_buf_offset in
    record t {
      vots_buf = update t.vots_buf i (copy_logical_address (t.vots_buf i) a);
      vots_buf_offset = (i + 1) % 2 ^ 32;
      vots_count = (t.vots_count + 1) % 2 ^ 32;
    }

-- The buffer and the offset once the block of votes is written.
unfoldable pub reset_vots : Transaction → Transaction
reset_vots t = record t { vots_buf = empty_block; vots_buf_offset = 0 }

module _ {M : Type 0} where
  unfoldable pub mark_voted : World M → ℕ → World M
  mark_voted w cid =
      if not (cid == cache_id_empty) && not (is_addr_empty (cache_of w cid).log_addr)
      then put_cache w cid (record (cache_of w cid) { is_voted = 1 })
      else w

  unfoldable pub after_vots : ℕ → ℕ → ℕ × LogAddr × World M → ℕ × World M
  after_vots cid tid (res, a, w) =
      if res == fs_error_success
      then (
        fs_error_success,
        mark_voted (put_transaction w tid (reset_vots (w.transactions tid))) cid,
      )
      else (res, w)

module _ {M : Type 0} (g : Geometry)
    (alloc_and_write : World M
      → LogAddr
      → Block
      → BlockType
      → ℕ
      → ℕ
      → Option (ℕ × LogAddr × World M)) where
  -- The block of votes is written once it is full.
  unfoldable pub store_vot : World M → ℕ → ℕ → LogAddr → Option (ℕ × World M)
  store_vot w tid cid a =
      let t = add_vot (w.transactions tid) a in
      let w1 = put_transaction w tid t in
      let written =
        alloc_and_write w1 empty_address t.vots_buf vots_block entry_offset_empty tid >>= λ r.
        some (after_vots cid tid r) in
      if t.vots_buf_offset == g.entries then written else some (fs_error_success, mark_voted w1 cid)

  unfoldable pub vote_target : World M → ℕ → Target → Option (ℕ × World M)
  vote_target w tid nothing = some (fs_error_success, w)
  vote_target w tid (target cid a) =
      if has_vot (w.transactions tid) a then some (fs_error_success, w) else store_vot w tid cid a

  unfoldable pub write_vot : World M → LogAddr → ℕ → Option (ℕ × World M)
  write_vot w a tid = find_target g.buffers w.lru a >>= vote_target w tid
