-- ===== src/Transactions/Votes.antt =====
-- Obsolete pages at the end of a transaction: tr_mark_as_obsolete, performVOTs, handleTransactionVOTs,
-- deleteTransactionPages and abortTransaction of NANDFS/src/fs/transactions.c, and readBlock and
-- readVOTsAndPrev of NANDFS/src/sequencing/sequencing.c. `none` stands for a failed assertion or a loop
-- whose rounds are used up.
pub mod Chain
pub mod Reads
pub mod Walks
pub mod Deletion
pub mod FirstPage
use nandfs.Base.{
  ℕ, zero, suc, ◌+◌, Bool, true, false, not, ◌==◌, if◌then◌else◌, Option, none, some, ◌>>=◌,
}
use nandfs.Addr.{LogAddr, is_addr_empty}
use nandfs.Cache.State.{Block, CacheLruQ}
use nandfs.Cache.Lru.{fs_error_success, fs_error_critical}
use nandfs.Cache.Free.{cache_free_by_real_addr, cache_init_tid_related}
use nandfs.World.{World, Transaction, put_transaction}
use nandfs.Transactions.{init_transaction}

-- FS_ERROR_IO, and what FS_VERIFY returns.
abbrev pub fs_error_io : ℕ
fs_error_io = 0xffffffff

-- What the walks use of the layers below: logicalAddressToPhysical; the spare area of a page, with the
-- address of the page written before it by its transaction and whether it holds votes; the content of
-- a page; and markAsObsolete.
pub record Pages (M : Type 0) : Type 0 where
  pub translate : M → LogAddr → Option ℕ
  pub read_page_flags : M → ℕ → LogAddr × Bool
  pub read_page_total : M → ℕ → ℕ × Block
  pub mark_as_obsolete : M → LogAddr → Bool → Option (ℕ × M)

-- The result, the votes buffer, the previous address and whether the page holds votes.
pub record Votes : Type 0 where
  pub res : ℕ
  pub buffer : Block
  pub prev : LogAddr
  pub is_vots : Bool

-- assert(!IS_PHY_ADDR_EMPTY(phy_addr))
unfoldable pub check_physical : ℕ → Option ℕ
check_physical phy_addr = if phy_addr == 0xffffffff then none else some phy_addr

module _ {M : Type 0} (pages : Pages M) (buffers : ℕ) where
  -- The buffer keeps its content if the read fails. ERROR_IO is 1.
  unfoldable pub read_block : M → LogAddr → Block → Option (ℕ × Block)
  read_block m b buffer = pages.translate m b >>= check_physical >>= λ phy_addr.
      let (res, content) = pages.read_page_total m phy_addr in
      some (if res == 0 then (0, content) else (1, buffer))

  -- Where `prev` is the same object as the address `b`, which the caller's `aliased` says, the block is
  -- read from the address that has just been stored in it.
  unfoldable pub read_vots_and_prev : Bool → M → LogAddr → Block → Option Votes
  read_vots_and_prev aliased m b buffer = pages.translate m b >>= check_physical >>= λ phy_addr.
      let (prev, is_vots) = pages.read_page_flags m phy_addr in
      if is_vots
      then (read_block m (if aliased then prev else b) buffer >>= λ r.
          some (record { res = r.0; buffer = r.1; prev = prev; is_vots = true }))
      else some (record { res = 0; buffer = buffer; prev = prev; is_vots = false })

  -- What follows markAsObsolete in tr_mark_as_obsolete.
  unfoldable pub free_marked : World M → LogAddr → ℕ × M → Option (ℕ × World M)
  free_marked w log_addr (res, m) =
      let w1 = record w { media = m } in
      let freed = cache_free_by_real_addr buffers w.lru log_addr >>= λ r.
      let (code, q) = r in
      some (
        if code == fs_error_success then fs_error_success else fs_error_critical,
        record w1 { lru = q },
      ) in
      if not (res == 0) then some (fs_error_io, w1) else freed

  unfoldable pub tr_mark_as_obsolete : World M → LogAddr → Bool → Option (ℕ × World M)
  tr_mark_as_obsolete w log_addr is_from_reboot =
      pages.mark_as_obsolete w.media log_addr is_from_reboot >>= free_marked w log_addr

  -- FS_VERIFY around a step: the next step on success, else -1.
  unfoldable pub verified : (World M → Option (ℕ × World M)) → ℕ × World M → Option (ℕ × World M)
  verified next (res, w) = if res == 0 then next w else some (fs_error_io, w)

  -- The loop of performVOTs with `n` entries left from `i` on.
  unfoldable pub perform_vots : ℕ → ℕ → Block → Bool → World M → Option (ℕ × World M)
  perform_vots zero i vots is_from_reboot w = some (fs_error_success, w)
  perform_vots (suc n) i vots is_from_reboot w =
      let rest =
        tr_mark_as_obsolete w (vots i) is_from_reboot
        >>= verified (perform_vots n (i + 1) vots is_from_reboot) in
      if is_addr_empty (vots i) then some (fs_error_success, w) else rest

  -- The body of the loop of handleTransactionVOTs once the page is read. performVOTs fails with -1 only.
  unfoldable pub handle_page :
      ℕ
      → LogAddr
      → Bool
      → (LogAddr → Block → World M → Option (ℕ × World M))
      → World M
      → Votes
      → Option (ℕ × World M)
  handle_page entries log_addr is_from_reboot next w v =
      let vote =
        perform_vots entries 0 v.buffer is_from_reboot w
        >>= verified (λ w1.
          tr_mark_as_obsolete w1 log_addr is_from_reboot >>= verified (next v.prev v.buffer)) in
      if not (v.res == 0)
      then some (fs_error_io, w)
      else if v.is_vots
      then vote
      else next v.prev v.buffer w

  -- The walk of handleTransactionVOTs in at most `k` rounds.
  unfoldable pub handle_transaction_vots :
      ℕ → ℕ → Bool → LogAddr → Block → World M → Option (ℕ × World M)
  handle_transaction_vots zero entries is_from_reboot log_addr buffer w = none
  handle_transaction_vots (suc k) entries is_from_reboot log_addr buffer w =
      let next = handle_transaction_vots k entries is_from_reboot in
      let go =
        read_vots_and_prev false w.media log_addr buffer
        >>= handle_page entries log_addr is_from_reboot next w in
      if is_addr_empty log_addr then some (fs_error_success, w) else go

  -- The walk of deleteTransactionPages in at most `k` rounds. It moves the address `log_addr` on, which
  -- is given back with the result.
  unfoldable pub delete_step :
      (LogAddr → Block → World M → Option (ℕ × LogAddr × World M))
      → LogAddr
      → World M
      → Votes
      → Option (ℕ × LogAddr × World M)
  delete_step next log_addr w v =
      if v.res == 0 then next v.prev v.buffer w else some (fs_error_io, v.prev, w)

  unfoldable pub delete_marked :
      (LogAddr → Block → World M → Option (ℕ × LogAddr × World M))
      → LogAddr
      → Block
      → ℕ × World M
      → Option (ℕ × LogAddr × World M)
  delete_marked next log_addr buffer (res, w) =
      let go = read_vots_and_prev true w.media log_addr buffer >>= delete_step next log_addr w in
      if res == 0 then go else some (fs_error_io, log_addr, w)

  unfoldable pub delete_walk : ℕ → Bool → LogAddr → Block → World M → Option (ℕ × LogAddr × World M)
  delete_walk zero is_from_reboot log_addr buffer w = none
  delete_walk (suc k) is_from_reboot log_addr buffer w =
      let go =
        tr_mark_as_obsolete w log_addr is_from_reboot
        >>= delete_marked (delete_walk k is_from_reboot) log_addr buffer in
      if is_addr_empty log_addr then some (fs_error_success, log_addr, w) else go

  unfoldable pub delete_transaction_pages :
      ℕ → LogAddr → ℕ → Bool → Block → World M → Option (ℕ × LogAddr × World M)
  delete_transaction_pages k log_addr tid is_from_reboot buffer w =
      delete_walk k is_from_reboot log_addr buffer
        (record w { lru = cache_init_tid_related buffers w.lru tid })
