-- ===== src/Lib.antt =====
-- NANDFS: a file system for raw NAND flash, whose core is in NANDFS/src. The file system layer
-- (NANDFS/src/fs) keeps files as trees of blocks below inodes, writes every change of a file as part
-- of a transaction, and sees the flash as logical addresses; the sequencing layer
-- (NANDFS/src/sequencing) allocates those addresses in segments, reclaims segments of obsolete pages,
-- replaces bad erase units, and recovers the state at start-up; a driver reads and writes pages.
-- Between the two layers stands the block cache of NANDFS/src/fs/cache.c, whose buffers are known by
-- magic addresses until they are flushed.
--
-- Which file models which part:
--   Base              list and array helpers, Boolean tests, `>>=`, and the law of `|` on disjoint
--                     bit fields (Base.Bits). `x & (2^k - 1)` is written `x % 2^k`, shifts are
--                     written `/` and `*`.
--   Addr              logical_addr_struct and its accessors (sequencing.h, setLogicalOffset,
--                     setLogicalSegment, copyLogicalAddress and copyTruncatedLogicalAddress of
--                     sequencingUtils.c) and the tests and flags on addresses of fs.h.
--   World             transaction_t (transactions.h), the build's constants, and what the cache
--                     shares with the transactions and the flash: a store `World` that the functions
--                     take and give back.
--   Cache             cache.c and cache.h, each function under its own name: Cache.State the buffers
--                     and the queue, Cache.Lru the two queue operations, Cache.Find the searches,
--                     Cache.Free the releases, Cache.Flush the flushes and
--                     allocAndWriteBlockTid_actualWrite of transactions.c, Cache.Access the accesses,
--                     Cache.Indirect the active indirect block. Cache.Invariant is the
--                     invariant; the laws of each part are in its child modules.
--   Sequencing        sequencingUtils.c unless another file is named. Sequencing.Counters: the packed
--                     counters, as built without EXACT_COUNTERS. Sequencing.ValidEus: the queue of
--                     known good erase units. Sequencing.SegMap: segment_map and its searches.
--                     Sequencing.Reserve and Sequencing.Translate: logicalAddressToReservePhysical,
--                     logicalAddressToPhysical, calc_target_phy_addr, allocReserveEU and the good
--                     units of a slot, over a chip that is a parameter. Sequencing.LastPage:
--                     findLastValidPageInEU. Sequencing.Reclaim: findSegmentToReclaim,
--                     is_page_to_copy, init_obs_counters, and markAsObsolete (sequencing.c).
--                     Sequencing.Lfsr: the random bits (lfsr.c). Sequencing.Pages: writing and
--                     copying pages and emptying a slot. Sequencing.Alloc, NextSegment and NextPage:
--                     findNextFreePage, moveToNextSegment and allocAndWriteBlock. Sequencing.Commit:
--                     commit. Sequencing.ReadCheckpoint: findCheckpointStart and
--                     readCheckpointToMemory.
--   Nand              SIM/peripherals: the flags of the spare area (nand.h) and the simulated flash
--                     (nand.c), which fills the driver that Sequencing.Pages takes.
--   Transactions      transactions.c: the table of transactions; Transactions.Votes the walks of
--                     handleTransactionVOTs and deleteTransactionPages, with readVOTsAndPrev of
--                     sequencing.c; Transactions.MinPages abortTransaction and handleMinPages;
--                     Transactions.Offsets the offsets and sizes of a file in a transaction;
--                     Transactions.Write allocAndWriteBlockTid; Transactions.Vot writeVot.
--   Files             Files.Tables and Files.Open: the open file entries and vnodes of fsUtils.c,
--                     setOpenFentry and closeUtil. Files.Dup: dupUtil. Files.Seek: nandfs_lseek
--                     (fs.c). Files.Names: the scans over path names.
--   Tests             runs of the theorems on concrete states.
--
-- State and numbers. The C structs are records, arrays are functions of the index, and an assignment
-- is `update`. An int32_t is its bit pattern below 2 ^ 32, so that -1 is 0xffffffff and an error code
-- is a large number; increments wrap. A block is the function from the index of a four-byte entry to
-- the address in it. FS_CACHE_BUFFERS and LOG_ADDRESSES_PER_BLOCK are parameters (`Geometry`); the
-- first is 0 in the default build, which turns the cache off. A magic address has twelve bits for the
-- id of a buffer, so that at most 4096 buffers can be told apart.
--
-- Loops. Counted loops are structural recursion. The walks along the links of the queue
-- (cache_get_cid_by_real_addr, cache_get_lru_cid and the last loop of cache_force_free_cache) have one
-- round for each buffer and one more, and give `none` if that is not enough; it is enough where the
-- links spell a list of distinct buffers. The scan of a slot for a reserve unit has a round for each
-- of its four units. The walks along the pages of a transaction take their number of rounds as an
-- argument; one more than there are pages is enough. The inner loop
-- of findNextFreePage has 129 rounds, one more than a slot has pages, which is enough from any offset
-- on. The loops of commit and of readCheckpointToMemory have one round more than the checkpoint has
-- pages. The loop of handleMinPages has three rounds, which
-- is enough for the two transactions. `none` stands for a failed assertion too.
--
-- Parameters. The sequencing layer is the record `Sequencing` of two functions that may fail; the
-- driver's nandCheckEuStatus and flags of a page, the read of a file's size and the outcome of the
-- commit at a close are functions too. Nothing is assumed of any of them beyond what a theorem's
-- hypotheses say.
--
-- The chip of Sequencing.Translate answers seq_check_eu_status without a change of the queue of known
-- good units; the queue itself is in Sequencing.ValidEus. Transactions.Votes takes the translation, the
-- spare area and the content of a page, and markAsObsolete as functions of the medium, and
-- Transactions.MinPages the checkpoint writer and findNextFreePage. Transactions.Write takes
-- handleMinPages as a function, and Transactions.Vot allocAndWriteBlockTid. getTidByFileId takes
-- getInode as a function that gives back the state, since it reads through the cache and so may write
-- the buffers of other transactions; Cache.Access.Files shows what such a read leaves of a transaction.
--
-- Sequencing.NextSegment and Sequencing.NextPage take performWearLeveling and the writer of the
-- checkpoint as functions that give back the state and may fail, and Sequencing.Commit the bytes that
-- follow lfsr_state in memory.
--
-- Not modelled: the tree of blocks below an inode, commitInode and the commit of transactions
-- (transactions.c), the public calls but for lseek (fs.c), directory entries, performWearLeveling,
-- the copying back, and the start-up of the sequencing layer but for reading a checkpoint,
-- insertionsort.c, the driver of ARM, and the test programs. is_flash_full reads behind the array of
-- counters; the model reads there what its function of the index gives.
pub mod Base
pub mod Addr
pub mod World
pub mod Nand
pub mod Cache
pub mod Sequencing
pub mod Transactions
pub mod Files
pub mod Tests
