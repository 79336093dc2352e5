-- ===== src/Sequencing.antt =====
-- The sequencing layer of NANDFS/src/sequencing: the obsolete-page counters of the segments, the
-- erase units known to be good, and the reserve units.
pub mod Counters
pub mod ValidEus
pub mod Reserve
pub mod SegMap
pub mod Translate
pub mod LastPage
pub mod Lfsr
pub mod Reclaim
pub mod Pages
pub mod Alloc
pub mod NextSegment
pub mod NextPage
pub mod Commit
pub mod ReadCheckpoint
