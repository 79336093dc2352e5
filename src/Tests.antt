-- ===== src/Tests.antt =====
-- Runs of the theorems on concrete states.
pub mod CacheRuns
pub mod FileRuns
pub mod SequencingRuns
pub mod AllocRuns
pub mod ReclaimRuns
pub mod TransactionRuns
pub mod DescriptorRuns
pub mod VotRuns
pub mod FlashRuns
pub mod CommitRuns
