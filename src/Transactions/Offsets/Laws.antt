-- ===== src/Transactions/Offsets/Laws.antt =====
-- Which offsets the indirect block of a transaction covers, and the sizes of a file.
use nandfs.Base.{ℕ, ◌+◌, ◌^◌, ◌<◌, ◌≤◌, ◌≡◌, inl, inr, ◌⊎◌, ltb, ◌==◌, Bool-cases, arith}
use nandfs.World.{Transaction}
use nandfs.Transactions.Offsets.{calc_indirect_block_offset, is_offset_in_indirect}

-- Where the indirect block of a transaction is the one for an offset, another offset counts as in that
-- block exactly if the indirect block calculated for it is the same one. Offsets are below 2 ^ 31 and
-- there is direct data.
pub is_offset_in_indirect_lem :
    (data_offset offset own : ℕ) (t : Transaction)
    → 1 ≤ data_offset
    → offset < 2 ^ 31
    → own < 2 ^ 31
    → t.file_offset ≡ calc_indirect_block_offset data_offset own
    → is_offset_in_indirect data_offset offset t ≡ (
        calc_indirect_block_offset data_offset offset == calc_indirect_block_offset data_offset own)
unfolding is_offset_in_indirect calc_indirect_block_offset
is_offset_in_indirect_lem data_offset offset own t pos lo lw at = ground arith

-- The offset calculated is at most the given one, less than the length of an indirect block below it
-- where it is behind the direct data, and calculating again does not change it.
pub calc_indirect_block_offset_lem :
    (data_offset offset : ℕ)
    → 1 ≤ data_offset
    → let c = calc_indirect_block_offset data_offset offset in
      (c ≤ offset)
      × (calc_indirect_block_offset data_offset c ≡ c)
      × (((c ≡ 0) × (offset < data_offset)) ⊎ ((data_offset ≤ c) × (offset < c + 2 ^ 16)))
unfolding calc_indirect_block_offset
calc_indirect_block_offset_lem data_offset offset pos = elim (Bool-cases (ltb offset data_offset)) [
  | inl e ↦ rw e (ground arith)
  | inr e ↦ rw e (ground arith)
]
