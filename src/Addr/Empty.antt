-- ===== src/Addr/Empty.antt =====
-- The two emptiness tests, and the hole flag.
use nandfs.Base.{ℕ, ◌+◌, ◌*◌, ◌%◌, ◌^◌, ◌<◌, bit_or, ◌≡◌, true, false, ◌&&◌, ◌==◌, arith}
use nandfs.Base.Bits.{bit_or-disjoint}
use nandfs.Addr.{
  LogAddr, IsBytes, get_logical_offset, get_logical_segment, to_uint32, is_addr_empty,
  is_address_empty, get_addr_flag, set_addr_flag, is_addr_free, mark_block_with_hole,
  mark_block_no_hole, from_uint32, compare_addr,
}
use nandfs.Addr.Fields.{offset_lem, segment_lem}

word_fields :
    {a : LogAddr}
    → IsBytes a
    → to_uint32 a % 2 ^ 24 ≡ get_logical_offset a + get_logical_segment a * 2 ^ 12
word_fields {a} v = omega (arith, offset_lem v, segment_lem a)

-- For an address that consists of bytes, IS_ADDR_EMPTY holds exactly when both the segment and the
-- offset are all ones: it implies IS_ADDRESS_EMPTY, which looks at the segment alone.
pub is_addr_empty_lem :
    {a : LogAddr}
    → IsBytes a
    → is_addr_empty a ≡ (is_address_empty a && get_logical_offset a == 0xfff)
unfolding is_addr_empty is_address_empty
is_addr_empty_lem {a} v = ground (arith, word_fields v, offset_lem v, segment_lem a)

flagged_word :
    (a : LogAddr) (flag : ℕ)
    → bit_or (to_uint32 a % 2 ^ 31) (flag * 2 ^ 31) ≡ to_uint32 a % 2 ^ 31 + flag * 2 ^ 31
flagged_word a flag = bit_or-disjoint (to_uint32 a % 2 ^ 31) flag 31 (omega arith)

from_uint32-IsBytes : (w : ℕ) → IsBytes (from_uint32 w)
from_uint32-IsBytes w = omega arith

-- Setting the flag of an address sets the flag, and leaves its segment and its offset.
pub set_addr_flag_lem :
    {a : LogAddr} (flag : ℕ)
    → IsBytes a
    → flag < 2
    → (get_addr_flag (set_addr_flag a flag) ≡ flag)
      × (get_logical_segment (set_addr_flag a flag) ≡ get_logical_segment a)
      × (get_logical_offset (set_addr_flag a flag) ≡ get_logical_offset a)
unfolding set_addr_flag get_addr_flag
set_addr_flag_lem {a} flag v h = omega (
  arith,
  flagged_word a flag,
  offset_lem v,
  segment_lem a,
  offset_lem (from_uint32-IsBytes (bit_or (to_uint32 a % 2 ^ 31) (flag * 2 ^ 31))),
  segment_lem (from_uint32 (bit_or (to_uint32 a % 2 ^ 31) (flag * 2 ^ 31))),
)

-- MARK_BLOCK_WITH_HOLE makes an address, if it consists of bytes, free, MARK_BLOCK_NO_HOLE makes
-- it taken, and the block that the address names stays the same.
pub mark_block_lem :
    {a : LogAddr}
    → IsBytes a
    → (is_addr_free (mark_block_with_hole a) ≡ true)
      × (is_addr_free (mark_block_no_hole a) ≡ false)
      × (compare_addr (mark_block_with_hole a) a ≡ true)
      × (compare_addr (mark_block_no_hole a) a ≡ true)
unfolding is_addr_free mark_block_with_hole mark_block_no_hole compare_addr
mark_block_lem {a} v = ground (
  arith,
  set_addr_flag_lem {a = a} 1 v (omega arith),
  set_addr_flag_lem {a = a} 0 v (omega arith),
)
