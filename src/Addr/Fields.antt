-- ===== src/Addr/Fields.antt =====
-- The fields of a logical address, set and read, and its copies.
use nandfs.Base.{ℕ, ◌+◌, ◌*◌, ◌/◌, ◌%◌, ◌^◌, ◌<◌, ◌≡◌, arith}
use nandfs.Base.Bits.{bit_or-disjoint}
use nandfs.Addr.{
  LogAddr, IsBytes, get_logical_offset, get_logical_segment, get_logical_spare, set_logical_offset,
  set_logical_segment, set_logical_spare, copy_logical_address, copy_truncated_logical_address,
}

-- The getters as sums.
pub offset_lem : {a : LogAddr} → IsBytes a → get_logical_offset a ≡ a.byte0 + a.byte1 % 16 * 256
unfolding get_logical_offset
offset_lem {a} v = omega (arith, bit_or-disjoint a.byte0 (a.byte1 % 16) 8)

pub segment_lem : (a : LogAddr) → get_logical_segment a ≡ a.byte1 / 16 % 16 + a.byte2 * 16
unfolding get_logical_segment
segment_lem a = omega (arith, bit_or-disjoint (a.byte1 / 2 ^ 4 % 16) a.byte2 4)

set_offset_byte1 :
    (a : LogAddr) (offset : ℕ)
    → (set_logical_offset a offset).byte1 ≡ offset / 256 % 16 + a.byte1 / 16 % 16 * 16
unfolding set_logical_offset
set_offset_byte1 a offset =
    omega (arith, bit_or-disjoint (offset / 2 ^ 8 % 16) (a.byte1 / 2 ^ 4 % 16) 4)

set_segment_byte1 :
    (a : LogAddr) (seg : ℕ) → (set_logical_segment a seg).byte1 ≡ a.byte1 % 16 + seg % 16 * 16
unfolding set_logical_segment
set_segment_byte1 a seg = omega (arith, bit_or-disjoint (a.byte1 % 16) (seg % 16) 4)

pub set_offset-IsBytes :
    {a : LogAddr} (offset : ℕ) → IsBytes a → IsBytes (set_logical_offset a offset)
unfolding set_logical_offset
set_offset-IsBytes {a} offset v = omega (arith, set_offset_byte1 a offset)

pub set_segment-IsBytes : {a : LogAddr} (seg : ℕ) → IsBytes a → IsBytes (set_logical_segment a seg)
unfolding set_logical_segment
set_segment-IsBytes {a} seg v = omega (arith, set_segment_byte1 a seg)

-- In an address that consists of bytes, a 12-bit offset is read back after it is set, and the
-- segment and the spare byte stay.
pub set_logical_offset_lem :
    {a : LogAddr} (offset : ℕ)
    → IsBytes a
    → offset < 2 ^ 12
    → (get_logical_offset (set_logical_offset a offset) ≡ offset)
      × (get_logical_segment (set_logical_offset a offset) ≡ get_logical_segment a)
      × (get_logical_spare (set_logical_offset a offset) ≡ get_logical_spare a)
unfolding set_logical_offset get_logical_spare
set_logical_offset_lem {a} offset v h = omega (
  arith,
  offset_lem v,
  offset_lem (set_offset-IsBytes offset v),
  segment_lem a,
  segment_lem (set_logical_offset a offset),
  set_offset_byte1 a offset,
)

-- In an address that consists of bytes, a 12-bit segment number is read back after it is set, and
-- the offset and the spare byte stay.
pub set_logical_segment_lem :
    {a : LogAddr} (seg : ℕ)
    → IsBytes a
    → seg < 2 ^ 12
    → (get_logical_segment (set_logical_segment a seg) ≡ seg)
      × (get_logical_offset (set_logical_segment a seg) ≡ get_logical_offset a)
      × (get_logical_spare (set_logical_segment a seg) ≡ get_logical_spare a)
unfolding set_logical_segment get_logical_spare
set_logical_segment_lem {a} seg v h = omega (
  arith,
  offset_lem v,
  offset_lem (set_segment-IsBytes seg v),
  segment_lem a,
  segment_lem (set_logical_segment a seg),
  set_segment_byte1 a seg,
)

pub segment_lt : {a : LogAddr} → IsBytes a → get_logical_segment a < 2 ^ 12
segment_lt {a} v = omega (arith, segment_lem a)

pub offset_lt : {a : LogAddr} → IsBytes a → get_logical_offset a < 2 ^ 12
offset_lt v = omega (arith, offset_lem v)

-- An address is determined by its three fields.
pub fields_ext :
    {a b : LogAddr}
    → IsBytes a
    → IsBytes b
    → get_logical_offset a ≡ get_logical_offset b
    → get_logical_segment a ≡ get_logical_segment b
    → get_logical_spare a ≡ get_logical_spare b
    → a ≡ b
unfolding get_logical_spare
fields_ext {a} {b} v w o s p =
    ground (arith, offset_lem v, offset_lem w, segment_lem a, segment_lem b)

copied_offset : LogAddr → LogAddr → LogAddr
copied_offset to from = set_logical_offset to (get_logical_offset from)

copied_segment : LogAddr → LogAddr → LogAddr
unfolding copied_offset
copied_segment to from = set_logical_segment (copied_offset to from) (get_logical_segment from)

copied_segment-IsBytes :
    {to : LogAddr} (from : LogAddr) → IsBytes to → IsBytes (copied_segment to from)
unfolding copied_segment copied_offset
copied_segment-IsBytes from v = set_segment-IsBytes _ (set_offset-IsBytes _ v)

copied_fields :
    {to from : LogAddr}
    → IsBytes to
    → IsBytes from
    → (get_logical_offset (copied_segment to from) ≡ get_logical_offset from)
      × (get_logical_segment (copied_segment to from) ≡ get_logical_segment from)
      × (get_logical_spare (copied_segment to from) ≡ get_logical_spare to)
unfolding copied_segment copied_offset
copied_fields {to} {from} v w = omega (
  arith,
  set_logical_offset_lem {a = to} (get_logical_offset from) v (offset_lt w),
  set_logical_segment_lem (get_logical_segment from)
      (set_offset-IsBytes (get_logical_offset from) v) (segment_lt w),
)

-- The truncated copy, where both addresses consist of bytes, takes the offset and the segment and
-- keeps the spare byte of the target.
pub copy_truncated_logical_address_lem :
    (to from : LogAddr)
    → IsBytes to
    → IsBytes from
    → copy_truncated_logical_address to from ≡ record from { byte3 = to.byte3 }
unfolding copy_truncated_logical_address copied_segment copied_offset get_logical_offset
    get_logical_segment get_logical_spare
copy_truncated_logical_address_lem to from v w =
    let (o, s, p) = copied_fields v w in
    fields_ext (copied_segment-IsBytes from v) (omega arith) o s p

-- Copying an address over another, where both consist of bytes, makes the target equal to the
-- source.
pub copy_logical_address_lem :
    (to from : LogAddr) → IsBytes to → IsBytes from → copy_logical_address to from ≡ from
unfolding copy_logical_address copy_truncated_logical_address set_logical_spare get_logical_spare
copy_logical_address_lem to from v w =
    ground (arith, copy_truncated_logical_address_lem to from v w)
