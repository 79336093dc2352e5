-- ===== src/Addr.antt =====
-- Logical addresses: `logical_addr_struct` of NANDFS/src/sequencing/sequencing.h, its accessor
-- macros, setLogicalOffset, setLogicalSegment, copyLogicalAddress and copyTruncatedLogicalAddress of
-- NANDFS/src/sequencing/sequencingUtils.c, and the address tests of NANDFS/src/fs/fs.h.
-- A byte is a number; the operands of `|` are written low field first.
pub mod Fields
pub mod Empty
use nandfs.Base.{ℕ, ◌+◌, ◌*◌, ◌/◌, ◌%◌, ◌^◌, ◌<◌, bit_or, Bool, ◌&&◌, ◌==◌}

-- The four bytes: offset in bits 0 to 11, segment in bits 12 to 23, spare in bits 24 to 31.
pub record LogAddr : Type 0 where
  pub byte0 : ℕ
  pub byte1 : ℕ
  pub byte2 : ℕ
  pub byte3 : ℕ

-- What the type `uint8_t` gives each byte.
pub record IsBytes (a : LogAddr) : Type 0 where
  pub in0 : a.byte0 < 256
  pub in1 : a.byte1 < 256
  pub in2 : a.byte2 < 256
  pub in3 : a.byte3 < 256

unfoldable pub get_logical_offset : LogAddr → ℕ
get_logical_offset a = bit_or a.byte0 (a.byte1 % 16 * 2 ^ 8)

unfoldable pub get_logical_segment : LogAddr → ℕ
get_logical_segment a = bit_or (a.byte1 / 2 ^ 4 % 16) (a.byte2 * 2 ^ 4)

unfoldable pub get_logical_spare : LogAddr → ℕ
get_logical_spare a = a.byte3

unfoldable pub set_logical_offset : LogAddr → ℕ → LogAddr
set_logical_offset a offset = record a {
  byte0 = offset % 256;
  byte1 = bit_or (offset / 2 ^ 8 % 16) (a.byte1 / 2 ^ 4 % 16 * 2 ^ 4);
}

unfoldable pub set_logical_segment : LogAddr → ℕ → LogAddr
set_logical_segment a seg_num = record a {
  byte1 = bit_or (a.byte1 % 16) (seg_num % 16 * 2 ^ 4);
  byte2 = seg_num / 2 ^ 4 % 256;
}

unfoldable pub set_logical_spare : LogAddr → ℕ → LogAddr
set_logical_spare a spare = record a { byte3 = spare % 256 }

-- The first argument is the old content of the target.
unfoldable pub copy_logical_address : LogAddr → LogAddr → LogAddr
copy_logical_address to from =
    let a = set_logical_offset to (get_logical_offset from) in
    let b = set_logical_segment a (get_logical_segment from) in
    set_logical_spare b (get_logical_spare from)

unfoldable pub copy_truncated_logical_address : LogAddr → LogAddr → LogAddr
copy_truncated_logical_address to from =
    let a = set_logical_offset to (get_logical_offset from) in
    set_logical_segment a (get_logical_segment from)

-- `init_logical_address`: every byte 0xff.
abbrev pub empty_address : LogAddr
empty_address = record { byte0 = 0xff; byte1 = 0xff; byte2 = 0xff; byte3 = 0xff }

abbrev pub no_segment_num : ℕ
no_segment_num = 0xfff

-- IS_ADDRESS_EMPTY, which looks at the segment alone.
unfoldable pub is_address_empty : LogAddr → Bool
unfolding get_logical_segment
is_address_empty a = get_logical_segment a == no_segment_num

unfoldable pub compare_addr : LogAddr → LogAddr → Bool
unfolding get_logical_segment get_logical_offset
compare_addr a b =
    get_logical_segment a == get_logical_segment b && get_logical_offset a == get_logical_offset b

-- The address read as a little-endian `uint32_t`, and back.
abbrev pub to_uint32 : LogAddr → ℕ
to_uint32 a = a.byte0 + a.byte1 * 2 ^ 8 + a.byte2 * 2 ^ 16 + a.byte3 * 2 ^ 24

abbrev pub from_uint32 : ℕ → LogAddr
from_uint32 w = record {
  byte0 = w % 256;
  byte1 = w / 2 ^ 8 % 256;
  byte2 = w / 2 ^ 16 % 256;
  byte3 = w / 2 ^ 24 % 256;
}

-- IS_ADDR_EMPTY, which looks at the low 24 bits.
unfoldable pub is_addr_empty : LogAddr → Bool
is_addr_empty a = to_uint32 a % 2 ^ 24 == 0xffffff

abbrev pub addr_flag_free : ℕ
addr_flag_free = 1

abbrev pub addr_flag_taken : ℕ
addr_flag_taken = 0

unfoldable pub get_addr_flag : LogAddr → ℕ
get_addr_flag a = to_uint32 a / 2 ^ 31

unfoldable pub set_addr_flag : LogAddr → ℕ → LogAddr
set_addr_flag a flag = from_uint32 (bit_or (to_uint32 a % 2 ^ 31) (flag * 2 ^ 31))

unfoldable pub mark_block_with_hole : LogAddr → LogAddr
mark_block_with_hole a = set_addr_flag a addr_flag_free

unfoldable pub mark_block_no_hole : LogAddr → LogAddr
mark_block_no_hole a = set_addr_flag a addr_flag_taken

unfoldable pub is_addr_free : LogAddr → Bool
is_addr_free a = get_addr_flag a == addr_flag_free
