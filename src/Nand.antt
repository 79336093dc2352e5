-- ===== src/Nand.antt =====
-- The spare area of a page and its flags: SIM/peripherals/nand.h and SIM/system.h, for the chip with
-- small pages, of 512 bytes of data and 16 bytes of spare area. A buffer is the function from the index
-- to the byte there; `base` is where the spare area begins in it, 512 in the buffer of a whole page.
pub mod Flags
pub mod Simulator
use nandfs.Base.{
  ℕ, ◌+◌, ◌-◌, ◌*◌, ◌/◌, ◌%◌, ◌^◌, Bool, true, false, not, ◌==◌, if◌then◌else◌, update, bit_or,
}
use nandfs.Addr.{LogAddr, copy_truncated_logical_address}

abbrev pub Bytes : Type 0
Bytes = ℕ → ℕ

abbrev pub nand_page_size : ℕ
nand_page_size = 512

abbrev pub nand_spare_size : ℕ
nand_spare_size = 16

abbrev pub nand_total_size : ℕ
nand_total_size = 528

abbrev pub nand_pages_per_erase_unit : ℕ
nand_pages_per_erase_unit = 32

abbrev pub nand_page_count : ℕ
nand_page_count = 2 ^ 16

-- NAND_BAD_EU_FLAG_BYTE_NUM - 1
abbrev pub bad_eu_flag_byte : ℕ
bad_eu_flag_byte = 5

-- init_buf and initFlags: every byte 0xff.
abbrev pub empty_buf : Bytes
empty_buf = λ i. 0xff

-- GET_BIT and SET_BIT
unfoldable pub get_bit : Bytes → ℕ → ℕ → ℕ
get_bit b bit_num offset = b offset / 2 ^ bit_num % 2

unfoldable pub set_bit : Bytes → ℕ → ℕ → Bool → Bytes
set_bit b bit_num offset val =
    let cleared = b offset - b offset / 2 ^ bit_num % 2 * 2 ^ bit_num in
    update b offset (if val then cleared + 2 ^ bit_num else cleared)

unfoldable pub get_copy_back_flag : ℕ → Bytes → ℕ
get_copy_back_flag base b = get_bit b 7 (base + 3)

unfoldable pub set_copy_back_flag : ℕ → Bytes → ℕ → Bytes
set_copy_back_flag base b val = set_bit b 7 (base + 3) (not (val == 0))

unfoldable pub get_checkpoint_flag : ℕ → Bytes → ℕ
get_checkpoint_flag base b = get_bit b 6 (base + 4) + get_bit b 7 (base + 4) * 2

unfoldable pub set_checkpoint_flag : ℕ → Bytes → ℕ → Bytes
set_checkpoint_flag base b val =
    set_bit (set_bit b 6 (base + 4) (not (val % 2 == 0))) 7 (base + 4) (not (val / 2 % 2 == 0))

unfoldable pub get_vots_flag : ℕ → Bytes → ℕ
get_vots_flag base b = get_bit b 4 (base + 4) + get_bit b 5 (base + 4) * 2

unfoldable pub set_vots_flag : ℕ → Bytes → ℕ → Bytes
set_vots_flag base b val =
    set_bit (set_bit b 4 (base + 4) (not (val % 2 == 0))) 5 (base + 4) (not (val / 2 % 2 == 0))

unfoldable pub get_copy_flag : ℕ → Bytes → ℕ
get_copy_flag base b = get_bit b 3 (base + 4)

unfoldable pub set_copy_flag : ℕ → Bytes → ℕ → Bytes
set_copy_flag base b val = set_bit b 3 (base + 4) (not (val == 0))

unfoldable pub get_seg_type_flag : ℕ → Bytes → ℕ
get_seg_type_flag base b =
    get_bit b 0 (base + 4) + get_bit b 1 (base + 4) * 2 + get_bit b 2 (base + 4) * 4

unfoldable pub set_seg_type_flag : ℕ → Bytes → ℕ → Bytes
set_seg_type_flag base b val =
    let b1 = set_bit b 0 (base + 4) (not (val % 2 == 0)) in
    let b2 = set_bit b1 1 (base + 4) (not (val / 2 % 2 == 0)) in
    set_bit b2 2 (base + 4) (not (val / 4 % 2 == 0))

unfoldable pub get_slot_eu_offset : ℕ → Bytes → ℕ
get_slot_eu_offset base b = b (base + 6) + b (base + 7) * 2 ^ 8 + b (base + 8) * 2 ^ 16

unfoldable pub set_slot_eu_offset : ℕ → Bytes → ℕ → Bytes
set_slot_eu_offset base b val =
    let b1 = update b (base + 6) (val % 2 ^ 8) in
    let b2 = update b1 (base + 7) (val / 2 ^ 8 % 2 ^ 8) in
    update b2 (base + 8) (val / 2 ^ 16 % 2 ^ 8)

unfoldable pub get_obs_flag : ℕ → Bytes → ℕ
get_obs_flag base b = get_bit b 7 (base + 15)

unfoldable pub set_obs_flag : ℕ → Bytes → ℕ → Bytes
set_obs_flag base b val = set_bit b 7 (base + 15) (not (val == 0))

-- The three bytes of the previous address, and a fourth that the macros below do not touch.
unfoldable pub prev_address : ℕ → Bytes → LogAddr
prev_address base b = record {
  byte0 = b base;
  byte1 = b (base + 1);
  byte2 = b (base + 2);
  byte3 = b (base + 3);
}

-- copyPrevAddressToFlags
unfoldable pub copy_prev_address_to_flags : ℕ → Bytes → LogAddr → Bytes
copy_prev_address_to_flags base b prev =
    let a = copy_truncated_logical_address (prev_address base b) prev in
    update (update (update b base a.byte0) (base + 1) a.byte1) (base + 2) a.byte2

-- extract_prev_address
unfoldable pub extract_prev_address : ℕ → Bytes → LogAddr → LogAddr
extract_prev_address base b prev = copy_truncated_logical_address prev (prev_address base b)
