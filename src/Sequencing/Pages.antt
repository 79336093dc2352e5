-- ===== src/Sequencing/Pages.antt =====
-- Writing and copying pages and emptying a slot: nandProgramTotalPage, writeBlock, copyValidBlock,
-- truncateSlot and set_cp_page_flag of NANDFS/src/sequencing/sequencingUtils.c, over the driver of the
-- flash. `none` stands for a failed assertion or a loop whose rounds are used up.

pub mod Copy
use nandfs.Base.{
  ℕ, zero, suc, ◌+◌, ◌-◌, ◌%◌, ◌^◌, Bool, not, ◌&&◌, ltb, ◌==◌, if◌then◌else◌, Option, none, some,
  ◌>>=◌,
}
use nandfs.Addr.{LogAddr, empty_address, copy_logical_address, is_address_empty}
use nandfs.Nand.{
  Bytes, nand_total_size, nand_page_count, get_slot_eu_offset, get_copy_back_flag, get_obs_flag,
  set_slot_eu_offset, set_seg_type_flag, set_copy_flag, set_checkpoint_flag,
}
use nandfs.Sequencing.Reserve.{
  Chip, calc_address, calc_offset_in_eu, calculate_slot_id_and_eu_offset,
  logical_address_to_reserve_physical,
}
use nandfs.Sequencing.ValidEus.{calc_eu_start}
use nandfs.Sequencing.SegMap.{SegMap, phy_address_empty, is_eu_reserve_true, get_reclaimed_offset}
use nandfs.Sequencing.Translate.{seq_no_slot_and_eu_offset, logical_address_to_physical}
use nandfs.Sequencing.Reclaim.{ObsCounters}

-- The driver over a flash `F`: nandCheckEuStatus; the result of nandReadPageTotal and the buffer after
-- it; what nandReadPageFlags leaves in a buffer of 0xff bytes; nandProgramPageA from the start of the
-- page on, with the length; nandErase.
pub record Driver (F : Type 0) : Type 0 where
  pub check_eu_status : F → ℕ → Bool
  pub read_page_total : F → ℕ → ℕ × Bytes
  pub read_page_flags : F → ℕ → Bytes
  pub program_page_a : F → Bytes → ℕ → ℕ → ℕ × F
  pub erase : F → ℕ → ℕ × F

-- The state that an allocation works on. `cp_written` is where the caller's cpWritten points to.
pub record Writer (F : Type 0) : Type 0 where
  pub seg_map : SegMap
  pub obs : ObsCounters
  pub lfsr_state : ℕ
  pub cp_written : Bool
  pub flash : F

abbrev pub seg_type_reserve : ℕ
seg_type_reserve = 0

abbrev pub seg_type_used : ℕ
seg_type_used = 3

abbrev pub copy_flag_true : ℕ
copy_flag_true = 0

-- set_cp_page_flag: CP_LOCATION_FIRST, CP_LOCATION_LAST or CP_LOCATION_MIDDLE.
unfoldable pub set_cp_page_flag : ℕ → Bytes → ℕ → ℕ → Bytes
set_cp_page_flag base b cp_page_idx cp_page_idx_max =
    set_checkpoint_flag base b
      (if cp_page_idx == 0 then 0 else if cp_page_idx == cp_page_idx_max then 2 else 1)

-- The buffer and the page of writeBlock.
unfoldable pub block_buffer : SegMap → Bytes → Bytes
block_buffer m content =
    let covered = calc_address m.new_slot_id 0 (get_reclaimed_offset m) in
    if m.is_eu_reserve == is_eu_reserve_true
    then set_seg_type_flag 512
        (set_slot_eu_offset 512 content (calculate_slot_id_and_eu_offset covered)) seg_type_reserve
    else set_seg_type_flag 512 content seg_type_used

unfoldable pub block_page : SegMap → ℕ → ℕ
block_page m phy_addr =
    if m.is_eu_reserve == is_eu_reserve_true
    then m.reserve_eu_addr + calc_offset_in_eu phy_addr
    else phy_addr

unfoldable pub copy_buffer : Bytes → ℕ → Bytes
copy_buffer buf org_phy_addr = set_slot_eu_offset 512 (set_copy_flag 512 buf copy_flag_true) (
    if org_phy_addr == phy_address_empty
    then seq_no_slot_and_eu_offset
    else calculate_slot_id_and_eu_offset org_phy_addr)

unfoldable pub after_erase : {F : Type 0} → (F → Option (ℕ × F)) → ℕ × F → Option (ℕ × F)
after_erase next (res, f) = if res == 0 then next f else some (1, f)

module _ {F : Type 0} (d : Driver F) where
  -- What the searches of reserve units see of the flash.
  unfoldable pub chip_of : F → Chip
  chip_of f = record {
    check_eu_status = d.check_eu_status f;
    slot_eu_offset = λ a. get_slot_eu_offset 0 (d.read_page_flags f a);
    copy_back_flag = λ a. get_copy_back_flag 0 (d.read_page_flags f a);
  }

  -- The last byte, with the obsolete flag, is left out unless the page is marked as obsolete.
  unfoldable pub nand_program_total_page : F → Bytes → ℕ → ℕ × F
  nand_program_total_page f buf phy_addr =
      let (res, f1) =
        d.program_page_a f buf phy_addr
          (if get_obs_flag 512 buf == 0 then nand_total_size else nand_total_size - 1) in
      (if res == 0 then 0 else 1, f1)

  -- The empty address if the write has failed.
  unfoldable pub write_block : Writer F → Bytes → ℕ → LogAddr × Writer F
  write_block w content phy_addr =
      let m = w.seg_map in
      let (res, f) =
        nand_program_total_page w.flash (block_buffer m content) (block_page m phy_addr) in
      (
        if res == 0
            then copy_logical_address empty_address m.reclaimed_logical_addr
            else empty_address,
        record w { flash = f },
      )

  -- Copying from the page `source`, which is that of the reclaimed address.
  unfoldable pub copy_from : Writer F → ℕ → ℕ → ℕ → ℕ × Writer F
  copy_from w phy_addr org_phy_addr source =
      let (res, buf) = d.read_page_total w.flash source in
      let (log_addr, w1) = write_block w (copy_buffer buf org_phy_addr) phy_addr in
      if not (res == 0) then (1, w) else (if is_address_empty log_addr then 1 else 0, w1)

  unfoldable pub copy_valid_block : Writer F → ℕ → ℕ → Option (ℕ × Writer F)
  copy_valid_block w phy_addr org_phy_addr =
      logical_address_to_physical (chip_of w.flash) w.seg_map w.seg_map.reclaimed_logical_addr
      >>= λ source. some (copy_from w phy_addr org_phy_addr source)

  -- The erasure of the unit of page `i`, or of the one that stands in for it.
  unfoldable pub erase_replacement : F → Option ℕ → Option (ℕ × F)
  erase_replacement f none = none
  erase_replacement f (some reserve_phy_addr) =
      some (if reserve_phy_addr == phy_address_empty then (0, f) else d.erase f reserve_phy_addr)

  unfoldable pub erase_unit : SegMap → Bool → F → ℕ → Option (ℕ × F)
  erase_unit m is_slot_reserve f i =
      if d.check_eu_status f (calc_eu_start i)
      then some (d.erase f i)
      else if is_slot_reserve
      then some (0, f)
      else erase_replacement f (logical_address_to_reserve_physical (chip_of f) m.seg_to_slot_map i)

  -- The loop of truncateSlot in at most `k` rounds, downwards from page `i`, which is unsigned.
  unfoldable pub truncate_units : ℕ → SegMap → Bool → ℕ → ℕ → F → Option (ℕ × F)
  truncate_units zero m is_slot_reserve phy_addr i f = none
  truncate_units (suc k) m is_slot_reserve phy_addr i f =
      let rest =
        erase_unit m is_slot_reserve f i
        >>= after_erase
            (truncate_units k m is_slot_reserve phy_addr ((i + 2 ^ 32 - 32) % 2 ^ 32)) in
      if ltb phy_addr i && ltb i nand_page_count then rest else some (0, f)

  -- A slot has four units.
  unfoldable pub truncate_slot : SegMap → ℕ → Bool → F → Option (ℕ × F)
  truncate_slot m slot_id is_slot_reserve f =
      let phy_addr = calc_address slot_id 0 0 in
      truncate_units 5 m is_slot_reserve phy_addr (phy_addr + 127) f
