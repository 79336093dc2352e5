-- ===== src/Nand/Simulator.antt =====
-- The flash of the simulator: SIM/peripherals/nand.c, as built without DO_ECC, once nandInit has opened
-- the file. The chip with small pages has one file, of 65536 pages of 528 bytes; its reads and writes do
-- not fail. `none` stands for a failed assertion or a call of exit.
pub mod Access
pub mod Driver
pub mod Erase
use nandfs.Base.{
  ℕ, zero, suc, ◌+◌, ◌-◌, ◌*◌, ◌/◌, ◌%◌, ◌^◌, Bool, true, false, not, ◌&&◌, ltb, leb, ◌==◌,
  if◌then◌else◌, Option, none, some, ◌>>=◌, update,
}
use nandfs.Nand.{
  Bytes, empty_buf, nand_page_size, nand_spare_size, nand_total_size, nand_page_count,
  nand_pages_per_erase_unit, bad_eu_flag_byte,
}

-- The bytes of the file, the marks of the pages that have been written, and the buffer `buf` that an
-- erasure writes.
pub record Simulator : Type 0 where
  pub file : ℕ → ℕ
  pub main_area_writes : ℕ → ℕ
  pub spare_writes : ℕ → ℕ
  pub erase_buf : Bytes

abbrev pub pages_per_giga : ℕ
pages_per_giga = 2 ^ 21

abbrev pub giga_size : ℕ
giga_size = pages_per_giga * nand_total_size

abbrev pub file_size : ℕ
file_size = nand_page_count * nand_total_size

-- get_fp: the only file, or exit.
unfoldable pub get_fp : {A : Type 0} → ℕ → Option A → Option A
get_fp page rest = if ltb 0 (page / pages_per_giga) then none else rest

unfoldable pub position : ℕ → ℕ → ℕ
position page offset = page % pages_per_giga * nand_total_size + offset

-- fread of `len` bytes: what there is of them, and whether that was all.
unfoldable pub read_file : Simulator → Bytes → ℕ → ℕ → ℕ × Bytes
read_file s buf pos len = (
  if leb (pos + len) file_size then 0 else 1,
  λ i. if ltb i len && ltb (pos + i) file_size then s.file (pos + i) else buf i,
)

-- fwrite of `len` bytes.
unfoldable pub write_file : (ℕ → ℕ) → Bytes → ℕ → ℕ → ℕ → ℕ
write_file file buf pos len j = if leb pos j && ltb j (pos + len) then buf (j - pos) else file j

-- assert((page % PAGES_PER_GIGA) * NAND_TOTAL_SIZE + offset < GIGA_SIZE)
unfoldable pub assert_below : {A : Type 0} → ℕ → Option A → Option A
assert_below pos rest = if ltb pos giga_size then rest else none

unfoldable pub nand_read_page : Simulator → Bytes → ℕ → ℕ → ℕ → Option (ℕ × Bytes)
nand_read_page s buf page offset len = get_fp page (
    if not (ltb page nand_page_count)
    then some (1, buf)
    else assert_below (position page offset) (some (read_file s buf (position page offset) len)))

-- A page that does not exist fails an assertion here.
unfoldable pub nand_read_page_spare : Simulator → Bytes → ℕ → ℕ → ℕ → Option (ℕ × Bytes)
nand_read_page_spare s buf page offset len =
    let pos = position page (nand_page_size + offset) in
    let fixed = if ltb nand_spare_size (offset + len) then nand_spare_size - offset else len in
    get_fp page (
      if not (ltb page nand_page_count)
      then none
      else if ltb nand_spare_size offset
      then some (1, buf)
      else assert_below pos (some (read_file s buf pos fixed)))

-- A write that has passed the tests, and the marks it sets.
unfoldable pub program_main : Simulator → Bytes → ℕ → ℕ → ℕ → Option (ℕ × Simulator)
program_main s buf page offset len =
    let pos = position page offset in
    assert_below pos (
      if len == 0
      then some (1, s)
      else some (
        0,
        record s {
          file = write_file s.file buf pos len;
          main_area_writes = update s.main_area_writes page 1;
          spare_writes =
              if len == nand_total_size then update s.spare_writes page 1 else s.spare_writes;
        },
      ))

unfoldable pub nand_program_page_a : Simulator → Bytes → ℕ → ℕ → ℕ → Option (ℕ × Simulator)
nand_program_page_a s buf page offset len =
    let fixed =
      if ltb nand_total_size (offset % nand_total_size + len)
      then nand_total_size - offset % nand_total_size
      else len in
    get_fp page (
      if not (ltb page nand_page_count)
      then some (1, s)
      else if not (s.main_area_writes page == 0)
      then none
      else program_main s buf page offset fixed)

unfoldable pub program_spare : Simulator → Bytes → ℕ → ℕ → ℕ → Option (ℕ × Simulator)
program_spare s buf page offset len =
    let pos = position page (nand_page_size + offset) in
    assert_below pos (
      if len == 0
      then some (1, s)
      else some (
        0,
        record s {
          file = write_file s.file buf pos len;
          spare_writes = update s.spare_writes page 1;
        },
      ))

-- The length is unsigned.
unfoldable pub nand_program_page_c : Simulator → Bytes → ℕ → ℕ → ℕ → Option (ℕ × Simulator)
nand_program_page_c s buf page offset len =
    let start = offset % nand_total_size + nand_page_size in
    let fixed =
      if ltb nand_total_size (start + len)
      then (nand_total_size + 2 ^ 32 - start) % 2 ^ 32
      else len in
    get_fp page (
      if not (s.spare_writes page == 0)
      then none
      else if not (ltb page nand_page_count)
      then some (1, s)
      else program_spare s buf page offset fixed)

-- NAND_EU_MASK
unfoldable pub eu_start : ℕ → ℕ
eu_start page = page - page % nand_pages_per_erase_unit

-- The byte for bad units of a page.
unfoldable pub reads_good : Simulator → ℕ → Option Bool
reads_good s page = nand_read_page_spare s empty_buf page 0 nand_spare_size >>= λ r.
    some ((r.1) bad_eu_flag_byte == 0xff)

-- The first two pages of the unit are read; the result of the reads is not tested.
unfoldable pub nand_check_eu_status : Simulator → ℕ → Option Bool
nand_check_eu_status s phy_addr = get_fp phy_addr (
    reads_good s (eu_start phy_addr) >>= λ good.
    (if good then reads_good s (eu_start phy_addr + 1) else some false))

unfoldable pub mark_eu_as_bad : Simulator → ℕ → Option (ℕ × Simulator)
mark_eu_as_bad s page_addr =
    let mark = nand_program_page_c s (λ i. 0) (eu_start page_addr) bad_eu_flag_byte 1 >>= λ r.
    some (if r.0 == 0 then (1, r.1) else (0, r.1)) in
    nand_check_eu_status s page_addr >>= λ good. (if good then mark else some (1, s))

-- The loop of nandErase after its first `n` rounds.
unfoldable pub erase_pages : ℕ → Simulator → ℕ → Simulator
erase_pages zero s eu = s
erase_pages (suc j) s eu =
    let r = erase_pages j s eu in
    record r {
      main_area_writes = update r.main_area_writes (eu + j) 0;
      spare_writes = update r.spare_writes (eu + j) 0;
      file = write_file r.file s.erase_buf (position eu 0 + j * nand_total_size) nand_total_size;
    }

unfoldable pub erase_good : Simulator → ℕ → Option (ℕ × Simulator)
erase_good s eu =
    assert_below (position eu 0) (some (0, erase_pages nand_pages_per_erase_unit s eu))

unfoldable pub nand_erase : Simulator → ℕ → Option (ℕ × Simulator)
nand_erase s page_in_erase_unit =
    let eu = eu_start page_in_erase_unit in
    let erased =
      nand_check_eu_status s eu >>= λ good. (if good then erase_good s eu else some (0, s)) in
    get_fp page_in_erase_unit
      (if not (ltb page_in_erase_unit nand_page_count) then some (1, s) else erased)
