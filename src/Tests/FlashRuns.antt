-- ===== src/Tests/FlashRuns.antt =====
-- Writing, copying and erasing pages of an empty simulated flash.
use nandfs.Base.{
  ℕ, ◌+◌, ◌<◌, ◌≤◌, ◌≡◌, ◌⊎◌, refl, true, false, ◌==◌, ltb, ◌%◌, ◌-◌, Option, some, arith,
  if◌then◌else◌,
}
use nandfs.Addr.{LogAddr, IsBytes, get_logical_segment, get_logical_offset, empty_address}
use nandfs.Nand.{Bytes, empty_buf}
use nandfs.Nand.Simulator.{
  Simulator, nand_check_eu_status, nand_erase, eu_start, nand_program_page_a, program_main, get_fp,
  assert_below, reads_good, nand_read_page_spare, read_file, position,
}
use nandfs.Nand.Simulator.Access.{read_page_lem, small, below}
use nandfs.Nand.Simulator.Driver.{simulator, simulator-IsDriver, status_lem}
use nandfs.Nand.Simulator.Erase.{IsErased, nand_erase_lem}
use nandfs.Sequencing.Reserve.{calc_address}
use nandfs.Sequencing.ValidEus.{calc_eu_start}
use nandfs.Sequencing.SegMap.{
  SegMap, get_reclaimed_segment, get_reclaimed_offset, get_reclaimed_segment_slot,
  is_state_reclamation,
}
use nandfs.Sequencing.Pages.{Writer}
use nandfs.Sequencing.Alloc.{copy_pages}
use nandfs.Sequencing.Alloc.Reclaimed.{IsReclaiming}
use nandfs.Sequencing.Alloc.Walk.{IsWalk, copy_pages_lem}
use nandfs.Sequencing.NextPage.{is_flash_full, all_full}
use nandfs.Sequencing.NextPage.Stored.{IsAllocating}
use nandfs.Sequencing.NextPage.Readback.{IsStored, alloc_and_write_block_lem}

abbrev erased : Simulator
erased = record {
  file = λ j. 255;
  main_area_writes = λ page. 0;
  spare_writes = λ page. 0;
  erase_buf = λ i. 255;
}

-- Offset 5 of segment 3, which has slot 3.
abbrev address : LogAddr
address = record { byte0 = 5; byte1 = 48; byte2 = 0; byte3 = 255 }

abbrev pub map_of : ℕ → ℕ → SegMap
map_of n_segments new_slot_id = record {
  seg_to_slot_map = λ seg. seg;
  reclaimed_logical_addr = address;
  previously_written_segment = 2;
  reserve_eu_addr = 0xffffffff;
  n_segments = n_segments;
  is_eu_reserve = 1;
  new_slot_id = new_slot_id;
  sequence_num = 7;
}

abbrev pub writer_of : SegMap → Writer Simulator
writer_of m = record {
  seg_map = m;
  obs = record { counters = λ i. 0; counter = 0; free_counter = 100 };
  lfsr_state = 1;
  cp_written = false;
  flash = erased;
}

address-IsBytes : IsBytes address
address-IsBytes = record {
  in0 = omega arith;
  in1 = omega arith;
  in2 = omega arith;
  in3 = omega arith;
}

all_good : (u : ℕ) → u < 65536 → simulator.check_eu_status erased u ≡ true
all_good u l = status_lem erased u l

good_slot :
    (slot o : ℕ)
    → slot < 512
    → o < 128
    → simulator.check_eu_status erased (calc_eu_start (calc_address slot 0 o)) ≡ true
unfolding calc_eu_start calc_address
good_slot slot o l lo = all_good _ (omega arith)

pub allocating : IsAllocating simulator 3 (writer_of (map_of 4 3))
unfolding get_reclaimed_segment get_reclaimed_segment_slot is_state_reclamation get_logical_segment
allocating = record {
  bytes = address-IsBytes;
  some_segment = refl;
  state = refl;
  at = refl;
  some_slot = refl;
  regular = refl;
  unused = refl;
  good = λ o l. good_slot 3 o (omega arith) l;
}

pub old_page : (o : ℕ) → o < 128 → calc_address 3 0 o < 65536
unfolding calc_address
old_page o l = omega arith

reclaiming : IsReclaiming simulator 3 20 (writer_of (map_of 509 20))
unfolding get_reclaimed_segment get_reclaimed_segment_slot is_state_reclamation get_logical_segment
reclaiming = record {
  bytes = address-IsBytes;
  some_segment = refl;
  state = refl;
  from = refl;
  to = refl;
  ne = refl;
  slot = refl;
  regular = refl;
  unused = refl;
  good_old = λ o l. good_slot 3 o (omega arith) l;
  good_new = λ o l. good_slot 20 o (omega arith) l;
  unmarked = λ o l. rw (read_page_lem erased empty_buf (calc_address 3 0 o) (old_page o l)) refl;
}

pub offset_lem : (n slot : ℕ) → get_reclaimed_offset (map_of n slot) ≡ 5
unfolding get_reclaimed_offset get_logical_offset
offset_lem n slot = refl

copy_pages_lem_example :
    (r : Option ℕ × Writer Simulator) × (copy_pages simulator 129 0 (writer_of (map_of 509 20))
      ≡ some r)
    × IsWalk simulator 0 3 20 (writer_of (map_of 509 20)) r
copy_pages_lem_example =
    copy_pages_lem simulator 129 0 3 20 (writer_of (map_of 509 20)) simulator-IsDriver reclaiming
      (omega (arith, offset_lem 509 20)) (omega (arith, offset_lem 509 20))
      (omega (arith, offset_lem 509 20))

abbrev pub no_call : Writer Simulator → Option (ℕ × Writer Simulator)
no_call w = some (0, w)

abbrev content : Bytes
content i = if i == 0 then 65 else 0

programs :
    (page len : ℕ) (b : Bytes)
    → page < 65536
    → 527 ≤ len
    → (simulator.program_page_a erased b page len).0 ≡ 0
unfolding nand_program_page_a program_main get_fp assert_below
programs page len b l long =
    let low : ltb page 65536 ≡ true = ground arith in
    let some_bytes : ((if ltb 528 (0 % 528 + len) then 528 - 0 % 528 else len) == 0) ≡ false =
      ground arith in
    rw (small page l, low, below page 0 l (omega arith), some_bytes) refl

not_full : is_flash_full (writer_of (map_of 4 3)).obs ≡ false
unfolding is_flash_full all_full
not_full = refl

alloc_and_write_block_lem_example :
    IsStored simulator no_call no_call 3
      (writer_of (map_of 4 3))
      empty_address
      content
      true
      empty_address
alloc_and_write_block_lem_example =
    alloc_and_write_block_lem simulator no_call no_call 3 (writer_of (map_of 4 3)) empty_address
      content true empty_address simulator-IsDriver allocating
      (record { in0 = omega arith; in1 = omega arith; in2 = omega arith; in3 = omega arith })
      (omega (arith, offset_lem 4 3)) (omega (arith, offset_lem 4 3)) not_full
      (λ b len long. programs _ len b (old_page _ (omega (arith, offset_lem 4 3))) long)

erased_good : nand_check_eu_status erased (eu_start 70) ≡ some true
unfolding nand_check_eu_status eu_start get_fp reads_good nand_read_page_spare read_file position
    assert_below
erased_good = refl

nand_erase_lem_example :
    (r : Simulator) × (nand_erase erased 70 ≡ some (0, r))
    × (((true ≡ true) × IsErased erased (eu_start 70) 32 r) ⊎ ((true ≡ false) × (r ≡ erased)))
nand_erase_lem_example = nand_erase_lem erased 70 true (omega arith) erased_good
