-- ===== src/Sequencing/NextSegment.antt =====
-- The next segment to write to: moveToNextSegment and writeSegmentHeader of
-- NANDFS/src/sequencing/sequencingUtils.c, as built without EXACT_COUNTERS. performWearLeveling and the
-- function that writes a checkpoint behind the header of a segment are parameters.
use nandfs.Base.{
  ℕ, ◌+◌, ◌-◌, ◌*◌, ◌/◌, ◌%◌, ◌^◌, true, false, not, ltb, ◌==◌, if◌then◌else◌, Option, some, ◌>>=◌,
  update,
}
use nandfs.Nand.{Bytes, set_slot_eu_offset, set_seg_type_flag}
use nandfs.Sequencing.Counters.{change_counter_level}
use nandfs.Sequencing.Lfsr.{gen_rand_bit}
use nandfs.Sequencing.Reserve.{calc_address, calculate_slot_id_and_eu_offset}
use nandfs.Sequencing.ValidEus.{calc_eu_start}
use nandfs.Sequencing.SegMap.{
  SegMap, seq_segments_count, is_eu_reserve_true, get_reclaimed_segment, get_reclaimed_segment_slot,
  set_reclaimed_segment, set_reclaimed_offset, increment_reclaimed_offset, is_state_reclamation,
}
use nandfs.Sequencing.Translate.{alloc_reserve_eu}
use nandfs.Sequencing.Reclaim.{obs_count_no_obsoletes, find_segment_to_reclaim}
use nandfs.Sequencing.Pages.{
  Driver, Writer, seg_type_used, chip_of, nand_program_total_page, truncate_slot,
}
use nandfs.Sequencing.Alloc.{error_flash_full, take_reserve}

-- POWER_SEQ_N_SLOTS_COUNT
abbrev pub wear_needed_prob : ℕ
wear_needed_prob = 9

-- SET_SEGMENT_TO_SLOT
unfoldable pub set_segment_to_slot : SegMap → ℕ → ℕ → SegMap
set_segment_to_slot m seg slot = record m { seg_to_slot_map = update m.seg_to_slot_map seg slot }

-- The first bytes of a segment header: eight of the sequence number and two of the segment.
unfoldable pub header_buf : ℕ → ℕ → Bytes
header_buf sequence_num segment_id i =
    if ltb i 8
    then sequence_num / 2 ^ (8 * i) % 2 ^ 8
    else if ltb i 10
    then segment_id / 2 ^ (8 * (i - 8)) % 2 ^ 8
    else 0xff

unfoldable pub header_page : SegMap → Bytes × ℕ
header_page m =
    let address = calc_address m.new_slot_id 0 0 in
    let buf =
      set_seg_type_flag 512 (header_buf m.sequence_num (get_reclaimed_segment m)) seg_type_used in
    if m.is_eu_reserve == is_eu_reserve_true
    then (set_slot_eu_offset 512 buf (calculate_slot_id_and_eu_offset address), m.reserve_eu_addr)
    else (buf, address)

unfoldable pub finish_segment : {F : Type 0} → Writer F → Writer F
finish_segment w =
    let seg = get_reclaimed_segment w.seg_map in
    let o = record (w.obs) {
      counters = change_counter_level w.obs.counters obs_count_no_obsoletes seg;
    } in
    record w { obs = if is_state_reclamation w.seg_map then o else w.obs; cp_written = true }

-- performWearLeveling and the function that writes a checkpoint into the header of a segment.
module _ {F : Type 0} (d : Driver F) (perform_wear_leveling : Writer F → Option (ℕ × Writer F))
    (cp_write : Writer F → Option (ℕ × Writer F)) where
  unfoldable pub write_segment_header : Writer F → Option (ℕ × Writer F)
  write_segment_header w =
      let m = record (w.seg_map) { sequence_num = (w.seg_map.sequence_num + 1) % 2 ^ 64 } in
      let (buf, address) = header_page m in
      let (res, f) = nand_program_total_page d w.flash buf address in
      let w1 = record w { seg_map = increment_reclaimed_offset m; flash = f } in
      let checkpoint = cp_write w1 >>= λ r. some (if r.0 == 0 then 0 else 1, r.1) in
      if res == 0 then checkpoint else some (1, record w { seg_map = m; flash = f })

  -- Emptying the old slot of a segment that has been copied. The slot for the next segment comes along.
  unfoldable pub leave_segment : Writer F → Option (ℕ × ℕ × Writer F)
  leave_segment w =
      let m = w.seg_map in
      let slot = get_reclaimed_segment_slot m in
      let left = truncate_slot d m slot false w.flash >>= λ r.
      let (res, f) = r in
      some (
        if res == 0
        then (
          0,
          slot,
          record w {
            seg_map = set_segment_to_slot m (get_reclaimed_segment m) m.new_slot_id;
            flash = f;
          },
        )
        else (1, slot, record w { flash = f })) in
      if is_state_reclamation m then left else some (0, seq_segments_count, w)

  unfoldable pub choose_reclaimed : ℕ × Writer F → Option (ℕ × Writer F)
  choose_reclaimed (res, w) =
      let (found, m) = find_segment_to_reclaim w.seg_map w.obs in
      if not (res == 0)
      then some (1, w)
      else if found == 0
      then some (0, record w { seg_map = m })
      else some (error_flash_full, w)

  -- The next segment to reclaim or to allocate.
  unfoldable pub choose_segment : ℕ → Writer F → Option (ℕ × Writer F)
  choose_segment new_slot w =
      let m = record (w.seg_map) { previously_written_segment = get_reclaimed_segment w.seg_map } in
      let (bit, random) = gen_rand_bit wear_needed_prob w.lfsr_state in
      let w1 = record w { seg_map = record m { new_slot_id = new_slot }; lfsr_state = random } in
      let leveled = perform_wear_leveling w1 >>= choose_reclaimed in
      let reclaimed = choose_reclaimed (0, w1) in
      let seg = get_reclaimed_segment m + 1 in
      let m1 = record m {
        new_slot_id = (m.new_slot_id + 1) % 2 ^ 32;
        n_segments = (m.n_segments + 1) % 2 ^ 32;
      } in
      let m2 = set_reclaimed_segment m1 seg in
      let allocated =
        set_segment_to_slot m2 (get_reclaimed_segment m2) (get_reclaimed_segment m2) in
      if m.n_segments == seq_segments_count
      then if bit == 0 then reclaimed else leveled
      else some (0, record w { seg_map = allocated })

  -- The first unit of the new slot. Where it is good the fields on reserve units are left as they are.
  unfoldable pub start_slot : Writer F → Option (ℕ × Writer F)
  start_slot w =
      let m = set_reclaimed_offset w.seg_map 0 in
      let first = calc_address m.new_slot_id 0 0 in
      let replaced =
        alloc_reserve_eu (chip_of d w.flash) (record m { is_eu_reserve = is_eu_reserve_true }) first
        >>= λ found.
            let (res, unit, m1) = take_reserve m found in some (res, record w { seg_map = m1 }) in
      if d.check_eu_status w.flash (calc_eu_start first)
      then some (0, record w { seg_map = m })
      else replaced

  unfoldable pub open_segment : Writer F → Option (ℕ × Writer F)
  open_segment w = start_slot w >>= λ r.
      (if r.0 == 0
        then (write_segment_header (r.1) >>= λ h.
            some (if h.0 == 0 then (0, finish_segment (h.1)) else (1, h.1)))
        else some r)

  unfoldable pub after_leave : ℕ × ℕ × Writer F → Option (ℕ × Writer F)
  after_leave (res, new_slot, w) =
      let next =
        choose_segment new_slot w >>= λ r. (if r.0 == 0 then open_segment (r.1) else some r) in
      if res == 0 then next else some (1, w)

  unfoldable pub move_to_next_segment : Writer F → Option (ℕ × Writer F)
  move_to_next_segment w = leave_segment w >>= after_leave
