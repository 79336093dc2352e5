-- ===== src/Sequencing/ReadCheckpoint/Start.antt =====
-- The search for the first page of a checkpoint.
use nandfs.Base.{
  ℕ, zero, suc, ◌+◌, ◌-◌, ◌<◌, ◌≤◌, ◌≡◌, refl, ap, subst, ◌∙◌, true, false, ◌==◌, ltb, some, arith,
  ◌%◌, ◌^◌,
}
use nandfs.Addr.{LogAddr, IsBytes, get_logical_offset, get_logical_segment, set_logical_offset}
use nandfs.Addr.Fields.{set_logical_offset_lem, set_offset-IsBytes}
use nandfs.Nand.{Bytes, get_checkpoint_flag, get_bit}
use nandfs.Sequencing.Reserve.{calc_address}
use nandfs.Sequencing.SegMap.{get_reclaimed_segment}
use nandfs.Sequencing.Pages.{Driver, Writer}
use nandfs.Sequencing.NextPage.Stored.{IsAllocating}
use nandfs.Sequencing.Commit.Pages.{location}
use nandfs.Sequencing.ReadCheckpoint.{find_checkpoint_start}
use nandfs.Sequencing.ReadCheckpoint.Translated.{translated}

-- The pages of the slot are read without an error, and the flags that nandReadPageFlags reads are those
-- of the page.
pub record IsReadable {F : Type 0} (d : Driver F) (slot : ℕ) : Type 0 where
  pub reads : (f : F) (o : ℕ) → o < 128 → (d.read_page_total f (calc_address slot 0 o)).0 ≡ 0
  pub flags :
      (f : F) (o : ℕ)
      → o < 128
      → d.read_page_flags f (calc_address slot 0 o) 4
        ≡ ((d.read_page_total f (calc_address slot 0 o)).1) 516

-- An address of the reclaimed segment at an offset.
pub record IsAt {F : Type 0} (w : Writer F) (x : ℕ) (a : LogAddr) : Type 0 where
  pub bytes : IsBytes a
  pub segment : get_logical_segment a ≡ get_reclaimed_segment w.seg_map
  pub offset : get_logical_offset a ≡ x

spare_flag : (q b : Bytes) → b 4 ≡ q 516 → get_checkpoint_flag 0 b ≡ get_checkpoint_flag 512 q
unfolding get_checkpoint_flag get_bit
spare_flag q b e = rw e refl

module _ {F : Type 0} (d : Driver F) (slot : ℕ) (w : Writer F) (v : IsAllocating d slot w)
    (readable : IsReadable d slot) (pages o : ℕ) (l : 1 ≤ o) where
  abbrev mark_at : ℕ → ℕ
  mark_at x = get_checkpoint_flag 512 ((d.read_page_total w.flash (calc_address slot 0 x)).1)

  seen_flag :
      (x : ℕ)
      → x < 128
      → get_checkpoint_flag 0 (d.read_page_flags w.flash (calc_address slot 0 x)) ≡ mark_at x
  seen_flag x lx = spare_flag _ _ (readable.flags w.flash x lx)

  back :
      (x : ℕ) (a : LogAddr)
      → IsAt w (suc x) a
      → suc x < 128
      → IsAt w x (set_logical_offset a ((get_logical_offset a + 2 ^ 32 - 1) % 2 ^ 32))
  back x a at lx =
      let prev : (get_logical_offset a + 2 ^ 32 - 1) % 2 ^ 32 ≡ x = omega (arith, at.offset) in
      let (up, same, _) = set_logical_offset_lem x at.bytes (omega arith) in
      rw prev
        (record { bytes = set_offset-IsBytes x at.bytes; segment = same ∙ at.segment; offset = up })

  abbrev prev_of : LogAddr → LogAddr
  prev_of a = set_logical_offset a ((get_logical_offset a + 2 ^ 32 - 1) % 2 ^ 32)

  start_here :
      (rounds : ℕ) (a : LogAddr)
      → get_logical_segment a ≡ get_reclaimed_segment w.seg_map
      → get_logical_offset a < 128
      → mark_at (get_logical_offset a) ≡ 0
      → find_checkpoint_start d w.flash w.seg_map (suc rounds) a
        ≡ some (a, d.read_page_flags w.flash (calc_address slot 0 (get_logical_offset a)))
  unfolding find_checkpoint_start
  start_here rounds a seg lx mark =
      rw (translated d slot w a v seg lx, seen_flag (get_logical_offset a) lx, mark) refl

  start_back :
      (rounds : ℕ) (a : LogAddr)
      → get_logical_segment a ≡ get_reclaimed_segment w.seg_map
      → get_logical_offset a < 128
      → (mark_at (get_logical_offset a) == 0) ≡ false
      → ltb 0 (get_logical_offset (prev_of a)) ≡ true
      → find_checkpoint_start d w.flash w.seg_map (suc rounds) a
        ≡ find_checkpoint_start d w.flash w.seg_map rounds (prev_of a)
  unfolding find_checkpoint_start
  start_back rounds a seg lx mark more =
      rw (translated d slot w a v seg lx, seen_flag (get_logical_offset a) lx, mark, more) refl

  -- From a later page of the checkpoint the first one is found.
  pub find_checkpoint_start_lem :
      (e rounds : ℕ) (a : LogAddr)
      → e < rounds
      → IsAt w (o + e) a
      → o + e < 128
      → ((x : ℕ) → x ≤ e → mark_at (o + x) ≡ location pages x)
      → (b : LogAddr) × (flags : Bytes) × (find_checkpoint_start d w.flash w.seg_map rounds a
          ≡ some (b, flags))
        × IsAt w o b
  find_checkpoint_start_lem e zero a le at l128 marks = ground arith
  find_checkpoint_start_lem zero (suc rounds) a le at l128 marks =
      let o0 : o + 0 ≡ o = omega arith in
      let mark : mark_at (get_logical_offset a) ≡ 0 =
        ap mark_at at.offset ∙ marks 0 (omega arith) in
      (
        a,
        d.read_page_flags w.flash (calc_address slot 0 (get_logical_offset a)),
        start_here rounds a at.segment (omega (arith, at.offset)) mark,
        subst (λ x. IsAt w x a) o0 at,
      )
  find_checkpoint_start_lem (suc e) (suc rounds) a le at l128 marks =
      let step : o + suc e ≡ suc (o + e) = omega arith in
      let prev : IsAt w (o + e) (prev_of a) =
        back (o + e) a (subst (λ x. IsAt w x a) step at) (omega arith) in
      let here : mark_at (get_logical_offset a) ≡ location pages (suc e) =
        ap mark_at at.offset ∙ marks (suc e) (omega arith) in
      let mark : (mark_at (get_logical_offset a) == 0) ≡ false = ground (arith, here) in
      let more : ltb 0 (get_logical_offset (prev_of a)) ≡ true = ground (arith, prev.offset) in
      let (b, flags, ran, found) =
        find_checkpoint_start_lem e rounds (prev_of a) (omega arith) prev (omega arith)
          (λ x lx. marks x (omega arith)) in
      (b, flags, start_back rounds a at.segment (omega (arith, at.offset)) mark more ∙ ran, found)
