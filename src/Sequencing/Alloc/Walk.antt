-- ===== src/Sequencing/Alloc/Walk.antt =====
-- Reclamation of a segment up to its next free page: the inner loop of findNextFreePage.
use nandfs.Base.{
  ℕ, zero, suc, ◌+◌, ◌<◌, ◌≤◌, ◌≡◌, ◌⊎◌, inl, inr, refl, sym, ap, ◌∙◌, Bool, true, false, not, ◌&&◌,
  ◌||◌, ◌==◌, Option, none, some, arith, Bool-cases, ==_iff, subst, leb, ◌>>=◌,
}
use nandfs.Addr.{IsBytes, no_segment_num, set_logical_offset}
use nandfs.Addr.Fields.{set_offset-IsBytes}
use nandfs.Nand.{Bytes, get_obs_flag, get_checkpoint_flag}
use nandfs.Sequencing.Reserve.{calc_address}
use nandfs.Sequencing.SegMap.{
  SegMap, get_reclaimed_segment, get_reclaimed_offset, get_reclaimed_segment_slot,
  set_reclaimed_offset, increment_reclaimed_offset, is_state_reclamation,
  is_seg_map_page_offset_overflowing,
}
use nandfs.Sequencing.Translate.Target.{increment_reclaimed_offset_lem}
use nandfs.Sequencing.Pages.{Driver, Writer}
use nandfs.Sequencing.Pages.Copy.{IsCopy, IsDriver, IsFaulty}
use nandfs.Sequencing.Alloc.{find_target, use_target, next_round, copy_pages}
use nandfs.Sequencing.Alloc.Reclaimed.{is_valid, IsReclaiming, IsRound, round_lem}

pages_ne :
    (old new o p : ℕ)
    → (old == new) ≡ false
    → o < 128
    → p < 128
    → (calc_address old 0 o == calc_address new 0 p) ≡ false
unfolding calc_address
pages_ne old new o p ne lo lp = ground arith

offsets_ne :
    (new o p : ℕ) → (o == p) ≡ false → (calc_address new 0 o == calc_address new 0 p) ≡ false
unfolding calc_address
offsets_ne new o p ne = ground arith

pub increment-IsBytes :
    (m : SegMap)
    → IsBytes m.reclaimed_logical_addr
    → IsBytes (increment_reclaimed_offset m).reclaimed_logical_addr
unfolding increment_reclaimed_offset set_reclaimed_offset set_logical_offset
increment-IsBytes m v = set_offset-IsBytes (get_reclaimed_offset m + 1) v

module _ {F : Type 0} (d : Driver F) where
  -- Other pages and the states of the units are unchanged.
  abbrev Kept : (ℕ → Bool) → Writer F → Writer F → Type 0
  Kept p w r =
      (c : ℕ)
      → p c ≡ false
      → (d.read_page_total r.flash c ≡ d.read_page_total w.flash c)
        × (d.read_page_flags r.flash c ≡ d.read_page_flags w.flash c)

  advanced :
      (old new : ℕ) (w r : Writer F)
      → IsReclaiming d old new w
      → get_reclaimed_offset w.seg_map < 128
      → r.seg_map ≡ increment_reclaimed_offset w.seg_map
      → Kept (λ c. c == calc_address new 0 (get_reclaimed_offset w.seg_map)) w r
      → ((u : ℕ) → d.check_eu_status r.flash u ≡ d.check_eu_status w.flash u)
      → IsReclaiming d old new r
        × (get_reclaimed_offset r.seg_map ≡ get_reclaimed_offset w.seg_map + 1)
  unfolding get_reclaimed_segment_slot increment_reclaimed_offset set_reclaimed_offset
  advanced old new w r v l at kept status =
      let (o, s, state) = increment_reclaimed_offset_lem w.seg_map v.bytes l in
      (
        record {
          bytes =
              subst (λ (m : SegMap). IsBytes m.reclaimed_logical_addr) (sym at)
                (increment-IsBytes w.seg_map v.bytes);
          some_segment =
              ap (λ m. get_reclaimed_segment m == no_segment_num) at
              ∙ ap (λ (x : ℕ). x == no_segment_num) s
              ∙ v.some_segment;
          state = ap is_state_reclamation at ∙ state ∙ v.state;
          from =
              ap get_reclaimed_segment_slot at
              ∙ ap (λ (x : ℕ). w.seg_map.seg_to_slot_map x) s
              ∙ v.from;
          to = ap (λ m. m.new_slot_id) at ∙ v.to;
          ne = v.ne;
          slot = v.slot;
          regular = ap (λ m. m.is_eu_reserve) at ∙ v.regular;
          unused = ap (λ m. m.reserve_eu_addr) at ∙ v.unused;
          good_old = λ p lp. status _ ∙ v.good_old p lp;
          good_new = λ p lp. status _ ∙ v.good_new p lp;
          unmarked = λ p lp.
              ap (λ (x : ℕ × Bytes). (x.1) 517)
                (kept (calc_address old 0 p) (pages_ne old new p _ v.ne lp l)).0
              ∙ v.unmarked p lp;
        },
        ap get_reclaimed_offset at ∙ o,
      )

  -- The end of the walk at offset `e`: the segment has ended; or the page there is not to be copied and
  -- the result is the one for success; or it is valid, its read or the write of its copy has failed and
  -- the result is 1.
  abbrev IsEnd : ℕ → ℕ → ℕ → F → Option ℕ × Writer F → ℕ → Type 0
  IsEnd ok_error_code old new f (res, r) e =
      ((res ≡ none) × (e ≡ 128) × (get_reclaimed_offset r.seg_map ≡ e))
      ⊎ ((res ≡ some ok_error_code)
          × (e < 128)
          × (get_reclaimed_offset r.seg_map ≡ e)
          × (is_valid d f (calc_address old 0 e) ≡ false))
      ⊎ ((res ≡ some 1)
          × (e < 128)
          × (is_valid d f (calc_address old 0 e) ≡ true)
          × ((g : F) × (d.read_page_total g (calc_address old 0 e)
                ≡ d.read_page_total f (calc_address old 0 e))
              × IsFaulty d g (calc_address old 0 e) (calc_address new 0 e)))

  -- Every page from the offset at the start up to the one at the end is valid and has a copy at the same
  -- offset of the new slot. No page but those of the new slot from the start to the end has changed.
  abbrev pub IsWalk : ℕ → ℕ → ℕ → Writer F → Option ℕ × Writer F → Type 0
  IsWalk ok_error_code old new w (res, r) =
      let s = get_reclaimed_offset w.seg_map in
      (e : ℕ) × (s ≤ e)
      × (e ≤ 128)
      × IsEnd ok_error_code old new w.flash (res, r) e
      × ((o : ℕ)
          → s ≤ o
          → o < e
          → (is_valid d w.flash (calc_address old 0 o) ≡ true)
            × IsCopy ((d.read_page_total w.flash (calc_address old 0 o)).1)
                ((d.read_page_total r.flash (calc_address new 0 o)).1))
      × ((c : ℕ)
          → ((o : ℕ) → s ≤ o → o ≤ e → (c == calc_address new 0 o) ≡ false)
          → (d.read_page_total r.flash c ≡ d.read_page_total w.flash c)
            × (d.read_page_flags r.flash c ≡ d.read_page_flags w.flash c))

  -- A copied page, and the walk over the pages behind it.
  extended :
      (ok_error_code old new : ℕ) (w w1 : Writer F) (r : Option ℕ × Writer F)
      → (old == new) ≡ false
      → get_reclaimed_offset w.seg_map < 128
      → get_reclaimed_offset w1.seg_map ≡ get_reclaimed_offset w.seg_map + 1
      → is_valid d w.flash (calc_address old 0 (get_reclaimed_offset w.seg_map)) ≡ true
      → IsCopy
          ((d.read_page_total w.flash (calc_address old 0 (get_reclaimed_offset w.seg_map))).1)
          ((d.read_page_total w1.flash (calc_address new 0 (get_reclaimed_offset w.seg_map))).1)
      → Kept (λ c. c == calc_address new 0 (get_reclaimed_offset w.seg_map)) w w1
      → IsWalk ok_error_code old new w1 r
      → IsWalk ok_error_code old new w r
  extended ok_error_code old new w w1 (res, r) ne l next valid copy kept
        (e, a, b, end, copies, frame) =
      let s : ℕ = get_reclaimed_offset w.seg_map in
      let same : (o : ℕ)
          → o < 128
          → is_valid d w1.flash (calc_address old 0 o) ≡ is_valid d w.flash (calc_address old 0 o) =
        λ o lo.
          ap (λ (f : Bytes). not (get_obs_flag 0 f == 0) && (get_checkpoint_flag 0 f == 3))
            (kept (calc_address old 0 o) (pages_ne old new o s ne lo l)).1 in
      let first : (valid_page : is_valid d w.flash (calc_address old 0 s) ≡ true) × IsCopy
            ((d.read_page_total w.flash (calc_address old 0 s)).1)
            ((d.read_page_total r.flash (calc_address new 0 s)).1) =
        (
          valid,
          subst
              (λ (x : ℕ × Bytes).
                IsCopy ((d.read_page_total w.flash (calc_address old 0 s)).1) (x.1))
              (sym
                (frame (calc_address new 0 s)
                  (λ p x y. offsets_ne new s p (ground (arith, x, next)))).0)
              copy,
        ) in
      (
        e,
        omega (arith, next),
        b,
        elim end [
          | inl done ↦ inl done
          | inr (inl (x, y, z, invalid)) ↦ inr (inl (x, y, z, sym (same e y) ∙ invalid))
          | inr (inr (x, y, valid_page, (g, reads, fault))) ↦ inr (
              inr (
                x,
                y,
                sym (same e y) ∙ valid_page,
                (g, reads ∙ (kept (calc_address old 0 e) (pages_ne old new e s ne y l)).0, fault),
              ))
        ],
        (λ o x y. elim (Bool-cases (o == s)) [
          | inl at ↦
              subst
                (λ (p : ℕ).
                  (is_valid d w.flash (calc_address old 0 p) ≡ true)
                  × IsCopy ((d.read_page_total w.flash (calc_address old 0 p)).1)
                      ((d.read_page_total r.flash (calc_address new 0 p)).1))
                (sym ((==_iff o s).0 at)) first
          | inr off ↦
              let (valid_page, copied) = copies o (ground (arith, x, off, next)) y in
              (
                sym (same o (omega (arith, y, b))) ∙ valid_page,
                subst
                    (λ (x : ℕ × Bytes).
                      IsCopy (x.1) ((d.read_page_total r.flash (calc_address new 0 o)).1))
                    (kept (calc_address old 0 o)
                      (pages_ne old new o s ne (omega (arith, y, b)) l)).0
                    copied,
              )
        ]),
        (λ c h.
            let (x, y) = frame c (λ p lo hi. h p (omega (arith, lo, next)) hi) in
            let (x1, y1) = kept c (h s (omega arith) (omega (arith, a, next))) in (x ∙ x1, y ∙ y1)),
      )

  -- Where a segment in a slot of good units is being moved to another slot of good units and the pages of
  -- the old slot have 0xff in the byte for bad units, the inner loop of findNextFreePage ends from any
  -- offset but 0 on: at the end of the slot; at a page that is not to be copied; or, with the result 1, at
  -- a valid page whose read has failed or the write of whose copy has. All pages before are valid and have
  -- copies at the same offsets of the new slot, with their content, previous address and marks for votes;
  -- no page outside the range that was written changes.
  pub copy_pages_lem :
      (k ok_error_code old new : ℕ) (w : Writer F)
      → IsDriver d
      → IsReclaiming d old new w
      → 1 ≤ get_reclaimed_offset w.seg_map
      → get_reclaimed_offset w.seg_map ≤ 128
      → 128 < k + get_reclaimed_offset w.seg_map
      → (r : Option ℕ × Writer F) × (copy_pages d k ok_error_code w ≡ some r)
        × IsWalk ok_error_code old new w r
  unfolding copy_pages is_seg_map_page_offset_overflowing next_round
  copy_pages_lem zero ok_error_code old new w driver v a b fuel = absurd (omega arith)
  copy_pages_lem (suc k) ok_error_code old new w driver v a b fuel =
      let o : ℕ = get_reclaimed_offset w.seg_map in
      elim (Bool-cases (leb 128 o || (o == 0))) [
        | inl over ↦ (
          (none, w),
          rw over refl,
          (
            o,
            omega arith,
            b,
            inl (refl, ground (arith, over), refl),
            (λ p x y. absurd (omega arith)),
            λ c h. (refl, refl),
          ),
        )
        | inr under ↦
            let l : o < 128 = ground (arith, under) in
            go (λ w1 v1 x y z. copy_pages_lem k ok_error_code old new w1 driver v1 x y z) under l
              (round_lem d ok_error_code old new w v l driver)
      ]
    where
      go :
          ((w1 : Writer F)
            → IsReclaiming d old new w1
            → 1 ≤ get_reclaimed_offset w1.seg_map
            → get_reclaimed_offset w1.seg_map ≤ 128
            → 128 < k + get_reclaimed_offset w1.seg_map
            → (r : Option ℕ × Writer F) × (copy_pages d k ok_error_code w1 ≡ some r)
              × IsWalk ok_error_code old new w1 r)
          → (leb 128 (get_reclaimed_offset w.seg_map) || (get_reclaimed_offset w.seg_map == 0))
            ≡ false
          → get_reclaimed_offset w.seg_map < 128
          → (x : Option ℕ × Writer F) × ((find_target d w >>= use_target d ok_error_code) ≡ some x)
            × IsRound d ok_error_code old new w x
          → (r : Option ℕ × Writer F) × (copy_pages d (suc k) ok_error_code w ≡ some r)
            × IsWalk ok_error_code old new w r
      go ih under l ((res, w1), ran, inl (ok, invalid, same, map)) = (
        (some ok_error_code, w1),
        rw (under, ran, ok) refl,
        (
          get_reclaimed_offset w.seg_map,
          omega arith,
          b,
          inr (inl (refl, l, ap get_reclaimed_offset map, invalid)),
          (λ p x y. absurd (omega arith)),
          λ c h. (ap (λ f. d.read_page_total f c) same, ap (λ f. d.read_page_flags f c) same),
        ),
      )
      go ih under l ((res, w1), ran, inr (valid, inr (bad, fault), kept, status)) = (
        (some 1, w1),
        rw (under, ran, bad) refl,
        (
          get_reclaimed_offset w.seg_map,
          omega arith,
          b,
          inr (inr (refl, l, valid, (w.flash, refl, fault))),
          (λ p x y. absurd (omega arith)),
          λ c h. kept c (h (get_reclaimed_offset w.seg_map) (omega arith) (omega arith)),
        ),
      )
      go ih under l ((res, w1), ran, inr (valid, inl (go_on, map, copy), kept, status)) =
          let (v1, next) = advanced old new w w1 v l map kept status in
          let (r, rest, walk) =
            ih w1 v1 (omega (arith, next)) (omega (arith, next, l)) (omega (arith, next, fuel)) in
          (
            r,
            rw (under, ran, go_on) rest,
            extended ok_error_code old new w w1 r v.ne l next valid copy kept walk,
          )
