-- ===== src/Sequencing/Reclaim/Obsolete.antt =====
-- Marking pages as obsolete: what markAsObsolete does to the flash and to the counters.
use nandfs.Base.{
  ℕ, zero, suc, ◌+◌, ◌%◌, ◌^◌, ◌<◌, ◌≡◌, refl, ap, ◌∙◌, inl, inr, ◌⊎◌, Bool, true, false, not, ◌&&◌,
  arith, ◌==◌, if◌then◌else◌, Bool-cases, ==_iff, Option, some, subst,
}
use nandfs.Addr.{LogAddr, get_logical_segment}
use nandfs.Sequencing.Counters.{
  get_counter_level, increment_counter, change_counter_level_lem, obs_count_level_7,
}
use nandfs.Sequencing.Lfsr.{gen_rand_bit}
use nandfs.Sequencing.SegMap.{phy_address_empty}
use nandfs.Sequencing.Reclaim.{
  ObsCounters, init_levels, init_obs_counters, increase_obs_count, count_obsolete, Marks, mark_page,
  mark_as_obsolete, obs_count_no_obsoletes, obs_needed_prob,
}

init_levels_lem :
    (n : ℕ) (counters : ℕ → ℕ) (seg : ℕ)
    → seg < n
    → get_counter_level (init_levels n counters) seg ≡ 0
unfolding init_levels
init_levels_lem zero counters seg l = absurd (omega arith)
init_levels_lem (suc n) counters seg l =
    change_counter_level_lem (init_levels n counters) 0 n seg (omega arith)
    ∙ elim (Bool-cases (seg == n)) [
      | inl e ↦ rw e refl
      | inr e ↦ rw e (init_levels_lem n counters seg (ground arith))
    ]

-- After init_obs_counters no page counts as obsolete or free and every one of the 512 segments is at
-- the level for no obsolete pages, whatever the array held.
pub init_obs_counters_lem :
    (o : ObsCounters) (seg : ℕ)
    → seg < 512
    → (get_counter_level (init_obs_counters o).counters seg ≡ obs_count_no_obsoletes)
      × ((init_obs_counters o).counter ≡ 0)
      × ((init_obs_counters o).free_counter ≡ 0)
unfolding init_obs_counters
init_obs_counters_lem o seg l = (init_levels_lem 512 o.counters seg l, refl, refl)

-- An increment of the counter of a segment below level 15 leaves those of all others.
increment_other :
    (counters : ℕ → ℕ) (seg other : ℕ)
    → get_counter_level counters seg < 15
    → (other == seg) ≡ false
    → get_counter_level (increment_counter counters seg) other ≡ get_counter_level counters other
unfolding increment_counter
increment_other counters seg other l ne =
    elim (Bool-cases (obs_count_level_7 == get_counter_level counters seg)) [
      | inl e ↦ rw e refl
      | inr e ↦ rw e (
          change_counter_level_lem counters (get_counter_level counters seg + 1) seg other
            (omega arith)
          ∙ rw ne refl)
    ]

count_obsolete_lem :
    {F : Type 0} (s : Marks F) (seg : ℕ)
    → get_counter_level s.obs.counters seg < 15
    → let s1 = count_obsolete s seg in
      (s1.flash ≡ s.flash)
      × (s1.obs.counter ≡ (s.obs.counter + 1) % 2 ^ 32)
      × (s1.obs.free_counter ≡ s.obs.free_counter)
      × ((other : ℕ)
          → (other == seg) ≡ false
          → get_counter_level s1.obs.counters other ≡ get_counter_level s.obs.counters other)
unfolding count_obsolete increase_obs_count
count_obsolete_lem s seg l =
    elim (Bool-cases (obs_count_no_obsoletes == get_counter_level s.obs.counters seg)) [
      | inl e ↦ rw e (
        refl,
        refl,
        refl,
        λ other ne. change_counter_level_lem s.obs.counters 1 seg other (omega arith) ∙ rw ne refl,
      )
      | inr e ↦ elim (Bool-cases ((gen_rand_bit obs_needed_prob s.lfsr_state).0 == 0)) [
        | inl b ↦ rw (e, b) (refl, refl, refl, λ other ne. refl)
        | inr b ↦
            rw (e, b) (refl, refl, refl, λ other ne. increment_other s.obs.counters seg other l ne)
      ]
    ]

-- What marking the page `a` of a segment gives: a failure without a change of the counters, or a page
-- with the flag, where a page that had it counts only after a reboot, and no counter of another segment
-- changes.
abbrev pub IsMarked : {F : Type 0} → (F → ℕ → Bool) → Marks F → ℕ → ℕ → Bool → ℕ × Marks F → Type 0
IsMarked marked s seg a is_after_reboot (res, s1) =
    ((res ≡ 1) × (s1.obs ≡ s.obs))
    ⊎ ((res ≡ 0)
        × (marked s1.flash a ≡ true)
        × (s1.obs.counter ≡ (
            if marked s.flash a && not is_after_reboot
            then s.obs.counter
            else (s.obs.counter + 1) % 2 ^ 32))
        × ((other : ℕ)
            → (other == seg) ≡ false
            → get_counter_level s1.obs.counters other ≡ get_counter_level s.obs.counters other))

-- The driver's write and its flag of a page: a page whose write succeeds has the flag.
module _ {F : Type 0} (program_obsolete : F → ℕ → ℕ × F) (marked : F → ℕ → Bool) where
  abbrev pub Marking : Type 0
  Marking =
      (f : F) (a : ℕ) → (program_obsolete f a).0 ≡ 0 → marked ((program_obsolete f a).1) a ≡ true

  mark_page_lem :
      (s : Marks F) (seg a : ℕ) (is_after_reboot : Bool)
      → Marking
      → get_counter_level s.obs.counters seg < 15
      → IsMarked marked s seg a is_after_reboot
          (mark_page program_obsolete marked s seg a is_after_reboot)
  unfolding mark_page increase_obs_count
  mark_page_lem s seg a is_after_reboot marking l = elim (Bool-cases (a == phy_address_empty)) [
    | inl e ↦ rw e (inl (refl, refl))
    | inr e ↦ elim (Bool-cases (marked s.flash a)) [
      | inl t ↦ elim (Bool-cases is_after_reboot) [
        | inl b ↦ rw (e, t, b) (inr (refl, t, refl, λ other ne. refl))
        | inr b ↦ rw (e, t, b) (inr (refl, t, refl, λ other ne. refl))
      ]
      | inr t ↦ elim (Bool-cases ((program_obsolete s.flash a).0 == 0)) [
        | inr f ↦ rw (e, t, f) (inl (refl, refl))
        | inl f ↦
            let s1 : Marks F = record s { flash = (program_obsolete s.flash a).1 } in
            let (kept, counted, free, others) = count_obsolete_lem s1 seg l in
            rw (e, t, f)
              (inr (refl, rw kept (marking s.flash a ((==_iff _ 0).0 f)), counted, others))
      ]
    ]
  ]

  -- Where the address is translated to a page, the driver sets the flag of a page that it writes with
  -- success and the segment's counter is below 15, markAsObsolete fails without a change of the
  -- counters or leaves the page with the flag. A page that had the flag counts only after a reboot,
  -- any other page counts once, and no other segment's counter changes.
  pub mark_as_obsolete_lem :
      (translate : LogAddr → Option ℕ) (s : Marks F) (b : LogAddr) (a : ℕ) (is_after_reboot : Bool)
      → Marking
      → translate b ≡ some a
      → get_counter_level s.obs.counters (get_logical_segment b) < 15
      → (r : ℕ × Marks F) × (mark_as_obsolete program_obsolete marked translate s b is_after_reboot
          ≡ some r)
        × IsMarked marked s (get_logical_segment b) a is_after_reboot r
  unfolding mark_as_obsolete
  mark_as_obsolete_lem translate s b a is_after_reboot marking at l =
      let seg : ℕ = get_logical_segment b in
      (
        mark_page program_obsolete marked s seg a is_after_reboot,
        rw at refl,
        mark_page_lem s seg a is_after_reboot marking l,
      )

  mark_page_again :
      (s : Marks F) (seg a : ℕ)
      → (a == phy_address_empty) ≡ false
      → marked s.flash a ≡ true
      → mark_page program_obsolete marked s seg a false ≡ (0, s)
  unfolding mark_page
  mark_page_again s seg a ne t = rw (ne, t) refl

  mark_page_ne :
      (s s1 : Marks F) (seg a : ℕ) (is_after_reboot : Bool)
      → mark_page program_obsolete marked s seg a is_after_reboot ≡ (0, s1)
      → (a == phy_address_empty) ≡ false
  unfolding mark_page
  mark_page_ne s s1 seg a is_after_reboot run = elim (Bool-cases (a == phy_address_empty)) [
    | inr e ↦ e
    | inl e ↦ let one : 1 ≡ 0 = ap (λ r. r.0) (rw e at run) in absurd (omega (arith, one))
  ]

  -- Where the driver sets the flag of a page that it writes with success, the address is translated to
  -- a page and the segment's counter is below 15: once an address has been marked as obsolete with
  -- success, marking it again, not after a reboot, succeeds and changes nothing.
  pub mark_as_obsolete_twice :
      (translate : LogAddr → Option ℕ) (s s1 : Marks F) (b : LogAddr) (a : ℕ)
      (is_after_reboot : Bool)
      → Marking
      → translate b ≡ some a
      → get_counter_level s.obs.counters (get_logical_segment b) < 15
      → mark_as_obsolete program_obsolete marked translate s b is_after_reboot ≡ some (0, s1)
      → mark_as_obsolete program_obsolete marked translate s1 b false ≡ some (0, s1)
  unfolding mark_as_obsolete
  mark_as_obsolete_twice translate s s1 b a is_after_reboot marking at l run =
      let seg : ℕ = get_logical_segment b in
      let first : mark_page program_obsolete marked s seg a is_after_reboot ≡ (0, s1) =
        cc (rw at at run) in
      let outcome : IsMarked marked s seg a is_after_reboot (0, s1) =
        subst (IsMarked marked s seg a is_after_reboot) first
          (mark_page_lem s seg a is_after_reboot marking l) in
      elim outcome [
        | inl (bad, same) ↦ absurd (omega (arith, bad))
        | inr (ok, t, counted, others) ↦
            rw at
              (ap some (mark_page_again s1 seg a (mark_page_ne s s1 seg a is_after_reboot first) t))
      ]
