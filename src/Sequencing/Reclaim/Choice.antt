-- ===== src/Sequencing/Reclaim/Choice.antt =====
-- The choice of findSegmentToReclaim.
use nandfs.Base.{
  ℕ, zero, suc, ◌+◌, ◌<◌, ◌≤◌, ◌≡◌, refl, ap, ◌∙◌, sym, inl, inr, ◌⊎◌, Bool, true, false, arith,
  ◌==◌, Bool-cases, ==_iff, Option, none, some, subst,
}
use nandfs.Addr.{IsBytes}
use nandfs.Addr.Fields.{set_logical_segment_lem, set_logical_offset_lem, set_segment-IsBytes}
use nandfs.Sequencing.Counters.{get_counter_level}
use nandfs.Sequencing.SegMap.{
  SegMap, get_reclaimed_segment, get_reclaimed_offset, set_reclaimed_segment, set_reclaimed_offset,
}
use nandfs.Sequencing.Reclaim.{
  ObsCounters, obs_count_full, is_candidate, find_candidate, or_else, find_level, reclaim_from,
  find_segment_to_reclaim,
}

find_candidate_lem :
    (n : ℕ) (p : ℕ → Bool) (i end : ℕ)
    → i + n ≡ end
    → ((find_candidate n p i ≡ none) × ((j : ℕ) → i ≤ j → j < end → p j ≡ false))
      ⊎ ((r : ℕ) × (find_candidate n p i ≡ some r) × (i ≤ r) × (r < end) × (p r ≡ true))
unfolding find_candidate
find_candidate_lem zero p i end h = inl (refl, λ j a b. absurd (omega arith))
find_candidate_lem (suc n) p i end h = elim (Bool-cases (p i)) [
  | inl e ↦ rw e (inr (i, refl, omega arith, omega arith, e))
  | inr e ↦ elim (find_candidate_lem n p (i + 1) end (omega arith)) [
    | inr (r, found, lo, hi, ok) ↦ rw e (inr (r, found, omega arith, hi, ok))
    | inl (gone, none_of) ↦ rw e (
        inl (
          gone,
          λ j a b. elim (Bool-cases (j == i)) [
            | inl t ↦ let same : j ≡ i = (==_iff j i).0 t in ap p same ∙ e
            | inr t ↦ none_of j (ground arith) b
          ],
        ))
  ]
]

-- The segment may be chosen: it is a data segment, not the one reclaimed last, and not marked full.
abbrev pub IsEligible : (ℕ → ℕ) → ℕ → ℕ → Type 0
IsEligible counters reclaimed i =
    (i < 509)
    × ((i == reclaimed) ≡ false)
    × ((get_counter_level counters i == obs_count_full) ≡ false)

-- An eligible segment whose level no other eligible one exceeds, counting levels above `top` as `top`.
abbrev pub IsChosen : (ℕ → ℕ) → ℕ → ℕ → ℕ → Type 0
IsChosen counters reclaimed top i =
    IsEligible counters reclaimed i
    × (1 ≤ get_counter_level counters i)
    × ((j : ℕ)
        → IsEligible counters reclaimed j
        → (get_counter_level counters j ≤ get_counter_level counters i)
          ⊎ (top ≤ get_counter_level counters i))

-- What the search from `top` down finds: such a segment, or nothing, where all are at level 0.
abbrev pub IsBest : (ℕ → ℕ) → ℕ → ℕ → Option ℕ → Type 0
IsBest counters reclaimed top r =
    ((r ≡ none)
      × ((j : ℕ) → IsEligible counters reclaimed j → 1 ≤ top → get_counter_level counters j ≡ 0))
    ⊎ ((i : ℕ) × (r ≡ some i) × IsChosen counters reclaimed top i)

candidate_fields :
    (counters : ℕ → ℕ) (reclaimed level i : ℕ)
    → is_candidate counters reclaimed level i ≡ true
    → (level ≤ get_counter_level counters i)
      × ((i == reclaimed) ≡ false)
      × ((get_counter_level counters i == obs_count_full) ≡ false)
unfolding is_candidate
candidate_fields counters reclaimed level i h = ground arith

not_candidate :
    (counters : ℕ → ℕ) (reclaimed level i : ℕ)
    → is_candidate counters reclaimed level i ≡ false
    → IsEligible counters reclaimed i
    → get_counter_level counters i < level
unfolding is_candidate
not_candidate counters reclaimed level i h (lt, ne, full) = ground arith

zero_level : (level x : ℕ) → x < suc level → (1 ≤ level → x ≡ 0) → x ≡ 0
zero_level zero x l h = omega arith
zero_level (suc level) x l h = h (omega arith)

find_level_lem :
    (top : ℕ) (counters : ℕ → ℕ) (reclaimed : ℕ)
    → IsBest counters reclaimed top (find_level top counters reclaimed)
unfolding find_level or_else
find_level_lem zero counters reclaimed = inl (refl, λ j e l. absurd (omega arith))
find_level_lem (suc level) counters reclaimed =
    elim (find_candidate_lem 509 (is_candidate counters reclaimed (suc level)) 0 509 refl) [
      | inr (i, found, lo, hi, ok) ↦
          let (l, ne, full) = candidate_fields counters reclaimed (suc level) i ok in
          rw found (inr (i, refl, ((hi, ne, full), omega arith, λ j e. inr l)))
      | inl (gone, none_of) ↦ rw gone (
          lower counters reclaimed level
            (λ j e. not_candidate counters reclaimed (suc level) j (none_of j (omega arith) e.0) e)
            (find_level_lem level counters reclaimed))
    ]
  where
    lower :
        (counters : ℕ → ℕ) (reclaimed level : ℕ) {r : Option ℕ}
        → ((j : ℕ) → IsEligible counters reclaimed j → get_counter_level counters j < suc level)
        → IsBest counters reclaimed level r
        → IsBest counters reclaimed (suc level) r
    lower counters reclaimed level below (inl (gone, h)) =
        inl (gone, λ j e l. zero_level level (get_counter_level counters j) (below j e) (h j e))
    lower counters reclaimed level below (inr (i, found, (e, one, best))) = inr (
      i,
      found,
      (
        e,
        one,
        λ j k. elim (best j k) [ inl le ↦ inl le | inr le ↦ inl (omega (arith, below j k)) ],
      ),
    )

-- Setting the reclaimed address to the first page of a segment.
reclaimed_at :
    (m : SegMap) (i : ℕ)
    → IsBytes m.reclaimed_logical_addr
    → i < 509
    → let m1 = set_reclaimed_offset (set_reclaimed_segment m i) 0 in
      (get_reclaimed_segment m1 ≡ i) × (get_reclaimed_offset m1 ≡ 0)
unfolding set_reclaimed_offset set_reclaimed_segment get_reclaimed_segment get_reclaimed_offset
reclaimed_at m i v l =
    let (s, o, p) = set_logical_segment_lem i v (omega arith) in
    let (o1, s1, p1) = set_logical_offset_lem 0 (set_segment-IsBytes i v) (omega arith) in
    (s1 ∙ s, o1)

-- findSegmentToReclaim either fails without a change, and then every data segment other than the one
-- reclaimed last that is not marked full has no obsolete pages by its counter; or it succeeds with the
-- first page of such a segment that has some, and no other has a higher level below level 8.
pub find_segment_to_reclaim_lem :
    (m : SegMap) (o : ObsCounters)
    → IsBytes m.reclaimed_logical_addr
    → let rec = get_reclaimed_segment m in
      let (res, m1) = find_segment_to_reclaim m o in
      let i = get_reclaimed_segment m1 in
      ((res ≡ 1)
        × (m1 ≡ m)
        × ((j : ℕ) → IsEligible o.counters rec j → get_counter_level o.counters j ≡ 0))
      ⊎ ((res ≡ 0) × (get_reclaimed_offset m1 ≡ 0) × IsChosen o.counters rec 8 i)
unfolding find_segment_to_reclaim reclaim_from
find_segment_to_reclaim_lem m o v = elim (find_level_lem 8 o.counters (get_reclaimed_segment m)) [
  | inl (gone, h) ↦ rw gone (inl (refl, refl, λ j e. h j e (omega arith)))
  | inr (i, found, chosen) ↦
      let (at, zero_offset) = reclaimed_at m i v chosen.0.0 in
      rw found (
        inr (
          refl,
          zero_offset,
          subst (IsChosen o.counters (get_reclaimed_segment m) 8) (sym at) chosen,
        ))
]
