-- ===== src/Sequencing/Reserve/Search.antt =====
-- The search of logicalAddressToReservePhysical against the units of the reserve segments.
use nandfs.Base.{
  ℕ, zero, suc, ◌+◌, ◌-◌, ◌*◌, ◌%◌, ◌^◌, ◌<◌, ◌≤◌, ◌≡◌, refl, sym, ap, ◌∙◌, inl, inr, ◌⊎◌, Bool,
  true, false, arith, ◌==◌, Bool-cases, ==_iff, Option, none, some, ◌>>=◌, subst,
}
use nandfs.Sequencing.Reserve.{
  Chip, seq_phy_address_empty, calc_address, calc_offset_in_eu, calc_eu_offset,
  calculate_slot_id_and_eu_offset, is_reserve_for, next_offset, next_address, scan_slot, found_or,
  scan_segments, page_in_unit, logical_address_to_reserve_physical,
}

-- What a scan of `k` units from `offset` on finds in the slot that begins at `base`.
abbrev Scanned : (ℕ → Bool) → ℕ → ℕ → ℕ → Option ℕ → Type 0
Scanned p base offset k r =
    ((r ≡ none) × ((j : ℕ) → j < k → p (base + (offset + j) % 4 * 2 ^ 5) ≡ false))
    ⊎ ((e : ℕ) × (e < 4) × (r ≡ some (base + e * 2 ^ 5)) × (p (base + e * 2 ^ 5) ≡ true))

next_offset_lem : (offset : ℕ) → offset < 4 → next_offset offset ≡ (offset + 1) % 4
unfolding next_offset
next_offset_lem offset l = ground arith

next_address_lem :
    (base offset : ℕ)
    → offset < 4
    → next_address offset (base + offset * 2 ^ 5) ≡ base + (offset + 1) % 4 * 2 ^ 5
unfolding next_address
next_address_lem base offset l = ground arith

-- The units that a scan from the next one on looks at.
Scanned-next :
    (p : ℕ → Bool) (base offset k : ℕ) (r : Option ℕ)
    → offset < 4
    → p (base + offset * 2 ^ 5) ≡ false
    → Scanned p base ((offset + 1) % 4) k r
    → Scanned p base offset (suc k) r
Scanned-next p base offset k r l f h = elim h [
  | inr found ↦ inr found
  | inl (e, none_of) ↦ inl (e, λ j lj. at j lj none_of)
]
  where
    at :
        (j : ℕ)
        → j < suc k
        → ((i : ℕ) → i < k → p (base + ((offset + 1) % 4 + i) % 4 * 2 ^ 5) ≡ false)
        → p (base + (offset + j) % 4 * 2 ^ 5) ≡ false
    at zero lj none_of =
        let same : (offset + 0) % 4 ≡ offset = omega arith in
        ap (λ (x : ℕ). p (base + x * 2 ^ 5)) same ∙ f
    at (suc i) lj none_of =
        let same : (offset + suc i) % 4 ≡ ((offset + 1) % 4 + i) % 4 = omega arith in
        ap (λ (x : ℕ). p (base + x * 2 ^ 5)) same ∙ none_of i (omega arith)

-- With no unit left, nothing is found.
Scanned-none : (p : ℕ → Bool) (base offset : ℕ) → Scanned p base offset 0 none
Scanned-none p base offset = inl (refl, λ j l. absurd (omega arith))

scan_slot_lem :
    (k : ℕ) (p : ℕ → Bool) (base eu_offset offset : ℕ)
    → offset < 4
    → 1 ≤ k
    → k ≤ 4
    → (offset + k) % 4 ≡ eu_offset
    → (r : Option ℕ) × (scan_slot k p eu_offset offset (base + offset * 2 ^ 5) ≡ some r)
      × Scanned p base offset k r
unfolding scan_slot
scan_slot_lem zero p base eu_offset offset lo k1 k4 h = absurd (omega arith)
scan_slot_lem (suc k) p base eu_offset offset lo k1 k4 h =
    let next = next_offset_lem offset lo in
    let moved = next_address_lem base offset lo in
    elim (Bool-cases (p (base + offset * 2 ^ 5))) [
      | inl f ↦ (some (base + offset * 2 ^ 5), rw f refl, inr (offset, lo, refl, f))
      | inr f ↦ elim (Bool-cases (next_offset offset == eu_offset)) [
        | inl e ↦
            let last : k ≡ 0 =
              (let at : next_offset offset ≡ eu_offset = (==_iff _ eu_offset).0 e in omega arith) in
            (
              none,
              rw (f, e) refl,
              Scanned-next p base offset k none lo f (
                  subst (λ n. Scanned p base ((offset + 1) % 4) n none) (sym last)
                    (Scanned-none p base _)),
            )
        | inr e ↦
            let more : 1 ≤ k = more_left k offset eu_offset h lo (rw next at e) in
            let (r, run, found) =
              scan_slot_lem k p base eu_offset ((offset + 1) % 4) (omega arith) more (omega arith)
                (omega arith) in
            let go =
              ap
                (λ (x : ℕ). scan_slot k p eu_offset x (next_address offset (base + offset * 2 ^ 5)))
                next
              ∙ ap (λ (x : ℕ). scan_slot k p eu_offset ((offset + 1) % 4) x) moved
              ∙ run in
            (r, rw f (rw e go), Scanned-next p base offset k r lo f found)
      ]
    ]
  where
    more_left :
        (k offset eu_offset : ℕ)
        → (offset + suc k) % 4 ≡ eu_offset
        → offset < 4
        → ((offset + 1) % 4 == eu_offset) ≡ false
        → 1 ≤ k
    more_left zero offset eu_offset h l e = absurd (ground arith)
    more_left (suc k) offset eu_offset h l e = omega arith

-- The scan of a slot ends, whichever unit it starts at. If it finds nothing then no unit of the slot
-- passes the test; else it gives the first page of one that does.
pub scan_slot_total :
    (p : ℕ → Bool) (slot_id eu_offset : ℕ)
    → eu_offset < 4
    → (r : Option ℕ) × (scan_slot 4 p eu_offset eu_offset (calc_address slot_id eu_offset 0)
        ≡ some r)
      × (((r ≡ none) × ((e : ℕ) → e < 4 → p (calc_address slot_id e 0) ≡ false))
          ⊎ ((e : ℕ) × (e < 4)
              × (r ≡ some (calc_address slot_id e 0))
              × (p (calc_address slot_id e 0) ≡ true)))
unfolding calc_address
scan_slot_total p slot_id eu_offset l =
    let base : ℕ = slot_id * 2 ^ 7 in
    let plain : (e : ℕ) → base + e * 2 ^ 5 + 0 ≡ base + e * 2 ^ 5 = λ e. omega arith in
    let (r, run, found) =
      scan_slot_lem 4 p base eu_offset eu_offset l (omega arith) (omega arith) (omega arith) in
    (
      r,
      ap (scan_slot 4 p eu_offset eu_offset) (plain eu_offset) ∙ run,
      elim found [
        | inl (e, none_of) ↦
            inl (e, λ d k. ap p (plain d) ∙ all_units p base eu_offset l none_of d k)
        | inr (e, k, same, ok) ↦ inr (e, k, same ∙ ap some (sym (plain e)), ap p (plain e) ∙ ok)
      ],
    )
  where
    all_units :
        (p : ℕ → Bool) (base eu_offset : ℕ)
        → eu_offset < 4
        → ((j : ℕ) → j < 4 → p (base + (eu_offset + j) % 4 * 2 ^ 5) ≡ false)
        → (d : ℕ) → d < 4
        → p (base + d * 2 ^ 5) ≡ false
    all_units p base eu_offset l h d k =
        let j : ℕ = (d + 4 - eu_offset) % 4 in
        let same : d ≡ (eu_offset + j) % 4 = omega arith in
        ap (λ (x : ℕ). p (base + x * 2 ^ 5)) same ∙ h j (omega arith)

pub unit_lt : (phy_addr : ℕ) → calc_eu_offset phy_addr < 4
unfolding calc_eu_offset
unit_lt phy_addr = omega arith

-- What the search of the segments from `seg_idx` up to `end` gives.
abbrev pub Searched : (ℕ → Bool) → (ℕ → ℕ) → ℕ → ℕ → Option ℕ → Type 0
Searched p seg_to_slot_map seg_idx end r =
    ((r ≡ none)
      × ((s e : ℕ)
          → seg_idx ≤ s
          → s < end
          → e < 4
          → p (calc_address (seg_to_slot_map s) e 0) ≡ false))
    ⊎ ((s : ℕ) × (e : ℕ) × (seg_idx ≤ s)
        × (s < end)
        × (e < 4)
        × (r ≡ some (calc_address (seg_to_slot_map s) e 0))
        × (p (calc_address (seg_to_slot_map s) e 0) ≡ true))

pub scan_segments_lem :
    (n : ℕ) (p : ℕ → Bool) (seg_to_slot_map : ℕ → ℕ) (eu_offset seg_idx end : ℕ)
    → eu_offset < 4
    → seg_idx + n ≡ end
    → (r : Option ℕ) × (scan_segments n p seg_to_slot_map eu_offset seg_idx ≡ some r)
      × Searched p seg_to_slot_map seg_idx end r
unfolding scan_segments found_or
scan_segments_lem zero p seg_to_slot_map eu_offset seg_idx end l h =
    (none, refl, inl (refl, λ s e a b k. absurd (omega arith)))
scan_segments_lem (suc n) p seg_to_slot_map eu_offset seg_idx end l h =
    let (found, run, slot) = scan_slot_total p (seg_to_slot_map seg_idx) eu_offset l in
    let (r, rest, later) =
      scan_segments_lem n p seg_to_slot_map eu_offset (seg_idx + 1) end l (omega arith) in
    let ahead = scan_segments n p seg_to_slot_map eu_offset (seg_idx + 1) in
    elim slot [
      | inr (e, k, same, ok) ↦ (
        found,
        ap (λ o. o >>= found_or ahead) (run ∙ ap some same) ∙ ap some (sym same),
        inr (seg_idx, e, omega arith, omega arith, k, same, ok),
      )
      | inl (same, none_of) ↦ (
        r,
        ap (λ o. o >>= found_or ahead) (run ∙ ap some same) ∙ rest,
        elim later [
          | inr (t, d, lo, hi, k, same, ok) ↦ inr (t, d, omega arith, hi, k, same, ok)
          | inl (e, rest_none) ↦ inl (
            e,
            λ s d a b k. elim (Bool-cases (s == seg_idx)) [
              | inl t ↦
                  let at : s ≡ seg_idx = (==_iff s seg_idx).0 t in
                  ap (λ (x : ℕ). p (calc_address (seg_to_slot_map x) d 0)) at ∙ none_of d k
              | inr t ↦ rest_none s d (ground arith) b k
            ],
          )
        ],
      )
    ]

-- logicalAddressToReservePhysical ends. Its result is the page with the same offset in a unit of a
-- reserve segment that is good, stands in for the unit of the address and is no copy-back unit; or it
-- is empty, and then no unit of a reserve segment is such.
pub reserve_physical_lem :
    (chip : Chip) (seg_to_slot_map : ℕ → ℕ) (phy_addr : ℕ)
    → let expected = calculate_slot_id_and_eu_offset phy_addr in
      (address : ℕ) × (logical_address_to_reserve_physical chip seg_to_slot_map phy_addr
        ≡ some address)
      × (((address ≡ seq_phy_address_empty)
            × ((s e : ℕ)
                → 510 ≤ s
                → s < 512
                → e < 4
                → is_reserve_for chip expected (calc_address (seg_to_slot_map s) e 0) ≡ false))
          ⊎ ((s : ℕ) × (e : ℕ) × (510 ≤ s)
              × (s < 512)
              × (e < 4)
              × (address ≡ calc_address (seg_to_slot_map s) e 0 + calc_offset_in_eu phy_addr)
              × (is_reserve_for chip expected (calc_address (seg_to_slot_map s) e 0) ≡ true)))
unfolding logical_address_to_reserve_physical page_in_unit
reserve_physical_lem chip seg_to_slot_map phy_addr =
    let p = is_reserve_for chip (calculate_slot_id_and_eu_offset phy_addr) in
    let page : ℕ = calc_offset_in_eu phy_addr in
    let (r, run, found) =
      scan_segments_lem 2 p seg_to_slot_map (calc_eu_offset phy_addr) 510 512 (unit_lt phy_addr)
        refl in
    (
      page_in_unit page r,
      ap (λ o. o >>= λ f. some (page_in_unit page f)) run,
      elim found [
        | inl (e, none_of) ↦ inl (ap (page_in_unit page) e, none_of)
        | inr (s, e, lo, a, k, same, ok) ↦ inr (s, e, lo, a, k, ap (page_in_unit page) same, ok)
      ],
    )
