-- ===== src/Sequencing/SegMap/Empty.antt =====
-- The searches of the segment map: findEmptySlot and findFirstEmptySlot.
use nandfs.Base.{
  ℕ, zero, suc, ◌+◌, ◌<◌, ◌≤◌, ◌≡◌, refl, ap, ◌∙◌, inl, inr, ◌⊎◌, Bool, true, false, arith, ◌==◌,
  Bool-cases, ==_iff, List, [], ◌∷◌, has, Distinct, Below, length, length-le,
}
use nandfs.Sequencing.SegMap.{
  SegMap, first_from, find_first_empty_slot, segment_of_slot, find_empty_slot, seq_n_slots_count,
  seq_no_slot, phy_address_empty, seq_no_segment_num, seq_segments_count,
}

-- What a search of `n` indices from `i` on for the first that passes gives.
abbrev pub IsFirst : (ℕ → Bool) → ℕ → ℕ → ℕ → Type 0
IsFirst p i end r = (i ≤ r) × (r < end) × (p r ≡ true) × ((j : ℕ) → i ≤ j → j < r → p j ≡ false)

pub first_from_lem :
    (p : ℕ → Bool) (missing n i end : ℕ)
    → i + n ≡ end
    → ((first_from p missing n i ≡ missing) × ((j : ℕ) → i ≤ j → j < end → p j ≡ false))
      ⊎ IsFirst p i end (first_from p missing n i)
unfolding first_from
first_from_lem p missing zero i end h = inl (refl, λ j a b. absurd (omega arith))
first_from_lem p missing (suc n) i end h = elim (Bool-cases (p i)) [
  | inl e ↦ rw e (inr (omega arith, omega arith, e, λ j a b. absurd (omega arith)))
  | inr e ↦ elim (first_from_lem p missing n (i + 1) end (omega arith)) [
    | inl (gone, none_of) ↦ rw e (inl (gone, λ j a b. later p i j e a (λ c. none_of j c b)))
    | inr (lo, hi, ok, before) ↦
        rw e (inr (omega arith, hi, ok, λ j a b. later p i j e a (λ c. before j c b)))
  ]
]
  where
    later : (p : ℕ → Bool) (i j : ℕ) → p i ≡ false → i ≤ j → (i + 1 ≤ j → p j ≡ false) → p j ≡ false
    later p i j e a k = elim (Bool-cases (j == i)) [
      | inl t ↦ let same : j ≡ i = (==_iff j i).0 t in ap p same ∙ e
      | inr t ↦ k (ground arith)
    ]

-- findFirstEmptySlot gives the first data segment without a slot, or no segment where every data
-- segment has one.
pub find_first_empty_slot_lem :
    (m : SegMap)
    → ((find_first_empty_slot m ≡ seq_no_segment_num)
        × ((i : ℕ) → i < seq_segments_count → (m.seg_to_slot_map i == seq_no_slot) ≡ false))
      ⊎ IsFirst
          (λ i. m.seg_to_slot_map i == seq_no_slot)
          0
          seq_segments_count
          (find_first_empty_slot m)
unfolding find_first_empty_slot
find_first_empty_slot_lem m =
    elim (first_from_lem (λ i. m.seg_to_slot_map i == seq_no_slot) seq_no_segment_num
      seq_segments_count 0 seq_segments_count refl) [
        | inl (gone, h) ↦ inl (gone, λ i k. h i (omega arith) k)
        | inr found ↦ inr found
      ]

-- The values of `f` below `n`, the last first.
abbrev values : (ℕ → ℕ) → ℕ → List ℕ
values f zero = []
values f (suc n) = f n ∷ values f n

length-values : (f : ℕ → ℕ) (n : ℕ) → length (values f n) ≡ n
length-values f zero = refl
length-values f (suc n) = omega (arith, length-values f n)

-- Where `slots` takes `f` back, the values of `f` differ from all else.
not-has-values :
    (slots f : ℕ → ℕ) (x n : ℕ)
    → ((s : ℕ) → s < n → slots (f s) ≡ s)
    → n ≤ slots x
    → has x (values f n) ≡ false
not-has-values slots f x zero back le = refl
not-has-values slots f x (suc n) back le =
    let rest = not-has-values slots f x n (λ s k. back s (omega arith)) (omega arith) in
    elim (Bool-cases (x == f n)) [
      | inr e ↦ ground arith
      | inl e ↦
          let same : slots x ≡ slots (f n) = ap slots ((==_iff x (f n)).0 e) in
          absurd (omega (arith, same ∙ back n (omega arith)))
    ]

values-Distinct :
    (slots f : ℕ → ℕ) (n : ℕ) → ((s : ℕ) → s < n → slots (f s) ≡ s) → Distinct (values f n)
values-Distinct slots f zero back = tt
values-Distinct slots f (suc n) back = (
  not-has-values slots f (f n) n (λ s k. back s (omega arith))
      (omega (arith, back n (omega arith))),
  values-Distinct slots f n (λ s k. back s (omega arith)),
)

values-Below : (f : ℕ → ℕ) (end n : ℕ) → ((s : ℕ) → s < n → f s < end) → Below end (values f n)
values-Below f end zero h = tt
values-Below f end (suc n) h = (h n (omega arith), values-Below f end n (λ s k. h s (omega arith)))

-- Segments cannot be found for all of `n` slots if one of `n` segments has no such slot.
not-all_found :
    (slots f : ℕ → ℕ) (u n : ℕ)
    → u < n
    → n ≤ slots u
    → ((s : ℕ) → s < n → (f s < n) × (slots (f s) ≡ s))
    → 1 ≤ 0
not-all_found slots f u n lt out found =
    let back : (s : ℕ) → s < n → slots (f s) ≡ s = λ s k. (found s k).1 in
    let few =
      length-le n (u ∷ values f n)
        (not-has-values slots f u n back out, values-Distinct slots f n back)
        (lt, values-Below f n n (λ s k. (found s k).0)) in
    omega (arith, few, length-values f n)

found_segment :
    (m : SegMap) (s : ℕ)
    → (segment_of_slot m s == seq_n_slots_count) ≡ false
    → (segment_of_slot m s < 512) × (m.seg_to_slot_map (segment_of_slot m s) ≡ s)
unfolding segment_of_slot
found_segment m s h = elim (first_from_lem (λ i. m.seg_to_slot_map i == s) 512 512 0 512 refl) [
  | inl (gone, none_of) ↦ absurd (ground (arith, gone))
  | inr (lo, hi, ok, before) ↦ (hi, (==_iff _ s).0 ok)
]

missing_segment :
    (m : SegMap) (s i : ℕ)
    → (segment_of_slot m s == seq_n_slots_count) ≡ true
    → i < 512
    → (m.seg_to_slot_map i == s) ≡ false
unfolding segment_of_slot
missing_segment m s i h k =
    elim (first_from_lem (λ j. m.seg_to_slot_map j == s) 512 512 0 512 refl) [
      | inl (gone, none_of) ↦ none_of i (omega arith) k
      | inr (lo, hi, ok, before) ↦ absurd (ground arith)
    ]

-- findEmptySlot succeeds whenever one of the 512 segments has no slot: it gives a slot below 512 that
-- no segment has, and every slot below that one is taken by some segment.
pub find_empty_slot_lem :
    (m : SegMap) (u : ℕ)
    → u < 512
    → 512 ≤ m.seg_to_slot_map u
    → (find_empty_slot m < 512)
      × ((i : ℕ) → i < 512 → (m.seg_to_slot_map i == find_empty_slot m) ≡ false)
      × ((s : ℕ) → s < find_empty_slot m → (i : ℕ) × (i < 512) × (m.seg_to_slot_map i ≡ s))
unfolding find_empty_slot
find_empty_slot_lem m u lt out =
    elim (first_from_lem (λ s. segment_of_slot m s == seq_n_slots_count) phy_address_empty 512 0 512
      refl) [
        | inl (gone, taken) ↦ absurd (
            omega (
              arith,
              not-all_found m.seg_to_slot_map (segment_of_slot m) u 512 lt out
                  (λ s k. found_segment m s (taken s (omega arith) k)),
            ))
        | inr (lo, hi, ok, before) ↦ (
          hi,
          λ i k. missing_segment m _ i ok k,
          λ s k.
              let found = found_segment m s (before s (omega arith) k) in
              (segment_of_slot m s, found.0, found.1),
        )
      ]
