-- ===== src/Sequencing/Translate/ValidUnits.antt =====
-- The good units of a slot: the search for the unit at a location against the count of them.
use nandfs.Base.{
  ℕ, zero, suc, ◌+◌, ◌-◌, ◌*◌, ◌%◌, ◌^◌, ◌<◌, ◌≤◌, ◌≡◌, refl, ap, sym, inl, inr, ◌⊎◌, Bool, true,
  arith, ◌==◌, Bool-cases, ==_iff, some,
}
use nandfs.Sequencing.Reserve.{calc_address}
use nandfs.Sequencing.SegMap.{phy_address_empty}
use nandfs.Sequencing.Translate.{
  nth_valid, get_valid_eu_addr_in_location, count_valid, count_valid_eus,
}

-- What the search for the unit at location `k` gives among `n` units from `a` on.
abbrev pub IsLocated : (ℕ → Bool) → ℕ → ℕ → ℕ → ℕ → Type 0
IsLocated ok n a k r =
    ((r ≡ phy_address_empty) × (count_valid n ok a < k))
    ⊎ ((e : ℕ) × (e < n) × (r ≡ a + e * 2 ^ 5) × (ok r ≡ true) × (suc (count_valid e ok a) ≡ k))

nth_valid_lem :
    (n : ℕ) (ok : ℕ → Bool) (a k : ℕ) → 1 ≤ k → k < 2 ^ 32 → IsLocated ok n a k (nth_valid n ok a k)
unfolding nth_valid count_valid
nth_valid_lem zero ok a k lo hi = inl (refl, omega arith)
nth_valid_lem (suc n) ok a zero lo hi = elim lo [ ]
nth_valid_lem (suc n) ok a (suc k) lo hi =
    let less : (suc k + 2 ^ 32 - 1) % 2 ^ 32 ≡ k = omega arith in
    elim (Bool-cases (ok a)) [
      | inr bad ↦ rw bad (elim (nth_valid_lem n ok (a + 2 ^ 5) (suc k) lo hi) [
        | inl (gone, few) ↦ inl (gone, omega arith)
        | inr (e, l, at, good, c) ↦
            inr (suc e, omega arith, omega arith, good, rw bad (omega arith))
      ])
      | inl good ↦ elim (Bool-cases (k == 0)) [
        | inl e ↦
            let same : k ≡ 0 = (==_iff k 0).0 e in
            rw (good, less, e) (inr (0, omega arith, omega arith, good, ap suc (sym same)))
        | inr e ↦
            rw (good, less, e)
              (elim (nth_valid_lem n ok (a + 2 ^ 5) k (ground arith) (omega arith)) [
                | inl (gone, few) ↦ inl (gone, omega arith)
                | inr (d, l, at, fine, c) ↦
                    inr (suc d, omega arith, omega arith, fine, rw good (omega arith))
              ])
      ]
    ]

-- For a slot and a location from 1 on, the search gives either no address, and then fewer units of
-- the slot are good; or the first page of a good unit before which exactly one good unit less than the
-- location lies in the slot.
pub get_valid_eu_addr_in_location_lem :
    (ok : ℕ → Bool) (slot_id k : ℕ)
    → slot_id < 512
    → 1 ≤ k
    → k < 2 ^ 32
    → (r : ℕ) × (get_valid_eu_addr_in_location ok slot_id k ≡ some r)
      × (((r ≡ phy_address_empty) × (count_valid_eus ok slot_id < k))
          ⊎ ((e : ℕ) × (e < 4)
              × (r ≡ calc_address slot_id e 0)
              × (ok r ≡ true)
              × (suc (count_valid e ok (calc_address slot_id 0 0)) ≡ k)))
unfolding get_valid_eu_addr_in_location count_valid_eus calc_address
get_valid_eu_addr_in_location_lem ok slot_id k lt lo hi =
    let base : ℕ = slot_id * 2 ^ 7 + 0 * 2 ^ 5 + 0 in
    let r : ℕ = nth_valid 4 ok base k in
    (
      r,
      ground arith,
      elim (nth_valid_lem 4 ok base k lo hi) [
        | inl few ↦ inl few
        | inr (e, l, at, good, c) ↦ inr (e, l, omega arith, good, c)
      ],
    )
