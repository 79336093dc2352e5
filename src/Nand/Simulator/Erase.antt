-- ===== src/Nand/Simulator/Erase.antt =====
-- Erasing and marking the units of the simulated flash.
use nandfs.Base.{
  ℕ, zero, suc, ◌+◌, ◌*◌, ◌<◌, ◌≤◌, ◌≡◌, ◌⊎◌, inl, inr, refl, sym, ap, ◌∙◌, Bool, true, false, ltb,
  ◌==◌, some, arith, Bool-cases, ==_iff, update, subst,
}
use nandfs.Nand.Simulator.{
  Simulator, get_fp, position, write_file, assert_below, eu_start, erase_pages, erase_good,
  nand_erase, nand_check_eu_status,
}
use nandfs.Nand.Simulator.Access.{
  byte_at, position_lem, small, below, written_inside, written_outside,
}
use nandfs.Nand.Simulator.Driver.{other_page}

-- The pages of the unit from `eu` on, of which there are `n`, are erased and may be written again; no
-- byte of another page has changed.
pub record IsErased (s : Simulator) (eu n : ℕ) (r : Simulator) : Type 0 where
  pub erased : (j i : ℕ) → j < n → i < 528 → byte_at r (eu + j) i ≡ s.erase_buf i
  pub unmarked : (j : ℕ) → j < n → (r.main_area_writes (eu + j) ≡ 0) × (r.spare_writes (eu + j) ≡ 0)
  pub kept : (c i : ℕ) → (c < eu) ⊎ (eu + n ≤ c) → i < 528 → byte_at r c i ≡ byte_at s c i
  pub buffer : r.erase_buf ≡ s.erase_buf

erase_pages-IsErased :
    (n : ℕ) (s : Simulator) (eu : ℕ) → eu + n ≤ 65536 → IsErased s eu n (erase_pages n s eu)
unfolding erase_pages update
erase_pages-IsErased zero s eu l = record {
  erased = λ j i a b. absurd (omega arith);
  unmarked = λ j a. absurd (omega arith);
  kept = λ c i a b. refl;
  buffer = refl;
}
erase_pages-IsErased (suc n) s eu l =
    let r : Simulator = erase_pages n s eu in
    let v = erase_pages-IsErased n s eu (omega arith) in
    let start : position eu 0 + n * 528 ≡ (eu + n) * 528 =
      omega (arith, position_lem eu 0 (omega arith)) in
    let at : (k : ℕ)
        → byte_at (erase_pages (suc n) s eu) (eu + n) k
          ≡ write_file r.file s.erase_buf ((eu + n) * 528) 528 ((eu + n) * 528 + k) =
      λ k. ap (λ (x : ℕ). write_file r.file s.erase_buf x 528 ((eu + n) * 528 + k)) start in
    record {
      erased = λ j i a b. elim (Bool-cases (j == n)) [
        | inl e ↦
            let last : j ≡ n = (==_iff j n).0 e in
            subst (λ (x : ℕ). byte_at (erase_pages (suc n) s eu) (eu + x) i ≡ s.erase_buf i)
              (sym last) (at i ∙ written_inside r.file s.erase_buf (eu + n) 528 i b)
        | inr e ↦
            ap (λ (x : ℕ). write_file r.file s.erase_buf x 528 ((eu + j) * 528 + i)) start
            ∙ written_outside r.file s.erase_buf (eu + n) 528 ((eu + j) * 528 + i)
                (other_page (eu + n) (eu + j) i 528 (ground arith) b (omega arith))
            ∙ v.erased j i (ground arith) b
      ];
      unmarked = λ j a. elim (Bool-cases (eu + j == eu + n)) [
        | inl e ↦ rw e (refl, refl)
        | inr e ↦ rw e (v.unmarked j (ground arith))
      ];
      kept = λ c i a b.
          ap (λ (x : ℕ). write_file r.file s.erase_buf x 528 (c * 528 + i)) start
          ∙ written_outside r.file s.erase_buf (eu + n) 528 (c * 528 + i)
              (other_page (eu + n) c i 528 (ground (arith, a)) b (omega arith))
          ∙ v.kept c i (ground (arith, a)) b;
      buffer = v.buffer;
    }

unit_fits : (page : ℕ) → page < 65536 → (eu_start page < 65536) × (eu_start page + 32 ≤ 65536)
unfolding eu_start
unit_fits page l = omega arith

-- An erasure in a good unit of the chip succeeds: all 32 pages of the unit hold the bytes of the erase
-- buffer and may be written again, and no byte of another page changes. An erasure in a bad unit counts as
-- a success too, and changes nothing.
pub nand_erase_lem :
    (s : Simulator) (page : ℕ) (good : Bool)
    → page < 65536
    → nand_check_eu_status s (eu_start page) ≡ some good
    → (r : Simulator) × (nand_erase s page ≡ some (0, r))
      × (((good ≡ true) × IsErased s (eu_start page) 32 r) ⊎ ((good ≡ false) × (r ≡ s)))
unfolding nand_erase erase_good get_fp assert_below
nand_erase_lem s page good l status =
    let low : ltb page 65536 ≡ true = ground arith in
    elim (Bool-cases good) [
      | inr e ↦ (s, rw (small page l, low, status, e) refl, inr (e, refl))
      | inl e ↦ (
        erase_pages 32 s (eu_start page),
        rw
            (
              small page l,
              low,
              status,
              e,
              below (eu_start page) 0 (unit_fits page l).0 (omega arith),
            )
            refl,
        inl (e, erase_pages-IsErased 32 s (eu_start page) (unit_fits page l).1),
      )
    ]
