-- ===== src/Nand/Simulator/Access.antt =====
-- Reads and writes of the simulated flash as accesses to the bytes of its file.
use nandfs.Base.{
  ℕ, ◌+◌, ◌-◌, ◌*◌, ◌/◌, ◌%◌, ◌^◌, ◌<◌, ◌≤◌, ◌≡◌, ◌⊎◌, inl, inr, refl, ap, ◌∙◌, true, false, ◌&&◌,
  ltb, leb, ◌==◌, if◌then◌else◌, none, some, update, arith, Bool-cases, update_self,
}
use nandfs.Nand.{Bytes}
use nandfs.Nand.Simulator.{
  Simulator, get_fp, position, read_file, write_file, assert_below, nand_read_page, program_main,
  nand_program_page_a,
}

-- The byte `i` of a page.
abbrev pub byte_at : Simulator → ℕ → ℕ → ℕ
byte_at s page i = s.file (page * 528 + i)

pub position_lem : (page offset : ℕ) → page < 65536 → position page offset ≡ page * 528 + offset
unfolding position
position_lem page offset l = omega arith

pub small : (page : ℕ) → page < 65536 → ltb 0 (page / 2 ^ 21) ≡ false
small page l = ground arith

pub below :
    (page offset : ℕ)
    → page < 65536
    → offset < 528
    → ltb (position page offset) (2 ^ 21 * 528) ≡ true
unfolding position
below page offset l lo = ground arith

pub read_page_lem :
    (s : Simulator) (buf : Bytes) (page : ℕ)
    → page < 65536
    → nand_read_page s buf page 0 528 ≡ some (0, λ i. if ltb i 528 then byte_at s page i else buf i)
unfolding nand_read_page get_fp assert_below read_file
read_page_lem s buf page l =
    let low : ltb page 65536 ≡ true = ground arith in
    let fits : leb (position page 0 + 528) (65536 * 528) ≡ true =
      ground (arith, position_lem page 0 l) in
    rw (small page l, low, below page 0 l (omega arith), fits)
      (ap (λ (f : Bytes). some (0, f)) (λ k i. bytes i k))
  where
    bytes :
        (i : ℕ)
        → (if ltb i 528 && ltb (position page 0 + i) (65536 * 528)
            then s.file (position page 0 + i)
            else buf i)
          ≡ (if ltb i 528 then byte_at s page i else buf i)
    bytes i = elim (Bool-cases (ltb i 528)) [
      | inr e ↦ rw e refl
      | inl e ↦
          let at : position page 0 + i ≡ page * 528 + i = omega (arith, position_lem page 0 l) in
          let inside : ltb (page * 528 + i) (65536 * 528) ≡ true = ground arith in
          rw (e, at, inside) refl
    ]

-- A byte that a write of a page, or of its first bytes, puts there or leaves.
pub written_inside :
    (file : ℕ → ℕ) (buf : Bytes) (page len i : ℕ)
    → i < len
    → write_file file buf (page * 528) len (page * 528 + i) ≡ buf i
unfolding write_file
written_inside file buf page len i l =
    let inside : (leb (page * 528) (page * 528 + i) && ltb (page * 528 + i) (page * 528 + len))
        ≡ true =
      ground arith in
    let at : page * 528 + i - page * 528 ≡ i = omega arith in rw (inside, at) refl

pub written_outside :
    (file : ℕ → ℕ) (buf : Bytes) (page len j : ℕ)
    → (j < page * 528) ⊎ (page * 528 + len ≤ j)
    → write_file file buf (page * 528) len j ≡ file j
unfolding write_file
written_outside file buf page len j h =
    let outside : (leb (page * 528) j && ltb j (page * 528 + len)) ≡ false = ground arith in
    rw outside refl

-- nandProgramPageA from the start of a page on: an error or a failed assertion, or the first bytes of the
-- page are those of the buffer, the others are kept, and the page is marked.
abbrev pub IsProgrammed : Simulator → Bytes → ℕ → ℕ → Simulator → Type 0
IsProgrammed s buf page len r =
    (l : ℕ) × (l ≤ 528)
    × ((len ≤ l) ⊎ (l ≡ 528))
    × (page < 65536)
    × (r.file ≡ write_file s.file buf (page * 528) l)
    × (r.main_area_writes page ≡ 1)

pub program_page_a_cases :
    (s : Simulator) (buf : Bytes) (page len : ℕ)
    → (nand_program_page_a s buf page 0 len ≡ none)
      ⊎ (nand_program_page_a s buf page 0 len ≡ some (1, s))
      ⊎ ((r : Simulator) × (nand_program_page_a s buf page 0 len ≡ some (0, r))
          × IsProgrammed s buf page len r)
unfolding nand_program_page_a program_main get_fp assert_below
program_page_a_cases s buf page len = elim (Bool-cases (ltb page 65536)) [
  | inr e ↦ elim (Bool-cases (ltb 0 (page / 2 ^ 21))) [
    | inl f ↦ inl (rw f refl)
    | inr f ↦ inr (inl (rw (f, e) refl))
  ]
  | inl e ↦ elim (Bool-cases (s.main_area_writes page == 0)) [
    | inr f ↦ inl (rw (small page (ground arith), e, f) refl)
    | inl f ↦
        let l : ℕ = if ltb 528 (0 % 528 + len) then 528 - 0 % 528 else len in
        elim (Bool-cases (l == 0)) [
          | inl g ↦ inr (
              inl (
                rw (small page (ground arith), e, f, below page 0 (ground arith) (omega arith), g)
                  refl))
          | inr g ↦
              let r : Simulator = record s {
                file = write_file s.file buf (position page 0) l;
                main_area_writes = update s.main_area_writes page 1;
                spare_writes = if l == 528 then update s.spare_writes page 1 else s.spare_writes;
              } in
              let start : position page 0 ≡ page * 528 =
                position_lem page 0 (ground arith) ∙ omega arith in
              inr (
                inr (
                  r,
                  rw (small page (ground arith), e, f, below page 0 (ground arith) (omega arith), g)
                      refl,
                  (
                    l,
                    ground arith,
                    ground arith,
                    ground arith,
                    ap (λ (x : ℕ). write_file s.file buf x l) start,
                    update_self s.main_area_writes page 1,
                  ),
                ))
        ]
  ]
]
