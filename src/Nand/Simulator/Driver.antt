-- ===== src/Nand/Simulator/Driver.antt =====
-- The simulated flash as the driver of the sequencing layer.
use nandfs.Base.{
  ℕ, ◌+◌, ◌*◌, ◌/◌, ◌%◌, ◌^◌, ◌<◌, ◌≤◌, ◌≡◌, ◌⊎◌, inl, inr, refl, sym, ap, ◌∙◌, Bool, true, false,
  ◌&&◌, ltb, leb, ◌==◌, if◌then◌else◌, Option, none, some, subst, arith, Bool-cases, ==_iff,
}
use nandfs.Nand.{Bytes, empty_buf}
use nandfs.Nand.Simulator.{
  Simulator, get_fp, position, read_file, assert_below, nand_read_page, nand_read_page_spare,
  nand_program_page_a, reads_good, nand_check_eu_status, eu_start, nand_erase,
}
use nandfs.Nand.Simulator.Access.{
  byte_at, position_lem, small, below, read_page_lem, written_inside, written_outside, IsProgrammed,
  program_page_a_cases,
}
use nandfs.Sequencing.ValidEus.{calc_eu_start}
use nandfs.Sequencing.Pages.{Driver}
use nandfs.Sequencing.Pages.Copy.{IsDriver}

-- A failed assertion counts as an error: nothing is run after it.
abbrev or_fail : {A : Type 0} → A → Option (ℕ × A) → ℕ × A
or_fail a none = (1, a)
or_fail a (some r) = r

abbrev or_false : Option Bool → Bool
or_false none = false
or_false (some b) = b

abbrev pub simulator : Driver Simulator
simulator = record {
  check_eu_status = λ s a. or_false (nand_check_eu_status s a);
  read_page_total = λ s a. or_fail empty_buf (nand_read_page s empty_buf a 0 528);
  read_page_flags = λ s a. (or_fail empty_buf (nand_read_page_spare s empty_buf a 0 16)).1;
  program_page_a = λ s b a len. or_fail s (nand_program_page_a s b a 0 len);
  erase = λ s a. or_fail s (nand_erase s a);
}

-- Where a page exists its reads are those of its bytes; the reads of a page that does not exist do not
-- depend on the flash.
pub spare_lem :
    (s : Simulator) (page : ℕ)
    → page < 65536
    → nand_read_page_spare s empty_buf page 0 16
      ≡ some (0, λ i. if ltb i 16 then byte_at s page (512 + i) else 255)
unfolding nand_read_page_spare get_fp assert_below read_file
spare_lem s page l =
    let low : ltb page 65536 ≡ true = ground arith in
    let fits : leb (position page 512 + 16) (65536 * 528) ≡ true =
      ground (arith, position_lem page 512 l) in
    rw (small page l, low, below page 512 l (omega arith), fits)
      (ap (λ (f : Bytes). some (0, f)) (λ k i. bytes i k))
  where
    bytes :
        (i : ℕ)
        → (if ltb i 16 && ltb (position page 512 + i) (65536 * 528)
            then s.file (position page 512 + i)
            else 255)
          ≡ (if ltb i 16 then byte_at s page (512 + i) else 255)
    bytes i = elim (Bool-cases (ltb i 16)) [
      | inr e ↦ rw e refl
      | inl e ↦
          let at : position page 512 + i ≡ page * 528 + (512 + i) =
            omega (arith, position_lem page 512 l) in
          let inside : ltb (page * 528 + (512 + i)) (65536 * 528) ≡ true = ground arith in
          rw (e, at, inside) refl
    ]

good_lem :
    (s : Simulator) (page : ℕ) → page < 65536 → reads_good s page ≡ some (byte_at s page 517 == 255)
unfolding reads_good
good_lem s page l = rw (spare_lem s page l) refl

unit_below : (u : ℕ) → u < 65536 → eu_start u + 1 < 65536
unfolding eu_start
unit_below u l = omega arith

unit_pages : (u : ℕ) → (eu_start u % 32 < 2) × ((eu_start u + 1) % 32 < 2)
unfolding eu_start
unit_pages u = omega arith

pub status_lem :
    (s : Simulator) (u : ℕ)
    → u < 65536
    → simulator.check_eu_status s u
      ≡ ((byte_at s (eu_start u) 517 == 255) && (byte_at s (eu_start u + 1) 517 == 255))
unfolding nand_check_eu_status get_fp
status_lem s u l =
    let next : eu_start u + 1 < 65536 = unit_below u l in
    elim (Bool-cases (byte_at s (eu_start u) 517 == 255)) [
      | inl e ↦
          rw (small u l, good_lem s (eu_start u) (omega arith), e, good_lem s (eu_start u + 1) next)
            refl
      | inr e ↦ rw (small u l, good_lem s (eu_start u) (omega arith), e) refl
    ]

no_page : (s : Simulator) (page : ℕ) → ltb page 65536 ≡ false → reads_good s page ≡ none
unfolding reads_good nand_read_page_spare get_fp
no_page s page e = elim (Bool-cases (ltb 0 (page / 2 ^ 21))) [
  | inl f ↦ rw f refl
  | inr f ↦ rw (f, e) refl
]

no_unit : (u : ℕ) → ltb u 65536 ≡ false → ltb (eu_start u) 65536 ≡ false
unfolding eu_start
no_unit u e = ground arith

no_status : (s : Simulator) (u : ℕ) → ltb u 65536 ≡ false → simulator.check_eu_status s u ≡ false
unfolding nand_check_eu_status get_fp
no_status s u e = elim (Bool-cases (ltb 0 (u / 2 ^ 21))) [
  | inl f ↦ rw f refl
  | inr f ↦ rw (f, no_page s (eu_start u) (no_unit u e)) refl
]

module _ (s r : Simulator) where
  same_total :
      (page : ℕ)
      → ((i : ℕ) → i < 528 → byte_at r page i ≡ byte_at s page i)
      → simulator.read_page_total r page ≡ simulator.read_page_total s page
  unfolding nand_read_page get_fp
  same_total page same = elim (Bool-cases (ltb page 65536)) [
    | inl e ↦
        rw
          (
            read_page_lem r empty_buf page (ground arith),
            read_page_lem s empty_buf page (ground arith),
          )
          (ap (λ (f : Bytes). (0, f)) (λ k i. bytes i k))
    | inr e ↦ rw e refl
  ]
    where
      bytes :
          (i : ℕ)
          → (if ltb i 528 then byte_at r page i else 255)
            ≡ (if ltb i 528 then byte_at s page i else 255)
      bytes i = elim (Bool-cases (ltb i 528)) [
        | inl e ↦ rw e (same i (ground arith))
        | inr e ↦ rw e refl
      ]

  same_flags :
      (page : ℕ)
      → ((i : ℕ) → i < 528 → byte_at r page i ≡ byte_at s page i)
      → simulator.read_page_flags r page ≡ simulator.read_page_flags s page
  unfolding nand_read_page_spare get_fp
  same_flags page same = elim (Bool-cases (ltb page 65536)) [
    | inl e ↦
        rw (spare_lem r page (ground arith), spare_lem s page (ground arith)) (λ k i. bytes i k)
    | inr e ↦ rw e refl
  ]
    where
      bytes :
          (i : ℕ)
          → (if ltb i 16 then byte_at r page (512 + i) else 255)
            ≡ (if ltb i 16 then byte_at s page (512 + i) else 255)
      bytes i = elim (Bool-cases (ltb i 16)) [
        | inl e ↦ rw e (same (512 + i) (ground arith))
        | inr e ↦ rw e refl
      ]

  same_status :
      (u : ℕ)
      → ((page : ℕ)
          → page < 65536
          → page % 32 < 2
          → (byte_at r page 517 == 255) ≡ (byte_at s page 517 == 255))
      → simulator.check_eu_status r u ≡ simulator.check_eu_status s u
  same_status u same = elim (Bool-cases (ltb u 65536)) [
    | inl e ↦
        let l : eu_start u + 1 < 65536 = unit_below u (ground arith) in
        status_lem r u (ground arith)
        ∙ cc (
          same (eu_start u) (omega arith) (unit_pages u).0,
          same (eu_start u + 1) l (unit_pages u).1,
        )
        ∙ sym (status_lem s u (ground arith))
    | inr e ↦ no_status r u e ∙ sym (no_status s u e)
  ]

-- Bytes of other pages are behind or before those of a page.
pub other_page :
    (page c i l : ℕ)
    → (c == page) ≡ false
    → i < 528
    → l ≤ 528
    → (c * 528 + i < page * 528) ⊎ (page * 528 + l ≤ c * 528 + i)
other_page page c i l ne li ll = elim (Bool-cases (ltb c page)) [
  | inl e ↦ inl (ground arith)
  | inr e ↦ inr (ground arith)
]

program_others :
    (s r : Simulator) (b : Bytes) (a len : ℕ)
    → IsProgrammed s b a len r
    → (c : ℕ) → (c == a) ≡ false
    → (i : ℕ) → i < 528
    → byte_at r c i ≡ byte_at s c i
program_others s r b a len (l, small_len, long, exists, file, mark) c ne i li =
    ap (λ (f : ℕ → ℕ). f (c * 528 + i)) file
    ∙ written_outside s.file b a l (c * 528 + i) (other_page a c i l ne li small_len)

-- The byte for bad units of the first two pages of a good unit.
good_byte :
    (s : Simulator) (a : ℕ)
    → a < 65536
    → a % 32 < 2
    → simulator.check_eu_status s (calc_eu_start a) ≡ true
    → (byte_at s a 517 == 255) ≡ true
unfolding calc_eu_start eu_start
good_byte s a l low good =
    let both : ((byte_at s (eu_start (calc_eu_start a)) 517 == 255)
          && (byte_at s (eu_start (calc_eu_start a) + 1) 517 == 255))
        ≡ true =
      sym (status_lem s (calc_eu_start a) (omega arith)) ∙ good in
    elim (Bool-cases (a % 32 == 0)) [
      | inl e ↦
          let first : eu_start (calc_eu_start a) ≡ a = ground arith in
          ap (λ (x : ℕ). byte_at s x 517 == 255) (sym first) ∙ ground (arith, both)
      | inr e ↦
          let second : eu_start (calc_eu_start a) + 1 ≡ a = ground arith in
          ap (λ (x : ℕ). byte_at s x 517 == 255) (sym second) ∙ ground (arith, both)
    ]

-- Programming a page of a good unit with 0xff in the byte for bad units.
program_good :
    (s r : Simulator) (b : Bytes) (a len : ℕ)
    → IsProgrammed s b a len r
    → b 517 ≡ 255
    → simulator.check_eu_status s (calc_eu_start a) ≡ true
    → (page : ℕ) → page < 65536
    → page % 32 < 2
    → (byte_at r page 517 == 255) ≡ (byte_at s page 517 == 255)
program_good s r b a len (l, small_len, long, exists, file, mark) bad good page lp low =
    elim (Bool-cases (page == a)) [
      | inr e ↦
          ap (λ (x : ℕ). x == 255)
            (program_others s r b a len (l, small_len, long, exists, file, mark) page e 517
              (omega arith))
      | inl e ↦
          let at : page ≡ a = (==_iff page a).0 e in
          subst (λ (x : ℕ). (byte_at r x 517 == 255) ≡ (byte_at s x 517 == 255)) (sym at)
            (elim (Bool-cases (leb l 517)) [
              | inl f ↦
                  ap (λ (x : ℕ). x == 255)
                    (ap (λ (g : ℕ → ℕ). g (a * 528 + 517)) file
                      ∙ written_outside s.file b a l (a * 528 + 517) (inr (ground arith)))
              | inr f ↦
                  ap (λ (x : ℕ). x == 255)
                    (ap (λ (g : ℕ → ℕ). g (a * 528 + 517)) file
                      ∙ written_inside s.file b a l 517 (ground arith)
                      ∙ bad)
                  ∙ sym (good_byte s a exists (subst (λ (x : ℕ). x % 32 < 2) at low) good)
            ])
    ]

program_bytes :
    (s r : Simulator) (b : Bytes) (a len : ℕ)
    → IsProgrammed s b a len r
    → (i : ℕ) → i < len
    → i < 528
    → ((simulator.read_page_total r a).1) i ≡ b i
program_bytes s r b a len (l, small_len, long, exists, file, mark) i li lt =
    let low : ltb i 528 ≡ true = ground arith in
    let inside : i < l = elim long [ inl x ↦ omega arith | inr x ↦ omega arith ] in
    let bytes : byte_at r a i ≡ b i =
      ap (λ (g : ℕ → ℕ). g (a * 528 + i)) file ∙ written_inside s.file b a l i inside in
    rw (read_page_lem r empty_buf a exists, low) bytes

-- The simulated flash keeps the laws that the sequencing layer relies on: a page that is programmed with
-- success is read back, no other page changes, and no unit changes its state if the unit of the page is
-- good and the buffer has 0xff in the byte for bad units.
pub simulator-IsDriver : IsDriver simulator
simulator-IsDriver = record {
  programmed = λ f b a len ok i li lt. elim (program_page_a_cases f b a len) [
    | inl e ↦ absurd (ground (arith, ap (λ o. (or_fail f o).0) e, ok))
    | inr (inl e) ↦ absurd (ground (arith, ap (λ o. (or_fail f o).0) e, ok))
    | inr (inr (r, e, done)) ↦ rw e (program_bytes f r b a len done i li lt)
  ];
  others = λ f b a len c ne. elim (program_page_a_cases f b a len) [
    | inl e ↦ rw e (refl, refl)
    | inr (inl e) ↦ rw e (refl, refl)
    | inr (inr (r, e, done)) ↦
        let same = program_others f r b a len done c ne in
        rw e (same_total f r c same, same_flags f r c same)
  ];
  status = λ f b a len u bad good. elim (program_page_a_cases f b a len) [
    | inl e ↦ rw e refl
    | inr (inl e) ↦ rw e refl
    | inr (inr (r, e, done)) ↦ rw e (same_status f r u (program_good f r b a len done bad good))
  ];
}
