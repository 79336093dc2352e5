-- ===== src/Files/Names.antt =====
-- The characters of a path name: isLegalChar, verifyLegalPathname and
-- findNextSeperator of NANDFS/src/fs/fsUtils.c. A name is the list of its bytes up to the zero byte,
-- which a list does not hold.
use nandfs.Base.{
  ℕ, ◌+◌, ◌<◌, ◌≡◌, refl, Bool, true, false, not, ◌&&◌, ltb, ◌==◌, if◌then◌else◌, List, [], ◌∷◌,
  arith, length, has, ap, ◌++◌, ==_iff, inl, inr, Bool-cases, ◌↔◌, ◌⊎◌,
}

-- `illegal_chars` holds the single character 2.
unfoldable pub is_legal_char : ℕ → Bool
is_legal_char c = not (2 == c)

unfoldable pub verify_legal_pathname : List ℕ → Bool
verify_legal_pathname [] = true
verify_legal_pathname (c ∷ pathname) =
    let rest = verify_legal_pathname pathname in
    if ltb c 0x80 && ltb 0x1f c && is_legal_char c then rest else false

abbrev pub slash : ℕ
slash = 47

unfoldable pub find_next_seperator : List ℕ → ℕ
find_next_seperator [] = 0
find_next_seperator (c ∷ pathname) =
    let rest = find_next_seperator pathname in if not (c == slash) then rest + 1 else 0

-- Every byte of the list is in the range.
abbrev pub AllPrintable : List ℕ → Type 0
AllPrintable [] = Unit
AllPrintable (c ∷ pathname) = (0x1f < c) × (c < 0x80) × AllPrintable pathname

-- A path name is legal just when each of its bytes is above 0x1f and below 0x80: the table of illegal
-- characters, whose only entry is 2, refuses nothing more.
pub verify_legal_pathname_lem :
    (pathname : List ℕ) → (verify_legal_pathname pathname ≡ true) ↔ AllPrintable pathname
unfolding verify_legal_pathname is_legal_char
verify_legal_pathname_lem [] = (λ h. tt, λ h. refl)
verify_legal_pathname_lem (c ∷ pathname) =
    let (there, back) = verify_legal_pathname_lem pathname in
    (legal_parts there, λ h. ground (arith, back h.2))
  where
    legal_parts :
        (verify_legal_pathname pathname ≡ true → AllPrintable pathname)
        → verify_legal_pathname (c ∷ pathname) ≡ true
        → AllPrintable (c ∷ pathname)
    legal_parts there h = (ground arith, ground arith, there (ground arith))

-- findNextSeperator splits a path name behind a prefix without a slash: what is left is nothing, or
-- begins with a slash.
pub find_next_seperator_lem :
    (pathname : List ℕ)
    → (pre : List ℕ) × (post : List ℕ) × (pathname ≡ pre ++ post)
      × (length pre ≡ find_next_seperator pathname)
      × (has slash pre ≡ false)
      × ((post ≡ []) ⊎ ((rest : List ℕ) × (post ≡ slash ∷ rest)))
unfolding find_next_seperator
find_next_seperator_lem [] = ([], [], refl, refl, refl, inl refl)
find_next_seperator_lem (c ∷ pathname) = elim (Bool-cases (c == slash)) [
  | inl e ↦
      let same : c ≡ slash = (==_iff c slash).0 e in
      ([], c ∷ pathname, refl, rw e refl, refl, inr (pathname, ap (λ x. x ∷ pathname) same))
  | inr e ↦
      let (pre, post, s, l, n, h) = find_next_seperator_lem pathname in
      (c ∷ pre, post, ap (λ ys. c ∷ ys) s, rw e (omega arith), ground arith, h)
]
