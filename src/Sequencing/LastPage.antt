-- ===== src/Sequencing/LastPage.antt =====
-- The last used page of an erase unit: findLastValidPageInEU of
-- NANDFS/src/sequencing/sequencingUtils.c, a search by halves with five rounds for the 32 pages.
use nandfs.Base.{
  ℕ, zero, suc, ◌+◌, ◌-◌, ◌*◌, ◌/◌, ◌%◌, ◌^◌, ◌<◌, ◌≤◌, ◌≡◌, inl, inr, Bool, arith, ltb, ◌==◌,
  if◌then◌else◌, Bool-cases,
}
use native.Mathlib.Nat.{pow-suc}

-- The two ends of the search and the content of the buffer.
pub record Search (B : Type 0) : Type 0 where
  pub start : ℕ
  pub end : ℕ
  pub buffer : B

-- The driver's nandReadPageTotal, which gives a result (0 for success) and the content of the buffer
-- after it, and IS_PAGE_USED on the flags in the buffer.
module _ {B : Type 0} (nand_read_page_total : B → ℕ → ℕ × B) (is_page_used : B → Bool) where
  -- One round of the loop.
  unfoldable pub halve : Search B → Search B
  halve s =
      let mid = (s.start + s.end) % 2 ^ 32 / 2 in
      let (res, b) = nand_read_page_total s.buffer mid in
      if res == 0
      then if is_page_used b
        then record { start = mid; end = s.end; buffer = b }
        else record { start = s.start; end = mid; buffer = b }
      else record { start = s.start; end = (mid + 2 ^ 32 - 1) % 2 ^ 32; buffer = b }

  unfoldable pub halves : ℕ → Search B → Search B
  halves zero s = s
  halves (suc i) s = halves i (halve s)

  -- The page found and the buffer; the last read is not tested for an error.
  unfoldable pub find_last_valid_page_in_eu : B → ℕ → ℕ × B
  find_last_valid_page_in_eu buffer eu_start_addr =
      let s =
        halves 5 (record {
          start = eu_start_addr;
          end = (eu_start_addr + 31) % 2 ^ 32;
          buffer = buffer;
        }) in
      let (res, b) = nand_read_page_total s.buffer s.end in
      (if is_page_used b then s.end else s.start, b)

  -- Reads of the unit succeed and its used pages are those from its start up to `last`.
  abbrev pub UsedUpTo : ℕ → ℕ → Type 0
  UsedUpTo eu last =
      (b : B) (a : ℕ)
      → eu ≤ a
      → a < eu + 32
      → ((nand_read_page_total b a).0 ≡ 0)
        × (is_page_used ((nand_read_page_total b a).1) ≡ ltb a (last + 1))

  -- The page looked for lies between the ends, which are at most `w` apart.
  abbrev Within : ℕ → ℕ → ℕ → Search B → Type 0
  Within eu last w s =
      (eu ≤ s.start) × (s.start ≤ last) × (last ≤ s.end) × (s.end < eu + 32) × (s.end ≤ s.start + w)

  halve-Within :
      (eu last w : ℕ) (s : Search B)
      → UsedUpTo eu last
      → eu + 32 ≤ 2 ^ 31
      → Within eu last (2 * w) s
      → Within eu last w (halve s)
  unfolding halve
  halve-Within eu last w s used bound h =
      let mid : ℕ = (s.start + s.end) % 2 ^ 32 / 2 in
      let (ok, flag) = used s.buffer mid (omega arith) (omega arith) in
      elim (Bool-cases (ltb mid (last + 1))) [
        | inl e ↦ rw (ok, flag, e) (ground arith)
        | inr e ↦ rw (ok, flag, e) (ground arith)
      ]

  halves-Within :
      (i eu last : ℕ) (s : Search B)
      → UsedUpTo eu last
      → eu + 32 ≤ 2 ^ 31
      → Within eu last (2 ^ i) s
      → Within eu last 1 (halves i s)
  unfolding halves
  halves-Within zero eu last s used bound h = omega arith
  halves-Within (suc i) eu last s used bound h =
      halves-Within i eu last (halve s) used bound
        (halve-Within eu last (2 ^ i) s used bound (omega (arith, pow-suc 2 i)))

  -- Where the first page of an erase unit is used, its used pages come before all others, every read
  -- of the unit succeeds and addresses do not overflow, findLastValidPageInEU gives the last used page.
  pub find_last_valid_page_in_eu_lem :
      (buffer : B) (eu last : ℕ)
      → UsedUpTo eu last
      → eu ≤ last
      → last < eu + 32
      → eu + 32 ≤ 2 ^ 31
      → (find_last_valid_page_in_eu buffer eu).0 ≡ last
  unfolding find_last_valid_page_in_eu
  find_last_valid_page_in_eu_lem buffer eu last used lo hi bound =
      let s : Search B =
        halves 5 (record { start = eu; end = (eu + 31) % 2 ^ 32; buffer = buffer }) in
      let h : Within eu last 1 s =
        halves-Within 5 eu last _ used bound
          (omega arith, lo, omega arith, omega arith, omega arith) in
      let (ok, flag) = used s.buffer s.end (omega arith) (omega arith) in
      elim (Bool-cases (ltb s.end (last + 1))) [
        | inl e ↦ rw (flag, e) (ground arith)
        | inr e ↦ rw (flag, e) (ground arith)
      ]
