-- ===== src/Sequencing/ReadCheckpoint/Roundtrip.antt =====
-- A checkpoint that commit has written in a header is read back.
use nandfs.Base.{
  ℕ, zero, suc, ◌+◌, ◌-◌, ◌*◌, ◌<◌, ◌≤◌, ◌≡◌, refl, ap, subst, ◌∙◌, inl, inr, true, false, ◌==◌,
  ltb, if◌then◌else◌, some, arith, Bool-cases,
}
use nandfs.Addr.{LogAddr, IsBytes, get_logical_offset, get_logical_segment, set_logical_offset}
use nandfs.Addr.Fields.{set_logical_offset_lem, set_offset-IsBytes}
use nandfs.Nand.{Bytes, get_checkpoint_flag}
use nandfs.Sequencing.Reserve.{calc_address}
use nandfs.Sequencing.SegMap.{get_reclaimed_segment}
use nandfs.Sequencing.Pages.{Driver, Writer}
use nandfs.Sequencing.NextPage.Stored.{IsAllocating}
use nandfs.Sequencing.Commit.{seq_checkpoint_size, calculate_in_pages, fill_count}
use nandfs.Sequencing.Commit.Pages.{HoldsPage, location}
use nandfs.Sequencing.Commit.Loop.{first_byte, first_byte_next, not_yet, more}
use nandfs.Sequencing.ReadCheckpoint.{Memory, store_page, read_pages, cp_not_part_of_cp}
use nandfs.Sequencing.ReadCheckpoint.Translated.{translated}
use nandfs.Sequencing.ReadCheckpoint.Stored.{byte_at, store_page_inside, store_page_before}

location_lem : (pages p : ℕ) → (location pages p == cp_not_part_of_cp) ≡ false
location_lem pages p = ground arith

module _ {F : Type 0} (d : Driver F) (slot : ℕ) (w : Writer F) (v : IsAllocating d slot w)
    (reads : (o : ℕ) → o < 128 → (d.read_page_total w.flash (calc_address slot 0 o)).0 ≡ 0)
    (bytes : ℕ → ℕ) (n_bytes limit : ℕ) where
  abbrev cp_size : ℕ
  cp_size = seq_checkpoint_size + n_bytes

  abbrev pages : ℕ
  pages = calculate_in_pages cp_size

  -- The content of the page of the slot at an offset.
  abbrev content : ℕ → Bytes
  content o = (d.read_page_total w.flash (calc_address slot 0 o)).1

  abbrev step_memory : ℕ → ℕ → Memory → Memory
  step_memory p o s =
      store_page (fill_count cp_size (first_byte cp_size p)) n_bytes (first_byte cp_size p)
        (content o) s

  -- One round of the loop.
  read_pages_step :
      (k p flag : ℕ) (a : LogAddr) (s : Memory)
      → get_logical_segment a ≡ get_reclaimed_segment w.seg_map
      → get_logical_offset a < 128
      → ltb (first_byte cp_size p) cp_size ≡ true
      → get_checkpoint_flag 512 (content (get_logical_offset a)) ≡ location pages p
      → read_pages d w.flash w.seg_map (suc k) n_bytes (first_byte cp_size p) a flag s
        ≡ read_pages d w.flash w.seg_map k n_bytes
            (first_byte cp_size (p + 1))
            (set_logical_offset a (get_logical_offset a + 1))
            (location pages p)
            (step_memory p (get_logical_offset a) s)
  unfolding read_pages
  read_pages_step k p flag a s seg l below mark =
      rw
        (
          below,
          translated d slot w a v seg l,
          reads (get_logical_offset a) l,
          mark,
          location_lem pages p,
          first_byte_next cp_size p,
        )
        refl

  read_pages_end :
      (p flag : ℕ) (a : LogAddr) (s : Memory)
      → pages ≡ p + 0
      → read_pages d w.flash w.seg_map 1 n_bytes (first_byte cp_size p) a flag s
        ≡ some (0, a, flag, s)
  unfolding read_pages calculate_in_pages
  read_pages_end p flag a s total =
      let over : ltb (first_byte cp_size p) cp_size ≡ false = ground (arith, total) in rw over refl

  end_lem : (p j : ℕ) → pages ≡ p + 0 → j < cp_size → j < first_byte cp_size p
  unfolding calculate_in_pages
  end_lem p j total l = ground (arith, total)

  -- What is known below an index stays so, and the page adds its bytes.
  step_stored :
      (p o : ℕ) (s : Memory)
      → first_byte cp_size p ≡ p * 512
      → HoldsPage bytes limit pages p (content o)
      → ((j : ℕ) → j < first_byte cp_size p → j < limit → byte_at n_bytes s j ≡ bytes j)
      → (j : ℕ) → j < first_byte cp_size (p + 1)
      → j < limit
      → byte_at n_bytes (step_memory p o s) j ≡ bytes j
  unfolding fill_count
  step_stored p o s here held old j l below = elim (Bool-cases (ltb j (first_byte cp_size p))) [
    | inl e ↦
        store_page_before (fill_count cp_size (first_byte cp_size p)) n_bytes (first_byte cp_size p)
          (content o) s j (ground arith)
        ∙ old j (ground arith) below
    | inr e ↦
        let from : j - first_byte cp_size p ≡ j - p * 512 = ap (λ (x : ℕ). j - x) here in
        let whole : p * 512 + (j - p * 512) ≡ j = ground arith in
        store_page_inside (fill_count cp_size (first_byte cp_size p)) n_bytes (first_byte cp_size p)
          (content o) s j (ground arith) (omega (arith, l, first_byte_next cp_size p))
        ∙ ap (content o) from
        ∙ held.0 (j - p * 512) (ground arith) (omega (arith, below, whole))
        ∙ ap bytes whole
  ]

  marks :
      (flag p n : ℕ)
      → (if n == 0 then location pages p else location pages (p + 1 + n - 1))
        ≡ (if suc n == 0 then flag else location pages (p + suc n - 1))
  marks flag p n =
      let some_page : (suc n == 0) ≡ false = ground arith in
      let a : p + 1 + n - 1 ≡ p + suc n - 1 = omega arith in
      elim (Bool-cases (n == 0)) [
        | inl e ↦
            let b : p ≡ p + suc n - 1 = ground arith in rw (e, some_page) (ap (location pages) b)
        | inr e ↦ rw (e, some_page) (ap (location pages) a)
      ]

  -- The loop from page `p` on, with `n` pages to come.
  pub read_pages_lem :
      (n p flag : ℕ) (a : LogAddr) (s : Memory)
      → IsBytes a
      → get_logical_segment a ≡ get_reclaimed_segment w.seg_map
      → pages ≡ p + n
      → get_logical_offset a + n ≤ 128
      → ((e : ℕ) → e < n → HoldsPage bytes limit pages (p + e) (content (get_logical_offset a + e)))
      → ((j : ℕ) → j < first_byte cp_size p → j < limit → byte_at n_bytes s j ≡ bytes j)
      → limit ≤ cp_size
      → (b : LogAddr) × (last : ℕ) × (t : Memory) × (read_pages d w.flash w.seg_map
            (suc n)
            n_bytes
            (first_byte cp_size p)
            a
            flag
            s
          ≡ some (0, b, last, t))
        × ((j : ℕ) → j < limit → byte_at n_bytes t j ≡ bytes j)
        × (last ≡ (if n == 0 then flag else location pages (p + n - 1)))
  read_pages_lem zero p flag a s va seg total room held old low = (
    a,
    flag,
    s,
    read_pages_end p flag a s total,
    (λ j l. old j (end_lem p j total (omega (arith, l, low))) l),
    refl,
  )
  read_pages_lem (suc n) p flag a s va seg total room held old low =
      let o : ℕ = get_logical_offset a in
      let (up, same, _) = set_logical_offset_lem (o + 1) va (omega arith) in
      let p0 : p + 0 ≡ p = omega arith in
      let o0 : o + 0 ≡ o = omega arith in
      let here : HoldsPage bytes limit pages p (content o) =
        subst (λ x. HoldsPage bytes limit pages p (content x)) o0
          (subst (λ x. HoldsPage bytes limit pages x (content (o + 0))) p0
            (held 0 (omega arith))) in
      let (b, last, t, ran, got, marked) =
        read_pages_lem n (p + 1) (location pages p) (set_logical_offset a (o + 1))
          (step_memory p o s) (set_offset-IsBytes (o + 1) va) (same ∙ seg) (omega (arith, total))
          (omega (arith, up))
          (λ e l.
            let at : get_logical_offset (set_logical_offset a (o + 1)) + e ≡ o + suc e =
              omega (arith, up) in
            let which : p + 1 + e ≡ p + suc e = omega arith in
            rw (at, which) (held (suc e) (omega arith)))
          (step_stored p o s (not_yet cp_size n p total) here old) low in
      (
        b,
        last,
        t,
        read_pages_step (suc n) p flag a s seg (omega arith) (more cp_size n p total) (here.1)
            ∙ ran,
        got,
        marked ∙ marks flag p n,
      )
