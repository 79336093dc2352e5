-- ===== src/Sequencing/ReadCheckpoint/Stored.antt =====
-- The bytes that the loops store.
use nandfs.Base.{
  ℕ, zero, suc, ◌+◌, ◌-◌, ◌<◌, ◌≤◌, ◌≡◌, refl, ap, ◌∙◌, inl, inr, false, ◌==◌, ltb, if◌then◌else◌,
  arith, Bool-cases, update,
}
use nandfs.Nand.{Bytes}
use nandfs.Sequencing.ReadCheckpoint.{Memory, store_byte, store_page}

-- The byte of the memory at an index of the checkpoint.
abbrev pub byte_at : ℕ → Memory → ℕ → ℕ
byte_at n_bytes s j = if ltb j n_bytes then s.fs_data j else s.obs_counters_map (j - n_bytes)

store_byte_lem :
    (n_bytes i byte : ℕ) (s : Memory) (j : ℕ)
    → byte_at n_bytes (store_byte n_bytes i byte s) j
      ≡ (if j == i then byte else byte_at n_bytes s j)
unfolding store_byte update
store_byte_lem n_bytes i byte s j = elim (Bool-cases (ltb i n_bytes)) [
  | inl e ↦ rw e (ground arith)
  | inr e ↦ rw e (ground arith)
]

pub store_page_inside :
    (k n_bytes i : ℕ) (buf : Bytes) (s : Memory) (j : ℕ)
    → i ≤ j
    → j < i + k
    → byte_at n_bytes (store_page k n_bytes i buf s) j ≡ buf (j - i)
unfolding store_page
store_page_inside zero n_bytes i buf s j a l = ground arith
store_page_inside (suc k) n_bytes i buf s j a l =
    let step = store_byte_lem n_bytes (i + k) (buf k) (store_page k n_bytes i buf s) j in
    elim (Bool-cases (j == i + k)) [
      | inl e ↦ let at : k ≡ j - i = ground arith in step ∙ rw e (ap buf at)
      | inr e ↦ step ∙ rw e (store_page_inside k n_bytes i buf s j a (ground arith))
    ]

pub store_page_before :
    (k n_bytes i : ℕ) (buf : Bytes) (s : Memory) (j : ℕ)
    → j < i
    → byte_at n_bytes (store_page k n_bytes i buf s) j ≡ byte_at n_bytes s j
unfolding store_page
store_page_before zero n_bytes i buf s j l = refl
store_page_before (suc k) n_bytes i buf s j l =
    let ne : (j == i + k) ≡ false = ground arith in
    store_byte_lem n_bytes (i + k) (buf k) (store_page k n_bytes i buf s) j
    ∙ rw ne (store_page_before k n_bytes i buf s j l)
