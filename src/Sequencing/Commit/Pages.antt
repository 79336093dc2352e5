-- ===== src/Sequencing/Commit/Pages.antt =====
-- The pages of a checkpoint and how they are written in a segment's header.
use nandfs.Base.{
  ℕ, zero, suc, ◌+◌, ◌-◌, ◌*◌, ◌<◌, ◌≡◌, refl, ◌∙◌, inl, inr, ◌==◌, ltb, if◌then◌else◌, arith,
  Bool-cases, update,
}
use nandfs.Nand.{
  Bytes, get_bit, set_bit, get_checkpoint_flag, set_checkpoint_flag, set_seg_type_flag,
}
use nandfs.Nand.Flags.{set_seg_type_flag_used}
use nandfs.Sequencing.Reclaim.{ObsCounters}
use nandfs.Sequencing.Pages.{set_cp_page_flag}
use nandfs.Sequencing.Pages.Copy.{flags_cong}
use nandfs.Sequencing.Commit.{
  seq_checkpoint_size, obs_counters_map_size, byte_to_write, obs_byte, fill_page, fill_count,
  single_page,
}

-- The place of a page among `pages` ones.
abbrev pub location : ℕ → ℕ → ℕ
location pages p = if p == 0 then 0 else if p == pages - 1 then 2 else 1

-- The bytes of the checkpoint that lie on page `p` and are below the limit, and the mark of the page.
abbrev pub HoldsPage : (ℕ → ℕ) → ℕ → ℕ → ℕ → Bytes → Type 0
HoldsPage bytes limit pages p q =
    ((i : ℕ) → i < 512 → p * 512 + i < limit → q i ≡ bytes (p * 512 + i))
    × (get_checkpoint_flag 512 q ≡ location pages p)

fill_page_lem :
    (k start : ℕ) (bytes : ℕ → ℕ) (i : ℕ)
    → fill_page k start bytes i ≡ (if ltb i k then bytes (start + i) else 255)
unfolding fill_page update
fill_page_lem zero start bytes i = ground arith
fill_page_lem (suc k) start bytes i =
    let ih = fill_page_lem k start bytes i in
    elim (Bool-cases (i == k)) [
      | inl e ↦ let same : i ≡ k = ground arith in rw same (ground arith)
      | inr e ↦ ground (arith, ih)
    ]

set_checkpoint_flag_lem :
    (b : Bytes) (p max : ℕ)
    → b 516 ≡ 255
    → get_checkpoint_flag 512 (set_cp_page_flag 512 b p max)
      ≡ (if p == 0 then 0 else if p == max then 2 else 1)
unfolding set_cp_page_flag get_checkpoint_flag set_checkpoint_flag get_bit set_bit update
set_checkpoint_flag_lem b p max e = elim (Bool-cases (p == 0)) [
  | inl z ↦ rw (z, e) refl
  | inr z ↦ elim (Bool-cases (p == max)) [ inl m ↦ rw (z, m, e) refl | inr m ↦ rw (z, m, e) refl ]
]

marked_low :
    (b : Bytes) (p max i : ℕ)
    → i < 512
    → set_seg_type_flag 512 (set_cp_page_flag 512 b p max) 3 i ≡ b i
unfolding set_seg_type_flag set_cp_page_flag set_checkpoint_flag set_bit update
marked_low b p max i l = ground arith

pub marked_bad : (b : Bytes) (p max : ℕ) → set_cp_page_flag 512 b p max 517 ≡ b 517
unfolding set_cp_page_flag set_checkpoint_flag set_bit update
marked_bad b p max = refl

-- A page with the bytes of a buffer that is marked.
pub marked-HoldsPage :
    (bytes : ℕ → ℕ) (limit pages p : ℕ) (b q : Bytes)
    → b 516 ≡ 255
    → ((i : ℕ) → i < 512 → p * 512 + i < limit → b i ≡ bytes (p * 512 + i))
    → ((i : ℕ) → i < 527 → q i ≡ set_seg_type_flag 512 (set_cp_page_flag 512 b p (pages - 1)) 3 i)
    → HoldsPage bytes limit pages p q
marked-HoldsPage bytes limit pages p b q e low same =
    let marked : Bytes = set_cp_page_flag 512 b p (pages - 1) in
    (
      (λ i l below. same i (omega arith) ∙ marked_low b p (pages - 1) i l ∙ low i l below),
      (flags_cong q (set_seg_type_flag 512 marked 3) (same 516 (omega arith))).0
          ∙ (set_seg_type_flag_used marked).1
          ∙ set_checkpoint_flag_lem b p (pages - 1) e,
    )

pub fill_count_lem :
    (cp_size start : ℕ) (bytes : ℕ → ℕ)
    → let b = fill_page (fill_count cp_size start) start bytes in
      (b 516 ≡ 255)
      × (b 517 ≡ 255)
      × ((i : ℕ) → i < 512 → start + i < cp_size → b i ≡ bytes (start + i))
unfolding fill_count
fill_count_lem cp_size start bytes =
    let k : ℕ = fill_count cp_size start in
    (
      fill_page_lem k start bytes 516 ∙ ground arith,
      fill_page_lem k start bytes 517 ∙ ground arith,
      (λ i l below. fill_page_lem k start bytes i ∙ ground arith),
    )

-- The buffer of a short checkpoint before it is marked.
abbrev pub single_fill : Bytes → ℕ → ObsCounters → Bytes
single_fill fs_data n_bytes obs i =
    if ltb i n_bytes
    then fs_data i
    else if ltb i (n_bytes + obs_counters_map_size)
    then obs_byte obs (i - n_bytes)
    else 255

pub single_page-marked :
    (fs_data : Bytes) (n_bytes : ℕ) (obs : ObsCounters)
    → single_page fs_data n_bytes obs ≡ set_cp_page_flag 512 (single_fill fs_data n_bytes obs) 0 0
unfolding single_page set_cp_page_flag
single_page-marked fs_data n_bytes obs = refl

pub single_fill_lem :
    (behind : ℕ → ℕ) (fs_data : Bytes) (n_bytes : ℕ) (obs : ObsCounters) (lfsr_state : ℕ)
    → seq_checkpoint_size + n_bytes < 512
    → let b = single_fill fs_data n_bytes obs in
      (b 516 ≡ 255)
      × (b 517 ≡ 255)
      × ((i : ℕ)
          → i < 512
          → i < n_bytes + obs_counters_map_size
          → b i ≡ byte_to_write behind fs_data n_bytes obs lfsr_state i)
unfolding byte_to_write
single_fill_lem behind fs_data n_bytes obs lfsr_state short =
    (ground arith, ground arith, (λ i l below. ground arith))
