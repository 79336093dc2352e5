-- ===== src/Nand/Flags.antt =====
-- Reading a flag of the spare area of a page after writing one.
use nandfs.Base.{ℕ, ◌^◌, ◌<◌, ◌≡◌, inl, inr, ◌==◌, update, Bool-cases, arith}
use nandfs.Nand.{
  Bytes, get_bit, set_bit, get_checkpoint_flag, get_vots_flag, get_copy_flag, set_copy_flag,
  get_seg_type_flag, set_seg_type_flag, get_slot_eu_offset, set_slot_eu_offset,
}

pub get_copy_flag-set_copy_flag :
    (b : Bytes) (v : ℕ) → v < 2 → get_copy_flag 512 (set_copy_flag 512 b v) ≡ v
unfolding get_copy_flag set_copy_flag get_bit set_bit update
get_copy_flag-set_copy_flag b v l = ground arith

pub set_copy_flag_others :
    (b : Bytes) (v : ℕ)
    → (get_checkpoint_flag 512 (set_copy_flag 512 b v) ≡ get_checkpoint_flag 512 b)
      × (get_vots_flag 512 (set_copy_flag 512 b v) ≡ get_vots_flag 512 b)
      × (get_seg_type_flag 512 (set_copy_flag 512 b v) ≡ get_seg_type_flag 512 b)
unfolding get_checkpoint_flag get_vots_flag get_seg_type_flag set_copy_flag get_bit set_bit update
set_copy_flag_others b v = elim (Bool-cases (v == 0)) [
  | inl e ↦ rw e (ground arith)
  | inr e ↦ rw e (ground arith)
]

pub get_slot_eu_offset-set_slot_eu_offset :
    (b : Bytes) (v : ℕ) → v < 2 ^ 24 → get_slot_eu_offset 512 (set_slot_eu_offset 512 b v) ≡ v
unfolding get_slot_eu_offset set_slot_eu_offset update
get_slot_eu_offset-set_slot_eu_offset b v l = ground arith

-- The type of a page in use.
pub set_seg_type_flag_used :
    (b : Bytes)
    → (get_seg_type_flag 512 (set_seg_type_flag 512 b 3) ≡ 3)
      × (get_checkpoint_flag 512 (set_seg_type_flag 512 b 3) ≡ get_checkpoint_flag 512 b)
      × (get_vots_flag 512 (set_seg_type_flag 512 b 3) ≡ get_vots_flag 512 b)
      × (get_copy_flag 512 (set_seg_type_flag 512 b 3) ≡ get_copy_flag 512 b)
unfolding get_checkpoint_flag get_vots_flag get_seg_type_flag get_copy_flag set_seg_type_flag
    get_bit set_bit update
set_seg_type_flag_used b = ground arith
