-- ===== src/Files/Open/Exclusive.antt =====
-- Who may have a file open together: isFlagsConflict and setOpenFentry.
use nandfs.Base.{
  ℕ, zero, suc, ◌<◌, ◌≡◌, sym, ap, ◌∙◌, inl, inr, true, false, ◌||◌, arith, ◌==◌, Bool-cases,
  ==_iff, subst,
}
use nandfs.Files.Tables.{
  Tables, OpenFile, vnode_empty, ino_num_empty, fs_max_vnodes, fs_max_open_files, conflicts,
  get_vnode_by_inode_num, get_free_vnode, is_flags_conflict, is_wronly, is_rdonly,
}
use nandfs.Files.Tables.Refs.{IsTables, refs}
use nandfs.Files.Open.Laws.{vnode_lem}

-- Of two entries for one file, of which one may write, both are the same user's and the other may
-- not write.
abbrev pub Exclusive : Tables → Type 0
Exclusive t =
    (i j : ℕ)
    → i < fs_max_open_files
    → j < fs_max_open_files
    → (i == j) ≡ false
    → ((t.open_files i).vnode == vnode_empty) ≡ false
    → (t.open_files i).vnode ≡ (t.open_files j).vnode
    → is_wronly (t.open_files i).flags ≡ true
    → ((t.open_files i).uid ≡ (t.open_files j).uid) × (is_wronly (t.open_files j).flags ≡ false)

-- No entry for the vnode conflicts with the user and the flags.
abbrev pub Agrees : ℕ → Tables → ℕ → ℕ → ℕ → Type 0
Agrees n t current_user vnode_idx flags =
    (i : ℕ)
    → i < n
    → (t.open_files i).vnode ≡ vnode_idx
    → conflicts current_user flags (t.open_files i) ≡ false

pub is_flags_conflict_lem :
    (n : ℕ) (t : Tables) (current_user vnode_idx flags : ℕ)
    → is_flags_conflict n t current_user vnode_idx flags ≡ false
    → Agrees n t current_user vnode_idx flags
unfolding is_flags_conflict
is_flags_conflict_lem zero t current_user vnode_idx flags h i l e = absurd (omega arith)
is_flags_conflict_lem (suc n) t current_user vnode_idx flags h i l e = elim (Bool-cases (i == n)) [
  | inl s ↦
      let same : i ≡ n = (==_iff i n).0 s in
      let at : (t.open_files n).vnode ≡ vnode_idx =
        ap (λ (x : ℕ). (t.open_files x).vnode) (sym same) ∙ e in
      let ok : conflicts current_user flags (t.open_files n) ≡ false = ground arith in
      ap (λ (x : ℕ). conflicts current_user flags (t.open_files x)) same ∙ ok
  | inr s ↦ is_flags_conflict_lem n t current_user vnode_idx flags (ground arith) i (ground arith) e
]

-- A vnode without references has no entry, so nothing conflicts.
unreferred :
    (n : ℕ) (t : Tables) (v : ℕ)
    → refs n t.open_files v ≡ 0
    → (i : ℕ) → i < n
    → ((t.open_files i).vnode == v) ≡ false
unfolding refs
unreferred zero t v h i l = absurd (omega arith)
unreferred (suc n) t v h i l = elim (Bool-cases (i == n)) [
  | inl s ↦
      let same : i ≡ n = (==_iff i n).0 s in
      ap (λ (x : ℕ). (t.open_files x).vnode == v) same ∙ ground arith
  | inr s ↦ unreferred n t v (ground arith) i (ground arith)
]

-- A free vnode has no entry.
pub free_vnode :
    (t : Tables) (current_user flags : ℕ)
    → IsTables t
    → (get_free_vnode t == vnode_empty) ≡ false
    → (get_free_vnode t < fs_max_vnodes)
      × Agrees fs_max_open_files t current_user (get_free_vnode t) flags
unfolding get_free_vnode
free_vnode t current_user flags v c =
    let v0 : ℕ = get_vnode_by_inode_num t ino_num_empty in
    let (lv, ino) = vnode_lem t ino_num_empty c in
    let empty : ((t.vnodes v0).ino_num == ino_num_empty) ≡ true = ground arith in
    let none : refs 8 t.open_files v0 ≡ 0 = ground (arith, v.used v0 lv, v.counted v0 lv) in
    (lv, λ i l e. let apart = unreferred 8 t v0 none i l in absurd (ground arith))

-- What two entries for one file must be.
abbrev Fits : OpenFile → OpenFile → Type 0
Fits f g = is_wronly f.flags ≡ true → (f.uid ≡ g.uid) × (is_wronly g.flags ≡ false)

Fits-new :
    (current_user flags : ℕ) (f g : OpenFile)
    → f.flags ≡ flags
    → f.uid ≡ current_user
    → conflicts current_user flags g ≡ false
    → Fits f g
unfolding conflicts
Fits-new current_user flags f g e u h w = ground arith

Fits-old :
    (current_user flags : ℕ) (f g : OpenFile)
    → f.flags ≡ flags
    → f.uid ≡ current_user
    → conflicts current_user flags g ≡ false
    → (is_rdonly flags || is_wronly flags) ≡ true
    → Fits g f
unfolding conflicts
Fits-old current_user flags f g e u h r w = ground arith

module _ (t r : Tables) (current_user fd flags v0 : ℕ) (x : Exclusive t)
    (access : (is_rdonly flags || is_wronly flags) ≡ true)
    (others : (d : ℕ) → (d == fd) ≡ false → r.open_files d ≡ t.open_files d)
    (new_flags : (r.open_files fd).flags ≡ flags) (new_uid : (r.open_files fd).uid ≡ current_user)
    (new_vnode : (r.open_files fd).vnode ≡ v0)
    (agrees : Agrees fs_max_open_files t current_user v0 flags) where
  pub added-Exclusive : Exclusive r
  added-Exclusive i j li lj apart full same = elim (Bool-cases (i == fd)) [
    | inl e ↦
        let at : i ≡ fd = (==_iff i fd).0 e in
        let j_other : (j == fd) ≡ false = ground (arith, at) in
        let file_j = others j j_other in
        let vn : (t.open_files j).vnode ≡ v0 =
          ap (λ (f : OpenFile). f.vnode) (sym file_j)
          ∙ sym same
          ∙ ap (λ (d : ℕ). (r.open_files d).vnode) at
          ∙ new_vnode in
        subst (λ (d : ℕ). Fits (r.open_files d) (r.open_files j)) (sym at)
          (subst (Fits (r.open_files fd)) (sym file_j) (
            Fits-new current_user flags (r.open_files fd) (t.open_files j) new_flags new_uid
              (agrees j lj vn)))
    | inr e ↦
        let file_i = others i e in
        elim (Bool-cases (j == fd)) [
          | inl k ↦
              let at : j ≡ fd = (==_iff j fd).0 k in
              let vn : (t.open_files i).vnode ≡ v0 =
                ap (λ (f : OpenFile). f.vnode) (sym file_i)
                ∙ same
                ∙ ap (λ (d : ℕ). (r.open_files d).vnode) at
                ∙ new_vnode in
              subst (λ (d : ℕ). Fits (r.open_files i) (r.open_files d)) (sym at)
                (subst (λ f. Fits f (r.open_files fd)) (sym file_i)
                  (Fits-old current_user flags (r.open_files fd) (t.open_files i) new_flags new_uid
                    (agrees i li vn) access))
          | inr k ↦
              let file_j = others j k in
              subst (λ f. Fits f (r.open_files j)) (sym file_i)
                (subst (Fits (t.open_files i)) (sym file_j) (
                  x i j li lj apart (rw file_i at full) (
                    ap (λ (f : OpenFile). f.vnode) (sym file_i)
                    ∙ same
                    ∙ ap (λ (f : OpenFile). f.vnode) file_j)))
        ]
  ]
