-- ===== src/Files/Tables/Start.antt =====
-- The tables at the start, and what verifyFileNotOpen finds out.
use nandfs.Base.{
  ℕ, zero, suc, ◌<◌, ◌≡◌, refl, sym, ap, ◌∙◌, inl, inr, ◌↔◌, true, false, arith, ◌==◌, Bool-cases,
  ==_iff, update,
}
use nandfs.Files.Tables.{
  Tables, OpenFile, Vnode, empty_file, init_file_entry, init_file_entries, init_vnode, init_vnodes,
  fs_max_open_files, fs_max_vnodes, ino_num_empty, vnode_empty, is_open_file_entry_empty,
  verify_file_not_open,
}
use nandfs.Files.Tables.Refs.{IsTables, refs}

init_file_entries_at :
    (n : ℕ) (t : Tables) (fd : ℕ) → fd < n → (init_file_entries n t).open_files fd ≡ empty_file
unfolding init_file_entries init_file_entry update
init_file_entries_at zero t fd l = absurd (omega arith)
init_file_entries_at (suc n) t fd l = elim (Bool-cases (fd == n)) [
  | inl e ↦ rw e refl
  | inr e ↦ rw e (init_file_entries_at n t fd (ground arith))
]

init_vnodes_at :
    (n : ℕ) (t : Tables) (i : ℕ)
    → i < n
    → (init_vnodes n t).vnodes i ≡ record { ino_num = ino_num_empty; n_references = 0 }
unfolding init_vnodes init_vnode update
init_vnodes_at zero t i l = absurd (omega arith)
init_vnodes_at (suc n) t i l = elim (Bool-cases (i == n)) [
  | inl e ↦ rw e refl
  | inr e ↦ rw e (init_vnodes_at n t i (ground arith))
]

init_vnodes_files : (n : ℕ) (t : Tables) → (init_vnodes n t).open_files ≡ t.open_files
unfolding init_vnodes init_vnode
init_vnodes_files zero t = refl
init_vnodes_files (suc n) t = init_vnodes_files n t

no_refs :
    (n : ℕ) (files : ℕ → OpenFile) (v : ℕ)
    → v < fs_max_vnodes
    → ((fd : ℕ) → fd < n → files fd ≡ empty_file)
    → refs n files v ≡ 0
unfolding refs
no_refs zero files v l h = refl
no_refs (suc n) files v l h =
    let other : (vnode_empty == v) ≡ false = ground arith in
    rw (h n (omega arith), other, no_refs n files v l (λ fd k. h fd (omega arith))) refl

-- init_file_entries and then init_vnodes, whatever the memory held, give tables that are right, and in
-- which every entry is empty.
pub init_tables_lem :
    (t : Tables)
    → let r = init_vnodes fs_max_vnodes (init_file_entries fs_max_open_files t) in
      IsTables r × ((fd : ℕ) → fd < fs_max_open_files → is_open_file_entry_empty r fd ≡ true)
unfolding is_open_file_entry_empty
init_tables_lem t =
    let u : Tables = init_file_entries 8 t in
    let same = init_vnodes_files 6 u in
    let at : (fd : ℕ) → fd < 8 → (init_vnodes 6 u).open_files fd ≡ empty_file =
      λ fd l. ap (λ (f : ℕ → OpenFile). f fd) same ∙ init_file_entries_at 8 t fd l in
    let clear : (fd : ℕ)
        → fd < 8
        → (((init_vnodes 6 u).open_files fd).vnode == vnode_empty) ≡ true =
      λ fd l. ap (λ (f : OpenFile). f.vnode == vnode_empty) (at fd l) in
    (
      record {
        real = λ fd l full. let e = clear fd l in absurd (cc);
        counted = λ v l.
            ap (λ (b : Vnode). b.n_references) (init_vnodes_at 6 u v l)
            ∙ sym (no_refs 8 (init_vnodes 6 u).open_files v l at);
        used = λ v l.
            ap (λ (b : Vnode). b.ino_num == ino_num_empty) (init_vnodes_at 6 u v l)
            ∙ sym (ap (λ (b : Vnode). b.n_references == 0) (init_vnodes_at 6 u v l));
      },
      clear,
    )

-- No open entry below `n` is for the inode.
abbrev pub NotOpen : ℕ → Tables → ℕ → Type 0
NotOpen n t ino_num =
    (fd : ℕ)
    → fd < n
    → is_open_file_entry_empty t fd ≡ false
    → ((t.vnodes (t.open_files fd).vnode).ino_num == ino_num) ≡ false

-- verifyFileNotOpen succeeds just when no entry that is open refers to a vnode with the inode number.
pub verify_file_not_open_lem :
    (n : ℕ) (t : Tables) (ino_num : ℕ)
    → (verify_file_not_open n t ino_num ≡ true) ↔ NotOpen n t ino_num
unfolding verify_file_not_open
verify_file_not_open_lem zero t ino_num = (λ h fd l o. absurd (omega arith), λ h. refl)
verify_file_not_open_lem (suc n) t ino_num =
    let (there, back) = verify_file_not_open_lem n t ino_num in
    (
      λ h fd l o. elim (Bool-cases (fd == n)) [
        | inl e ↦
            let same : fd ≡ n = (==_iff fd n).0 e in
            let full : is_open_file_entry_empty t n ≡ false =
              ap (is_open_file_entry_empty t) (sym same) ∙ o in
            ap (λ (d : ℕ). (t.vnodes (t.open_files d).vnode).ino_num == ino_num) same ∙ ground arith
        | inr e ↦ there (ground arith) fd (ground arith) o
      ],
      λ h.
          let rest = back (λ fd l o. h fd (omega arith) o) in
          elim (Bool-cases (is_open_file_entry_empty t n)) [
            | inl e ↦ ground arith
            | inr e ↦ let now = h n (omega arith) e in ground arith
          ],
    )
