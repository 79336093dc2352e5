-- ===== src/Files/Open/Laws.antt =====
-- closeUtil of NANDFS/src/fs/fsUtils.c and the invariant of the tables.
use nandfs.Base.{
  ℕ, ◌+◌, ◌-◌, ◌<◌, ◌≤◌, ◌%◌, ◌^◌, ◌≡◌, refl, ap, ◌∙◌, inl, inr, ◌⊎◌, Bool, true, false, not, ◌&&◌,
  arith, ◌==◌, Bool-cases, ==_iff, update, update_self,
}
use nandfs.Files.Tables.{
  Tables, OpenFile, Vnode, vnode_empty, ino_num_empty, fs_max_vnodes, fs_max_open_files, fd_empty,
  put_file, put_vnode, init_file_entry, init_vnode, empty_file, is_open_file_entry_empty,
  get_vnode_by_inode_num, get_free_open_file_entry, verify_fd, is_wronly,
}
use nandfs.Files.Tables.Refs.{IsTables, refs-le, refs-update, first_index_lem}
use mathlib.Core.Path.{fun_ext}
use nandfs.Files.Open.{release, close_util}

-- The tables after an entry is emptied and its vnode given new content.
emptied :
    (t : Tables) (fd : ℕ) (v1 : Vnode)
    → IsTables t
    → fd < fs_max_open_files
    → ((t.open_files fd).vnode == vnode_empty) ≡ false
    → v1.n_references + 1 ≡ (t.vnodes (t.open_files fd).vnode).n_references
    → (v1.ino_num == ino_num_empty) ≡ (v1.n_references == 0)
    → IsTables (init_file_entry (put_vnode t (t.open_files fd).vnode v1) fd)
unfolding init_file_entry update
emptied t fd v1 v l full less agree =
    let v0 : ℕ = (t.open_files fd).vnode in
    record {
      real = λ d k n. elim (Bool-cases (d == fd)) [
        | inl e ↦ absurd (let n1 = rw e at n in cc)
        | inr e ↦ rw e (v.real d k (rw e at n))
      ];
      counted = λ a k.
          let moved = refs-update 8 t.open_files fd empty_file a l in
          let was = v.counted a k in
          let off : (vnode_empty == a) ≡ false = ground arith in
          elim (Bool-cases (a == v0)) [
            | inl e ↦
                let same : a ≡ v0 = (==_iff a v0).0 e in
                let is : (t.vnodes a).n_references ≡ (t.vnodes v0).n_references =
                  ap (λ (x : ℕ). (t.vnodes x).n_references) same in
                rw e (ground arith)
            | inr e ↦ rw e (ground arith)
          ];
      used = λ a k. elim (Bool-cases (a == v0)) [ inl e ↦ rw e agree | inr e ↦ rw e (v.used a k) ];
    }

update-update :
    {A : Type 0} (f : ℕ → A) (i : ℕ) (a b : A) → update (update f i a) i b ≡ update f i b
unfolding update
update-update f i a b =
    fun_ext (λ j. elim (Bool-cases (j == i)) [ inl e ↦ rw e refl | inr e ↦ rw e refl ])

pub referred :
    (t : Tables) (fd : ℕ)
    → IsTables t
    → fd < fs_max_open_files
    → ((t.open_files fd).vnode == vnode_empty) ≡ false
    → let n = (t.vnodes (t.open_files fd).vnode).n_references in (1 ≤ n) × (n ≤ 8)
referred t fd v l full =
    let v0 : ℕ = (t.open_files fd).vnode in
    let lv = v.real fd l full in
    let moved = refs-update 8 t.open_files fd empty_file v0 l in
    let few = refs-le 8 t.open_files v0 in
    let was = v.counted v0 lv in
    let off : (vnode_empty == v0) ≡ false = ground arith in ground arith

release-IsTables :
    {t : Tables} (fd : ℕ)
    → IsTables t
    → fd < fs_max_open_files
    → ((t.open_files fd).vnode == vnode_empty) ≡ false
    → IsTables (release t fd)
unfolding release init_vnode
release-IsTables {t} fd v l full =
    let v0 : ℕ = (t.open_files fd).vnode in
    let n : ℕ = (t.vnodes v0).n_references in
    let (some_refs, few) = referred t fd v l full in
    let n1 : ℕ = (n + 2 ^ 32 - 1) % 2 ^ 32 in
    let less : n1 + 1 ≡ n = omega arith in
    let b : Vnode = record (t.vnodes v0) { n_references = n1 } in
    let here : update t.vnodes v0 b v0 ≡ b = update_self t.vnodes v0 b in
    elim (Bool-cases (n1 == 0)) [
      | inl e ↦
          let z : Vnode = record { ino_num = ino_num_empty; n_references = 0 } in
          rw (here, e)
            (rw (update-update t.vnodes v0 b z) (emptied t fd z v l full (ground arith) refl))
      | inr e ↦
          let live : (n == 0) ≡ false = ground arith in
          rw (here, e)
            (emptied t fd b v l full less (v.used v0 (v.real fd l full) ∙ rw (e, live) refl))
    ]

-- The offset of an entry is not the tables' business.
pub put_offset-IsTables :
    {t : Tables} (fd offset : ℕ)
    → fd < fs_max_open_files
    → IsTables t
    → IsTables (put_file t fd (record (t.open_files fd) { offset = offset }))
unfolding update
put_offset-IsTables {t} fd offset l v =
    let f : OpenFile = record (t.open_files fd) { offset = offset } in
    record {
      real = λ d k n. elim (Bool-cases (d == fd)) [
        | inl e ↦ rw e (v.real fd l (rw e at n))
        | inr e ↦ rw e (v.real d k (rw e at n))
      ];
      counted =
          λ a k. let moved = refs-update 8 t.open_files fd f a l in omega (arith, v.counted a k);
      used = v.used;
    }

pub legal_fd :
    (t : Tables) (current_user fd : ℕ)
    → verify_fd t current_user fd ≡ true
    → (fd < fs_max_open_files) × (((t.open_files fd).vnode == vnode_empty) ≡ false)
unfolding verify_fd is_open_file_entry_empty
legal_fd t current_user fd h = ground arith

release_empty : (t : Tables) (fd : ℕ) → is_open_file_entry_empty (release t fd) fd ≡ true
unfolding release is_open_file_entry_empty init_file_entry
release_empty t fd = ap (λ (f : OpenFile). f.vnode == vnode_empty) (update_self _ fd empty_file)

-- closeUtil keeps tables right (IsTables), whatever becomes of the transaction; where it succeeds
-- the entry is empty.
pub close_util_lem :
    (commit : ℕ → Bool) (current_user : ℕ) (t : Tables) (fd : ℕ)
    → IsTables t
    → let (res, r) = close_util commit current_user t fd in
      IsTables r
      × (((res ≡ 0) × (is_open_file_entry_empty r fd ≡ true)) ⊎ ((res ≡ 0xffffffff) × (r ≡ t)))
unfolding close_util
close_util_lem commit current_user t fd v = elim (Bool-cases (verify_fd t current_user fd)) [
  | inr e ↦ rw e (v, inr (refl, refl))
  | inl e ↦
      let (l, full) = legal_fd t current_user fd e in
      elim (Bool-cases (
        is_wronly (t.open_files fd).flags
        && not (commit (t.vnodes (t.open_files fd).vnode).ino_num))) [
          | inl c ↦ rw (e, c) (v, inr (refl, refl))
          | inr c ↦ rw (e, c) (release-IsTables fd v l full, inl (refl, release_empty t fd))
        ]
]

-- The entry that is found is a free one.
pub free_entry_lem :
    (t : Tables)
    → (get_free_open_file_entry t == fd_empty) ≡ false
    → (get_free_open_file_entry t < fs_max_open_files)
      × ((t.open_files (get_free_open_file_entry t)).vnode ≡ vnode_empty)
unfolding get_free_open_file_entry is_open_file_entry_empty
free_entry_lem t h =
    let (l, e) = first_index_lem (is_open_file_entry_empty t) 8 0 (omega arith) h in
    (omega arith, (==_iff _ vnode_empty).0 e)

pub vnode_lem :
    (t : Tables) (ino_num : ℕ)
    → (get_vnode_by_inode_num t ino_num == vnode_empty) ≡ false
    → (get_vnode_by_inode_num t ino_num < fs_max_vnodes)
      × ((t.vnodes (get_vnode_by_inode_num t ino_num)).ino_num ≡ ino_num)
unfolding get_vnode_by_inode_num
vnode_lem t ino_num h =
    let (l, e) = first_index_lem (λ i. (t.vnodes i).ino_num == ino_num) 6 0 (omega arith) h in
    (omega arith, (==_iff _ ino_num).0 e)
