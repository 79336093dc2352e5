-- ===== src/Files/Dup/Laws.antt =====
-- What dupUtil does to the tables, and that it refuses every descriptor open for writing.
use nandfs.Base.{
  ℕ, zero, suc, ◌+◌, ◌-◌, ◌%◌, ◌^◌, ◌<◌, ◌≡◌, refl, sym, ap, ◌∙◌, inl, inr, ◌⊎◌, Bool, true, false,
  not, ◌&&◌, ltb, ◌==◌, if◌then◌else◌, Bool-cases, ==_iff, update, update_self, arith,
}
use nandfs.Files.Tables.{
  Tables, OpenFile, Vnode, fd_empty, vnode_empty, ino_num_empty, fs_max_open_files, is_wronly,
  is_open_file_entry_empty, get_free_open_file_entry, verify_fd, conflicts, is_flags_conflict,
  set_fentry, init_vnode, init_file_entry,
}
use nandfs.Files.Tables.Refs.{IsTables, set_fentry-IsTables}
use nandfs.Files.Open.{close_util, release}
use nandfs.Files.Open.Laws.{referred, legal_fd, free_entry_lem, close_util_lem}
use nandfs.Files.Dup.{copy_fentry, close_and_copy, dup_util}

conflict_at :
    (n fd : ℕ) (t : Tables) (current_user vnode_idx flags : ℕ)
    → fd < n
    → ((t.open_files fd).vnode == vnode_idx) ≡ true
    → conflicts current_user flags (t.open_files fd) ≡ true
    → is_flags_conflict n t current_user vnode_idx flags ≡ true
unfolding is_flags_conflict
conflict_at zero fd t current_user vnode_idx flags l at c = absurd (omega arith)
conflict_at (suc n) fd t current_user vnode_idx flags l at c = elim (Bool-cases (fd == n)) [
  | inl e ↦
      let same : fd ≡ n = (==_iff fd n).0 e in
      let at1 : ((t.open_files n).vnode == vnode_idx) ≡ true =
        ap (λ (x : ℕ). (t.open_files x).vnode == vnode_idx) (sym same) ∙ at in
      let c1 : conflicts current_user flags (t.open_files n) ≡ true =
        ap (λ (x : ℕ). conflicts current_user flags (t.open_files x)) (sym same) ∙ c in
      ground arith
  | inr e ↦
      let rest = conflict_at n fd t current_user vnode_idx flags (ground arith) at c in ground arith
]

own_conflict :
    (f : OpenFile) (current_user : ℕ)
    → is_wronly f.flags ≡ true
    → conflicts current_user f.flags f ≡ true
unfolding conflicts
own_conflict f current_user w = ground arith

-- A descriptor that is open for writing cannot be copied, by dup or by dup2: the conflict of flags that
-- is looked for is found at the descriptor itself. The call fails and changes nothing.
pub dup_util_writable :
    (commit : ℕ → Bool) (current_user : ℕ) (t : Tables) (old_fd new_fd : ℕ) (is_dup2 : Bool)
    → is_wronly (t.open_files old_fd).flags ≡ true
    → dup_util commit current_user t old_fd new_fd is_dup2 ≡ (0xffffffff, t)
unfolding dup_util
dup_util_writable commit current_user t old_fd new_fd is_dup2 w =
    elim (Bool-cases (verify_fd t current_user old_fd)) [
      | inr e ↦ rw e (ground arith)
      | inl e ↦
          let f : OpenFile = t.open_files old_fd in
          let same : (f.vnode == f.vnode) ≡ true = ground arith in
          let found =
            conflict_at 8 old_fd t current_user f.vnode f.flags
              ((legal_fd t current_user old_fd e).0) same (own_conflict f current_user w) in
          rw (e, found) (ground arith)
    ]

release_other :
    (t : Tables) (fd d : ℕ) → (d == fd) ≡ false → (release t fd).open_files d ≡ t.open_files d
unfolding release init_vnode init_file_entry update
release_other t fd d ne =
    let v0 : ℕ = (t.open_files fd).vnode in
    let v : Vnode = t.vnodes v0 in
    let b : Vnode = record v { n_references = (v.n_references + 2 ^ 32 - 1) % 2 ^ 32 } in
    elim (Bool-cases ((update t.vnodes v0 b v0).n_references == 0)) [
      | inl e ↦ rw (e, ne) refl
      | inr e ↦ rw (e, ne) refl
    ]

close_other :
    (commit : ℕ → Bool) (current_user : ℕ) (t : Tables) (fd d : ℕ)
    → (d == fd) ≡ false
    → ((close_util commit current_user t fd).1).open_files d ≡ t.open_files d
unfolding close_util
close_other commit current_user t fd d ne = elim (Bool-cases (verify_fd t current_user fd)) [
  | inr e ↦ rw e refl
  | inl e ↦
      elim (Bool-cases (
        is_wronly (t.open_files fd).flags
        && not (commit (t.vnodes (t.open_files fd).vnode).ino_num))) [
          | inl c ↦ rw (e, c) refl
          | inr c ↦ rw (e, c) (release_other t fd d ne)
        ]
]

-- The entry is one of the current user with the other fields of `f`.
abbrev pub copy_of : ℕ → OpenFile → OpenFile
copy_of current_user f = record f { uid = current_user }

copy_fentry_lem :
    (commit : ℕ → Bool) (current_user : ℕ) (t : Tables) (old_fd new_fd : ℕ)
    → IsTables t
    → old_fd < fs_max_open_files
    → new_fd < fs_max_open_files
    → ((t.open_files old_fd).vnode == vnode_empty) ≡ false
    → (t.open_files new_fd).vnode ≡ vnode_empty
    → let r = copy_fentry commit current_user t old_fd new_fd in
      IsTables r.1
      × (r.0 ≡ new_fd)
      × (r.1.open_files new_fd ≡ copy_of current_user (t.open_files old_fd))
unfolding copy_fentry set_fentry
copy_fentry_lem commit current_user t old_fd new_fd v lo ln full free =
    let f : OpenFile = t.open_files old_fd in
    let lv = v.real old_fd lo full in
    let (some_refs, few) = referred t old_fd v lo full in
    let live : ((t.vnodes f.vnode).ino_num == ino_num_empty) ≡ false =
      v.used f.vnode lv ∙ ground arith in
    (
      set_fentry-IsTables current_user new_fd f.flags f.offset f.vnode f.f_type _ v ln free lv live,
      refl,
      update_self t.open_files new_fd _,
    )

-- What dupUtil gives: a failure without a change, or the new descriptor, whose entry is a copy of the
-- old one.
abbrev pub IsDup : Tables → ℕ → ℕ → ℕ → ℕ × Tables → Type 0
IsDup t current_user old_fd fd (res, r) =
    ((res ≡ 0xffffffff) × (r ≡ t))
    ⊎ ((res ≡ fd) × (r.open_files fd ≡ copy_of current_user (t.open_files old_fd)))

close_and_copy_lem :
    (commit : ℕ → Bool) (current_user : ℕ) (t : Tables) (old_fd fd : ℕ)
    → IsTables t
    → old_fd < fs_max_open_files
    → fd < fs_max_open_files
    → ((t.open_files old_fd).vnode == vnode_empty) ≡ false
    → (old_fd == fd) ≡ false
    → let r = close_and_copy commit current_user t old_fd fd in
      IsTables r.1 × IsDup t current_user old_fd fd r
unfolding close_and_copy is_open_file_entry_empty
close_and_copy_lem commit current_user t old_fd fd v lo ln full ne =
    elim (Bool-cases ((t.open_files fd).vnode == vnode_empty)) [
      | inl e ↦
          let free : (t.open_files fd).vnode ≡ vnode_empty = (==_iff _ vnode_empty).0 e in
          let (tables, res, copy) =
            copy_fentry_lem commit current_user t old_fd fd v lo ln full free in
          rw e (tables, inr (res, copy))
      | inr e ↦
          let r : ℕ × Tables = close_util commit current_user t fd in
          let (v1, outcome) = close_util_lem commit current_user t fd v in
          let kept : r.1.open_files old_fd ≡ t.open_files old_fd =
            close_other commit current_user t fd old_fd ne in
          elim outcome [
            | inr (bad, same) ↦ rw (e, bad) (v1, inl (refl, same))
            | inl (good, free) ↦
                let full1 : ((r.1.open_files old_fd).vnode == vnode_empty) ≡ false =
                  ap (λ (f : OpenFile). f.vnode == vnode_empty) kept ∙ full in
                let (tables, res, copy) =
                  copy_fentry_lem commit current_user r.1 old_fd fd v1 lo ln full1
                    ((==_iff _ vnode_empty).0 free) in
                rw (e, good) (tables, inr (res, copy ∙ ap (copy_of current_user) kept))
          ]
    ]

-- The descriptor that dupUtil copies to is not the old one.
target_ne :
    (t : Tables) (old_fd new_fd : ℕ) (is_dup2 : Bool)
    → (is_dup2 && (old_fd == new_fd)) ≡ false
    → (not is_dup2 && (get_free_open_file_entry t == fd_empty)) ≡ false
    → ((t.open_files old_fd).vnode == vnode_empty) ≡ false
    → (old_fd == (if is_dup2 then new_fd else get_free_open_file_entry t)) ≡ false
target_ne t old_fd new_fd true ne found full = ne
target_ne t old_fd new_fd false ne found full =
    elim (Bool-cases (old_fd == get_free_open_file_entry t)) [
      | inr e ↦ e
      | inl e ↦
          let (l, free) = free_entry_lem t found in
          let here : (t.open_files old_fd).vnode ≡ vnode_empty =
            ap (λ (x : ℕ). (t.open_files x).vnode) ((==_iff old_fd _).0 e) ∙ free in
          absurd (ground arith)
    ]

-- For dup, and for dup2 with two different descriptors, dupUtil keeps tables right (IsTables). It fails
-- without a change, or gives the new descriptor, whose entry is then a copy of the old one for the
-- current user.
pub dup_util_lem :
    (commit : ℕ → Bool) (current_user : ℕ) (t : Tables) (old_fd new_fd : ℕ) (is_dup2 : Bool)
    → IsTables t
    → (is_dup2 && (old_fd == new_fd)) ≡ false
    → let fd = if is_dup2 then new_fd else get_free_open_file_entry t in
      let r = dup_util commit current_user t old_fd new_fd is_dup2 in
      IsTables r.1 × IsDup t current_user old_fd fd r
unfolding dup_util
dup_util_lem commit current_user t old_fd new_fd is_dup2 v ne =
    let fd : ℕ = if is_dup2 then new_fd else get_free_open_file_entry t in
    let f : OpenFile = t.open_files old_fd in
    elim (Bool-cases (not is_dup2 && (fd == fd_empty))) [
      | inl a ↦ rw a (v, inl (refl, refl))
      | inr a ↦ elim (Bool-cases (verify_fd t current_user old_fd)) [
        | inr b ↦ rw (a, b) (v, inl (refl, refl))
        | inl b ↦ elim (Bool-cases (ltb fd fs_max_open_files)) [
          | inr c ↦ rw (a, b, c) (v, inl (refl, refl))
          | inl c ↦
              elim (Bool-cases
                (is_flags_conflict fs_max_open_files t current_user f.vnode f.flags)) [
                  | inl d ↦ rw (a, b, c, d) (v, inl (refl, refl))
                  | inr d ↦
                      let (lo, full) = legal_fd t current_user old_fd b in
                      let other =
                        target_ne t old_fd new_fd is_dup2 ne (some_free t is_dup2 new_fd a) full in
                      rw (a, b, c, d)
                        (close_and_copy_lem commit current_user t old_fd fd v lo (ground arith) full
                          other)
                ]
        ]
      ]
    ]
  where
    some_free :
        (t : Tables) (is_dup2 : Bool) (new_fd : ℕ)
        → (not is_dup2 && ((if is_dup2 then new_fd else get_free_open_file_entry t) == fd_empty))
          ≡ false
        → (not is_dup2 && (get_free_open_file_entry t == fd_empty)) ≡ false
    some_free t true new_fd a = refl
    some_free t false new_fd a = a
