-- ===== src/Files/Open/Result.antt =====
-- setOpenFentry of NANDFS/src/fs/fsUtils.c as a whole.
use nandfs.Base.{
  ℕ, ◌<◌, ◌≡◌, refl, ap, ◌∙◌, inl, inr, ◌⊎◌, Bool, true, false, ◌||◌, arith, ◌==◌, if◌then◌else◌,
  Bool-cases, update, update_self,
}
use nandfs.Files.Tables.{
  Tables, OpenFile, Vnode, vnode_empty, ino_num_empty, fs_max_vnodes, fs_max_open_files, fd_empty,
  put_file, set_fentry, is_open_file_entry_empty, get_vnode_by_inode_num, get_free_vnode,
  get_free_open_file_entry, is_flags_conflict, is_append, is_wronly, is_rdonly, fs_error_fentry_max,
}
use nandfs.Files.Tables.Refs.{IsTables, set_fentry-IsTables}
use nandfs.Files.Open.{is_refused, open_with_vnode, set_open_fentry}
use nandfs.Files.Open.Laws.{free_entry_lem, vnode_lem, put_offset-IsTables}
use nandfs.Files.Open.Exclusive.{
  Exclusive, Agrees, is_flags_conflict_lem, free_vnode, added-Exclusive,
}

-- What opening comes to: an error and the tables as they were, or a descriptor that was free and now
-- refers to a vnode of the inode, for the user and with the flags.
abbrev pub Opened : Tables → ℕ → ℕ → ℕ → ℕ → Tables → Type 0
Opened t current_user ino_num flags res r =
    (((res ≡ fd_empty) ⊎ (res ≡ fs_error_fentry_max)) × (r ≡ t))
    ⊎ ((res < fs_max_open_files)
        × (is_open_file_entry_empty t res ≡ true)
        × ((r.vnodes (r.open_files res).vnode).ino_num ≡ ino_num)
        × ((r.open_files res).uid ≡ current_user)
        × ((r.open_files res).flags ≡ flags))

module _ (get_file_size : ℕ → ℕ) (current_user : ℕ) (t : Tables) (ino_num flags f_type : ℕ)
    (v : IsTables t) (x : Exclusive t) (live : (ino_num == ino_num_empty) ≡ false)
    (access : (is_rdonly flags || is_wronly flags) ≡ true) where
  abbrev Result : ℕ → Tables → Type 0
  Result res r = IsTables r × Exclusive r × Opened t current_user ino_num flags res r

  module _ (fd v0 : ℕ) (l : fd < fs_max_open_files) (free : (t.open_files fd).vnode ≡ vnode_empty)
      (lv : v0 < fs_max_vnodes) (agrees : Agrees fs_max_open_files t current_user v0 flags) where
    abbrev entered : Tables
    entered = set_fentry t current_user fd flags 0 v0 f_type ino_num

    new_entry :
        entered.open_files fd
        ≡ record { flags = flags; offset = 0; uid = current_user; vnode = v0; f_type = f_type }
    unfolding set_fentry
    new_entry = update_self t.open_files fd _

    new_ino : (entered.vnodes v0).ino_num ≡ ino_num
    unfolding set_fentry
    new_ino = ap (λ (b : Vnode). b.ino_num) (update_self t.vnodes v0 _)

    other_entry : (d : ℕ) → (d == fd) ≡ false → entered.open_files d ≡ t.open_files d
    unfolding set_fentry update
    other_entry d e = rw e refl

    abbrev with_offset : ℕ → Tables
    with_offset offset = put_file entered fd (record (entered.open_files fd) { offset = offset })

    -- The tables with the new entry, whatever its offset.
    entered-Result :
        (r : Tables)
        → IsTables r
        → r.vnodes ≡ entered.vnodes
        → ((d : ℕ) → (d == fd) ≡ false → r.open_files d ≡ entered.open_files d)
        → (r.open_files fd).flags ≡ (entered.open_files fd).flags
        → (r.open_files fd).uid ≡ (entered.open_files fd).uid
        → (r.open_files fd).vnode ≡ (entered.open_files fd).vnode
        → Result fd r
    unfolding is_open_file_entry_empty
    entered-Result r w vn others ef eu ev =
        let f1 = ef ∙ ap (λ (f : OpenFile). f.flags) new_entry in
        let u1 = eu ∙ ap (λ (f : OpenFile). f.uid) new_entry in
        let n1 = ev ∙ ap (λ (f : OpenFile). f.vnode) new_entry in
        (
          w,
          added-Exclusive t r current_user fd flags v0 x access
              (λ d e. others d e ∙ other_entry d e) f1 u1 n1 agrees,
          inr (
            l,
            ground (arith, free),
            ap (λ (a : ℕ). (r.vnodes a).ino_num) n1
                ∙ ap (λ (c : ℕ → Vnode). (c v0).ino_num) vn
                ∙ new_ino,
            u1,
            f1,
          ),
        )

    finish :
        (append : Bool)
        → Result fd (if append then with_offset (get_file_size ino_num) else entered)
    unfolding update
    finish false =
        entered-Result entered
          (set_fentry-IsTables current_user fd flags 0 v0 f_type ino_num v l free lv live) refl
          (λ d e. refl) refl refl refl
    finish true =
        let new : OpenFile = record (entered.open_files fd) { offset = get_file_size ino_num } in
        let self = update_self entered.open_files fd new in
        entered-Result (with_offset (get_file_size ino_num))
          (put_offset-IsTables fd (get_file_size ino_num) l
            (set_fentry-IsTables current_user fd flags 0 v0 f_type ino_num v l free lv live))
          refl (λ d e. rw e refl) (ap (λ (f : OpenFile). f.flags) self)
          (ap (λ (f : OpenFile). f.uid) self) (ap (λ (f : OpenFile). f.vnode) self)

  open_with_vnode_lem :
      (v0 : ℕ)
      → v0 < fs_max_vnodes
      → Agrees fs_max_open_files t current_user v0 flags
      → let (res, r) = open_with_vnode get_file_size current_user t v0 ino_num flags f_type in
        Result res r
  unfolding open_with_vnode
  open_with_vnode_lem v0 lv agrees =
      let fd : ℕ = get_free_open_file_entry t in
      elim (Bool-cases (fd == fd_empty)) [
        | inl e ↦ rw e (v, x, inl (inr refl, refl))
        | inr e ↦
            let (l, free) = free_entry_lem t e in
            rw e (finish fd v0 l free lv agrees (is_append flags))
      ]

  -- setOpenFentry, for an inode number that is not empty and flags that ask to read or to write,
  -- keeps tables right (IsTables) and exclusive: of two entries for one file, if one may write
  -- then both are the same user's and the other may only read. An error leaves the tables; success
  -- gives a descriptor that was free.
  pub set_open_fentry_lem :
      let (res, r) = set_open_fentry get_file_size current_user t ino_num flags f_type in
      IsTables r × Exclusive r × Opened t current_user ino_num flags res r
  unfolding set_open_fentry
  set_open_fentry_lem = elim (Bool-cases (is_refused flags f_type)) [
    | inl e ↦ rw e (v, x, inl (inl refl, refl))
    | inr e ↦
        let v0 : ℕ = get_vnode_by_inode_num t ino_num in
        elim (Bool-cases (v0 == vnode_empty)) [
          | inr a ↦
              elim (Bool-cases (is_flags_conflict fs_max_open_files t current_user v0 flags)) [
                | inl c ↦ rw (e, a, c) (v, x, inl (inl refl, refl))
                | inr c ↦
                    let (lv, ino) = vnode_lem t ino_num a in
                    rw (e, a, c)
                      (open_with_vnode_lem v0 lv
                        (is_flags_conflict_lem 8 t current_user v0 flags c))
              ]
          | inl a ↦ elim (Bool-cases (get_free_vnode t == vnode_empty)) [
            | inl c ↦ rw (e, a, c) (v, x, inl (inl refl, refl))
            | inr c ↦
                let (lv, none_refer) = free_vnode t current_user flags v c in
                rw (e, a, c) (open_with_vnode_lem (get_free_vnode t) lv none_refer)
          ]
        ]
  ]
