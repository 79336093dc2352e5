-- ===== src/Files/Seek/Bounds.antt =====
-- Where lseek leaves the offset.
use nandfs.Base.{
  ℕ, ◌≤◌, ◌≡◌, refl, inl, inr, ◌⊎◌, false, leb, ◌==◌, Bool-cases, update, update_self, arith,
}
use nandfs.Files.Tables.{Tables, verify_fd}
use nandfs.Files.Seek.{
  fs_seek_set, fs_seek_cur, fs_seek_end, fs_max_filesize, is_negative, le_signed, seek_to,
  nandfs_lseek,
}

-- A failure without a change; or the offset of the file is the result, which is at most the size of
-- the file and at most 2 ^ 25, and no other entry and no vnode has changed.
abbrev pub IsSought : Tables → ℕ → ℕ → ℕ × Tables → Type 0
IsSought t fd file_size (res, r) =
    ((res ≡ 0xffffffff) × (r ≡ t))
    ⊎ ((res ≤ file_size)
        × (res ≤ fs_max_filesize)
        × (r.open_files fd ≡ record (t.open_files fd) { offset = res })
        × ((d : ℕ) → (d == fd) ≡ false → r.open_files d ≡ t.open_files d)
        × (r.vnodes ≡ t.vnodes))

seek_to_lem :
    (t : Tables) (fd file_size new_offset : ℕ)
    → is_negative file_size ≡ false
    → IsSought t fd file_size (seek_to t fd file_size new_offset)
unfolding seek_to le_signed update
seek_to_lem t fd file_size new_offset pos = elim (Bool-cases (leb new_offset fs_max_filesize)) [
  | inr e ↦ rw e (inl (refl, refl))
  | inl e ↦ elim (Bool-cases (le_signed new_offset file_size)) [
    | inr f ↦ rw (e, f) (inl (refl, refl))
    | inl f ↦
        rw (e, f)
          (inr (ground arith, ground arith, update_self t.open_files fd _, λ d h. rw h refl, refl))
  ]
]

-- For every offset and directive, lseek fails without a change, or the offset of the open file becomes
-- the result, which exceeds neither the size of the file nor 2 ^ 25, and no other entry and no vnode
-- changes. This holds whether or not the sum of two offsets overflows.
pub nandfs_lseek_lem :
    (get_file_size : ℕ → ℕ) (current_user : ℕ) (t : Tables) (fd offset whence : ℕ)
    → IsSought t fd
        (get_file_size (t.vnodes (t.open_files fd).vnode).ino_num)
        (nandfs_lseek get_file_size current_user t fd offset whence)
unfolding nandfs_lseek
nandfs_lseek_lem get_file_size current_user t fd offset whence =
    let size : ℕ = get_file_size (t.vnodes (t.open_files fd).vnode).ino_num in
    elim (Bool-cases (verify_fd t current_user fd)) [
      | inr a ↦ rw a (inl (refl, refl))
      | inl a ↦ elim (Bool-cases (is_negative offset)) [
        | inl b ↦ rw (a, b) (inl (refl, refl))
        | inr b ↦ elim (Bool-cases (is_negative size)) [
          | inl c ↦ rw (a, b, c) (inl (refl, refl))
          | inr c ↦ elim (Bool-cases (whence == fs_seek_cur)) [
            | inl d ↦ rw (a, b, c, d) (seek_to_lem t fd size _ c)
            | inr d ↦ elim (Bool-cases (whence == fs_seek_set)) [
              | inl e ↦ rw (a, b, c, d, e) (seek_to_lem t fd size _ c)
              | inr e ↦ elim (Bool-cases (whence == fs_seek_end)) [
                | inl f ↦ rw (a, b, c, d, e, f) (seek_to_lem t fd size _ c)
                | inr f ↦ rw (a, b, c, d, e, f) (inl (refl, refl))
              ]
            ]
          ]
        ]
      ]
    ]
