-- ===== src/Files/Open.antt =====
-- Opening and closing: setOpenFentry and closeUtil of NANDFS/src/fs/fsUtils.c.
pub mod Laws
pub mod Exclusive
pub mod Result
use nandfs.Base.{ℕ, ◌-◌, ◌+◌, ◌%◌, ◌^◌, Bool, true, false, not, ◌&&◌, ◌||◌, ◌==◌, if◌then◌else◌}
use nandfs.Files.Tables.{
  Tables, OpenFile, Vnode, fd_empty, vnode_empty, fs_error_fentry_max, fs_max_open_files, ftype_dir,
  is_wronly, is_append, is_creat, is_excl, put_file, put_vnode, init_file_entry, init_vnode,
  is_open_file_entry_empty, get_vnode_by_inode_num, get_free_vnode, get_free_open_file_entry,
  verify_fd, is_flags_conflict, set_fentry,
}

-- The flags that no file is opened with.
unfoldable pub is_refused : ℕ → ℕ → Bool
is_refused flags f_type =
    (is_excl flags && is_creat flags)
    || ((f_type == ftype_dir) && is_wronly flags)
    || (is_append flags && not (is_wronly flags))

-- getFileSize, which reads the inode, is the parameter `get_file_size`.
module _ (get_file_size : ℕ → ℕ) (current_user : ℕ) where
  -- The end of the function, once the vnode is chosen.
  unfoldable pub open_with_vnode : Tables → ℕ → ℕ → ℕ → ℕ → ℕ × Tables
  open_with_vnode t vnode_idx ino_num flags f_type =
      let fd = get_free_open_file_entry t in
      let t1 = set_fentry t current_user fd flags 0 vnode_idx f_type ino_num in
      let t2 = put_file t1 fd (record (t1.open_files fd) { offset = get_file_size ino_num }) in
      if fd == fd_empty then (fs_error_fentry_max, t) else (fd, if is_append flags then t2 else t1)

  unfoldable pub set_open_fentry : Tables → ℕ → ℕ → ℕ → ℕ × Tables
  set_open_fentry t ino_num flags f_type =
      let vnode_idx = get_vnode_by_inode_num t ino_num in
      let free = get_free_vnode t in
      if is_refused flags f_type
      then (fd_empty, t)
      else if not (vnode_idx == vnode_empty)
      then if is_flags_conflict fs_max_open_files t current_user vnode_idx flags
        then (fd_empty, t)
        else open_with_vnode t vnode_idx ino_num flags f_type
      else if free == vnode_empty
      then (fd_empty, t)
      else open_with_vnode t free ino_num flags f_type

-- What closing does to the tables, once the transaction of the file is committed.
unfoldable pub release : Tables → ℕ → Tables
release t fd =
    let vnode_idx = (t.open_files fd).vnode in
    let v = t.vnodes vnode_idx in
    let t1 =
      put_vnode t vnode_idx (record v { n_references = (v.n_references + 2 ^ 32 - 1) % 2 ^ 32 }) in
    let t2 = if (t1.vnodes vnode_idx).n_references == 0 then init_vnode t1 vnode_idx else t1 in
    init_file_entry t2 fd

-- `commit` says whether the transaction of the file, if there is one, is committed without an error;
-- the tables are not its business. 0 is success, else -1.
unfoldable pub close_util : (ℕ → Bool) → ℕ → Tables → ℕ → ℕ × Tables
close_util commit current_user t fd =
    if not (verify_fd t current_user fd)
    then (0xffffffff, t)
    else if is_wronly (t.open_files fd).flags
        && not (commit (t.vnodes (t.open_files fd).vnode).ino_num)
    then (0xffffffff, t)
    else (0, release t fd)
