-- ===== src/Files/Dup.antt =====
-- Copies of a descriptor: dupUtil of NANDFS/src/fs/fsUtils.c, which nandfs_dup and nandfs_dup2 of
-- NANDFS/src/fs/fs.c call. `commit` is the outcome of the commit at a close, as for closeUtil.
pub mod Laws
use nandfs.Base.{ℕ, Bool, true, false, not, ◌&&◌, ltb, ◌==◌, if◌then◌else◌}
use nandfs.Files.Tables.{
  Tables, OpenFile, fd_empty, fs_max_open_files, is_open_file_entry_empty, get_free_open_file_entry,
  verify_fd, is_flags_conflict, set_fentry,
}
use nandfs.Files.Open.{close_util}

module _ (commit : ℕ → Bool) (current_user : ℕ) where
  -- The last step, on the tables after the close: the fields of the old entry are read then. For
  -- old_fd = new_fd the entry is empty by then and the vnode out of range.
  unfoldable pub copy_fentry : Tables → ℕ → ℕ → ℕ × Tables
  copy_fentry t old_fd new_fd =
      let f = t.open_files old_fd in
      (
        new_fd,
        set_fentry t current_user new_fd f.flags f.offset f.vnode f.f_type
            (t.vnodes f.vnode).ino_num,
      )

  unfoldable pub close_and_copy : Tables → ℕ → ℕ → ℕ × Tables
  close_and_copy t old_fd new_fd =
      let (res, t1) = close_util commit current_user t new_fd in
      if is_open_file_entry_empty t new_fd
      then copy_fentry t old_fd new_fd
      else if res == 0
      then copy_fentry t1 old_fd new_fd
      else (0xffffffff, t1)

  unfoldable pub dup_util : Tables → ℕ → ℕ → Bool → ℕ × Tables
  dup_util t old_fd new_fd is_dup2 =
      let fd = if is_dup2 then new_fd else get_free_open_file_entry t in
      let f = t.open_files old_fd in
      if not is_dup2 && (fd == fd_empty)
      then (0xffffffff, t)
      else if not (verify_fd t current_user old_fd)
      then (0xffffffff, t)
      else if not (ltb fd fs_max_open_files)
      then (0xffffffff, t)
      else if is_flags_conflict fs_max_open_files t current_user f.vnode f.flags
      then (0xffffffff, t)
      else close_and_copy t old_fd fd
