-- ===== src/Files/Seek.antt =====
-- The offset of an open file: nandfs_lseek of NANDFS/src/fs/fs.c. An `int32_t` is its bit pattern; the
-- mutex around the call is left out, as is the buffer that getFileSize reads into.
pub mod Bounds
use nandfs.Base.{ℕ, ◌+◌, ◌%◌, ◌^◌, Bool, true, false, not, ltb, leb, ◌==◌, if◌then◌else◌}
use nandfs.Files.Tables.{Tables, put_file, verify_fd}

abbrev pub fs_seek_set : ℕ
fs_seek_set = 0

abbrev pub fs_seek_cur : ℕ
fs_seek_cur = 1

abbrev pub fs_seek_end : ℕ
fs_seek_end = 2

-- FS_MAX_FILESIZE, an unsigned number, for 65536 pages of 512 bytes.
abbrev pub fs_max_filesize : ℕ
fs_max_filesize = 2 ^ 25

abbrev pub is_negative : ℕ → Bool
is_negative x = leb (2 ^ 31) x

-- `x <= y` of two `int32_t`.
unfoldable pub le_signed : ℕ → ℕ → Bool
le_signed x y = leb ((x + 2 ^ 31) % 2 ^ 32) ((y + 2 ^ 31) % 2 ^ 32)

-- The end of the function, once the new offset is known.
unfoldable pub seek_to : Tables → ℕ → ℕ → ℕ → ℕ × Tables
seek_to t fd file_size new_offset =
    if not (leb new_offset fs_max_filesize)
    then (0xffffffff, t)
    else if not (le_signed new_offset file_size)
    then (0xffffffff, t)
    else (new_offset, put_file t fd (record (t.open_files fd) { offset = new_offset }))

-- getFileSize is the parameter `get_file_size`.
module _ (get_file_size : ℕ → ℕ) (current_user : ℕ) where
  unfoldable pub nandfs_lseek : Tables → ℕ → ℕ → ℕ → ℕ × Tables
  nandfs_lseek t fd offset whence =
      let file_size = get_file_size (t.vnodes (t.open_files fd).vnode).ino_num in
      if not (verify_fd t current_user fd)
      then (0xffffffff, t)
      else if is_negative offset
      then (0xffffffff, t)
      else if is_negative file_size
      then (0xffffffff, t)
      else if whence == fs_seek_cur
      then seek_to t fd file_size (((t.open_files fd).offset + offset) % 2 ^ 32)
      else if whence == fs_seek_set
      then seek_to t fd file_size offset
      else if whence == fs_seek_end
      then seek_to t fd file_size ((file_size + offset) % 2 ^ 32)
      else (0xffffffff, t)
