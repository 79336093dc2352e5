-- ===== src/Files/Tables.antt =====
-- `open_files` and `vnodes` of NANDFS/src/fs/fs.h, and the functions of NANDFS/src/fs/fsUtils.c on
-- them. The tables are functions of the index; an `int32_t` is its bit pattern.

pub mod Refs
pub mod Start
use nandfs.Base.{
  ℕ, zero, suc, ◌+◌, ◌/◌, ◌%◌, ◌^◌, Bool, true, false, not, ◌&&◌, ◌||◌, ltb, ◌==◌, if◌then◌else◌,
  Option, none, some, update,
}

pub record OpenFile : Type 0 where
  pub flags : ℕ
  pub offset : ℕ
  pub uid : ℕ
  pub vnode : ℕ
  pub f_type : ℕ

-- `vnode_t`
pub record Vnode : Type 0 where
  pub ino_num : ℕ
  pub n_references : ℕ

pub record Tables : Type 0 where
  pub open_files : ℕ → OpenFile
  pub vnodes : ℕ → Vnode

abbrev pub fs_max_vnodes : ℕ
fs_max_vnodes = 6

abbrev pub fs_max_open_files : ℕ
fs_max_open_files = 8

-- VNODE_EMPTY, FD_EMPTY, INO_NUM_EMPTY and FS_ERROR_FENTRY_MAX.
abbrev pub vnode_empty : ℕ
vnode_empty = 0xffffffff

abbrev pub fd_empty : ℕ
fd_empty = 0xffffffff

abbrev pub ino_num_empty : ℕ
ino_num_empty = 0xffffffff

abbrev pub fs_error_fentry_max : ℕ
fs_error_fentry_max = 0xfffffffe

abbrev pub ftype_dir : ℕ
ftype_dir = 1

-- IS_RDONLY, IS_WRONLY, IS_APPEND, IS_CREAT and IS_EXCL: the bits 0, 4, 8, 12 and 16.
abbrev pub is_rdonly : ℕ → Bool
is_rdonly flags = not (flags % 2 == 0)

abbrev pub is_wronly : ℕ → Bool
is_wronly flags = not (flags / 2 ^ 4 % 2 == 0)

abbrev pub is_append : ℕ → Bool
is_append flags = not (flags / 2 ^ 8 % 2 == 0)

abbrev pub is_creat : ℕ → Bool
is_creat flags = not (flags / 2 ^ 12 % 2 == 0)

abbrev pub is_excl : ℕ → Bool
is_excl flags = not (flags / 2 ^ 16 % 2 == 0)

abbrev pub put_file : Tables → ℕ → OpenFile → Tables
put_file t fd f = record t { open_files = update t.open_files fd f }

abbrev pub put_vnode : Tables → ℕ → Vnode → Tables
put_vnode t i v = record t { vnodes = update t.vnodes i v }

abbrev pub empty_file : OpenFile
empty_file = record { flags = 0; offset = 0; uid = 0; vnode = vnode_empty; f_type = 0 }

unfoldable pub init_file_entry : Tables → ℕ → Tables
init_file_entry t fd = put_file t fd empty_file

unfoldable pub init_vnode : Tables → ℕ → Tables
init_vnode t vnode_idx =
    put_vnode t vnode_idx (record { ino_num = ino_num_empty; n_references = 0 })

-- The first `n` rounds of the loops of init_file_entries and init_vnodes.
unfoldable pub init_file_entries : ℕ → Tables → Tables
init_file_entries zero t = t
init_file_entries (suc n) t = init_file_entry (init_file_entries n t) n

unfoldable pub init_vnodes : ℕ → Tables → Tables
init_vnodes zero t = t
init_vnodes (suc n) t = init_vnode (init_vnodes n t) n

-- IS_OPEN_FILE_ENTRY_EMPTY
unfoldable pub is_open_file_entry_empty : Tables → ℕ → Bool
is_open_file_entry_empty t fd = (t.open_files fd).vnode == vnode_empty

-- The first of `n` indices from `i` on that passes the test, or -1.
unfoldable pub first_index : (ℕ → Bool) → ℕ → ℕ → ℕ
first_index p zero i = 0xffffffff
first_index p (suc n) i = let rest = first_index p n (i + 1) in if p i then i else rest

unfoldable pub get_vnode_by_inode_num : Tables → ℕ → ℕ
get_vnode_by_inode_num t ino_num =
    first_index (λ i. (t.vnodes i).ino_num == ino_num) fs_max_vnodes 0

unfoldable pub get_free_vnode : Tables → ℕ
get_free_vnode t = get_vnode_by_inode_num t ino_num_empty

unfoldable pub get_free_open_file_entry : Tables → ℕ
get_free_open_file_entry t = first_index (is_open_file_entry_empty t) fs_max_open_files 0

-- 0 if the descriptor is legal, else -1: `true` and `false` here.
unfoldable pub verify_fd : Tables → ℕ → ℕ → Bool
verify_fd t current_user fd =
    ltb fd fs_max_open_files
    && not (is_open_file_entry_empty t fd)
    && ((t.open_files fd).uid == current_user)

-- The body of the loop of isFlagsConflict for an entry of the vnode.
unfoldable pub conflicts : ℕ → ℕ → OpenFile → Bool
conflicts current_user flags f =
    (is_rdonly flags && is_wronly f.flags && not (current_user == f.uid))
    || (is_wronly flags && (not (current_user == f.uid) || is_wronly f.flags))

unfoldable pub is_flags_conflict : ℕ → Tables → ℕ → ℕ → ℕ → Bool
is_flags_conflict zero t current_user vnode_idx flags = false
is_flags_conflict (suc n) t current_user vnode_idx flags =
    is_flags_conflict n t current_user vnode_idx flags
    || (((t.open_files n).vnode == vnode_idx) && conflicts current_user flags (t.open_files n))

unfoldable pub set_fentry : Tables → ℕ → ℕ → ℕ → ℕ → ℕ → ℕ → ℕ → Tables
set_fentry t current_user fd flags offset vnode_idx f_type ino_num =
    let t1 = put_file t fd (record {
      flags = flags;
      offset = offset;
      uid = current_user;
      vnode = vnode_idx;
      f_type = f_type;
    }) in
    put_vnode t1 vnode_idx (record {
      ino_num = ino_num;
      n_references = ((t1.vnodes vnode_idx).n_references + 1) % 2 ^ 32;
    })

-- The check of verifyFileNotOpen over the first `n` entries: `true` for success.
unfoldable pub verify_file_not_open : ℕ → Tables → ℕ → Bool
verify_file_not_open zero t ino_num = true
verify_file_not_open (suc n) t ino_num =
    verify_file_not_open n t ino_num
    && (is_open_file_entry_empty t n || not ((t.vnodes (t.open_files n).vnode).ino_num == ino_num))
