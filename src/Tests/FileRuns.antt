-- ===== src/Tests/FileRuns.antt =====
-- Files opened and closed, starting from the empty tables.
use nandfs.Base.{ℕ, zero, suc, ◌<◌, ◌≡◌, refl, true, arith, ◌⊎◌}
use nandfs.Files.Tables.{Tables, empty_file, ino_num_empty, is_open_file_entry_empty}
use nandfs.Files.Tables.Refs.{IsTables, refs}
use nandfs.Files.Open.{set_open_fentry, close_util}
use nandfs.Files.Open.Laws.{close_util_lem}
use nandfs.Files.Open.Exclusive.{Exclusive}
use nandfs.Files.Open.Result.{Opened, set_open_fentry_lem}

abbrev pub no_files : Tables
no_files = record {
  open_files = λ fd. empty_file;
  vnodes = λ i. record { ino_num = ino_num_empty; n_references = 0 };
}

no_refs : (n v : ℕ) → v < 6 → refs n no_files.open_files v ≡ 0
unfolding refs
no_refs zero v l = refl
no_refs (suc n) v l = let rest = no_refs n v l in ground arith

pub no_files-IsTables : IsTables no_files
no_files-IsTables = record {
  real = λ fd l h. absurd (cc);
  counted = λ v l. let none = no_refs 8 v l in ground arith;
  used = λ v l. refl;
}

pub no_files-Exclusive : Exclusive no_files
no_files-Exclusive i j li lj apart full same w = absurd (cc)

abbrev pub file_size : ℕ → ℕ
file_size ino_num = 100

-- User 3 opens the file with inode 7 to append to it.
abbrev one_file : Tables
one_file = (set_open_fentry file_size 3 no_files 7 0x110 2).1

set_open_fentry_lem_example :
    let (res, r) = set_open_fentry file_size 3 no_files 7 0x110 2 in
    IsTables r × Exclusive r × Opened no_files 3 7 0x110 res r
set_open_fentry_lem_example =
    set_open_fentry_lem file_size 3 no_files 7 0x110 2 no_files-IsTables no_files-Exclusive refl
      refl

one_file-IsTables : IsTables one_file
one_file-IsTables =
    (set_open_fentry_lem file_size 3 no_files 7 0x110 2 no_files-IsTables no_files-Exclusive refl
      refl).0

close_util_lem_example :
    let (res, r) = close_util (λ ino_num. true) 3 one_file 0 in
    IsTables r
    × (((res ≡ 0) × (is_open_file_entry_empty r 0 ≡ true)) ⊎ ((res ≡ 0xffffffff) × (r ≡ one_file)))
close_util_lem_example = close_util_lem (λ ino_num. true) 3 one_file 0 one_file-IsTables

-- Memory with some old content.
abbrev memory : Tables
memory = record {
  open_files = λ fd. record { flags = 1; offset = 9; uid = 9; vnode = 9; f_type = 9 };
  vnodes = λ i. record { ino_num = 9; n_references = 9 };
}
