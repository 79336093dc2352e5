-- ===== src/Tests/DescriptorRuns.antt =====
-- Copies of a descriptor and its offset, on a table with one open file.
use nandfs.Base.{◌≡◌, refl, true, ◌==◌, if◌then◌else◌}
use nandfs.Files.Tables.{Tables, empty_file}
use nandfs.Files.Tables.Refs.{IsTables}
use nandfs.Files.Open.{set_open_fentry}
use nandfs.Files.Open.Result.{set_open_fentry_lem}
use nandfs.Files.Dup.{dup_util}
use nandfs.Files.Dup.Laws.{IsDup, dup_util_lem, dup_util_writable}
use nandfs.Files.Seek.{nandfs_lseek}
use nandfs.Files.Seek.Bounds.{IsSought, nandfs_lseek_lem}
use nandfs.Tests.FileRuns.{file_size, no_files, no_files-IsTables, no_files-Exclusive}

-- User 3 opens the file with inode 7 to read it.
abbrev reading : Tables
reading = (set_open_fentry file_size 3 no_files 7 0x1 2).1

reading-IsTables : IsTables reading
reading-IsTables =
    (set_open_fentry_lem file_size 3 no_files 7 0x1 2 no_files-IsTables no_files-Exclusive refl
      refl).0

dup_util_lem_example :
    let r = dup_util (λ ino_num. true) 3 reading 0 5 true in IsTables r.1 × IsDup reading 3 0 5 r
dup_util_lem_example = dup_util_lem (λ ino_num. true) 3 reading 0 5 true reading-IsTables refl

-- Descriptor 0 of user 3 is open for writing.
abbrev writing : Tables
writing = record {
  open_files = λ fd.
      if fd == 0
      then record { flags = 0x10; offset = 0; uid = 3; vnode = 2; f_type = 2 }
      else empty_file;
  vnodes = λ v. record { ino_num = 7; n_references = 1 };
}

dup_util_writable_example : dup_util (λ ino_num. true) 3 writing 0 5 true ≡ (0xffffffff, writing)
dup_util_writable_example = dup_util_writable (λ ino_num. true) 3 writing 0 5 true refl

nandfs_lseek_lem_example : IsSought reading 0 100 (nandfs_lseek file_size 3 reading 0 30 2)
nandfs_lseek_lem_example = nandfs_lseek_lem file_size 3 reading 0 30 2
