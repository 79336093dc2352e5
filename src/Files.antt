-- ===== src/Files.antt =====
-- The open files of NANDFS/src/fs/fsUtils.c: the tables of open file entries and vnodes, and the
-- characters of a path name.
pub mod Tables
pub mod Open
pub mod Dup
pub mod Seek
pub mod Names
