-- ===== src/File.antt =====
-- file.c: the table of open files and its reference counts.
pub mod Refs
pub mod Io
pub mod Writes
mod Tests
use os_ca.Common.{
  ℕ, zero, suc, ◌+◌, Option, none, some, Bool, ◌==◌, if◌then◌else◌, add32, sub32, slt,
}

-- the enumeration of `struct file`
pub data FileType : Type 0 where
  fd_none : FileType
  fd_pipe : FileType
  fd_inode : FileType

-- `struct file`. `pipe` and `ip` are addresses.
pub record File : Type 0 where
  pub type : FileType
  pub ref : ℕ
  pub readable : Bool
  pub writable : Bool
  pub pipe : ℕ
  pub ip : ℕ
  pub off : ℕ

-- NFILE
abbrev pub nfile : ℕ
nfile = 100

-- The slots of `ftable.file` by number.
abbrev pub Files : Type 0
Files = ℕ → File

unfoldable pub put_file : ℕ → File → Files → Files
put_file i f t j = if j == i then f else t j

-- The loop of `filealloc` over the `n` last slots from `i` on, with the slot that it takes.
unfoldable pub filealloc_from : ℕ → ℕ → Files → Option ℕ × Files
filealloc_from zero i t = (none, t)
filealloc_from (suc n) i t =
    let rest = filealloc_from n (i + 1) t in
    if (t i).ref == 0 then (some i, put_file i (record (t i) { ref = 1 }) t) else rest

unfoldable pub filealloc : Files → Option ℕ × Files
filealloc t = filealloc_from nfile 0 t

-- `none` is the panic.
unfoldable pub filedup : ℕ → Files → Option Files
filedup i t =
    if slt (t i).ref 1 then none else some (put_file i (record (t i) { ref = add32 (t i).ref 1 }) t)

-- `fileclose` up to the release of the lock: the new table, and the file that is to be closed then,
-- if this was its last reference.
unfoldable pub drop_ref : ℕ → Files → Option (Files × Option File)
drop_ref i t =
    let f = t i in
    let left = sub32 f.ref 1 in
    if slt f.ref 1
    then none
    else if slt 0 left
    then some (put_file i (record f { ref = left }) t, none)
    else some (put_file i (record f { ref = 0; type = fd_none }) t, some (record f { ref = left }))
