-- ===== src/Sysfile.antt =====
-- sysfile.c: the descriptors of a process, and the system calls on them. `none` is a panic, and the return
-- value -1 is `minus_one`.
pub mod Counts
pub mod Pipes
pub mod Calls
pub mod Links
pub mod Creates
mod Tests
use os_ca.Common.{
  ℕ, zero, suc, ◌+◌, ◌-◌, Bool, true, false, not, Option, none, some, ◌>>=◌, List, [], ◌∷◌, length,
  ltb, slt, ◌==◌, if◌then◌else◌, minus_one,
}
use os_ca.Syscall.{Caller, argint, argptr}
use os_ca.Fs.{Superblock, Disk}
use os_ca.Fs.Content.{Io, Stat}
use os_ca.Pipe.{Pipe, Nap}
use os_ca.File.{FileType, fd_none, fd_pipe, fd_inode, File, Files, put_file, filealloc, filedup}
use os_ca.File.Io.{Kernel, put_back, fileclose, filestat, Read, read, no_read, sleeping, fileread}

-- NOFILE
abbrev pub nofile : ℕ
nofile = 16

-- `proc->ofile`: the number of the file in the table of the system.
abbrev pub Descriptors : Type 0
Descriptors = ℕ → Option ℕ

pub record Open : Type 0 where
  pub ofile : Descriptors
  pub kernel : Kernel

unfoldable pub set_fd : ℕ → Option ℕ → Descriptors → Descriptors
set_fd fd o t j = if j == fd then o else t j

-- `argfd` behind its `argint`: the descriptor and its file.
unfoldable pub pick_fd : Descriptors → ℕ → Option (ℕ × ℕ)
pick_fd t fd =
    let found : Option (ℕ × ℕ) = t fd >>= λ (f : ℕ). some (fd, f) in
    if slt fd 0 then none else if not (slt fd nofile) then none else found

unfoldable pub argfd : ℕ → Caller → Descriptors → Option (ℕ × ℕ)
argfd n c t = argint n c >>= pick_fd t

abbrev pub is_free : Option ℕ → Bool
is_free none = true
is_free (some f) = false

-- The loop of `fdalloc`, `n` descriptors from `fd` on.
unfoldable pub fdalloc_from : ℕ → ℕ → ℕ → Descriptors → Option (ℕ × Descriptors)
fdalloc_from zero fd f t = none
fdalloc_from (suc n) fd f t =
    let rest = fdalloc_from n (fd + 1) f t in
    if is_free (t fd) then some (fd, set_fd fd (some f) t) else rest

unfoldable pub fdalloc : ℕ → Descriptors → Option (ℕ × Descriptors)
fdalloc f t = fdalloc_from nofile 0 f t

-- `sys_dup` of the file `f`, by what `fdalloc` gives.
unfoldable pub dup_to : ℕ → Option (ℕ × Descriptors) → Open → Option (ℕ × Open)
dup_to f none o = some (minus_one, o)
dup_to f (some (fd, t)) o = filedup f o.kernel.files >>= λ (files : Files).
    some (fd, record { ofile = t; kernel = record o.kernel { files = files } })

-- The calls with the arguments fetched; `none` there is an argument that is refused.
unfoldable pub dup_fd : Option (ℕ × ℕ) → Open → Option (ℕ × Open)
dup_fd none o = some (minus_one, o)
dup_fd (some (fd, f)) o = dup_to f (fdalloc f o.ofile) o

unfoldable pub sys_dup : Caller → Open → Option (ℕ × Open)
sys_dup c o = dup_fd (argfd 0 c o.ofile) o

unfoldable pub close_fd : Superblock → Option (ℕ × ℕ) → Open → Option (ℕ × Open)
close_fd sb none o = some (minus_one, o)
close_fd sb (some (fd, f)) o = fileclose sb f o.kernel >>= λ (k : Kernel).
    some (0, record { ofile = set_fd fd none o.ofile; kernel = k })

unfoldable pub sys_close : Superblock → Caller → Open → Option (ℕ × Open)
sys_close sb c o = close_fd sb (argfd 0 c o.ofile) o

-- `sys_open` with the inode at `ip` locked, from `filealloc` on: by what `fdalloc` gives the file `f`, and
-- by what `filealloc` gives.
unfoldable pub open_on :
    Superblock → ℕ → Bool → Bool → ℕ → Option (ℕ × Descriptors) → Open → Option (ℕ × Open)
open_on sb ip readable writable f none o =
    fileclose sb f o.kernel >>= put_back sb ip >>= λ (k : Kernel).
    some (minus_one, record o { kernel = k })
open_on sb ip readable writable f (some (fd, t)) o =
    let files = o.kernel.files in
    let opened : File = record (files f) {
      type = fd_inode;
      ip = ip;
      off = 0;
      readable = readable;
      writable = writable;
    } in
    some (fd, record { ofile = t; kernel = record o.kernel { files = put_file f opened files } })

unfoldable pub open_file :
    Superblock → ℕ → Bool → Bool → Option ℕ × Files → Open → Option (ℕ × Open)
open_file sb ip readable writable (none, files) o =
    put_back sb ip o.kernel >>= λ (k : Kernel). some (minus_one, record o { kernel = k })
open_file sb ip readable writable (some f, files) o =
    open_on sb ip readable writable f (fdalloc f o.ofile)
      (record o { kernel = record o.kernel { files = files } })

unfoldable pub open_inode : Superblock → ℕ → Bool → Bool → Open → Option (ℕ × Open)
open_inode sb ip readable writable o =
    open_file sb ip readable writable (filealloc o.kernel.files) o
