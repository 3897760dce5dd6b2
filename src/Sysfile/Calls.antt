-- ===== src/Sysfile/Calls.antt =====
-- sysfile.c: reads, writes and `fstat` through a descriptor, from the arguments on.
use os_ca.Common.{ℕ, Bool, Option, none, some, ◌>>=◌, List, run}
use os_ca.Pipe.{Nap}
use os_ca.Fs.{Superblock}
use os_ca.Fs.Content.{Io, Stat}
use os_ca.File.Io.{Kernel, filestat, Read, no_read, fileread, Write, no_write, filewrite}
use os_ca.Syscall.{Caller, argint, argptr}
use os_ca.Sysfile.{Open, argfd}

-- The file, the address and the count.
unfoldable pub io_args : Caller → Open → Option (ℕ × ℕ × ℕ)
io_args c o = argfd 0 c o.ofile >>= λ (q : ℕ × ℕ).
    argint 2 c >>= λ (n : ℕ). argptr 1 n c >>= λ (p : ℕ). some (q.1, p, n)

-- `sizeof(struct stat)`
abbrev pub stat_size : ℕ
stat_size = 20

module _ (sb : Superblock) (killed : Bool) (naps : List Nap) (c : Caller) where
  -- `none` is an argument that is refused; the bytes that are read go to the address.
  unfoldable pub read_args : (ℕ → Option (Io (List ℕ))) → Option (ℕ × ℕ × ℕ) → Kernel → Option Read
  read_args devsw none k = some (no_read k)
  read_args devsw (some (f, p, n)) k = fileread sb devsw n killed naps f k

  unfoldable pub sys_read : (ℕ → Option (Io (List ℕ))) → Open → Option Read
  sys_read devsw o = read_args devsw (io_args c o) o.kernel

  unfoldable pub write_args : (ℕ → Option (Io ℕ)) → Option (ℕ × ℕ × ℕ) → Kernel → Option Write
  write_args devsw none k = some (no_write k)
  write_args devsw (some (f, p, n)) k = filewrite sb devsw (run c.mem p n) killed naps f k

  unfoldable pub sys_write : (ℕ → Option (Io ℕ)) → Open → Option Write
  sys_write devsw o = write_args devsw (io_args c o) o.kernel

unfoldable pub stat_args : Superblock → Option ℕ → Kernel → Option (Option Stat × Kernel)
stat_args sb none k = some (none, k)
stat_args sb (some f) k = filestat sb f k

-- `fstat` gives the metadata that go to the address of argument 1.
unfoldable pub sys_fstat : Superblock → Caller → Open → Option (Option Stat × Kernel)
sys_fstat sb c o =
    let checked : Option ℕ =
      argfd 0 c o.ofile >>= λ (q : ℕ × ℕ). argptr 1 stat_size c >>= λ (st : ℕ). some q.1 in
    stat_args sb checked o.kernel
