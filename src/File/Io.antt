-- ===== src/File/Io.antt =====
-- The calls of file.c that reach what a file stands for: the pipes, and the inodes of fs.c. The transactions
-- of log.c around them are not followed.
use os_ca.Common.{
  ℕ, zero, suc, ◌+◌, ◌-◌, Bool, true, false, not, Option, none, some, ◌>>=◌, List, length, get_or,
  Cells, ◌==◌, if◌then◌else◌, add32, min,
}
use os_ca.Pipe.{
  Pipe, Nap, Written, wrote, asleep, Got, got, refused, waiting, piperead, pipewrite, pipeclose,
}
use os_ca.Pipe
use os_ca.Fs.{Superblock, Disk}
use os_ca.Fs.Inodes.{Inode, ilock}
use os_ca.Fs.Content.{Io, done, Stat, stati, readi, writei}
use os_ca.Fs.Content
use os_ca.Fs.Cache.{Entries, put_inode, iput}
use os_ca.File.{FileType, fd_none, fd_pipe, fd_inode, File, Files, put_file, drop_ref}

-- What the files stand for: pipes by their addresses, and the inode cache with the disk.
pub record Kernel : Type 0 where
  pub files : Files
  pub pipes : ℕ → Pipe
  pub inodes : Entries
  pub disk : Disk

unfoldable pub put_pipe : ℕ → Pipe → Kernel → Kernel
put_pipe a p k = record k { pipes = λ b. if b == a then p else k.pipes b }

unfoldable pub put_locked : ℕ → Inode → Disk → Kernel → Kernel
put_locked a ip d k = record k { inodes = put_inode a ip k.inodes; disk = d }

-- `iput` of the inode at an address.
unfoldable pub put_back : Superblock → ℕ → Kernel → Option Kernel
put_back sb a k = iput sb a k.inodes k.disk >>= λ (r : Entries × Disk).
    some (record k { inodes = r.0; disk = r.1 })

-- What `fileclose` does with the last reference to a file, by its type.
unfoldable pub close_kind : Superblock → FileType → File → Kernel → Option Kernel
close_kind sb fd_none f k = some k
close_kind sb fd_pipe f k = some (put_pipe f.pipe (pipeclose f.writable (k.pipes f.pipe)) k)
close_kind sb fd_inode f k = put_back sb f.ip k

unfoldable pub close_last : Superblock → Option File → Kernel → Option Kernel
close_last sb none k = some k
close_last sb (some f) k = close_kind sb f.type f k

unfoldable pub fileclose : Superblock → ℕ → Kernel → Option Kernel
fileclose sb i k =
    drop_ref i k.files >>= λ (q : Files × Option File). close_last sb q.1 (record k { files = q.0 })

-- `filestat`: `none` inside is the return value -1.
unfoldable pub stat_kind : Superblock → FileType → File → Kernel → Option (Option Stat × Kernel)
stat_kind sb fd_inode f k = ilock sb (k.inodes f.ip) k.disk >>= λ (ip : Inode).
    some (some (stati ip), put_locked f.ip ip k.disk k)
stat_kind sb other f k = some (none, k)

unfoldable pub filestat : Superblock → ℕ → Kernel → Option (Option Stat × Kernel)
filestat sb i k = stat_kind sb (k.files i).type (k.files i) k

-- What a read comes to: the bytes, the return value -1, or a sleep.
pub data Read : Type 0 where
  read : List ℕ → Kernel → Read
  no_read : Kernel → Read
  sleeping : Kernel → Read

unfoldable pub read_pipe : ℕ → Got → Kernel → Read
read_pipe a (got p bs) k = read bs (put_pipe a p k)
read_pipe a (refused p) k = no_read (put_pipe a p k)
read_pipe a (waiting p) k = sleeping (put_pipe a p k)

-- `f->off += r`
unfoldable pub move_on : ℕ → ℕ → Kernel → Kernel
move_on i r k =
    let f = k.files i in record k { files = put_file i (record f { off = add32 f.off r }) k.files }

-- What `readi` on the locked inode gives.
unfoldable pub read_inode : ℕ → ℕ → Inode → Io (List ℕ) → Kernel → Option Read
read_inode i a ip Content.failed k = some (no_read (put_locked a ip k.disk k))
read_inode i a ip (done bs ip' d) k = some (read bs (move_on i (length bs) (put_locked a ip' d k)))
read_inode i a ip Content.panics k = none

module _ (sb : Superblock) where
  unfoldable pub read_kind :
      (ℕ → Option (Io (List ℕ))) → ℕ → Bool → List Nap → ℕ → FileType → File → Kernel → Option Read
  read_kind devsw n killed naps i fd_none f k = none
  read_kind devsw n killed naps i fd_pipe f k =
      some (read_pipe f.pipe (piperead n killed naps (k.pipes f.pipe)) k)
  read_kind devsw n killed naps i fd_inode f k = ilock sb (k.inodes f.ip) k.disk >>= λ (ip : Inode).
      read_inode i f.ip ip (readi devsw sb f.off n ip k.disk) k

  unfoldable pub fileread :
      (ℕ → Option (Io (List ℕ))) → ℕ → Bool → List Nap → ℕ → Kernel → Option Read
  fileread devsw n killed naps i k =
      let f = k.files i in
      if not f.readable then some (no_read k) else read_kind devsw n killed naps i f.type f k

-- What a write comes to: all bytes, the return value -1, or a sleep.
pub data Write : Type 0 where
  written : Kernel → Write
  no_write : Kernel → Write
  stuck : Kernel → Write

unfoldable pub write_pipe : ℕ → Written → Kernel → Write
write_pipe a (wrote p) k = written (put_pipe a p k)
write_pipe a (Pipe.failed p) k = no_write (put_pipe a p k)
write_pipe a (asleep p) k = stuck (put_pipe a p k)

-- ((MAXOPBLOCKS-1-1-2) / 2) * 512
abbrev pub max_write : ℕ
max_write = 1536

-- A round's `writei` of `m` bytes on the locked inode: whether the loop goes on, which it does where all
-- were written; fewer are a panic.
unfoldable pub wrote_inode : ℕ → ℕ → ℕ → Inode → Io ℕ → Kernel → Option (Bool × Kernel)
wrote_inode i a m ip Content.failed k = some (false, put_locked a ip k.disk k)
wrote_inode i a m ip (done r ip' d) k =
    if r == m then some (true, move_on i r (put_locked a ip' d k)) else none
wrote_inode i a m ip Content.panics k = none

module _ (sb : Superblock) (devsw : ℕ → Option (Io ℕ)) where
  unfoldable pub write_chunk : Cells → ℕ → ℕ → Kernel → Option (Bool × Kernel)
  write_chunk src m i k =
      let f = k.files i in
      ilock sb (k.inodes f.ip) k.disk >>= λ (ip : Inode).
      wrote_inode i f.ip m ip (writei devsw sb src f.off m ip k.disk) k

  -- The loop with `n` bytes of `src` from `j` on left, with at most `fuel` rounds to go, each of one byte at
  -- least.
  unfoldable pub write_chunks : ℕ → Cells → ℕ → ℕ → ℕ → Kernel → Option Write
  write_chunks zero src j n i k = some (written k)
  write_chunks (suc fuel) src j n i k =
      let m = min n max_write in
      let round = write_chunk (λ a. src (j + a)) m i k >>= λ (q : Bool × Kernel).
      let rest = write_chunks fuel src (j + m) (n - m) i q.1 in
      if q.0 then rest else some (no_write q.1) in
      if n == 0 then some (written k) else round

  unfoldable pub write_kind : List ℕ → Bool → List Nap → ℕ → FileType → File → Kernel → Option Write
  write_kind bytes killed naps i fd_none f k = none
  write_kind bytes killed naps i fd_pipe f k =
      some (write_pipe f.pipe (pipewrite bytes killed naps (k.pipes f.pipe)) k)
  write_kind bytes killed naps i fd_inode f k =
      write_chunks (length bytes) (λ a. get_or bytes a 0) 0 (length bytes) i k

  unfoldable pub filewrite : List ℕ → Bool → List Nap → ℕ → Kernel → Option Write
  filewrite bytes killed naps i k =
      let f = k.files i in
      if not f.writable then some (no_write k) else write_kind bytes killed naps i f.type f k
