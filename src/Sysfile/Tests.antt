-- ===== src/Sysfile/Tests.antt =====
-- Runs on the descriptors of a process, and their theorems at concrete states.
use os_ca.Common.{
  ℕ, ◌≡◌, ◌<◌, refl, true, false, ◌==◌, if◌then◌else◌, Option, none, some, [], arith, word,
}
use os_ca.Fs.{Superblock}
use os_ca.Fs.Inodes.{Inode}
use os_ca.Pipe.{pipeinit}
use os_ca.File.{File, fd_none, fd_inode, filealloc, filealloc_from, filedup, put_file, drop_ref}
use os_ca.File.Io.{fileclose, close_last, put_pipe}
use os_ca.Sysfile.{
  Open, set_fd, pick_fd, fdalloc, fdalloc_from, dup_fd, dup_to, close_fd, open_inode, open_file,
  open_on,
}
use os_ca.Sysfile.Pipes.{
  make_pipe, pipealloc, first_end, second_end, both_ends, pipe_fds, first_fd, second_fd, pipe_end,
}
use os_ca.Sysfile.Counts.{count}
use os_ca.Sysfile.Counts.Reach.{
  IsGood, Returns, Reach, here, next, dups, closes, opens, Reach-IsGood,
}

abbrev no_file : File
no_file = record {
  type = fd_none;
  ref = 0;
  readable = false;
  writable = false;
  pipe = 0;
  ip = 0;
  off = 0;
}

abbrev no_inode : Inode
no_inode = record {
  dev = 0;
  inum = 0;
  ref = 1;
  valid = false;
  type = 0;
  major = 0;
  minor = 0;
  nlink = 1;
  size = 0;
  addrs = λ i. 0;
}

-- Another process has file 0 open twice.
abbrev elsewhere : ℕ → ℕ
elsewhere f = if f == 0 then 2 else 0

abbrev start : Open
start = record {
  ofile = λ fd. none;
  kernel = record {
    files = λ f. if f == 0 then record no_file { ref = 2; type = fd_inode } else no_file;
    pipes = λ a. pipeinit (λ i. 0);
    inodes = λ i. no_inode;
    disk = record { block = λ b a. 0; logged = [] };
  };
}

start-IsGood : IsGood elsewhere start
unfolding count
start-IsGood = record { counted = λ f. ground arith; room = λ f. ground arith }

abbrev small : Superblock
small = record { size = 20; ninodes = 8; inodestart = 2; bmapstart = 3 }

abbrev state_of : Option (ℕ × Open) → Open
state_of none = start
state_of (some (r, o)) = o

-- Descriptor 0 gets file 1, for the inode in entry 5, and descriptor 1 is its duplicate.
abbrev opened : Open
opened = state_of (open_inode small 5 true false start)

abbrev doubled : Open
doubled = state_of (dup_fd (pick_fd opened.ofile 0) opened)

abbrev left_one : Open
left_one = state_of (close_fd small (pick_fd doubled.ofile 0) doubled)

two-references : (doubled.kernel.files 1).ref ≡ 2
unfolding open_inode open_file open_on filealloc filealloc_from fdalloc fdalloc_from put_file set_fd
    pick_fd dup_fd dup_to filedup
two-references = refl

three-steps : Reach small start left_one
unfolding open_inode open_file open_on filealloc filealloc_from fdalloc fdalloc_from put_file set_fd
    pick_fd dup_fd dup_to filedup close_fd fileclose drop_ref close_last
three-steps =
    next (next (next here (opens 5 true false 0 opened refl)) (dups 0 1 doubled (omega arith) refl))
      (closes 0 0 left_one (omega arith) refl)

Reach-IsGood_example :
    IsGood elsewhere left_one
    × ((fd : ℕ) → fd < word → Returns elsewhere (dup_fd (pick_fd left_one.ofile fd) left_one))
Reach-IsGood_example = Reach-IsGood elsewhere small start left_one start-IsGood three-steps

-- A `pipe` gets the next two files and descriptors.
pipe-fds :
    make_pipe small (some (4096, λ i. 0)) opened
    ≡ some (
      some (1, 2),
      elim (make_pipe small (some (4096, λ i. 0)) opened) [ none ↦ start | some q ↦ q.1 ],
    )
unfolding open_inode open_file open_on filealloc filealloc_from fdalloc fdalloc_from put_file set_fd
    make_pipe pipealloc first_end second_end both_ends pipe_fds first_fd second_fd pipe_end put_pipe
pipe-fds = refl
