-- ===== src/Sysfile/Pipes.antt =====
-- `pipealloc` of pipe.c and `sys_pipe` of sysfile.c: two files and two descriptors for a new pipe. `none`
-- is a panic, and `none` inside is the return value -1. What `kalloc` gives is a parameter: the page's
-- address with its bytes.
use os_ca.Common.{ℕ, Bool, true, false, Option, none, some, ◌>>=◌, Cells, if◌then◌else◌}
use os_ca.Pipe.{pipeinit}
use os_ca.Fs.{Superblock}
use os_ca.File.{Files, fd_pipe, put_file, filealloc}
use os_ca.File.Io.{Kernel, put_pipe, fileclose}
use os_ca.Syscall.{Caller, argptr}
use os_ca.Sysfile.{Descriptors, Open, set_fd, fdalloc}

-- The file `f` becomes an end of the pipe at `a`.
unfoldable pub pipe_end : ℕ → Bool → ℕ → Files → Files
pipe_end a writable f files =
    put_file f
      (record (files f) {
        type = fd_pipe;
        readable = if writable then false else true;
        writable = writable;
        pipe = a;
      })
      files

module _ (sb : Superblock) (page : Option (ℕ × Cells)) where
  -- What `pipealloc` does with both files, by what `kalloc` gives.
  unfoldable pub both_ends : ℕ → ℕ → Option (ℕ × Cells) → Kernel → Option (Option (ℕ × ℕ) × Kernel)
  both_ends f0 f1 none k =
      fileclose sb f0 k >>= fileclose sb f1 >>= λ (k' : Kernel). some (none, k')
  both_ends f0 f1 (some (a, bytes)) k = some (
    some (f0, f1),
    put_pipe a (pipeinit bytes)
        (record k { files = pipe_end a true f1 (pipe_end a false f0 k.files) }),
  )

  -- By what the second `filealloc` gives.
  unfoldable pub second_end : ℕ → Option ℕ × Files → Kernel → Option (Option (ℕ × ℕ) × Kernel)
  second_end f0 (none, files) k = fileclose sb f0 k >>= λ (k' : Kernel). some (none, k')
  second_end f0 (some f1, files) k = both_ends f0 f1 page (record k { files = files })

  -- By what the first gives.
  unfoldable pub first_end : Option ℕ × Files → Kernel → Option (Option (ℕ × ℕ) × Kernel)
  first_end (none, files) k = some (none, k)
  first_end (some f0, files) k = second_end f0 (filealloc files) (record k { files = files })

  unfoldable pub pipealloc : Kernel → Option (Option (ℕ × ℕ) × Kernel)
  pipealloc k = first_end (filealloc k.files) k

  -- The files `rf` and `wf` are closed again, with the descriptors `t`.
  unfoldable pub undo_pipe : ℕ → ℕ → Open → Option (Option (ℕ × ℕ) × Open)
  undo_pipe rf wf o = fileclose sb rf o.kernel >>= fileclose sb wf >>= λ (k : Kernel).
      some (none, record o { kernel = k })

  -- By what `fdalloc(wf)` gives behind the descriptor `fd0` of `rf`.
  unfoldable pub second_fd :
      ℕ → ℕ → ℕ → Option (ℕ × Descriptors) → Open → Option (Option (ℕ × ℕ) × Open)
  second_fd rf wf fd0 none o = undo_pipe rf wf (record o { ofile = set_fd fd0 none o.ofile })
  second_fd rf wf fd0 (some (fd1, t)) o = some (some (fd0, fd1), record o { ofile = t })

  -- By what `fdalloc(rf)` gives.
  unfoldable pub first_fd : ℕ → ℕ → Option (ℕ × Descriptors) → Open → Option (Option (ℕ × ℕ) × Open)
  first_fd rf wf none o = undo_pipe rf wf o
  first_fd rf wf (some (fd0, t)) o = second_fd rf wf fd0 (fdalloc wf t) (record o { ofile = t })

  unfoldable pub pipe_fds : Descriptors → Option (ℕ × ℕ) × Kernel → Option (Option (ℕ × ℕ) × Open)
  pipe_fds t (none, k) = some (none, record { ofile = t; kernel = k })
  pipe_fds t (some (rf, wf), k) = first_fd rf wf (fdalloc rf t) (record { ofile = t; kernel = k })

  -- `sys_pipe` behind its `argptr`, with the numbers for `fd[0]` and `fd[1]`.
  unfoldable pub make_pipe : Open → Option (Option (ℕ × ℕ) × Open)
  make_pipe o = pipealloc o.kernel >>= pipe_fds o.ofile

  -- The place where the numbers go is refused, or is the address that comes with them.
  unfoldable pub pipe_to : Option ℕ → Open → Option (Option (ℕ × ℕ × ℕ) × Open)
  pipe_to none o = some (none, o)
  pipe_to (some fd) o = make_pipe o >>= λ (q : Option (ℕ × ℕ) × Open).
      some ((q.0 >>= λ (fds : ℕ × ℕ). some (fd, fds.0, fds.1)), q.1)

  unfoldable pub sys_pipe : Caller → Open → Option (Option (ℕ × ℕ × ℕ) × Open)
  sys_pipe c o = pipe_to (argptr 0 8 c) o
