-- ===== src/Sysfile/Counts/Piped.antt =====
-- The references while `pipe` makes its two files.
use os_ca.Common.{ℕ, ◌+◌, ◌<◌, ◌≡◌, ap, true, Option, none, some, ◌>>=◌, arith, Cells}
use os_ca.Fs.{Superblock}
use os_ca.File.{Files}
use os_ca.File.Refs.{filealloc-Alloc}
use os_ca.File.Io.{Kernel}
use os_ca.Sysfile.{nofile, Descriptors, Open, set_fd, is_free}
use os_ca.Sysfile.Pipes.{pipealloc, undo_pipe, second_fd, first_fd, pipe_fds, make_pipe}
use os_ca.Sysfile.Counts.{
  names, count-set_fd, set_fd_self, FdAlloc, all_used, first, fdalloc-FdAlloc,
}
use os_ca.Sysfile.Counts.Runs.{IsCounted, free_names}
use os_ca.Sysfile.Counts.Owed.{
  IsOwed, one_file, two_files, Leaves, close_both, Made, first_end-Made,
}

-- A descriptor comes to name a file that the call holds.
give_fd :
    (others : ℕ → ℕ) (t : Descriptors) (files : Files) (k f : ℕ) (held : ℕ → ℕ)
    → k < nofile
    → is_free (t k) ≡ true
    → IsOwed others t (λ j. names (some f) j + held j) files
    → IsOwed others (set_fd k (some f) t) held files
give_fd others t files k f held lt free h = record {
  owed =
      λ j. omega (arith, h.owed j, count-set_fd nofile k (some f) t j lt, free_names (t k) free j);
  slack = h.slack;
}

-- The descriptor is freed again.
take_fd :
    (others : ℕ → ℕ) (t : Descriptors) (files : Files) (k f : ℕ) (held : ℕ → ℕ)
    → k < nofile
    → t k ≡ some f
    → IsOwed others t held files
    → IsOwed others (set_fd k none t) (λ j. names (some f) j + held j) files
take_fd others t files k f held lt e h = record {
  owed = λ j.
      let at : names (t k) j ≡ names (some f) j = ap (λ q. names q j) e in
      omega (arith, h.owed j, count-set_fd nofile k none t j lt, at);
  slack = h.slack;
}

settled :
    (others : ℕ → ℕ) (t : Descriptors) (files : Files)
    → IsOwed others t (λ j. 0) files
    → IsCounted others t files
settled others t files h = record { counted = λ j. omega (arith, h.owed j); room = h.slack }

-- What `pipe` leaves, where it does not panic.
abbrev pub AfterPipe : (ℕ → ℕ) → Option (Option (ℕ × ℕ) × Open) → Type 0
AfterPipe others none = Unit
AfterPipe others (some (fds, o)) = IsCounted others o.ofile o.kernel.files

module _ (others : ℕ → ℕ) (sb : Superblock) (page : Option (ℕ × Cells)) where
  undo_pipe-After :
      (f g : ℕ) (o : Open)
      → IsOwed others o.ofile (two_files f g) o.kernel.files
      → AfterPipe others (undo_pipe sb page f g o)
  unfolding undo_pipe
  undo_pipe-After f g o h = closed _ (close_both others o.ofile sb f g o.kernel h)
    where
      closed :
          (r : Option Kernel)
          → Leaves others o.ofile (λ j. 0) r
          → AfterPipe others (r >>= λ (k : Kernel). some (none, record o { kernel = k }))
      closed none h = tt
      closed (some k) h = settled others o.ofile k.files h

  second_fd-After :
      (f g fd0 : ℕ) (o : Open) (r : Option (ℕ × Descriptors))
      → fd0 < nofile
      → o.ofile fd0 ≡ some f
      → FdAlloc nofile 0 g o.ofile r
      → IsOwed others o.ofile (one_file g) o.kernel.files
      → AfterPipe others (second_fd sb page f g fd0 r o)
  unfolding second_fd
  second_fd-After f g fd0 o _ lt e (all_used used) h =
      undo_pipe-After f g (record o { ofile = set_fd fd0 none o.ofile })
        (take_fd others o.ofile o.kernel.files fd0 f (one_file g) lt e h)
  second_fd-After f g fd0 o _ lt e (first fd1 below free) h = settled others _ o.kernel.files (
      give_fd others o.ofile o.kernel.files fd1 g (λ j. 0) below free
        (record { owed = λ j. omega (arith, h.owed j); slack = h.slack }))

  first_fd-After :
      (f g : ℕ) (o : Open) (r : Option (ℕ × Descriptors))
      → FdAlloc nofile 0 f o.ofile r
      → IsOwed others o.ofile (two_files f g) o.kernel.files
      → AfterPipe others (first_fd sb page f g r o)
  unfolding first_fd
  first_fd-After f g o _ (all_used used) h = undo_pipe-After f g o h
  first_fd-After f g o _ (first fd0 below free) h =
      second_fd-After f g fd0 _ _ below (set_fd_self fd0 (some f) o.ofile) (fdalloc-FdAlloc g _)
        (give_fd others o.ofile o.kernel.files fd0 f (one_file g) below free h)

  pipe_fds-After :
      (t : Descriptors) (r : Option (Option (ℕ × ℕ) × Kernel))
      → Made others t r
      → AfterPipe others (r >>= pipe_fds sb page t)
  unfolding pipe_fds
  pipe_fds-After t none h = tt
  pipe_fds-After t (some (none, k)) h = settled others t k.files h
  pipe_fds-After t (some (some (f, g), k)) h = first_fd-After f g _ _ (fdalloc-FdAlloc f t) h

  pub make_pipe-After :
      (o : Open) → IsCounted others o.ofile o.kernel.files → AfterPipe others (make_pipe sb page o)
  unfolding make_pipe pipealloc
  make_pipe-After o h =
      pipe_fds-After o.ofile _
        (first_end-Made others o.ofile sb page o.kernel _ (filealloc-Alloc o.kernel.files) h)
