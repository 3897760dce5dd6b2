-- ===== src/Sysfile/Counts/Reach.antt =====
-- What the calls leave, and the states that they reach.
use os_ca.Common.{
  ℕ, ◌<◌, ◌≡◌, refl, ◌∙◌, sym, ap, Bool, Option, none, some, ◌>>=◌, arith, word, minus_one, Cells,
  subst,
}
use os_ca.Fs.{Superblock}
use os_ca.File.{File, Files, fd_inode, put_file, nfile}
use os_ca.File.Refs.{Alloc, taken, full, filealloc-Alloc}
use os_ca.File.Io.{Kernel, fileclose}
use os_ca.Sysfile.{
  nofile, Descriptors, Open, set_fd, pick_fd, dup_to, dup_fd, close_fd, open_on, open_file,
  open_inode,
}
use os_ca.Sysfile.Counts.{
  names, FdAlloc, all_used, first, fdalloc-FdAlloc, Picked, bad_fd, good_fd, pick_fd-Picked,
}
use os_ca.Sysfile.Counts.Runs.{
  IsCounted, put_file-ref, change-IsCounted, same-IsCounted, fresh-IsCounted, filedup_more,
  drop_ref_less, put_more, put_same, drop_ref_new,
}
use os_ca.Sysfile.Pipes.{make_pipe}
use os_ca.Sysfile.Counts.Piped.{AfterPipe, make_pipe-After}
use os_ca.Sysfile.Counts.Kept.{KeepsFiles, put_back-files, put_back-KeepsFiles, close_last-files}

-- A state in which the references are counted.
abbrev pub IsGood : (ℕ → ℕ) → Open → Type 0
IsGood others o = IsCounted others o.ofile o.kernel.files

-- What a call may leave, where it does not panic.
abbrev After : (ℕ → ℕ) → Option (ℕ × Open) → Type 0
After others none = Unit
After others (some (r, o)) = IsGood others o

-- A call that does not panic.
abbrev pub Returns : (ℕ → ℕ) → Option (ℕ × Open) → Type 0
Returns others none = ⊥
Returns others (some (r, o)) = IsGood others o

module _ (others : ℕ → ℕ) (o : Open) (h : IsGood others o) where
  dup_to-Returns :
      (fd f : ℕ)
      → fd < nofile
      → o.ofile fd ≡ some f
      → (r : Option (ℕ × Descriptors)) → FdAlloc nofile 0 f o.ofile r
      → Returns others (dup_to f r o)
  unfolding dup_to
  dup_to-Returns fd f lt e _ (all_used used) = h
  dup_to-Returns fd f lt e _ (first k below free) =
      let more = filedup_more others o.ofile o.kernel.files h fd f lt e in
      rw more.1 (fresh-IsCounted others o.ofile o.kernel.files h f more.0 more.2 k below free)

  dup_fd-Returns : (q : Option (ℕ × ℕ)) → Picked o.ofile q → Returns others (dup_fd q o)
  unfolding dup_fd
  dup_fd-Returns _ bad_fd = h
  dup_fd-Returns _ (good_fd fd f lt e) = dup_to-Returns fd f lt e _ (fdalloc-FdAlloc f o.ofile)

  kept_files :
      (t : Descriptors) (files : Files) (r : Option Kernel) (n : ℕ)
      → IsCounted others t files
      → KeepsFiles files r
      → After others (r >>= λ (k : Kernel). some (n, record { ofile = t; kernel = k }))
  kept_files t files none n c same = tt
  kept_files t files (some k) n c same = subst (IsCounted others t) (sym same) c

  close_good :
      (sb : Superblock) (fd f : ℕ)
      → fd < nofile
      → o.ofile fd ≡ some f
      → After others (close_fd sb (some (fd, f)) o)
  unfolding close_fd fileclose
  close_good sb fd f lt e =
      let less = drop_ref_less others o.ofile o.kernel.files h fd f lt e in
      let left : IsCounted others (set_fd fd none o.ofile) less.0.0 =
        change-IsCounted others o.ofile o.kernel.files less.0.0 fd none h lt (λ j.
          let at : names (o.ofile fd) j ≡ names (some f) j = ap (λ q. names q j) e in
          omega (arith, less.2 j, at)) in
      rw less.1 (
        kept_files (set_fd fd none o.ofile) less.0.0 _ 0 left
          (close_last-files sb less.0.1 (record o.kernel { files = less.0.0 })))

  close_fd-After :
      (sb : Superblock) (q : Option (ℕ × ℕ)) → Picked o.ofile q → After others (close_fd sb q o)
  unfolding close_fd
  close_fd-After sb _ bad_fd = h
  close_fd-After sb _ (good_fd fd f lt e) = close_good sb fd f lt e

-- The slot that `filealloc` took, and the inode's file in it.
module _ (others : ℕ → ℕ) (o : Open) (h : IsGood others o) where
  open_on-After :
      (sb : Superblock) (ip : ℕ) (readable writable : Bool) (f : ℕ)
      → (o.kernel.files f).ref ≡ 0
      → (r : Option (ℕ × Descriptors)) → FdAlloc nofile 0 f o.ofile r
      → After others (
          open_on sb ip readable writable f r (record o {
            kernel = record o.kernel {
              files = put_file f (record (o.kernel.files f) { ref = 1 }) o.kernel.files;
            };
          }))
  unfolding open_on fileclose
  open_on-After sb ip readable writable f free _ (first k below avail) =
      fresh-IsCounted others o.ofile o.kernel.files h f _
        (λ j.
          let t = o.kernel.files in
          let g : File = record (t f) { ref = 1 } in
          let u : Files = put_file f g t in
          let opened : File = record (u f) {
            type = fd_inode;
            ip = ip;
            off = 0;
            readable = readable;
            writable = writable;
          } in
          let one : (u f).ref ≡ 1 = put_file-ref f g t f ∙ ground arith in
          let more = put_more f g t j (ground arith) in
          let same : (put_file f opened u j).ref ≡ (u j).ref = put_same f opened u j refl in
          same ∙ more)
        k below avail
  open_on-After sb ip readable writable f free _ (all_used used) =
      let new = drop_ref_new f o.kernel.files free in
      rw new.1 (
        kept_files others o h o.ofile new.0.0 _ minus_one
          (same-IsCounted others o.ofile o.kernel.files new.0.0 h new.2)
          (put_back-KeepsFiles sb ip new.0.0 _
            (close_last-files sb new.0.1 (record o.kernel { files = new.0.0 }))))

  open_file-After :
      (sb : Superblock) (ip : ℕ) (readable writable : Bool)
      → (r : Option ℕ × Files) → Alloc nfile 0 o.kernel.files r
      → After others (open_file sb ip readable writable r o)
  unfolding open_file
  open_file-After sb ip readable writable _ (full none_free) =
      kept_files others o h o.ofile o.kernel.files _ minus_one h (put_back-files sb ip o.kernel)
  open_file-After sb ip readable writable _ (taken f low high free least) =
      open_on-After sb ip readable writable f free _ (fdalloc-FdAlloc f o.ofile)

  open_inode-After :
      (sb : Superblock) (ip : ℕ) (readable writable : Bool)
      → After others (open_inode sb ip readable writable o)
  unfolding open_inode
  open_inode-After sb ip readable writable =
      open_file-After sb ip readable writable _ (filealloc-Alloc o.kernel.files)

-- The calls of a process: `dup` and `close` of the descriptor `fd`, whatever it is, `open` of an inode, and `pipe` with what `kalloc` gives, that
-- end with the value `r`.
pub data Step (sb : Superblock) (o : Open) : Open → Type 0 where
  dups :
      (fd r : ℕ) (o' : Open)
      → fd < word
      → dup_fd (pick_fd o.ofile fd) o ≡ some (r, o')
      → Step sb o o'
  closes :
      (fd r : ℕ) (o' : Open)
      → fd < word
      → close_fd sb (pick_fd o.ofile fd) o ≡ some (r, o')
      → Step sb o o'
  opens :
      (ip : ℕ) (readable writable : Bool) (r : ℕ) (o' : Open)
      → open_inode sb ip readable writable o ≡ some (r, o')
      → Step sb o o'
  pipes :
      (page : Option (ℕ × Cells)) (r : Option (ℕ × ℕ)) (o' : Open)
      → make_pipe sb page o ≡ some (r, o')
      → Step sb o o'

pub data Reach (sb : Superblock) (o : Open) : Open → Type 0 where
  here : Reach sb o o
  next : {u v : Open} → Reach sb o u → Step sb u v → Reach sb o v

Returns-After : (others : ℕ → ℕ) (q : Option (ℕ × Open)) → Returns others q → After others q
Returns-After others none h = tt
Returns-After others (some q) h = h

Step-IsGood :
    (others : ℕ → ℕ) (sb : Superblock) (o o' : Open)
    → IsGood others o
    → Step sb o o'
    → IsGood others o'
Step-IsGood others sb o _ h (dups fd r o' lt run) =
    subst (After others) run
      (Returns-After others _ (dup_fd-Returns others o h _ (pick_fd-Picked o.ofile fd lt)))
Step-IsGood others sb o _ h (closes fd r o' lt run) =
    subst (After others) run (close_fd-After others o h sb _ (pick_fd-Picked o.ofile fd lt))
Step-IsGood others sb o _ h (opens ip readable writable r o' run) =
    subst (After others) run (open_inode-After others o h sb ip readable writable)
Step-IsGood others sb o _ h (pipes page r o' run) =
    subst (AfterPipe others) run (make_pipe-After others sb page o h)

-- From a state in which each file has as many references as the descriptors of the process that name it
-- and those of the others, at most 2^31 - 101 of them, any `dup`s, `close`s, `open`s and `pipe`s that end
-- come to such a state, and there `dup` of any descriptor returns, in such a state, without a panic.
pub Reach-IsGood :
    (others : ℕ → ℕ) (sb : Superblock) (start o : Open)
    → IsGood others start
    → Reach sb start o
    → IsGood others o × ((fd : ℕ) → fd < word → Returns others (dup_fd (pick_fd o.ofile fd) o))
Reach-IsGood others sb start _ h here =
    (h, λ fd lt. dup_fd-Returns others start h _ (pick_fd-Picked start.ofile fd lt))
Reach-IsGood others sb start o h (next {u} run step) =
    let good : IsGood others o =
      Step-IsGood others sb u o (Reach-IsGood others sb start u h run).0 step in
    (good, λ fd lt. dup_fd-Returns others o good _ (pick_fd-Picked o.ofile fd lt))
