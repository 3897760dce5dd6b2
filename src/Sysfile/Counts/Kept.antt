-- ===== src/Sysfile/Counts/Kept.antt =====
-- The closing of what a file stands for leaves the table of the files.
use os_ca.Common.{◌≡◌, refl, ℕ, Option, none, some, ◌>>=◌, subst}
use os_ca.Fs.{Superblock, Disk}
use os_ca.Fs.Cache.{Entries, iput}
use os_ca.File.{File, Files, FileType, fd_none, fd_pipe, fd_inode}
use os_ca.File.Io.{Kernel, put_back, put_pipe, close_kind, close_last}

abbrev pub KeepsFiles : Files → Option Kernel → Type 0
KeepsFiles files none = Unit
KeepsFiles files (some k) = k.files ≡ files

pub put_back-files : (sb : Superblock) (a : ℕ) (k : Kernel) → KeepsFiles k.files (put_back sb a k)
unfolding put_back
put_back-files sb a k = with_entries (iput sb a k.inodes k.disk)
  where
    with_entries :
        (r : Option (Entries × Disk))
        → KeepsFiles k.files
            (r >>= λ (q : Entries × Disk). some (record k { inodes = q.0; disk = q.1 }))
    with_entries none = tt
    with_entries (some q) = refl

pub put_back-KeepsFiles :
    (sb : Superblock) (a : ℕ) (files : Files) (r : Option Kernel)
    → KeepsFiles files r
    → KeepsFiles files (r >>= put_back sb a)
put_back-KeepsFiles sb a files none same = tt
put_back-KeepsFiles sb a files (some k) same =
    subst (λ u. KeepsFiles u (put_back sb a k)) same (put_back-files sb a k)

close_kind-files :
    (sb : Superblock) (type : FileType) (f : File) (k : Kernel)
    → KeepsFiles k.files (close_kind sb type f k)
unfolding close_kind put_pipe
close_kind-files sb fd_none f k = refl
close_kind-files sb fd_pipe f k = refl
close_kind-files sb fd_inode f k = put_back-files sb f.ip k

pub close_last-files :
    (sb : Superblock) (q : Option File) (k : Kernel) → KeepsFiles k.files (close_last sb q k)
unfolding close_last
close_last-files sb none k = refl
close_last-files sb (some f) k = close_kind-files sb f.type f k

pub fileclose-KeepsFiles :
    (sb : Superblock) (files : Files) (r : Option Kernel) (run : Kernel → Option Kernel) (u : Files)
    → KeepsFiles files r
    → ((k : Kernel) → k.files ≡ files → KeepsFiles u (run k))
    → KeepsFiles u (r >>= run)
fileclose-KeepsFiles sb files none run u same h = tt
fileclose-KeepsFiles sb files (some k) run u same h = h k same
