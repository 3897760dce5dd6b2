-- ===== src/Fs/Dirs.antt =====
-- Directories: `namecmp`, `dirlookup` and `dirlink`. `dp` is the number of the directory's entry in the
-- cache. `none` is a panic.
pub mod Scans
pub mod Links
use os_ca.Common.{
  ℕ, zero, suc, ◌+◌, ◌-◌, ◌*◌, ◌/◌, ◌%◌, Bool, true, false, not, ◌&&◌, Option, none, some, ◌>>=◌,
  List, [], ◌∷◌, ◌++◌, Cells, ◌==◌, if◌then◌else◌, get_or, length,
}
use os_ca.Strings.{strncmp}
use os_ca.Fs.{Superblock, Disk}
use os_ca.Fs.Inodes.{Inode}
use os_ca.Fs.Content.{Io, failed, done, panics, readi, writei}
use os_ca.Fs.Cache.{Entries, put_inode, iget, iput}
use os_ca.Fs.Names.{dir_size}

-- T_DIR, and `sizeof(de)`
abbrev pub t_dir : ℕ
t_dir = 1

abbrev pub entry_size : ℕ
entry_size = 16

-- The bytes of `struct dirent`: `de.inum`, and `de.name` as a string, up to its first NUL.
unfoldable pub entry_inum : List ℕ → ℕ
entry_inum [] = 0
entry_inum (a ∷ []) = a
entry_inum (a ∷ b ∷ rest) = a + 256 * b

unfoldable pub c_string : List ℕ → List ℕ
c_string [] = []
c_string (c ∷ rest) = let more = c_string rest in if c == 0 then [] else c ∷ more

unfoldable pub entry_name : List ℕ → List ℕ
entry_name [] = []
entry_name (a ∷ []) = []
entry_name (a ∷ b ∷ rest) = c_string rest

unfoldable pub namecmp : List ℕ → List ℕ → ℕ
namecmp s t = strncmp s t dir_size

-- `readi(dp, (char*)&de, off, sizeof(de)) != sizeof(de)` is a panic.
unfoldable pub whole_entry : Io (List ℕ) → Option (List ℕ × Inode × Disk)
whole_entry failed = none
whole_entry panics = none
whole_entry (done bs ip d) = if length bs == entry_size then some (bs, ip, d) else none

-- `iget` of what was found in the directory `dp`
unfoldable pub get_found :
    ℕ → Option (ℕ × ℕ) → Entries → Disk → Option (Option (ℕ × ℕ) × Entries × Disk)
get_found dp none t d = some (none, t, d)
get_found dp (some (inum, off)) t d =
    iget (t dp).dev inum t >>= λ (r : ℕ × Entries). some (some (r.0, off), r.1, d)

module _ (devsw : ℕ → Option (Io (List ℕ))) (sb : Superblock) where
  -- The loop of `dirlookup`, `n` rounds from `off` on: the number of the inode, and the offset.
  unfoldable pub find_from : ℕ → ℕ → List ℕ → Inode → Disk → Option (Option (ℕ × ℕ) × Inode × Disk)
  find_from zero off name ip d = some (none, ip, d)
  find_from (suc n) off name ip d =
      whole_entry (readi devsw sb off entry_size ip d) >>= λ (e : List ℕ × Inode × Disk).
      let rest = find_from n (off + entry_size) name e.1 e.2 in
      if not (entry_inum e.0 == 0) && namecmp name (entry_name e.0) == 0
      then some (some (entry_inum e.0, off), e.1, e.2)
      else rest

  -- `off < dp->size` holds for that many rounds.
  unfoldable pub find_entry : List ℕ → Inode → Disk → Option (Option (ℕ × ℕ) × Inode × Disk)
  find_entry name ip d =
      if ip.type == t_dir then find_from ((ip.size + 15) / entry_size) 0 name ip d else none

  -- `dirlookup` with the entry that `iget` gives and the offset, if the name is there.
  unfoldable pub dirlookup : List ℕ → ℕ → Entries → Disk → Option (Option (ℕ × ℕ) × Entries × Disk)
  dirlookup name dp t d = find_entry name (t dp) d >>= λ (r : Option (ℕ × ℕ) × Inode × Disk).
      get_found dp r.0 (put_inode dp r.1 t) r.2

  -- The second loop of `dirlink`: the offset of the first free entry, or the end.
  unfoldable pub free_from : ℕ → ℕ → Inode → Disk → Option (ℕ × Inode × Disk)
  free_from zero off ip d = some (off, ip, d)
  free_from (suc n) off ip d =
      whole_entry (readi devsw sb off entry_size ip d) >>= λ (e : List ℕ × Inode × Disk).
      let rest = free_from n (off + entry_size) e.1 e.2 in
      if entry_inum e.0 == 0 then some (off, e.1, e.2) else rest

-- `strncpy(de.name, name, DIRSIZ)`: the `n` bytes that it stores.
unfoldable pub padded : ℕ → List ℕ → List ℕ
padded zero name = []
padded (suc n) [] = 0 ∷ padded n []
padded (suc n) (c ∷ name) = c ∷ padded n name

unfoldable pub dirent : List ℕ → ℕ → List ℕ
dirent name inum = inum % 256 ∷ inum / 256 % 256 ∷ padded dir_size name

-- A write of another count than the entry's is a panic.
unfoldable pub whole_write : Io ℕ → Option (Inode × Disk)
whole_write failed = none
whole_write panics = none
whole_write (done n ip d) = if n == entry_size then some (ip, d) else none

module _ (devr : ℕ → Option (Io (List ℕ))) (devw : ℕ → Option (Io ℕ)) (sb : Superblock) where
  -- `dirlink` behind its lookup.
  unfoldable pub add_entry : List ℕ → ℕ → Inode → Disk → Option (Inode × Disk)
  add_entry name inum ip d =
      free_from devr sb ((ip.size + 15) / entry_size) 0 ip d >>= λ (r : ℕ × Inode × Disk).
      whole_write (writei devw sb (λ i. get_or (dirent name inum) i 0) r.0 entry_size r.1 r.2)

  -- The flag says that `dirlink` returns 0, not -1.
  unfoldable pub link_found :
      List ℕ → ℕ → ℕ → Option (ℕ × ℕ) × Entries × Disk → Option (Bool × Entries × Disk)
  link_found name inum dp (some (k, off), t, d) =
      iput sb k t d >>= λ (r : Entries × Disk). some (false, r.0, r.1)
  link_found name inum dp (none, t, d) =
      add_entry name inum (t dp) d >>= λ (r : Inode × Disk). some (true, put_inode dp r.0 t, r.1)

  unfoldable pub dirlink : List ℕ → ℕ → ℕ → Entries → Disk → Option (Bool × Entries × Disk)
  dirlink name inum dp t d = dirlookup devr sb name dp t d >>= link_found name inum dp
