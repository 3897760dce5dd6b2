-- ===== src/Fs/Names.antt =====
-- The elements of a path: `skipelem`.
pub mod Paths
use os_ca.Common.{
  ℕ, zero, suc, ◌+◌, ◌-◌, ◌*◌, ◌/◌, ◌%◌, Bool, true, false, ◌&&◌, Option, none, some, ◌>>=◌, List,
  [], ◌∷◌, ◌++◌, Cells, ltb, leb, ◌==◌, if◌then◌else◌, take, length,
}
use os_ca.Fs.{Superblock, Disk}

-- DIRSIZ
abbrev pub dir_size : ℕ
dir_size = 14

abbrev pub slash : ℕ
slash = 47

-- `while(*path == '/') path++`; a path is the list of its bytes without the NUL.
unfoldable pub skip_slashes : List ℕ → List ℕ
skip_slashes [] = []
skip_slashes (c ∷ path) = if c == slash then skip_slashes path else c ∷ path

-- The element in front, `s` up to `path`, and what lies behind it.
unfoldable pub first_elem : List ℕ → List ℕ
first_elem [] = []
first_elem (c ∷ path) = let rest = first_elem path in if c == slash then [] else c ∷ rest

unfoldable pub skip_elem : List ℕ → List ℕ
skip_elem [] = []
skip_elem (c ∷ path) = let rest = skip_elem path in if c == slash then c ∷ path else rest

abbrev split_front : List ℕ → Option (List ℕ × List ℕ)
split_front [] = none
split_front (c ∷ path) =
    some (take dir_size (first_elem (c ∷ path)), skip_slashes (skip_elem (c ∷ path)))

-- `skipelem`: the name, of DIRSIZ bytes at most, and the rest of the path.
unfoldable pub skipelem : List ℕ → Option (List ℕ × List ℕ)
skipelem path = split_front (skip_slashes path)
