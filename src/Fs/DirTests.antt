-- ===== src/Fs/DirTests.antt =====
-- Runs of the inode cache, of paths and of directories, and their theorems at concrete states.
use os_ca.Common.{
  ℕ, ◌≡◌, refl, true, false, ◌==◌, ltb, if◌then◌else◌, Option, none, some, List, [], ◌∷◌, arith,
  map, take, run,
}
use os_ca.Fs.{Superblock, Disk}
use os_ca.Fs.Inodes.{Inode, inode_block}
use os_ca.Fs.Content.{Io, readi, read_from, read_done, bmap, slot_addr}
use os_ca.Fs.Content.View.{addr_of, IsMapped}
use os_ca.Fs.Content.Files.{IsElsewhere}
use os_ca.Fs.Cache.{Entries, iget, search_from, take_entry, iput, drop_ref, put_inode}
use os_ca.Fs.Cache.Once.{IsOnce}
use os_ca.Fs.Cache.Runs.{Reach, Reach-IsOnce, here, next, gets, puts}
use os_ca.Fs.Names.{dir_size}
use os_ca.Fs.Names.Paths.{names_of, elements, elements_from, names_of-elements}
use os_ca.Fs.Dirs.{find_entry, find_from, whole_entry, entry_inum, add_entry, t_dir}
use os_ca.Fs.Dirs.Links.{ends, byte, find_entry-add_entry}

abbrev small : Superblock
small = record { size = 20; ninodes = 8; inodestart = 2; bmapstart = 3 }

abbrev blank : Disk
blank = record { block = λ b a. 0; logged = [] }

abbrev no_inode : Inode
no_inode = record {
  dev = 0;
  inum = 0;
  ref = 0;
  valid = false;
  type = 0;
  major = 0;
  minor = 0;
  nlink = 0;
  size = 0;
  addrs = λ i. 0;
}

-- Inode 7 of device 1 is in entry 3, and the others are free.
abbrev cache : Entries
cache i = if i == 3 then record no_inode { dev = 1; inum = 7; ref = 1 } else no_inode

cache-IsOnce : IsOnce cache
cache-IsOnce = record { once = λ i j hi hj ri rj e e'. ground arith }

abbrev with_7 : Entries
with_7 = elim (iget 1 7 cache) [ some (k, t) ↦ t | none ↦ cache ]

gets-entry_3 : iget 1 7 cache ≡ some (3, with_7)
unfolding iget search_from take_entry
gets-entry_3 = refl

abbrev dropped : Entries
dropped = elim (iput small 3 with_7 blank) [ some (t, d) ↦ t | none ↦ cache ]

two-steps : Reach small cache dropped
unfolding iput drop_ref iget search_from take_entry put_inode
two-steps = next (next here (gets 1 7 3 gets-entry_3 (omega arith))) (puts 3 blank blank refl refl)

Reach-IsOnce_example : IsOnce dropped
Reach-IsOnce_example = Reach-IsOnce small cache-IsOnce two-steps

-- "//a/bb/"
abbrev path : List ℕ
path = b'/' ∷ b'/' ∷ b'a' ∷ b'/' ∷ b'b' ∷ b'b' ∷ b'/' ∷ []

path-elements : elements path ≡ (b'a' ∷ []) ∷ (b'b' ∷ b'b' ∷ []) ∷ []
unfolding elements elements_from
path-elements = refl

names_of-elements_example : names_of 8 path ≡ map (take dir_size) (elements path)
names_of-elements_example = names_of-elements 8 path (omega arith)

-- A directory of two free entries.
abbrev dir : Inode
dir = record no_inode {
  dev = 1;
  inum = 5;
  ref = 1;
  valid = true;
  type = t_dir;
  nlink = 1;
  size = 32;
  addrs = λ i. if ltb i 1 then 10 else 0;
}

dir-IsMapped : IsMapped dir blank 1
unfolding addr_of
dir-IsMapped = record {
  bound = omega arith;
  mapped = λ k h e. ground arith;
  apart = λ a b ha hb e. omega arith;
  table = λ k h e. ground arith;
}

dir-IsElsewhere : IsElsewhere dir blank 1 (inode_block small 5)
unfolding addr_of
dir-IsElsewhere = record { no_block = λ k h e. ground arith; no_table = λ e. omega (arith, e) }

abbrev no_readers : ℕ → Option (Io (List ℕ))
no_readers major = none

abbrev no_writers : ℕ → Option (Io ℕ)
no_writers major = none

abbrev name : List ℕ
name = b'a' ∷ b'b' ∷ []

name-absent : find_entry no_readers small name dir blank ≡ some (none, dir, blank)
unfolding find_entry find_from readi read_done read_from bmap slot_addr whole_entry entry_inum run
name-absent = refl

find_entry-add_entry_example :
    (ip : Inode) × (d : Disk) × (off : ℕ) × (add_entry no_readers no_writers small name 9 dir blank
      ≡ some (ip, d))
    × (find_entry no_readers small name ip d ≡ some (some (9, off), ip, d))
find_entry-add_entry_example =
    find_entry-add_entry no_readers no_writers small dir blank 1 name 9 dir-IsMapped dir-IsElsewhere
      refl refl (omega arith) (byte (omega arith) (byte (omega arith) ends)) (omega arith)
      (omega arith) (omega arith) name-absent
