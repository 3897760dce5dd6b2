-- ===== src/Sysfile/Links/Tests.antt =====
-- Runs on a small directory, and the theorems about it.
use os_ca.Common.{
  ℕ, ◌*◌, ◌/◌, ◌<◌, ◌≤◌, ◌≡◌, ◌↔◌, refl, Bool, true, false, ◌==◌, ltb, if◌then◌else◌, Option, none,
  some, List, [], arith, run,
}
use os_ca.Fs.{Superblock, Disk}
use os_ca.Fs.Inodes.{Inode, inode_block}
use os_ca.Fs.Content.{Io, readi, read_from, read_done, bmap, slot_addr}
use os_ca.Fs.Content.View.{content, addr_of, IsMapped}
use os_ca.Fs.Content.Files.{IsElsewhere}
use os_ca.Fs.Dirs.{t_dir, entry_size, entry_inum, find_entry, whole_entry}
use os_ca.Sysfile.Links.{isdirempty, empty_from, clear_entry}
use os_ca.Sysfile.Links.Removal.{isdirempty_iff, find_without, clear_entry-find_without}

abbrev small : Superblock
small = record { size = 20; ninodes = 8; inodestart = 2; bmapstart = 3 }

-- Block 10 holds the entries ".", ".." and "a", of the inodes 5, 1 and 6.
abbrev disk : Disk
disk = record {
  block = λ b a.
      if b == 10
      then (if a == 0
          then 5
          else if a == 2
          then b'.'
          else if a == 16
          then 1
          else if a == 18
          then b'.'
          else if a == 19
          then b'.'
          else if a == 32
          then 6
          else if a == 34
          then b'a'
          else 0)
      else 0;
  logged = [];
}

abbrev dir : Inode
dir = record {
  dev = 1;
  inum = 5;
  ref = 1;
  valid = true;
  type = t_dir;
  major = 0;
  minor = 0;
  nlink = 1;
  size = 48;
  addrs = λ i. if ltb i 1 then 10 else 0;
}

dir-IsMapped : IsMapped dir disk 1
unfolding addr_of
dir-IsMapped = record {
  bound = omega arith;
  mapped = λ k h e. ground arith;
  apart = λ a b ha hb e. omega arith;
  table = λ k h e. ground arith;
}

dir-IsElsewhere : IsElsewhere dir disk 1 (inode_block small 5)
unfolding addr_of
dir-IsElsewhere = record { no_block = λ k h e. ground arith; no_table = λ e. omega (arith, e) }

abbrev no_readers : ℕ → Option (Io (List ℕ))
no_readers major = none

abbrev no_writers : ℕ → Option (Io ℕ)
no_writers major = none

not-empty : isdirempty no_readers small dir disk ≡ some (false, dir, disk)
unfolding isdirempty empty_from readi read_done read_from bmap slot_addr whole_entry entry_inum run
not-empty = refl

isdirempty_iff_example :
    (b : Bool) × (isdirempty no_readers small dir disk ≡ some (b, dir, disk))
    × ((b ≡ true) ↔ (
        (j : ℕ)
        → 2 ≤ j
        → j < dir.size / 16
        → entry_inum (run (content dir disk) (16 * j) entry_size) ≡ 0))
isdirempty_iff_example =
    isdirempty_iff no_readers small dir disk 1 dir-IsMapped refl refl (omega arith)

clear_entry-find_without_example :
    (ip : Inode) × (d : Disk) × (clear_entry no_writers small 32 dir disk ≡ some (ip, d))
    × (ip.size ≡ dir.size)
    × ((name : List ℕ)
        → find_entry no_readers small name ip d
          ≡ some (find_without 32 (content dir disk) (dir.size / 16) 0 name, ip, d))
clear_entry-find_without_example =
    clear_entry-find_without no_readers no_writers small dir disk 1 32 dir-IsMapped dir-IsElsewhere
      refl refl (omega arith) refl (omega arith)
