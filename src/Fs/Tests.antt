-- ===== src/Fs/Tests.antt =====
-- Runs of the file system, and its theorems at concrete states.
use os_ca.Common.{
  ℕ, ◌+◌, ◌*◌, ◌%◌, ◌≤◌, ◌<◌, ◌≡◌, refl, ◌⊎◌, ap, true, false, ◌||◌, ◌==◌, ltb, if◌then◌else◌,
  Option, none, some, List, [], Cells, arith, run,
}
use os_ca.Fs.{Superblock, Disk, bitmap_block, has_bit}
use os_ca.Fs.Blocks.{balloc, balloc_from, find_clear, take_block, bfree}
use os_ca.Fs.Blocks.Alloc.{is_used, Balloc, balloc-Balloc}
use os_ca.Fs.Blocks.FreeMap.{IsMap, bfree-balloc}
use os_ca.Fs.Inodes.{Inode, ilock, iupdate, inode_block}
use os_ca.Fs.Inodes.Disks.{Fits, SameOnDisk, ilock-iupdate}
use os_ca.Fs.Content.{readi, writei, Io, done}
use os_ca.Fs.Content.View.{addr_of, content, IsMapped}
use os_ca.Fs.Content.Files.{IsElsewhere, readi-writei}

-- 20 blocks; block 3 is the free map, with blocks 0 to 7 in use.
abbrev small : Superblock
small = record { size = 20; ninodes = 8; inodestart = 2; bmapstart = 3 }

abbrev fresh : Disk
fresh = record { block = λ b a. if b == 3 then (if a == 0 then 255 else 0) else 0; logged = [] }

abbrev first_taken : Disk
first_taken = elim (balloc small fresh) [ some (b, d) ↦ d | none ↦ fresh ]

takes-block_8 : balloc small fresh ≡ some (8, first_taken)
unfolding balloc balloc_from find_clear has_bit take_block
takes-block_8 = refl

fresh-IsMap : IsMap small fresh
unfolding is_used has_bit
fresh-IsMap = record {
  bytes = λ b a. ground arith;
  reserved = λ k h.
      let map : bitmap_block small k ≡ 3 = omega arith in ap (λ b. is_used small fresh b) map;
}

balloc-Balloc_example : Balloc small fresh 0 (balloc small fresh)
balloc-Balloc_example = balloc-Balloc small fresh

bfree-balloc_example :
    ((k : ℕ) → k < 20 → is_used small first_taken k ≡ ((k == 8) || is_used small fresh k))
    × (d : Disk) × (bfree 8 small first_taken ≡ some d)
    × ((k : ℕ) → k < 20 → is_used small d k ≡ is_used small fresh k)
bfree-balloc_example = bfree-balloc small fresh first_taken 8 fresh-IsMap takes-block_8

-- A file of 600 bytes in blocks 10 and 11.
abbrev file : Inode
file = record {
  dev = 1;
  inum = 5;
  ref = 1;
  valid = true;
  type = 2;
  major = 0;
  minor = 0;
  nlink = 1;
  size = 600;
  addrs = λ i. if ltb i 2 then 10 + i else 0;
}

file-Fits : Fits file
file-Fits = record {
  type = omega arith;
  major = omega arith;
  minor = omega arith;
  nlink = omega arith;
  size = omega arith;
  addrs = λ i h. ground arith;
}

file-IsMapped : IsMapped file fresh 2
unfolding addr_of
file-IsMapped = record {
  bound = omega arith;
  mapped = λ k h e. ground arith;
  apart = λ a b ha hb e. ground arith;
  table = λ k h e. ground arith;
}

file-IsElsewhere : IsElsewhere file fresh 2 (inode_block small 5)
unfolding addr_of
file-IsElsewhere = record { no_block = λ k h e. ground arith; no_table = λ e. omega (arith, e) }

abbrev entry : Inode
entry = record file { valid = false; size = 0; nlink = 0 }

ilock-iupdate_example :
    (r : Inode) × (ilock small entry (iupdate small file fresh) ≡ some r) × SameOnDisk file r
ilock-iupdate_example = ilock-iupdate small file entry fresh file-Fits (omega arith) refl refl refl

abbrev no_readers : ℕ → Option (Io (List ℕ))
no_readers major = none

abbrev no_writers : ℕ → Option (Io ℕ)
no_writers major = none

abbrev letters : Cells
letters i = b'a' + i % 26

readi-writei_example :
    (ip : Inode) × (d : Disk) × (writei no_writers small letters 500 300 file fresh ≡ done 300 ip d)
    × (readi no_readers small 500 300 ip d ≡ done (run letters 0 300) ip d)
    × ((o m : ℕ)
        → o + m ≤ 500 ⊎ 500 + 300 ≤ o
        → o + m ≤ 600
        → o + m ≤ 2 * 512
        → readi no_readers small o m ip d ≡ done (run (content file fresh) o m) ip d)
readi-writei_example =
    readi-writei no_readers no_writers small file fresh 2 500 300 letters file-IsMapped
      file-IsElsewhere (omega arith) (omega arith) (omega arith)
