-- ===== src/File/Tests.antt =====
-- Runs on the file table, and its theorems at concrete states.
use os_ca.Common.{
  ℕ, ◌+◌, ◌≡◌, refl, some, none, Option, false, true, ltb, if◌then◌else◌, List, [], ◌∷◌, length,
  get_or, arith,
}
use os_ca.Pipe.{pipeinit}
use os_ca.Fs.{Superblock, Disk}
use os_ca.Fs.Inodes.{Inode, inode_block}
use os_ca.Fs.Content.{Io}
use os_ca.Fs.Content.View.{addr_of, IsMapped}
use os_ca.Fs.Content.Files.{IsElsewhere, Stored}
use os_ca.File.{Files, fd_pipe, fd_none, fd_inode, filealloc, filealloc_from, filedup}
use os_ca.File.Io.{Kernel, written, filewrite}
use os_ca.File.Writes.{filewrite-Stored}

-- Slots 0 and 1 are the ends of a pipe.
abbrev two_files : Files
two_files i =
    if ltb i 2
    then record {
      type = fd_pipe;
      ref = 1;
      readable = true;
      writable = false;
      pipe = 4096;
      ip = 0;
      off = 0;
    }
    else record {
      type = fd_none;
      ref = 0;
      readable = false;
      writable = false;
      pipe = 0;
      ip = 0;
      off = 0;
    }

takes-slot_2 : (filealloc two_files).0 ≡ some 2
unfolding filealloc filealloc_from
takes-slot_2 = refl

dup-panics : filedup 5 two_files ≡ none
unfolding filedup
dup-panics = refl

-- File 7 stands at offset 2 of a file of 4 bytes in block 10, whose inode is in entry 3.
abbrev plain : Inode
plain = record {
  dev = 1;
  inum = 5;
  ref = 1;
  valid = true;
  type = 2;
  major = 0;
  minor = 0;
  nlink = 1;
  size = 4;
  addrs = λ i. if ltb i 1 then 10 else 0;
}

abbrev blank : Disk
blank = record { block = λ b a. 0; logged = [] }

abbrev small : Superblock
small = record { size = 20; ninodes = 8; inodestart = 2; bmapstart = 3 }

abbrev kernel : Kernel
kernel = record {
  files = λ f. record {
    type = fd_inode;
    ref = 1;
    readable = true;
    writable = true;
    pipe = 0;
    ip = 3;
    off = 2;
  };
  pipes = λ a. pipeinit (λ i. 0);
  inodes = λ i. plain;
  disk = blank;
}

plain-IsMapped : IsMapped plain blank 1
unfolding addr_of
plain-IsMapped = record {
  bound = omega arith;
  mapped = λ k h e. ground arith;
  apart = λ a b ha hb e. omega arith;
  table = λ k h e. ground arith;
}

plain-IsElsewhere : IsElsewhere plain blank 1 (inode_block small 5)
unfolding addr_of
plain-IsElsewhere = record { no_block = λ k h e. ground arith; no_table = λ e. omega (arith, e) }

abbrev no_writers : ℕ → Option (Io ℕ)
no_writers major = none

abbrev three_bytes : List ℕ
three_bytes = b'x' ∷ b'y' ∷ b'z' ∷ []

filewrite-Stored_example :
    (k : Kernel) × (filewrite small no_writers three_bytes false [] 7 kernel ≡ some (written k))
    × ((k.files 7).off ≡ 2 + length three_bytes)
    × Stored plain blank (k.inodes 3) k.disk 1 2 (length three_bytes) (λ b. get_or three_bytes b 0)
filewrite-Stored_example =
    filewrite-Stored small no_writers three_bytes false [] 7 1 kernel refl refl refl refl
      (λ e. omega (arith, e)) plain-IsMapped plain-IsElsewhere (omega arith) (omega arith)
