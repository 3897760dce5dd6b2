-- ===== src/Fs.antt =====
-- fs.c: the free map of the blocks, the inodes and their contents, the inode cache and the names of
-- a path. The device is what `bread` gives for each of its blocks, by bytes.
pub mod Bits
pub mod Writes
pub mod Blocks
pub mod Inodes
pub mod Content
pub mod Cache
pub mod Names
pub mod Dirs
pub mod Walk
mod Tests
mod DirTests
use os_ca.Common.{
  ℕ, zero, suc, ◌+◌, ◌/◌, ◌%◌, ◌^◌, Bool, List, ◌∷◌, Cells, put, ◌==◌, if◌then◌else◌, ◌-◌, ◌*◌,
}

-- `struct superblock`, but the place and the size of the log
pub record Superblock : Type 0 where
  pub size : ℕ
  pub ninodes : ℕ
  pub inodestart : ℕ
  pub bmapstart : ℕ

-- `block b` is what `bread(dev, b)` gives, and `logged` names the blocks that were passed to
-- `log_write`, the last one first.
pub record Disk : Type 0 where
  pub block : ℕ → Cells
  pub logged : List ℕ

-- `bp->data` of block `b` is changed to `v`, and `log_write(bp)`.
unfoldable pub write_block : ℕ → Cells → Disk → Disk
write_block b v d = record { block = λ a. if a == b then v else d.block a; logged = b ∷ d.logged }

-- BSIZE and BPB
abbrev pub block_size : ℕ
block_size = 512

abbrev pub bits_per_block : ℕ
bits_per_block = 4096

-- BBLOCK
abbrev pub bitmap_block : Superblock → ℕ → ℕ
bitmap_block sb b = b / bits_per_block + sb.bmapstart

-- A byte with its bit `k` tested, set and cleared: `x & m`, `x |= m` and `x &= ~m` with `m = 1 << k`.
unfoldable pub has_bit : ℕ → ℕ → Bool
has_bit x k = x / 2 ^ k % 2 == 1

unfoldable pub set_bit : ℕ → ℕ → ℕ
set_bit x k = if has_bit x k then x else x + 2 ^ k

unfoldable pub clear_bit : ℕ → ℕ → ℕ
clear_bit x k = if has_bit x k then x - 2 ^ k else x
