-- ===== src/Fs/Inodes.antt =====
-- An inode in memory and on the disk: `iupdate`, and what `ilock` reads.
pub mod Disks
use os_ca.Common.{
  ℕ, zero, suc, ◌+◌, ◌*◌, ◌/◌, ◌%◌, ◌-◌, Bool, true, false, Option, none, some, Cells, put, ltb,
  slt, leb, ◌&&◌, ◌==◌, if◌then◌else◌,
}
use os_ca.Fs.{Superblock, Disk, write_block}

-- `struct inode` but its lock. The shorts are their bit patterns.
pub record Inode : Type 0 where
  pub dev : ℕ
  pub inum : ℕ
  pub ref : ℕ
  pub valid : Bool
  pub type : ℕ
  pub major : ℕ
  pub minor : ℕ
  pub nlink : ℕ
  pub size : ℕ
  pub addrs : Cells

-- NDIRECT and NINDIRECT
abbrev pub n_direct : ℕ
n_direct = 12

abbrev pub n_indirect : ℕ
n_indirect = 128

-- IBLOCK, and the place of the `struct dinode` in the block
abbrev pub inode_block : Superblock → ℕ → ℕ
inode_block sb inum = inum / 8 + sb.inodestart

abbrev pub inode_place : ℕ → ℕ
inode_place inum = inum % 8 * 64

-- A `short` and a `uint` in a block, at the byte `a`.
unfoldable pub get16 : Cells → ℕ → ℕ
get16 c a = c a + 256 * c (a + 1)

unfoldable pub get32 : Cells → ℕ → ℕ
get32 c a = c a + 256 * c (a + 1) + 65536 * c (a + 2) + 16777216 * c (a + 3)

unfoldable pub put16 : ℕ → ℕ → Cells → Cells
put16 a v c = put (put c a (v % 256)) (a + 1) (v / 256 % 256)

unfoldable pub put32 : ℕ → ℕ → Cells → Cells
put32 a v c =
    put (put (put (put c a (v % 256)) (a + 1) (v / 256 % 256)) (a + 2) (v / 65536 % 256)) (a + 3)
      (v / 16777216 % 256)

-- `memmove(dip->addrs, ip->addrs, sizeof(ip->addrs))`, `n` words from word `i` on
unfoldable pub store_addrs : ℕ → ℕ → ℕ → Cells → Cells → Cells
store_addrs zero i a addrs c = c
store_addrs (suc n) i a addrs c = store_addrs n (i + 1) a addrs (put32 (a + 4 * i) (addrs i) c)

-- the assignments of `iupdate` to the `struct dinode` at byte `a`
unfoldable pub store_inode : ℕ → Inode → Cells → Cells
store_inode a ip c = store_addrs (n_direct + 1) 0 (a + 12) ip.addrs (
    put32 (a + 8) ip.size (
      put16 (a + 6) ip.nlink (put16 (a + 4) ip.minor (put16 (a + 2) ip.major (put16 a ip.type c)))))

unfoldable pub iupdate : Superblock → Inode → Disk → Disk
iupdate sb ip d =
    let b = inode_block sb ip.inum in
    write_block b (store_inode (inode_place ip.inum) ip (d.block b)) d

-- the assignments of `ilock` from the `struct dinode` at byte `a`
unfoldable pub load_inode : ℕ → Cells → Inode → Inode
load_inode a c ip = record ip {
  type = get16 c a;
  major = get16 c (a + 2);
  minor = get16 c (a + 4);
  nlink = get16 c (a + 6);
  size = get32 c (a + 8);
  addrs = λ i. if ltb i (n_direct + 1) then get32 c (a + 12 + 4 * i) else ip.addrs i;
  valid = true;
}

-- `ilock` once it holds the lock; `none` is a panic.
unfoldable pub ilock : Superblock → Inode → Disk → Option Inode
ilock sb ip d =
    let read = load_inode (inode_place ip.inum) (d.block (inode_block sb ip.inum)) ip in
    if slt ip.ref 1
    then none
    else if ip.valid
    then some ip
    else if read.type == 0
    then none
    else some read
