-- ===== src/Fs/Content/View.antt =====
-- A file as the bytes at its offsets, for the blocks that it has already.
use os_ca.Common.{
  ℕ, ◌-◌, ◌*◌, ◌/◌, ◌%◌, ◌≤◌, ◌<◌, ◌≡◌, ◌≢◌, ◌∙◌, sym, ap, ◌==◌, ltb, if◌then◌else◌, some, Cells,
  arith,
}
use os_ca.Fs.{Superblock, Disk, write_block, block_size}
use os_ca.Fs.Writes.{write_block_self, write_block_ne}
use os_ca.Fs.Inodes.{Inode, n_direct, get32}
use os_ca.Fs.Content.{slot_addr, entry_addr, bmap}

-- The block of the device that holds block `bn` of the file, or 0.
unfoldable pub addr_of : Inode → Disk → ℕ → ℕ
addr_of ip d bn =
    if ltb bn n_direct
    then ip.addrs bn
    else if ip.addrs n_direct == 0
    then 0
    else get32 (d.block (ip.addrs n_direct)) (4 * (bn - n_direct))

-- The byte at an offset of the file.
unfoldable pub content : Inode → Disk → ℕ → ℕ
content ip d o = d.block (addr_of ip d (o / block_size)) (o % block_size)

-- The first `n` blocks of the file are allocated, no two of them are one block, and none is the
-- indirect block.
pub record IsMapped (ip : Inode) (d : Disk) (n : ℕ) : Type 0 where
  pub bound : n ≤ 140
  pub mapped : (bn : ℕ) → bn < n → addr_of ip d bn ≢ 0
  pub apart : (a b : ℕ) → a < n → b < n → addr_of ip d a ≡ addr_of ip d b → a ≡ b
  pub table : (bn : ℕ) → bn < n → addr_of ip d bn ≢ ip.addrs n_direct

-- For a block that is there, `bmap` only finds it.
pub bmap-addr_of :
    (sb : Superblock) (bn : ℕ) (ip : Inode) (d : Disk)
    → bn < 140
    → addr_of ip d bn ≢ 0
    → bmap sb bn ip d ≡ some (addr_of ip d bn, ip, d)
unfolding bmap slot_addr entry_addr addr_of
bmap-addr_of sb bn ip d h ne = ground arith

module _ (ip : Inode) (d : Disk) (n : ℕ) (file : IsMapped ip d n) (bn : ℕ) (lt : bn < n)
    (v : Cells) where
  abbrev after : Disk
  after = write_block (addr_of ip d bn) v d

  -- Writing a block of the file moves none of its blocks.
  pub addr_of-write : (k : ℕ) → addr_of ip after k ≡ addr_of ip d k
  unfolding addr_of
  addr_of-write k =
      let table = file.table bn lt in
      let kept : after.block (ip.addrs n_direct) ≡ d.block (ip.addrs n_direct) =
        write_block_ne (addr_of ip d bn) v d (ip.addrs n_direct) (λ e. table (sym e)) in
      ap
        (λ (c : Cells).
          if ltb k n_direct
          then ip.addrs k
          else if ip.addrs n_direct == 0
          then 0
          else get32 c (4 * (k - n_direct)))
        kept

  pub IsMapped-write : IsMapped ip after n
  IsMapped-write = record {
    bound = file.bound;
    mapped = λ k h e. file.mapped k h (sym (addr_of-write k) ∙ e);
    apart = λ a b ha hb e. file.apart a b ha hb (sym (addr_of-write a) ∙ e ∙ addr_of-write b);
    table = λ k h e. file.table k h (sym (addr_of-write k) ∙ e);
  }

  -- The content changes at that block alone.
  pub content-write_in : (o : ℕ) → o / block_size ≡ bn → content ip after o ≡ v (o % block_size)
  unfolding content
  content-write_in o e =
      ap (λ a. after.block a (o % block_size))
        (addr_of-write (o / block_size) ∙ ap (addr_of ip d) e)
      ∙ ap (λ (c : Cells). c (o % block_size)) (write_block_self (addr_of ip d bn) v d)

  pub content-write_out :
      (o : ℕ) → o / block_size < n → o / block_size ≢ bn → content ip after o ≡ content ip d o
  unfolding content
  content-write_out o h ne =
      ap (λ a. after.block a (o % block_size)) (addr_of-write (o / block_size))
      ∙ ap (λ (c : Cells). c (o % block_size))
          (write_block_ne (addr_of ip d bn) v d (addr_of ip d (o / block_size))
            (λ e. ne (file.apart (o / block_size) bn h lt e)))
