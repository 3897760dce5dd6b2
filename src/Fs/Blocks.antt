-- ===== src/Fs/Blocks.antt =====
-- `bzero`, `balloc` and `bfree`.
pub mod Alloc
pub mod FreeMap
use os_ca.Common.{
  ℕ, zero, suc, ◌+◌, ◌-◌, ◌/◌, ◌%◌, Bool, Option, none, some, Cells, put, if◌then◌else◌, min, ltb,
}
use os_ca.Fs.{
  Superblock, Disk, write_block, bits_per_block, bitmap_block, has_bit, set_bit, clear_bit,
  block_size,
}

unfoldable pub bzero : ℕ → Disk → Disk
bzero b d = write_block b (λ a. if ltb a block_size then 0 else d.block b a) d

-- `bp->data[bi/8] |= m` and `&= ~m`, for `m = 1 << (bi % 8)`
unfoldable pub mark : ℕ → Cells → Cells
mark bi c = put c (bi / 8) (set_bit (c (bi / 8)) (bi % 8))

unfoldable pub unmark : ℕ → Cells → Cells
unmark bi c = put c (bi / 8) (clear_bit (c (bi / 8)) (bi % 8))

-- The inner loop of `balloc`, `n` rounds from `bi` on: the first bit that is clear.
unfoldable pub find_clear : ℕ → ℕ → Cells → Option ℕ
find_clear zero bi c = none
find_clear (suc n) bi c =
    let rest = find_clear n (bi + 1) c in if has_bit (c (bi / 8)) (bi % 8) then rest else some bi

-- What follows the inner loop from block `b` on: `next` is the next round.
unfoldable pub take_block : Option ℕ → ℕ → Superblock → Disk → Option (ℕ × Disk) → Option (ℕ × Disk)
take_block none b sb d next = next
take_block (some bi) b sb d next =
    let bm = bitmap_block sb b in
    some (b + bi, bzero (b + bi) (write_block bm (mark bi (d.block bm)) d))

-- The outer loop, `n` rounds from `b` on. `none` is the panic.
unfoldable pub balloc_from : ℕ → ℕ → Superblock → Disk → Option (ℕ × Disk)
balloc_from zero b sb d = none
balloc_from (suc n) b sb d =
    take_block (find_clear (min bits_per_block (sb.size - b)) 0 (d.block (bitmap_block sb b))) b sb
      d (balloc_from n (b + bits_per_block) sb d)

-- `b < sb.size` holds for that many rounds.
unfoldable pub balloc : Superblock → Disk → Option (ℕ × Disk)
balloc sb d = balloc_from ((sb.size + 4095) / bits_per_block) 0 sb d

unfoldable pub bfree : ℕ → Superblock → Disk → Option Disk
bfree b sb d =
    let bm = bitmap_block sb b in
    let bi = b % bits_per_block in
    if has_bit (d.block bm (bi / 8)) (bi % 8)
    then some (write_block bm (unmark bi (d.block bm)) d)
    else none
