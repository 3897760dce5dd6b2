-- ===== src/Fs/Writes.antt =====
-- A block after a write.
use os_ca.Common.{ℕ, ◌≡◌, ◌≢◌, true, false, ◌==◌, Cells, arith}
use os_ca.Fs.{Disk, write_block}

module _ (b : ℕ) (v : Cells) (d : Disk) where
  pub write_block_self : (write_block b v d).block b ≡ v
  unfolding write_block
  write_block_self = let here : (b == b) ≡ true = ground arith in rw here

  pub write_block_ne : (a : ℕ) → a ≢ b → (write_block b v d).block a ≡ d.block a
  unfolding write_block
  write_block_ne a h = let other : (a == b) ≡ false = ground arith in rw other
