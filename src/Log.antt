-- ===== src/Log.antt =====
-- log.c: the redo log over the disk. The buffer cache is what `bread` gives for each block of the
-- log's device, and a power failure is a number of block writes after which no more reach the disk.
pub mod Recovery
pub mod Replay
pub mod Crash
pub mod Ops
mod Tests
pub mod Reserve
pub mod Space
use os_ca.Common.{
  ℕ, zero, suc, ◌+◌, ◌-◌, ◌*◌, ◌≤◌, ◌<◌, Bool, true, false, ◌||◌, Cells, put, ltb, leb, ◌==◌,
  if◌then◌else◌,
}

-- `buffer b` is what `bread(dev, b)` gives, `disk b` what the disk holds, both by 32-bit words, and
-- `writes_left` the block writes that still reach the disk.
pub record Device : Type 0 where
  pub buffer : ℕ → Cells
  pub disk : ℕ → Cells
  pub writes_left : ℕ

-- `struct log` with its `lh`: `n` is `lh.n` and `block` is `lh.block`.
pub record Log : Type 0 where
  pub start : ℕ
  pub size : ℕ
  pub outstanding : ℕ
  pub committing : Bool
  pub n : ℕ
  pub block : Cells

-- MAXOPBLOCKS and LOGSIZE
abbrev pub max_op_blocks : ℕ
max_op_blocks = 10

abbrev pub log_size : ℕ
log_size = 30

abbrev pub at_block : (ℕ → Cells) → ℕ → Cells → ℕ → Cells
at_block d b v a = if a == b then v else d a

-- a change of the buffer's data
unfoldable pub set_buffer : ℕ → Cells → Device → Device
set_buffer b v d = record d { buffer = at_block d.buffer b v }

unfoldable pub bwrite : ℕ → Device → Device
bwrite b d =
    if d.writes_left == 0
    then d
    else record d { disk = at_block d.disk b (d.buffer b); writes_left = d.writes_left - 1 }

-- The `n` last rounds of `install_trans`, from `tail` on.
unfoldable pub install_from : ℕ → ℕ → Log → Device → Device
install_from zero tail l d = d
install_from (suc n) tail l d =
    let copied = set_buffer (l.block tail) (d.buffer (l.start + tail + 1)) d in
    install_from n (tail + 1) l (bwrite (l.block tail) copied)

unfoldable pub install_trans : Log → Device → Device
install_trans l d = install_from l.n 0 l d

-- The header in a block: word 0 is `n`, and word 1 + i is `block[i]`.
unfoldable pub read_head : Log → Device → Log
read_head l d =
    let h = d.buffer l.start in
    record l { n = h 0; block = λ i. if ltb i (h 0) then h (i + 1) else l.block i }

unfoldable pub header : Log → Cells → Cells
header l old i = if i == 0 then l.n else if leb i l.n then l.block (i - 1) else old i

unfoldable pub write_head : Log → Device → Device
write_head l d = bwrite l.start (set_buffer l.start (header l (d.buffer l.start)) d)

unfoldable pub recover_from_log : Log → Device → Log × Device
recover_from_log l d =
    let l' = read_head l d in
    let cleared = record l' { n = 0 } in (cleared, write_head cleared (install_trans l' d))

-- The `n` last rounds of `write_log`, from `tail` on.
unfoldable pub write_log_from : ℕ → ℕ → Log → Device → Device
write_log_from zero tail l d = d
write_log_from (suc n) tail l d =
    let copied = set_buffer (l.start + tail + 1) (d.buffer (l.block tail)) d in
    write_log_from n (tail + 1) l (bwrite (l.start + tail + 1) copied)

unfoldable pub write_log : Log → Device → Device
write_log l d = write_log_from l.n 0 l d

unfoldable pub commit : Log → Device → Log × Device
commit l d =
    let cleared = record l { n = 0 } in
    if ltb 0 l.n
    then (cleared, write_head cleared (install_trans l (write_head l (write_log l d))))
    else (l, d)

-- `sb.logstart` and `sb.nlog` of the superblock, then the recovery.
unfoldable pub initlog : ℕ → ℕ → Log → Device → Log × Device
initlog logstart nlog l d = recover_from_log (record l { start = logstart; size = nlog }) d
