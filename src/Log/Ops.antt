-- ===== src/Log/Ops.antt =====
-- `begin_op`, `end_op` and `log_write`: who may write, and how much.
use os_ca.Common.{
  ℕ, zero, suc, ◌+◌, ◌*◌, Bool, true, false, ◌||◌, Cells, put, leb, ◌==◌, if◌then◌else◌, Option,
  none, some, slt, add32, sub32, word, ◌%◌,
}
use os_ca.Log.{Device, Log, max_op_blocks, log_size, commit}

-- One round of the `while (1)` of `begin_op`: `none` where the caller sleeps on the log.
unfoldable pub begin_op : Log → Option Log
begin_op l =
    if l.committing
    then none
    else if slt log_size (add32 l.n (add32 l.outstanding 1 * max_op_blocks % word))
    then none
    else some (record l { outstanding = add32 l.outstanding 1 })

-- The first critical section of `end_op`: `none` is its panic, and the flag is `do_commit`.
unfoldable pub leave_op : Log → Option (Log × Bool)
leave_op l =
    let left = sub32 l.outstanding 1 in
    if l.committing
    then none
    else if left == 0
    then some (record l { outstanding = left; committing = true }, true)
    else some (record l { outstanding = left }, false)

-- The commit behind it, when it is the last operation.
unfoldable pub finish_op : Option (Log × Bool) → Device → Option (Log × Device)
finish_op none d = none
finish_op (some (l, false)) d = some (l, d)
finish_op (some (l, true)) d =
    let (l', d') = commit l d in some (record l' { committing = false }, d')

unfoldable pub end_op : Log → Device → Option (Log × Device)
end_op l d = finish_op (leave_op l) d

-- The loop of `log_write` from index `i` on: the first of the `n` last entries that is `b`.
unfoldable pub find_slot : ℕ → ℕ → Cells → ℕ → ℕ
find_slot zero i block b = i
find_slot (suc n) i block b =
    let later = find_slot n (i + 1) block b in if block i == b then i else later

unfoldable pub absorb : ℕ → Log → Log
absorb b l =
    let i = find_slot l.n 0 l.block b in
    record l { block = put l.block i b; n = if i == l.n then l.n + 1 else l.n }

-- `none` is a panic. The `B_DIRTY` flag keeps the buffer in the cache until the commit.
unfoldable pub log_write : ℕ → Log → Option Log
log_write b l =
    if leb log_size l.n || leb l.size (l.n + 1)
    then none
    else if slt l.outstanding 1
    then none
    else some (absorb b l)
