-- ===== src/Bcache.antt =====
-- bio.c with memide.c's disk and sleeplock.c: the buffers, the list of them in order of use, and the
-- lock of each. `none` is a panic.
pub mod Chains
pub mod Order
pub mod Once
pub mod Sound
pub mod Runs
mod Tests
use os_ca.Common.{
  ℕ, zero, suc, ◌+◌, Bool, true, false, ◌&&◌, not, Option, none, some, ◌>>=◌, Cells, put, leb, ◌==◌,
  if◌then◌else◌, add32, sub32,
}

-- NBUF
abbrev pub n_buf : ℕ
n_buf = 30

pub record SleepLock : Type 0 where
  pub locked : Bool
  pub pid : ℕ

-- `acquiresleep`, by process `pid`; `none` is the sleep, behind which the caller tries again.
unfoldable pub acquiresleep : ℕ → SleepLock → Option SleepLock
acquiresleep pid lk = if lk.locked then none else some (record { locked = true; pid = pid })

unfoldable pub releasesleep : SleepLock → SleepLock
releasesleep lk = record { locked = false; pid = 0 }

unfoldable pub holdingsleep : ℕ → SleepLock → Bool
holdingsleep pid lk = lk.locked && lk.pid == pid

-- `struct buf`, without the links, `contents` for `data`: B_VALID and B_DIRTY are the two flags.
pub record Buf : Type 0 where
  pub valid : Bool
  pub dirty : Bool
  pub dev : ℕ
  pub blockno : ℕ
  pub lock : SleepLock
  pub refcnt : ℕ
  pub contents : Cells

-- The buffers by number, and their links; `n_buf` is the number of `bcache.head`.
pub record Bcache : Type 0 where
  pub buf : ℕ → Buf
  pub next : Cells
  pub prev : Cells

unfoldable pub set_buf : ℕ → Buf → Bcache → Bcache
set_buf b v s = record s { buf = λ i. if i == b then v else s.buf i }

-- The insertion behind the head, in `binit` and `brelse`.
unfoldable pub push_front : ℕ → Bcache → Bcache
push_front b s =
    let first = s.next n_buf in
    record s { next = put (put s.next b first) n_buf b; prev = put (put s.prev b n_buf) first b }

-- `b->next->prev = b->prev; b->prev->next = b->next;`
unfoldable pub unlink : ℕ → Bcache → Bcache
unlink b s = record s {
  next = put s.next (s.prev b) (s.next b);
  prev = put s.prev (s.next b) (s.prev b);
}

-- The loop of `binit`, `n` rounds from buffer `b` on.
unfoldable pub binit_from : ℕ → ℕ → Bcache → Bcache
binit_from zero b s = s
binit_from (suc n) b s =
    let lock_free = record (s.buf b) { lock = record { locked = false; pid = 0 } } in
    binit_from n (suc b) (push_front b (set_buf b lock_free s))

unfoldable pub binit : Bcache → Bcache
binit s =
    binit_from n_buf 0 (record s { next = put s.next n_buf n_buf; prev = put s.prev n_buf n_buf })

-- A loop over the list along `links` from `b` on, up to the head, for the first buffer that passes.
unfoldable pub find_along : ℕ → (Buf → Bool) → Cells → (ℕ → Buf) → ℕ → Option ℕ
find_along zero passes links buf b = none
find_along (suc n) passes links buf b =
    let rest = find_along n passes links buf (links b) in
    if b == n_buf then none else if passes (buf b) then some b else rest

unfoldable pub is_cached : ℕ → ℕ → Buf → Bool
is_cached dev blockno b = b.dev == dev && b.blockno == blockno

unfoldable pub is_unused : Buf → Bool
is_unused b = b.refcnt == 0 && not b.dirty

-- The two loops of `bget`.
unfoldable pub find_cached : ℕ → ℕ → Bcache → Option ℕ
find_cached dev blockno s =
    find_along (suc n_buf) (is_cached dev blockno) s.next s.buf (s.next n_buf)

unfoldable pub find_unused_buf : Bcache → Option ℕ
find_unused_buf s = find_along (suc n_buf) is_unused s.prev s.buf (s.prev n_buf)

-- What happens to the buffer that they find.
unfoldable pub share_buf : ℕ → Bcache → Bcache
share_buf b s = set_buf b (record (s.buf b) { refcnt = add32 (s.buf b).refcnt 1 }) s

unfoldable pub recycle : ℕ → ℕ → ℕ → Bcache → Bcache
recycle b dev blockno s =
    set_buf b
      (record (s.buf b) { valid = false; dirty = false; dev = dev; blockno = blockno; refcnt = 1 })
      s

-- What follows the two loops, by what they found.
unfoldable pub take_buf : Option ℕ → Option ℕ → ℕ → ℕ → Bcache → Option (ℕ × Bcache)
take_buf (some b) unused dev blockno s = some (b, share_buf b s)
take_buf none (some b) dev blockno s = some (b, recycle b dev blockno s)
take_buf none none dev blockno s = none

-- `bget` up to `acquiresleep`.
unfoldable pub claim : ℕ → ℕ → Bcache → Option (ℕ × Bcache)
claim dev blockno s = take_buf (find_cached dev blockno s) (find_unused_buf s) dev blockno s

-- The buffer, locked or with the caller asleep for its lock.
pub data Fetch : Type 0 where
  locked_buf : ℕ → Bcache → Fetch
  waits_for : ℕ → Bcache → Fetch

unfoldable pub with_lock : ℕ → Bcache → Option SleepLock → Fetch
with_lock b s none = waits_for b s
with_lock b s (some lk) = locked_buf b (set_buf b (record (s.buf b) { lock = lk }) s)

-- `acquiresleep` in `bget`, for the first time or behind a sleep.
unfoldable pub lock_buf : ℕ → ℕ → Bcache → Fetch
lock_buf pid b s = with_lock b s (acquiresleep pid (s.buf b).lock)

unfoldable pub bget : ℕ → ℕ → ℕ → Bcache → Option Fetch
bget pid dev blockno s = claim dev blockno s >>= λ (q : ℕ × Bcache). some (lock_buf pid q.0 q.1)

-- `iderw` of memide.c, with a disk of `disksize` blocks.
unfoldable pub iderw : ℕ → ℕ → Buf → (ℕ → Cells) → Option (Buf × (ℕ → Cells))
iderw pid disksize b disk =
    if not (holdingsleep pid b.lock)
    then none
    else if b.valid && not b.dirty
    then none
    else if not (b.dev == 1)
    then none
    else if leb disksize b.blockno
    then none
    else if b.dirty
    then some (
      record b { valid = true; dirty = false },
      λ i. if i == b.blockno then b.contents else disk i,
    )
    else some (record b { valid = true; contents = disk b.blockno }, disk)

-- What `bread` does with the buffer that it got.
unfoldable pub fill_buf : ℕ → ℕ → ℕ → Bcache → (ℕ → Cells) → Option (Bcache × (ℕ → Cells))
fill_buf pid disksize b s disk =
    if not (s.buf b).valid
    then (iderw pid disksize (s.buf b) disk >>= λ (q : Buf × (ℕ → Cells)).
        some (set_buf b q.0 s, q.1))
    else some (s, disk)

unfoldable pub read_fetched : ℕ → ℕ → (ℕ → Cells) → Fetch → Option (Fetch × (ℕ → Cells))
read_fetched pid disksize disk (waits_for b s) = some (waits_for b s, disk)
read_fetched pid disksize disk (locked_buf b s) =
    fill_buf pid disksize b s disk >>= λ (q : Bcache × (ℕ → Cells)). some (locked_buf b q.0, q.1)

unfoldable pub bread : ℕ → ℕ → ℕ → ℕ → Bcache → (ℕ → Cells) → Option (Fetch × (ℕ → Cells))
bread pid disksize dev blockno s disk = bget pid dev blockno s >>= read_fetched pid disksize disk

unfoldable pub bwrite : ℕ → ℕ → ℕ → Bcache → (ℕ → Cells) → Option (Bcache × (ℕ → Cells))
bwrite pid disksize b s disk =
    if not (holdingsleep pid (s.buf b).lock)
    then none
    else (iderw pid disksize (record (s.buf b) { dirty = true }) disk >>= λ (q : Buf × (ℕ → Cells)).
        some (set_buf b q.0 s, q.1))

-- The part of `brelse` under the lock of the cache.
unfoldable pub drop_buf : ℕ → Bcache → Bcache
drop_buf b s =
    let count = sub32 (s.buf b).refcnt 1 in
    let dropped = set_buf b (record (s.buf b) { refcnt = count }) s in
    if count == 0 then push_front b (unlink b dropped) else dropped

unfoldable pub brelse : ℕ → ℕ → Bcache → Option Bcache
brelse pid b s =
    if not (holdingsleep pid (s.buf b).lock)
    then none
    else some (drop_buf b (set_buf b (record (s.buf b) { lock = releasesleep (s.buf b).lock }) s))
