-- ===== src/Bcache/Tests.antt =====
-- Runs of the buffer cache, and its theorems at concrete states.
use os_ca.Common.{ℕ, ◌≡◌, refl, false, Option, none, some, arith, Cells}
use os_ca.Bcache.{
  n_buf, Buf, Bcache, binit, binit_from, bread, bget, claim, take_buf, find_cached, find_unused_buf,
  find_along, is_cached, is_unused, recycle, set_buf, push_front, unlink, lock_buf, with_lock,
  acquiresleep, holdingsleep, read_fetched, fill_buf, iderw, brelse, drop_buf, Fetch, locked_buf,
}
use os_ca.Bcache.Sound.{IsSound, cache_of}
use os_ca.Bcache.Runs.{Reach, here, next_step, reads, releases, Reach-IsSound}

abbrev blank_buf : Buf
blank_buf = record {
  valid = false;
  dirty = false;
  dev = 0;
  blockno = 0;
  lock = record { locked = false; pid = 0 };
  refcnt = 0;
  contents = λ a. 0;
}

abbrev zeroed : Bcache
zeroed = record { buf = λ i. blank_buf; next = λ i. 0; prev = λ i. 0 }

-- Each block holds its number.
abbrev disk : ℕ → Cells
disk b a = b

-- The state and the buffer that a fetch gives, for the runs below.
abbrev cache_or : Option (Fetch × (ℕ → Cells)) → Bcache → Bcache
cache_or (some (f, d)) s = cache_of f
cache_or none s = s

-- Process 4 reads block 7 of device 1.
abbrev after_read : Bcache
after_read = cache_or (bread 4 100 1 7 (binit zeroed) disk) zeroed

read-fetches : bread 4 100 1 7 (binit zeroed) disk ≡ some (locked_buf 0 after_read, disk)
unfolding binit binit_from bread bget claim take_buf find_cached find_unused_buf find_along
    is_cached is_unused recycle set_buf push_front lock_buf with_lock acquiresleep holdingsleep
    read_fetched fill_buf iderw
read-fetches = refl

-- It got buffer 0, the last one of the list.
read-contents : (after_read.buf 0).contents 5 ≡ 7
unfolding binit binit_from bread bget claim take_buf find_cached find_unused_buf find_along
    is_cached is_unused recycle set_buf push_front lock_buf with_lock acquiresleep holdingsleep
    read_fetched fill_buf iderw
read-contents = refl

abbrev after_release : Bcache
after_release = elim (brelse 4 0 after_read) [ some t ↦ t | none ↦ after_read ]

release-returns : brelse 4 0 after_read ≡ some after_release
unfolding binit binit_from bread bget claim take_buf find_cached find_unused_buf find_along
    is_cached is_unused recycle set_buf push_front unlink lock_buf with_lock acquiresleep
    holdingsleep read_fetched fill_buf iderw brelse drop_buf
release-returns = refl

two-steps : Reach (binit zeroed) after_release
two-steps =
    next_step (next_step here (reads 4 100 1 7 disk disk read-fetches))
      (releases 4 0 (omega arith) release-returns)

Reach-IsSound_example : IsSound after_release
Reach-IsSound_example = Reach-IsSound zeroed (λ j. refl) two-steps

-- Released buffers stand in front.
release-front : after_release.next n_buf ≡ 0
unfolding binit binit_from bread bget claim take_buf find_cached find_unused_buf find_along
    is_cached is_unused recycle set_buf push_front unlink lock_buf with_lock acquiresleep
    holdingsleep read_fetched fill_buf iderw brelse drop_buf
release-front = refl
