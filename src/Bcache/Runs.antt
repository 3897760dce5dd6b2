-- ===== src/Bcache/Runs.antt =====
-- Runs of `bread`, `bwrite` and `brelse` from `binit` on.
use os_ca.Common.{ℕ, zero, suc, ◌<◌, ◌≡◌, refl, Bool, some, Cells, arith, subst}
use os_ca.Bcache.{
  n_buf, acquiresleep, Bcache, set_buf, binit, binit_from, push_front, Fetch, lock_buf, fill_buf,
  bread, bwrite, brelse,
}
use os_ca.Bcache.Order.{descending, binit-IsOrdered}
use os_ca.Bcache.Sound.{
  IsSound, After, SoundDisk, cache_of, set_buf-IsSound, with_lock-IsSound, fill_buf-IsSound,
  bread-IsSound, bwrite-IsSound, brelse-IsSound,
}

-- What may happen to the cache. A step that does not panic has a result; a process that `bget` left
-- asleep tries again for the lock, and who has a buffer changes its contents and its B_DIRTY.
pub data Step (s : Bcache) : Bcache → Type 0 where
  reads :
      (pid disksize dev blockno : ℕ) (disk disk' : ℕ → Cells) {f : Fetch}
      → bread pid disksize dev blockno s disk ≡ some (f, disk')
      → Step s (cache_of f)
  wakes : (pid b : ℕ) → Step s (cache_of (lock_buf pid b s))
  fills :
      (pid disksize b : ℕ) (disk disk' : ℕ → Cells) {t : Bcache}
      → fill_buf pid disksize b s disk ≡ some (t, disk')
      → Step s t
  edits :
      (b : ℕ) (new : Cells) (dirt : Bool)
      → Step s (set_buf b (record (s.buf b) { contents = new; dirty = dirt }) s)
  writes :
      (pid disksize b : ℕ) (disk disk' : ℕ → Cells) {t : Bcache}
      → bwrite pid disksize b s disk ≡ some (t, disk')
      → Step s t
  releases : (pid b : ℕ) {t : Bcache} → b < n_buf → brelse pid b s ≡ some t → Step s t

pub data Reach (s : Bcache) : Bcache → Type 0 where
  here : Reach s s
  next_step : {t u : Bcache} → Reach s t → Step t u → Reach s u

Step-IsSound : {s t : Bcache} → Step s t → IsSound s → IsSound t
unfolding lock_buf
Step-IsSound {s} (reads pid disksize dev blockno disk disk' e) h =
    subst (After (λ (q : Fetch × (ℕ → Cells)). IsSound (cache_of q.0))) e
      (bread-IsSound pid disksize dev blockno s disk h)
Step-IsSound {s} (wakes pid b) h = with_lock-IsSound b s (acquiresleep pid (s.buf b).lock) h
Step-IsSound {s} (fills pid disksize b disk disk' e) h =
    subst (After SoundDisk) e (fill_buf-IsSound pid disksize b s disk h)
Step-IsSound {s} (edits b new dirt) h = set_buf-IsSound s b _ refl refl h
Step-IsSound {s} (writes pid disksize b disk disk' e) h =
    subst (After SoundDisk) e (bwrite-IsSound pid disksize b s disk h)
Step-IsSound {s} (releases pid b lt e) h = subst (After IsSound) e (brelse-IsSound pid b s lt h)

binit_from-dev :
    (n b : ℕ) (s : Bcache) (i : ℕ)
    → ((j : ℕ) → (s.buf j).dev ≡ 0)
    → ((binit_from n b s).buf i).dev ≡ 0
unfolding binit_from push_front set_buf
binit_from-dev zero b s i h = h i
binit_from-dev (suc n) b s i h =
    binit_from-dev n (suc b) _ i (λ j. let hb = h b in let hj = h j in ground arith)

binit-IsSound : (s : Bcache) → ((j : ℕ) → (s.buf j).dev ≡ 0) → IsSound (binit s)
unfolding binit
binit-IsSound s h = record {
  order = descending n_buf;
  ordered = binit-IsOrdered s;
  once = record { once = λ i j li lj nz ed en. absurd (nz (binit_from-dev n_buf 0 _ i h)) };
}

Reach-IsSound_from : {s t : Bcache} → IsSound s → Reach s t → IsSound t
Reach-IsSound_from h here = h
Reach-IsSound_from h (next_step r st) = Step-IsSound st (Reach-IsSound_from h r)

-- From `binit` on zeroed buffers, every run of `bread`, `bwrite`, `brelse` and changes of contents
-- leads to a cache whose links run through all buffers, each once, from the head and back to it, and
-- in which no block of a device other than 0 has two buffers.
pub Reach-IsSound :
    (s : Bcache) {t : Bcache} → ((j : ℕ) → (s.buf j).dev ≡ 0) → Reach (binit s) t → IsSound t
Reach-IsSound s h r = Reach-IsSound_from (binit-IsSound s h) r
