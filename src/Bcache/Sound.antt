-- ===== src/Bcache/Sound.antt =====
-- Each operation keeps the list one of all buffers, and the block of a buffer its own.
use os_ca.Common.{
  ℕ, ◌<◌, ◌≡◌, refl, ◌∙◌, ◌&&◌, not, Option, none, some, ◌>>=◌, List, ◌∷◌, ◌++◌, Cells, sub32, leb,
  if_cases, ◌==◌,
}
use os_ca.Bcache.{
  n_buf, SleepLock, holdingsleep, Buf, Bcache, set_buf, claim, drop_buf, push_front, unlink, Fetch,
  locked_buf, waits_for, with_lock, lock_buf, bget, iderw, fill_buf, read_fetched, bread, bwrite,
  brelse,
}
use os_ca.Bcache.Order.{
  IsOrdered, Stands, between, Holds-Stands, set_buf-IsOrdered, to_front-IsOrdered,
}
use os_ca.Bcache.Once.{IsOnce, set_buf-IsOnce, Claimed, panics, claims, claim-Claimed}

-- The links run through all buffers, and no block has two of them.
pub record IsSound (s : Bcache) : Type 0 where
  pub order : List ℕ
  pub ordered : IsOrdered s order
  pub once : IsOnce s.buf

pub set_buf-IsSound :
    (s : Bcache) (b : ℕ) (v : Buf)
    → v.dev ≡ (s.buf b).dev
    → v.blockno ≡ (s.buf b).blockno
    → IsSound s
    → IsSound (set_buf b v s)
set_buf-IsSound s b v d n h = record {
  order = h.order;
  ordered = set_buf-IsOrdered s b v h.order h.ordered;
  once = set_buf-IsOnce s b v d n h.once;
}

-- The cache behind a `bget`.
abbrev pub cache_of : Fetch → Bcache
cache_of (locked_buf b s) = s
cache_of (waits_for b s) = s

-- What an operation leaves, where it does not panic.
abbrev pub After : {A : Type 0} → (A → Type 0) → Option A → Type 0
After P none = Unit {0}
After P (some a) = P a

bind-After :
    {A B : Type 0} (P : A → Type 0) (Q : B → Type 0) (m : Option A) (f : A → Option B)
    → After P m
    → ((a : A) → P a → After Q (f a))
    → After Q (m >>= f)
bind-After P Q none f p h = tt
bind-After P Q (some a) f p h = h a p

pub with_lock-IsSound :
    (b : ℕ) (s : Bcache) (o : Option SleepLock) → IsSound s → IsSound (cache_of (with_lock b s o))
unfolding with_lock
with_lock-IsSound b s none h = h
with_lock-IsSound b s (some lk) h = set_buf-IsSound s b _ refl refl h

Claimed-After :
    (s : Bcache) (xs : List ℕ) (m : Option (ℕ × Bcache))
    → Claimed s xs m
    → After (λ (q : ℕ × Bcache). IsSound q.1) m
Claimed-After s xs _ panics = tt
Claimed-After s xs _ (claims b t o h) = record { order = xs; ordered = o; once = h }

bget-IsSound :
    (pid dev blockno : ℕ) (s : Bcache)
    → IsSound s
    → After (λ f. IsSound (cache_of f)) (bget pid dev blockno s)
unfolding bget lock_buf
bget-IsSound pid dev blockno s h =
    bind-After (λ (q : ℕ × Bcache). IsSound q.1) (λ f. IsSound (cache_of f)) (claim dev blockno s) _
      (Claimed-After s h.order _ (claim-Claimed s h.order dev blockno h.ordered h.once))
      (λ q hq. with_lock-IsSound q.0 q.1 _ hq)

-- The disk moves contents, and the buffer stays that of its block.
iderw-block :
    (pid disksize : ℕ) (b : Buf) (disk : ℕ → Cells)
    → After
        (λ (q : Buf × (ℕ → Cells)). (q.0.dev ≡ b.dev) × (q.0.blockno ≡ b.blockno))
        (iderw pid disksize b disk)
unfolding iderw
iderw-block pid disksize b disk =
    let Same = After (λ (q : Buf × (ℕ → Cells)). (q.0.dev ≡ b.dev) × (q.0.blockno ≡ b.blockno)) in
    if_cases Same (not (holdingsleep pid b.lock)) _ _ (λ _. tt)
      (λ _.
        if_cases Same (b.valid && not b.dirty) _ _ (λ _. tt)
          (λ _.
            if_cases Same (not (b.dev == 1)) _ _ (λ _. tt)
              (λ _.
                if_cases Same (leb disksize b.blockno) _ _ (λ _. tt)
                  (λ _. if_cases Same b.dirty _ _ (λ _. (refl, refl)) (λ _. (refl, refl))))))

abbrev pub SoundDisk : Bcache × (ℕ → Cells) → Type 0
SoundDisk q = IsSound q.0

-- `iderw` on a buffer whose flags were changed, at the place of the old one.
sync-IsSound :
    (pid disksize b : ℕ) (v : Buf) (s : Bcache) (disk : ℕ → Cells)
    → v.dev ≡ (s.buf b).dev
    → v.blockno ≡ (s.buf b).blockno
    → IsSound s
    → After SoundDisk
        (iderw pid disksize v disk >>= λ (q : Buf × (ℕ → Cells)). some (set_buf b q.0 s, q.1))
sync-IsSound pid disksize b v s disk d n h =
    bind-After _ SoundDisk (iderw pid disksize v disk) _ (iderw-block pid disksize v disk)
      (λ q (qd, qn). set_buf-IsSound s b q.0 (qd ∙ d) (qn ∙ n) h)

pub fill_buf-IsSound :
    (pid disksize b : ℕ) (s : Bcache) (disk : ℕ → Cells)
    → IsSound s
    → After SoundDisk (fill_buf pid disksize b s disk)
unfolding fill_buf
fill_buf-IsSound pid disksize b s disk h =
    if_cases (After SoundDisk) (not (s.buf b).valid) _ _
      (λ _. sync-IsSound pid disksize b (s.buf b) s disk refl refl h) (λ _. h)

read_fetched-IsSound :
    (pid disksize : ℕ) (disk : ℕ → Cells) (f : Fetch)
    → IsSound (cache_of f)
    → After (λ (q : Fetch × (ℕ → Cells)). IsSound (cache_of q.0)) (read_fetched pid disksize disk f)
unfolding read_fetched
read_fetched-IsSound pid disksize disk (waits_for b s) h = h
read_fetched-IsSound pid disksize disk (locked_buf b s) h =
    bind-After SoundDisk _ (fill_buf pid disksize b s disk) _
      (fill_buf-IsSound pid disksize b s disk h) (λ q hq. hq)

pub bread-IsSound :
    (pid disksize dev blockno : ℕ) (s : Bcache) (disk : ℕ → Cells)
    → IsSound s
    → After
        (λ (q : Fetch × (ℕ → Cells)). IsSound (cache_of q.0))
        (bread pid disksize dev blockno s disk)
unfolding bread
bread-IsSound pid disksize dev blockno s disk h =
    bind-After (λ f. IsSound (cache_of f)) _ (bget pid dev blockno s) _
      (bget-IsSound pid dev blockno s h) (λ f hf. read_fetched-IsSound pid disksize disk f hf)

pub bwrite-IsSound :
    (pid disksize b : ℕ) (s : Bcache) (disk : ℕ → Cells)
    → IsSound s
    → After SoundDisk (bwrite pid disksize b s disk)
unfolding bwrite
bwrite-IsSound pid disksize b s disk h =
    if_cases (After SoundDisk) (not (holdingsleep pid (s.buf b).lock)) _ _ (λ _. tt)
      (λ _. sync-IsSound pid disksize b _ s disk refl refl h)

to_front-IsSound :
    (s : Bcache) (b : ℕ) (xs : List ℕ)
    → Stands b xs
    → IsOrdered s xs
    → IsOnce s.buf
    → IsSound (push_front b (unlink b s))
unfolding push_front unlink
to_front-IsSound s b _ (between l r) o h = record {
  order = b ∷ (l ++ r);
  ordered = to_front-IsOrdered s b l r o;
  once = record { once = h.once };
}

drop_buf-IsSound : (b : ℕ) (s : Bcache) → b < n_buf → IsSound s → IsSound (drop_buf b s)
unfolding drop_buf
drop_buf-IsSound b s lt h =
    let fewer = record (s.buf b) { refcnt = sub32 (s.buf b).refcnt 1 } in
    let same = set_buf-IsSound s b fewer refl refl h in
    if_cases IsSound (sub32 (s.buf b).refcnt 1 == 0) _ _
      (λ _.
        to_front-IsSound (set_buf b fewer s) b same.order
          (Holds-Stands b same.order (same.ordered.has_all b lt)) same.ordered same.once)
      (λ _. same)

pub brelse-IsSound :
    (pid b : ℕ) (s : Bcache) → b < n_buf → IsSound s → After IsSound (brelse pid b s)
unfolding brelse
brelse-IsSound pid b s lt h =
    if_cases (After IsSound) (not (holdingsleep pid (s.buf b).lock)) _ _ (λ _. tt)
      (λ _. drop_buf-IsSound b _ lt (set_buf-IsSound s b _ refl refl h))
