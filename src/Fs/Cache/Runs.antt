-- ===== src/Fs/Cache/Runs.antt =====
-- Runs of `iget`, `idup` and `iput` on the inode cache.
use os_ca.Common.{
  ℕ, zero, suc, ◌+◌, ◌<◌, ◌≡◌, refl, ◌&&◌, true, slt, add32, sub32, half_word, Option, none, some,
  ◌>>=◌, ◌==◌, if_cases, subst,
}
use os_ca.Fs.{Superblock, Disk}
use os_ca.Fs.Blocks.{bfree}
use os_ca.Fs.Inodes.{Inode, n_direct, n_indirect}
use os_ca.Fs.Content.{free_direct, free_entries, free_indirect, itrunc}
use os_ca.Fs.Cache.{Entries, iget, idup, iput, free_inode, drop_ref}
use os_ca.Fs.Cache.Once.{IsOnce, put_inode-IsOnce, iget-Got}

-- A result that is for the inode `ip` still, with as many references.
abbrev SameInode : Inode → Option (Inode × Disk) → Type 0
SameInode ip none = Unit {0}
SameInode ip (some (q, d)) = (q.dev ≡ ip.dev) × (q.inum ≡ ip.inum) × (q.ref ≡ ip.ref)

bind-SameInode :
    {A : Type 0} (ip : Inode) (m : Option A) (f : A → Option (Inode × Disk))
    → ((a : A) → SameInode ip (f a))
    → SameInode ip (m >>= f)
bind-SameInode ip none f h = tt
bind-SameInode ip (some a) f h = h a

then-SameInode :
    (ip : Inode) (m : Option (Inode × Disk)) (f : Inode × Disk → Option (Inode × Disk))
    → SameInode ip m
    → ((q : Inode × Disk) → SameInode ip (some q) → SameInode ip (f q))
    → SameInode ip (m >>= f)
then-SameInode ip none f s h = tt
then-SameInode ip (some q) f s h = h q s

free_direct-SameInode :
    (n i : ℕ) (sb : Superblock) (q ip : Inode) (d : Disk)
    → (q.dev ≡ ip.dev) × (q.inum ≡ ip.inum) × (q.ref ≡ ip.ref)
    → SameInode ip (free_direct n i sb q d)
unfolding free_direct
free_direct-SameInode zero i sb q ip d s = s
free_direct-SameInode (suc n) i sb q ip d s =
    if_cases (SameInode ip) (q.addrs i == 0) _ _ (λ _. free_direct-SameInode n (i + 1) sb q ip d s)
      (λ _.
        bind-SameInode ip (bfree (q.addrs i) sb d) _
          (λ d'. free_direct-SameInode n (i + 1) sb _ ip d' s))

free_indirect-SameInode :
    (sb : Superblock) (ip : Inode) (q : Inode × Disk)
    → SameInode ip (some q)
    → SameInode ip (free_indirect sb q)
unfolding free_indirect
free_indirect-SameInode sb ip (q, d) s =
    if_cases (SameInode ip) (q.addrs n_direct == 0) _ _ (λ _. s)
      (λ _.
        bind-SameInode ip (free_entries n_indirect 0 sb (d.block (q.addrs n_direct)) d) _
          (λ d'. bind-SameInode ip (bfree (q.addrs n_direct) sb d') _ (λ d''. s)))

free_inode-SameInode : (sb : Superblock) (ip : Inode) (d : Disk) → SameInode ip (free_inode sb ip d)
unfolding free_inode itrunc
free_inode-SameInode sb ip d =
    then-SameInode ip (itrunc sb ip d) _
      (then-SameInode ip (free_direct n_direct 0 sb ip d) _
        (free_direct-SameInode n_direct 0 sb ip ip d (refl, refl, refl))
        (λ q s.
          then-SameInode ip (free_indirect sb q) _ (free_indirect-SameInode sb ip q s)
            (λ r s'. s')))
      (λ q s. s)

-- The entries that a step may leave, where it does not panic.
abbrev Leaves : (Entries → Type 0) → Option (Entries × Disk) → Type 0
Leaves P none = Unit {0}
Leaves P (some (t, d)) = P t

drop_ref-IsOnce :
    (i : ℕ) (t : Entries) (m : Option (Inode × Disk))
    → slt 0 (t i).ref ≡ true
    → SameInode (t i) m
    → IsOnce t
    → Leaves IsOnce (m >>= λ (q : Inode × Disk). some (drop_ref i t q))
unfolding drop_ref
drop_ref-IsOnce i t none pos s h = tt
drop_ref-IsOnce i t (some (q, d)) pos (sd, si, sr) h =
    put_inode-IsOnce i (record q { ref = sub32 q.ref 1 }) t (λ r. (pos, sd, si)) h

iput-IsOnce :
    (sb : Superblock) (i : ℕ) (t : Entries) (d : Disk)
    → slt 0 (t i).ref ≡ true
    → IsOnce t
    → Leaves IsOnce (iput sb i t d)
unfolding iput
iput-IsOnce sb i t d pos h =
    if_cases (Leaves IsOnce) ((t i).valid && (t i).nlink == 0 && (t i).ref == 1) _ _
      (λ _. drop_ref-IsOnce i t (free_inode sb (t i) d) pos (free_inode-SameInode sb (t i) d) h)
      (λ _. drop_ref-IsOnce i t (some (t i, d)) pos (refl, refl, refl) h)

-- What may happen to the cache: `idup` and `iput` are called with a reference in hand, so that the count
-- is positive, and no count grows beyond the largest `int`.
pub data Step (sb : Superblock) (t : Entries) : Entries → Type 0 where
  gets :
      (dev inum k : ℕ) {t' : Entries}
      → iget dev inum t ≡ some (k, t')
      → (t k).ref + 1 < half_word
      → Step sb t t'
  dups : (i : ℕ) → slt 0 (t i).ref ≡ true → (t i).ref + 1 < half_word → Step sb t (idup i t)
  puts :
      (i : ℕ) (d d' : Disk) {t' : Entries}
      → slt 0 (t i).ref ≡ true
      → iput sb i t d ≡ some (t', d')
      → Step sb t t'

pub data Reach (sb : Superblock) (t : Entries) : Entries → Type 0 where
  here : Reach sb t t
  next : {u v : Entries} → Reach sb t u → Step sb u v → Reach sb t v

Step-IsOnce : (sb : Superblock) {t t' : Entries} → Step sb t t' → IsOnce t → IsOnce t'
unfolding idup
Step-IsOnce sb {t} (gets dev inum k {t'} e small) h = (iget-Got dev inum t k t' h e small).once
Step-IsOnce sb {t} (dups i pos small) h =
    put_inode-IsOnce i (record (t i) { ref = add32 (t i).ref 1 }) t (λ _. (pos, refl, refl)) h
Step-IsOnce sb {t} (puts i d d' {t'} pos e) h = subst (Leaves IsOnce) e (iput-IsOnce sb i t d pos h)

-- From a cache without duplicates, every run of `iget`, `idup` and `iput` leads to one, no inode ever
-- having two entries in use, as long as `idup` and `iput` are for entries with a positive count and no
-- count grows beyond 2^31 - 1.
pub Reach-IsOnce : (sb : Superblock) {t t' : Entries} → IsOnce t → Reach sb t t' → IsOnce t'
Reach-IsOnce sb h here = h
Reach-IsOnce sb h (next r s) = Step-IsOnce sb s (Reach-IsOnce sb h r)
