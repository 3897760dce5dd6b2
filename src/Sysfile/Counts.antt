-- ===== src/Sysfile/Counts.antt =====
-- The references to the open files, counted over the descriptors of a process.
pub mod Runs
pub mod Kept
pub mod Owed
pub mod Piped
pub mod Reach
use os_ca.Common.{
  ℕ, zero, suc, ◌+◌, ◌-◌, ◌≤◌, ◌<◌, ◌≡◌, ◌≢◌, refl, ◌∙◌, sym, ap, Bool, true, false, Bool-cases,
  inl, inr, Option, none, some, ◌>>=◌, if◌then◌else◌, if_cases, ltb, slt, ◌==◌, arith, add32, sub32,
  half_word, word, not, subst,
}
use os_ca.File.{File, Files, FileType, fd_none, put_file, filealloc, filedup, drop_ref, nfile}
use os_ca.File.Refs.{Alloc, taken, full, filealloc-Alloc}
use os_ca.Sysfile.{nofile, Descriptors, set_fd, pick_fd, is_free, fdalloc_from, fdalloc}

-- Whether a descriptor names the file, as a number.
abbrev pub names : Option ℕ → ℕ → ℕ
names none f = 0
names (some g) f = if g == f then 1 else 0

-- How many of the first `n` descriptors do.
unfoldable pub count : ℕ → Descriptors → ℕ → ℕ
count zero t f = 0
count (suc n) t f = names (t n) f + count n t f

names-le : (o : Option ℕ) (f : ℕ) → names o f ≤ 1
names-le none f = omega arith
names-le (some g) f = ground arith

pub count-le : (n : ℕ) (t : Descriptors) (f : ℕ) → count n t f ≤ n
unfolding count
count-le zero t f = omega arith
count-le (suc n) t f = omega (arith, count-le n t f, names-le (t n) f)

pub count_one : (n fd : ℕ) (t : Descriptors) (f : ℕ) → fd < n → t fd ≡ some f → 1 ≤ count n t f
unfolding count
count_one zero fd t f lt e = absurd (omega arith)
count_one (suc n) fd t f lt e = elim (Bool-cases (fd == n)) [
  | inl here ↦
      let same : fd ≡ n = ground arith in
      let named : names (t n) f ≡ 1 =
        ap (λ i. names (t i) f) (sym same) ∙ ap (λ o. names o f) e ∙ ground arith in
      omega (arith, named)
  | inr there ↦
      let ne : fd ≢ n = ground arith in omega (arith, count_one n fd t f (omega (arith, ne)) e)
]

pub set_fd_self : (fd : ℕ) (o : Option ℕ) (t : Descriptors) → set_fd fd o t fd ≡ o
unfolding set_fd
set_fd_self fd o t = ground arith

set_fd_ne : (fd j : ℕ) (o : Option ℕ) (t : Descriptors) → j ≢ fd → set_fd fd o t j ≡ t j
unfolding set_fd
set_fd_ne fd j o t ne = let other : (j == fd) ≡ false = ground arith in rw other refl

count-outside :
    (n fd : ℕ) (o : Option ℕ) (t : Descriptors) (f : ℕ)
    → n ≤ fd
    → count n (set_fd fd o t) f ≡ count n t f
unfolding count
count-outside zero fd o t f le = refl
count-outside (suc n) fd o t f le =
    ap (λ q. names q f + count n (set_fd fd o t) f) (set_fd_ne fd n o t (λ e. omega (arith, e)))
    ∙ ap (λ c. names (t n) f + c) (count-outside n fd o t f (omega arith))

-- A change of one descriptor.
pub count-set_fd :
    (n fd : ℕ) (o : Option ℕ) (t : Descriptors) (f : ℕ)
    → fd < n
    → count n (set_fd fd o t) f + names (t fd) f ≡ count n t f + names o f
unfolding count
count-set_fd zero fd o t f lt = absurd (omega arith)
count-set_fd (suc n) fd o t f lt = elim (Bool-cases (fd == n)) [
  | inl here ↦
      let same : fd ≡ n = ground arith in
      let new : names (set_fd fd o t n) f ≡ names o f =
        ap (λ i. names (set_fd fd o t i) f) (sym same) ∙ ap (λ q. names q f) (set_fd_self fd o t) in
      let old : names (t fd) f ≡ names (t n) f = ap (λ i. names (t i) f) same in
      omega (arith, new, old, count-outside n fd o t f (omega (arith, same)))
  | inr there ↦
      let ne : fd ≢ n = ground arith in
      let kept : names (set_fd fd o t n) f ≡ names (t n) f =
        ap (λ q. names q f) (set_fd_ne fd n o t (λ e. ne (sym e))) in
      omega (arith, kept, count-set_fd n fd o t f (omega (arith, ne)))
]

-- What `fdalloc` gives: the first free descriptor, if there is one.
pub data FdAlloc (n fd f : ℕ) (t : Descriptors) : Option (ℕ × Descriptors) → Type 0 where
  all_used : ((j : ℕ) → fd ≤ j → j < fd + n → is_free (t j) ≡ false) → FdAlloc n fd f t none
  first :
      (k : ℕ) → k < fd + n → is_free (t k) ≡ true → FdAlloc n fd f t (some (k, set_fd k (some f) t))

wider :
    (n fd f : ℕ) (t : Descriptors) (r : Option (ℕ × Descriptors))
    → is_free (t fd) ≡ false
    → FdAlloc n (fd + 1) f t r
    → FdAlloc (suc n) fd f t r
wider n fd f t _ used (first k lt h) = first k (omega arith) h
wider n fd f t _ used (all_used h) = all_used (λ j low high. elim (Bool-cases (j == fd)) [
  | inl e ↦ let same : j ≡ fd = ground arith in ap (λ i. is_free (t i)) same ∙ used
  | inr e ↦ let ne : j ≢ fd = ground arith in h j (omega (arith, ne)) (omega arith)
])

fdalloc_from-FdAlloc : (n fd f : ℕ) (t : Descriptors) → FdAlloc n fd f t (fdalloc_from n fd f t)
unfolding fdalloc_from
fdalloc_from-FdAlloc zero fd f t = all_used (λ j low high. absurd (omega (arith, low, high)))
fdalloc_from-FdAlloc (suc n) fd f t =
    if_cases (FdAlloc (suc n) fd f t) (is_free (t fd)) _ _ (λ h. first fd (omega arith) h)
      (λ h. wider n fd f t _ h (fdalloc_from-FdAlloc n (fd + 1) f t))

pub fdalloc-FdAlloc : (f : ℕ) (t : Descriptors) → FdAlloc nofile 0 f t (fdalloc f t)
unfolding fdalloc
fdalloc-FdAlloc f t = fdalloc_from-FdAlloc nofile 0 f t

-- What `argfd` gives: an open descriptor with its file.
pub data Picked (t : Descriptors) : Option (ℕ × ℕ) → Type 0 where
  bad_fd : Picked t none
  good_fd : (fd f : ℕ) → fd < nofile → t fd ≡ some f → Picked t (some (fd, f))

entry-Picked :
    (t : Descriptors) (fd : ℕ) (o : Option ℕ)
    → fd < nofile
    → t fd ≡ o
    → Picked t (o >>= λ (f : ℕ). some (fd, f))
entry-Picked t fd none lt e = bad_fd
entry-Picked t fd (some f) lt e = good_fd fd f lt e

pub pick_fd-Picked : (t : Descriptors) (fd : ℕ) → fd < word → Picked t (pick_fd t fd)
unfolding pick_fd
pick_fd-Picked t fd lt =
    if_cases (Picked t) (slt fd 0) _ _ (λ _. bad_fd)
      (λ nonneg.
        if_cases (Picked t) (not (slt fd nofile)) _ _ (λ _. bad_fd)
          (λ below. entry-Picked t fd (t fd) (ground arith) refl))
