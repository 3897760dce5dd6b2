-- ===== src/File/Refs.antt =====
-- The reference counts.
use os_ca.Common.{
  ℕ, zero, suc, ◌+◌, ◌≤◌, ◌<◌, ◌≡◌, ◌≢◌, ◌∙◌, true, false, Option, none, some, ◌==◌, if_cases,
  arith, half_word, slt, add32, sub32, ap,
}
use os_ca.File.{File, Files, nfile, put_file, filealloc_from, filealloc, filedup, drop_ref}

-- What a search of `n` slots from `i` on gives.
pub data Alloc (n i : ℕ) (t : Files) : Option ℕ × Files → Type 0 where
  taken :
      (k : ℕ)
      → i ≤ k
      → k < i + n
      → (t k).ref ≡ 0
      → ((j : ℕ) → i ≤ j → j < k → (t j).ref ≢ 0)
      → Alloc n i t (some k, put_file k (record (t k) { ref = 1 }) t)
  full : ((j : ℕ) → i ≤ j → j < i + n → (t j).ref ≢ 0) → Alloc n i t (none, t)

wider :
    (n i : ℕ) (t : Files) (r : Option ℕ × Files)
    → (t i).ref ≢ 0
    → Alloc n (i + 1) t r
    → Alloc (suc n) i t r
wider n i t r h (taken k p q z first) = taken k (omega arith) (omega arith) z (λ j p' q'.
    let ne : (t j).ref ≡ 0 → i ≢ j = λ e s. h (ground arith) in
    λ e. let apart = ne e in first j (omega (arith, apart)) q' e)
wider n i t r h (full none_free) = full (λ j p q e.
    let ne : i ≢ j = λ s. h (ground arith) in none_free j (omega (arith, ne)) (omega arith) e)

search-Alloc : (n i : ℕ) (t : Files) → Alloc n i t (filealloc_from n i t)
unfolding filealloc_from
search-Alloc zero i t = full (λ j p q. omega arith)
search-Alloc (suc n) i t =
    if_cases (Alloc (suc n) i t) ((t i).ref == 0) _ _
      (λ c. taken i (omega arith) (omega arith) (ground arith) (λ j p q. omega arith))
      (λ c. wider n i t _ (λ e. ground arith) (search-Alloc n (i + 1) t))

-- `filealloc` takes the first slot that nobody refers to and gives it one reference, and fails
-- exactly when each of the NFILE slots has a reference, without changing the table.
pub filealloc-Alloc : (t : Files) → Alloc nfile 0 t (filealloc t)
unfolding filealloc
filealloc-Alloc t = search-Alloc nfile 0 t

pub put_file_self : (i : ℕ) (f : File) (t : Files) → put_file i f t i ≡ f
unfolding put_file
put_file_self i f t = let here : (i == i) ≡ true = ground arith in rw here

-- Giving up a reference that `filedup` took leaves the file open with the count that it had: neither
-- call panics, for a count of one at least that stays an `int`.
pub drop_ref-filedup :
    (i : ℕ) (t : Files)
    → 0 < (t i).ref
    → (t i).ref + 1 < half_word
    → (u v : Files) × (filedup i t ≡ some u)
      × (drop_ref i u ≡ some (v, none))
      × ((v i).ref ≡ (t i).ref)
      × ((v i).type ≡ (t i).type)
unfolding filedup drop_ref put_file
drop_ref-filedup i t pos small =
    let u : Files = put_file i (record (t i) { ref = add32 (t i).ref 1 }) t in
    let v : Files = put_file i (record (u i) { ref = sub32 (u i).ref 1 }) u in
    let same : (u i).ref ≡ (t i).ref + 1 = ground arith in
    let kind : (u i).type ≡ (t i).type = ap (λ (f : File). f.type) (put_file_self i _ t) in
    let live : slt (t i).ref 1 ≡ false = ground arith in
    let live' : slt (u i).ref 1 ≡ false = ground arith in
    let left : slt 0 (sub32 (u i).ref 1) ≡ true = ground arith in
    (
      u,
      v,
      rw live,
      rw (live', left),
      ground arith,
      ap (λ (f : File). f.type) (put_file_self i _ u) ∙ kind,
    )
