-- ===== src/Sysfile/Counts/Runs.antt =====
-- Runs of `dup`, `close` and the end of `open`: each file has as many references as descriptors name it,
-- with those of other processes.
use os_ca.Common.{
  ℕ, ◌+◌, ◌≤◌, ◌<◌, ◌≡◌, refl, ◌∙◌, ap, true, false, Bool-cases, inl, inr, Option, none, some,
  if◌then◌else◌, slt, ◌==◌, arith, add32, sub32, half_word,
}
use os_ca.File.{File, Files, fd_none, put_file, filedup, drop_ref}
use os_ca.Sysfile.{nofile, Descriptors, set_fd, is_free}
use os_ca.Sysfile.Counts.{names, count, count-le, count_one, count-set_fd}

-- Each file has a reference from each descriptor that names it, and those of the other processes, which
-- leave room in an `int`.
pub record IsCounted (others : ℕ → ℕ) (t : Descriptors) (files : Files) : Type 0 where
  pub counted : (f : ℕ) → (files f).ref ≡ others f + count nofile t f
  pub room : (f : ℕ) → others f + 100 < half_word

pub put_file-ref :
    (i : ℕ) (g : File) (files : Files) (f : ℕ)
    → (put_file i g files f).ref ≡ (if f == i then g.ref else (files f).ref)
unfolding put_file
put_file-ref i g files f = ground arith

-- A descriptor changes together with the references.
pub change-IsCounted :
    (others : ℕ → ℕ) (t : Descriptors) (files new_files : Files) (fd : ℕ) (o : Option ℕ)
    → IsCounted others t files
    → fd < nofile
    → ((j : ℕ) → (new_files j).ref + names (t fd) j ≡ (files j).ref + names o j)
    → IsCounted others (set_fd fd o t) new_files
change-IsCounted others t files new_files fd o h lt e = record {
  counted = λ j. omega (arith, h.counted j, count-set_fd nofile fd o t j lt, e j);
  room = h.room;
}

pub same-IsCounted :
    (others : ℕ → ℕ) (t : Descriptors) (files new_files : Files)
    → IsCounted others t files
    → ((j : ℕ) → (new_files j).ref ≡ (files j).ref)
    → IsCounted others t new_files
same-IsCounted others t files new_files h e = record {
  counted = λ j. e j ∙ h.counted j;
  room = h.room;
}

pub free_names : (o : Option ℕ) → is_free o ≡ true → (j : ℕ) → names o j ≡ 0
free_names none q j = refl
free_names (some x) q j = cc

-- A file's references go up by `a` and down by `b`.
put_file-shift :
    (a b f : ℕ) (g : File) (files : Files) (j : ℕ)
    → g.ref + b ≡ (files f).ref + a
    → (put_file f g files j).ref + (if f == j then b else 0)
      ≡ (files j).ref + (if f == j then a else 0)
put_file-shift a b f g files j e =
    let put = put_file-ref f g files j in
    elim (Bool-cases (f == j)) [
      | inl same ↦
          let here : f ≡ j = ground arith in
          let at : (files f).ref ≡ (files j).ref = ap (λ i. (files i).ref) here in ground arith
      | inr other ↦ ground arith
    ]

pub put_more :
    (f : ℕ) (g : File) (files : Files) (j : ℕ)
    → g.ref ≡ (files f).ref + 1
    → (put_file f g files j).ref ≡ (files j).ref + names (some f) j
put_more f g files j e = let shift = put_file-shift 1 0 f g files j (omega arith) in ground arith

pub put_less :
    (f : ℕ) (g : File) (files : Files) (j : ℕ)
    → g.ref + 1 ≡ (files f).ref
    → (put_file f g files j).ref + names (some f) j ≡ (files j).ref
put_less f g files j e = let shift = put_file-shift 0 1 f g files j (omega arith) in ground arith

pub put_same :
    (f : ℕ) (g : File) (files : Files) (j : ℕ)
    → g.ref ≡ (files f).ref
    → (put_file f g files j).ref ≡ (files j).ref
put_same f g files j e = let shift = put_file-shift 0 0 f g files j (omega arith) in ground arith

pub drop_ref_by :
    (f : ℕ) (files : Files)
    → 1 ≤ (files f).ref
    → (files f).ref < half_word
    → (u : Files × Option File) × (drop_ref f files ≡ some u)
      × ((j : ℕ) → (u.0 j).ref + names (some f) j ≡ (files j).ref)
unfolding drop_ref
drop_ref_by f files low high =
    let left = sub32 (files f).ref 1 in
    let live : slt (files f).ref 1 ≡ false = ground arith in
    elim (Bool-cases (slt 0 (sub32 (files f).ref 1))) [
      | inl more ↦
          let g : File = record (files f) { ref = left } in
          (
            (put_file f g files, none),
            rw (live, more) refl,
            λ j. put_less f g files j (ground arith),
          )
      | inr last ↦
          let g : File = record (files f) { ref = 0; type = fd_none } in
          (
            (put_file f g files, some (record (files f) { ref = left })),
            rw (live, last) refl,
            λ j. put_less f g files j (ground arith),
          )
    ]

-- A slot that `filealloc` takes.
pub new_ref :
    (f : ℕ) (files : Files)
    → (files f).ref ≡ 0
    → (j : ℕ)
    → (put_file f (record (files f) { ref = 1 }) files j).ref ≡ (files j).ref + names (some f) j
new_ref f files free j = put_more f (record (files f) { ref = 1 }) files j (ground arith)

-- The slot is given back.
pub drop_ref_new :
    (f : ℕ) (files : Files)
    → (files f).ref ≡ 0
    → (v : Files × Option File) × (drop_ref f (put_file f (record (files f) { ref = 1 }) files)
        ≡ some v)
      × ((j : ℕ) → (v.0 j).ref ≡ (files j).ref)
drop_ref_new f files free =
    let g : File = record (files f) { ref = 1 } in
    let one : (put_file f g files f).ref ≡ 1 = put_file-ref f g files f ∙ ground arith in
    let (v, run, less) =
      drop_ref_by f (put_file f g files) (omega (arith, one)) (omega (arith, one)) in
    (v, run, λ j. omega (arith, less j, new_ref f files free j))

module _ (others : ℕ → ℕ) (t : Descriptors) (files : Files) (h : IsCounted others t files) where
  pub fresh-IsCounted :
      (f : ℕ) (new_files : Files)
      → ((j : ℕ) → (new_files j).ref ≡ (files j).ref + names (some f) j)
      → (k : ℕ) → k < nofile
      → is_free (t k) ≡ true
      → IsCounted others (set_fd k (some f) t) new_files
  fresh-IsCounted f new_files e k lt free =
      change-IsCounted others t files new_files k (some f) h lt
        (λ j. omega (arith, e j, free_names (t k) free j))

  -- The count of a file that a descriptor names.
  ref-bounds :
      (fd f : ℕ)
      → fd < nofile
      → t fd ≡ some f
      → (1 ≤ (files f).ref) × ((files f).ref + 1 < half_word)
  ref-bounds fd f lt e =
      let one = count_one nofile fd t f lt e in
      let most = count-le nofile t f in
      let sum = h.counted f in
      let small = h.room f in (omega (arith, one, sum), omega (arith, most, sum, small))

  pub filedup_more :
      (fd f : ℕ)
      → fd < nofile
      → t fd ≡ some f
      → (u : Files) × (filedup f files ≡ some u)
        × ((j : ℕ) → (u j).ref ≡ (files j).ref + names (some f) j)
  unfolding filedup
  filedup_more fd f lt e =
      let b = ref-bounds fd f lt e in
      let g : File = record (files f) { ref = add32 (files f).ref 1 } in
      let low = b.0 in
      let high = b.1 in
      let live : slt (files f).ref 1 ≡ false = ground arith in
      (put_file f g files, rw live refl, λ j. put_more f g files j (ground arith))

  pub drop_ref_less :
      (fd f : ℕ)
      → fd < nofile
      → t fd ≡ some f
      → (u : Files × Option File) × (drop_ref f files ≡ some u)
        × ((j : ℕ) → (u.0 j).ref + names (some f) j ≡ (files j).ref)
  drop_ref_less fd f lt e =
      let b = ref-bounds fd f lt e in drop_ref_by f files b.0 (omega (arith, b.1))
