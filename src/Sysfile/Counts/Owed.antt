-- ===== src/Sysfile/Counts/Owed.antt =====
-- The references that a call holds itself, and those that `pipealloc` takes.
use os_ca.Common.{
  ℕ, ◌+◌, ◌≤◌, ◌<◌, ◌≡◌, refl, ◌∙◌, sym, Bool, true, false, Option, none, some, ◌>>=◌, arith,
  half_word, subst, Cells,
}
use os_ca.Fs.{Superblock}
use os_ca.File.{Files, nfile}
use os_ca.File.Refs.{Alloc, taken, full, filealloc-Alloc}
use os_ca.File.Io.{Kernel, put_pipe, close_last, fileclose}
use os_ca.Sysfile.{nofile, Descriptors}
use os_ca.Sysfile.Pipes.{pipe_end, both_ends, second_end, first_end}
use os_ca.Sysfile.Counts.{names, count, count-le}
use os_ca.Sysfile.Counts.Runs.{IsCounted, drop_ref_by, new_ref, put_same}
use os_ca.Sysfile.Counts.Kept.{KeepsFiles, close_last-files}

-- As IsCounted, with the references that the call holds itself.
pub record IsOwed (others : ℕ → ℕ) (t : Descriptors) (held : ℕ → ℕ) (files : Files) : Type 0 where
  pub owed : (j : ℕ) → (files j).ref ≡ others j + count nofile t j + held j
  pub slack : (j : ℕ) → others j + 100 < half_word

abbrev pub one_file : ℕ → ℕ → ℕ
one_file f j = names (some f) j

abbrev pub two_files : ℕ → ℕ → ℕ → ℕ
two_files f g j = names (some f) j + names (some g) j

-- What a call leaves with the files, where it does not panic.
abbrev pub Leaves : (ℕ → ℕ) → Descriptors → (ℕ → ℕ) → Option Kernel → Type 0
Leaves others t held none = Unit
Leaves others t held (some k) = IsOwed others t held k.files

names_self : (f : ℕ) → names (some f) f ≡ 1
names_self f = ground arith

module _ (others : ℕ → ℕ) (t : Descriptors) where
  close_owed :
      (sb : Superblock) (f : ℕ) (held : ℕ → ℕ) (k : Kernel)
      → held f ≤ 1
      → IsOwed others t (λ j. held j + names (some f) j) k.files
      → Leaves others t held (fileclose sb f k)
  unfolding fileclose
  close_owed sb f held k small h =
      let sum = h.owed f in
      let self = names_self f in
      let room = h.slack f in
      let most = count-le nofile t f in
      let d =
        drop_ref_by f k.files (omega (arith, sum, self))
          (omega (arith, sum, self, room, most, small)) in
      let left : IsOwed others t held d.0.0 = record {
        owed = λ j. omega (arith, h.owed j, d.2 j);
        slack = h.slack;
      } in
      rw d.1 (
        kept (close_last sb d.0.1 (record k { files = d.0.0 })) left
          (close_last-files sb d.0.1 (record k { files = d.0.0 })))
    where
      kept :
          (r : Option Kernel) {u : Files}
          → IsOwed others t held u
          → KeepsFiles u r
          → Leaves others t held r
      kept none h same = tt
      kept (some k') h same = subst (IsOwed others t held) (sym same) h

  -- Both files are closed again.
  pub close_both :
      (sb : Superblock) (f g : ℕ) (k : Kernel)
      → IsOwed others t (two_files f g) k.files
      → Leaves others t (λ j. 0) (fileclose sb f k >>= fileclose sb g)
  close_both sb f g k h =
      let swapped : IsOwed others t (λ j. names (some g) j + names (some f) j) k.files = record {
        owed = λ j. omega (arith, h.owed j);
        slack = h.slack;
      } in
      then_close (fileclose sb f k) (close_owed sb f (one_file g) k (ground arith) swapped)
    where
      then_close :
          (r : Option Kernel)
          → Leaves others t (one_file g) r
          → Leaves others t (λ j. 0) (r >>= fileclose sb g)
      then_close none h = tt
      then_close (some k') h =
          close_owed sb g (λ j. 0) k' (omega arith)
            (record { owed = λ j. omega (arith, h.owed j); slack = h.slack })

pipe_end-ref :
    (a : ℕ) (writable : Bool) (f : ℕ) (files : Files) (j : ℕ)
    → (pipe_end a writable f files j).ref ≡ (files j).ref
unfolding pipe_end
pipe_end-ref a writable f files j = put_same f _ files j refl

-- What `pipealloc` gives: two files with a reference each, or no change of the references.
abbrev pub Made : (ℕ → ℕ) → Descriptors → Option (Option (ℕ × ℕ) × Kernel) → Type 0
Made others t none = Unit
Made others t (some (none, k)) = IsOwed others t (λ j. 0) k.files
Made others t (some (some (f, g), k)) = IsOwed others t (two_files f g) k.files

module _ (others : ℕ → ℕ) (t : Descriptors) (sb : Superblock) (page : Option (ℕ × Cells)) where
  given_up :
      (r : Option Kernel)
      → Leaves others t (λ j. 0) r
      → Made others t (r >>= λ (k : Kernel). some (none, k))
  given_up none h = tt
  given_up (some k) h = h

  both_ends-Made :
      (f g : ℕ) (page : Option (ℕ × Cells)) (k : Kernel)
      → IsOwed others t (two_files f g) k.files
      → Made others t (both_ends sb page f g page k)
  unfolding both_ends put_pipe
  both_ends-Made f g none k h = given_up _ (close_both others t sb f g k h)
  both_ends-Made f g (some (a, bytes)) k h = record {
    owed = λ j.
        pipe_end-ref a true g (pipe_end a false f k.files) j
        ∙ pipe_end-ref a false f k.files j
        ∙ h.owed j;
    slack = h.slack;
  }

  second_end-Made :
      (f : ℕ) (k : Kernel) (r : Option ℕ × Files)
      → Alloc nfile 0 k.files r
      → IsOwed others t (one_file f) k.files
      → Made others t (second_end sb page f r k)
  unfolding second_end
  second_end-Made f k _ (full used) h = given_up _ (
      close_owed others t sb f (λ j. 0) k (omega arith)
        (record { owed = λ j. omega (arith, h.owed j); slack = h.slack }))
  second_end-Made f k _ (taken g low high free least) h =
      both_ends-Made f g page _
        (record { owed = λ j. omega (arith, new_ref g k.files free j, h.owed j); slack = h.slack })

  pub first_end-Made :
      (k : Kernel) (r : Option ℕ × Files)
      → Alloc nfile 0 k.files r
      → IsCounted others t k.files
      → Made others t (first_end sb page r k)
  unfolding first_end
  first_end-Made k _ (full used) h = record {
    owed = λ j. omega (arith, h.counted j);
    slack = h.room;
  }
  first_end-Made k _ (taken f low high free least) h =
      second_end-Made f _ _ (filealloc-Alloc _) (record {
        owed = λ j. omega (arith, new_ref f k.files free j, h.counted j);
        slack = h.room;
      })
