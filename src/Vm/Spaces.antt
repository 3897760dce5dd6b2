-- ===== src/Vm/Spaces.antt =====
-- A directory with its tables beside the free pages, and the entries of the pages in it.
use os_ca.Common.{
  ℕ, ◌+◌, ◌*◌, ◌%◌, ◌≤◌, ◌<◌, ◌≡◌, ◌≢◌, refl, ◌∙◌, sym, ap, ◌⊎◌, inl, inr, Bool, true, Bool-cases,
  List, [], ◌∷◌, Cells, if◌then◌else◌, arith, word, subst,
}
use os_ca.Kalloc.Pages.{IsApart, Chain, Chain-outside}
use os_ca.Vm.{pdx, ptx, pte_addr, is_present, p2v}
use os_ca.Vm.Entries.{p2v_aligned}

-- The directory entry of index `i`, and the table that it names.
abbrev pub dir_entry : Cells → ℕ → ℕ → ℕ
dir_entry mem dir i = mem (dir + 4 * i)

abbrev pub has_table : Cells → ℕ → ℕ → Bool
has_table mem dir i = is_present (dir_entry mem dir i)

abbrev pub table_at : Cells → ℕ → ℕ → ℕ
table_at mem dir i = p2v (pte_addr (dir_entry mem dir i))

-- The entry for a virtual address: 0 where there is no table for it.
unfoldable pub entry_at : Cells → ℕ → ℕ → ℕ
entry_at mem dir va =
    if has_table mem dir (pdx va) then mem (table_at mem dir (pdx va) + 4 * ptx va) else 0

-- Addresses of 32 bits
abbrev pub InWord : List ℕ → Type 0
InWord [] = Unit {0}
InWord (v ∷ vs) = (v < word) × InWord vs

-- The directory, its tables and the free pages are pages of their own.
pub record IsSpace (mem : Cells) (freelist dir : ℕ) (free : List ℕ) : Type 0 where
  pub aligned : dir % 4096 ≡ 0
  pub chain : Chain mem freelist free
  pub in_word : InWord free
  pub dir_apart : IsApart dir free
  pub table_apart :
      (i : ℕ) → i < 1024 → has_table mem dir i ≡ true → IsApart (table_at mem dir i) free
  pub not_null : (i : ℕ) → i < 1024 → has_table mem dir i ≡ true → 0 < table_at mem dir i
  pub not_dir : (i : ℕ) → i < 1024 → has_table mem dir i ≡ true → table_at mem dir i ≢ dir
  pub distinct :
      (i j : ℕ)
      → i < 1024
      → j < 1024
      → has_table mem dir i ≡ true
      → has_table mem dir j ≡ true
      → table_at mem dir i ≡ table_at mem dir j
      → i ≡ j

pub pdx-lt : (va : ℕ) → pdx va < 1024
unfolding pdx
pdx-lt va = omega arith

pub ptx-lt : (va : ℕ) → ptx va < 1024
unfolding ptx
ptx-lt va = omega arith

-- Memory outside of the page `v` is as it was.
abbrev pub SameOutside : ℕ → Cells → Cells → Type 0
SameOutside v mem mem' = (a : ℕ) → (a < v) ⊎ (v + 4096 ≤ a) → mem' a ≡ mem a

-- Two pages that are not the same have no address in common.
pub apart_pages :
    (v w o : ℕ) → v % 4096 ≡ 0 → w % 4096 ≡ 0 → v ≢ w → o < 4096 → (w + o < v) ⊎ (v + 4096 ≤ w + o)
apart_pages v w o av aw ne lt = ground arith

-- A write into a page other than the directory, the free pages staying, leaves the tables where they are.
module _ (mem mem' : Cells) (freelist dir v : ℕ) (free : List ℕ) (h : IsSpace mem freelist dir free)
    (al : v % 4096 ≡ 0) (ne : v ≢ dir) (same : SameOutside v mem mem') where
  pub dir_entry-outside : (i : ℕ) → i < 1024 → dir_entry mem' dir i ≡ dir_entry mem dir i
  dir_entry-outside i lt =
      same (dir + 4 * i) (apart_pages v dir (4 * i) al h.aligned ne (omega arith))

  pub has_table-outside : (i : ℕ) → i < 1024 → has_table mem' dir i ≡ has_table mem dir i
  has_table-outside i lt = ap is_present (dir_entry-outside i lt)

  pub table_at-outside : (i : ℕ) → i < 1024 → table_at mem' dir i ≡ table_at mem dir i
  table_at-outside i lt = ap (λ e. p2v (pte_addr e)) (dir_entry-outside i lt)

  pub IsSpace-outside : IsApart v free → IsSpace mem' freelist dir free
  IsSpace-outside out =
      let had = λ (i : ℕ) (lt : i < 1024) (p : has_table mem' dir i ≡ true).
        sym (has_table-outside i lt) ∙ p in
      record {
        aligned = h.aligned;
        chain = Chain-outside v al out same h.chain;
        in_word = h.in_word;
        dir_apart = h.dir_apart;
        table_apart = λ i lt p.
            subst (λ t. IsApart t free) (sym (table_at-outside i lt))
              (h.table_apart i lt (had i lt p));
        not_null = λ i lt p.
            subst (λ t. 0 < t) (sym (table_at-outside i lt)) (h.not_null i lt (had i lt p));
        not_dir = λ i lt p e. h.not_dir i lt (had i lt p) (sym (table_at-outside i lt) ∙ e);
        distinct = λ i j li lj p q e.
            h.distinct i j li lj (had i li p) (had j lj q)
              (sym (table_at-outside i li) ∙ e ∙ table_at-outside j lj);
      }

  -- The entries in other tables stay.
  pub entry_at-outside :
      (va : ℕ)
      → (has_table mem dir (pdx va) ≡ true → v ≢ table_at mem dir (pdx va))
      → entry_at mem' dir va ≡ entry_at mem dir va
  unfolding entry_at
  entry_at-outside va other = elim (Bool-cases (has_table mem dir (pdx va))) [
    | inl p ↦
        let t = table_at mem dir (pdx va) in
        let stays : mem' (t + 4 * ptx va) ≡ mem (t + 4 * ptx va) = same (t + 4 * ptx va) (
          apart_pages v t (4 * ptx va) al (p2v_aligned (dir_entry mem dir (pdx va))) (other p)
            (omega (arith, ptx-lt va))) in
        rw (dir_entry-outside (pdx va) (pdx-lt va), p) stays
    | inr p ↦ rw (dir_entry-outside (pdx va) (pdx-lt va), p) refl
  ]
