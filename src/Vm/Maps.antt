-- ===== src/Vm/Maps.antt =====
-- `mappages` on one page: its entry is the new one, and all others stay.
use Prim.Native.Nat.{bit_or}
use os_ca.Common.{
  ℕ, ◌+◌, ◌*◌, ◌/◌, ◌%◌, ◌≤◌, ◌<◌, ◌≡◌, ◌≢◌, refl, ◌∙◌, sym, ap, ◌⊎◌, inl, inr, Bool, true, false,
  ◌&&◌, Bool-cases, Option, none, some, List, length, Cells, put, put_ne, put_self, if◌then◌else◌,
  ◌==◌, arith, add32, sub32, word,
}
use os_ca.Kalloc.{Kmem, page_size}
use os_ca.Vm.{pdx, ptx, is_present, walkpgdir, map_page, map_from, page_round_down, mappages}
use os_ca.Vm.Entries.{p2v_aligned}
use os_ca.Vm.Spaces.{
  dir_entry, has_table, table_at, entry_at, IsSpace, IsSpace-outside, entry_at-outside,
  has_table-outside, table_at-outside, pdx-lt, ptx-lt, SameOutside,
}
use os_ca.Vm.Walks.{Walk, no_page_left, walked, walkpgdir-Walk}
use os_ca.Vm.Tables.{Walked}

-- Two addresses in one page.
unfoldable pub same_page : ℕ → ℕ → Bool
same_page u a = pdx u == pdx a && ptx u == ptx a

-- The page of `a` has the entry `e` now, with `n` pages free before.
pub record MappedTo (mem : Cells) (n dir a e : ℕ) (k' : Kmem) : Type 0 where
  pub free : List ℕ
  pub space : IsSpace k'.mem k'.freelist dir free
  pub entries : (u : ℕ) → entry_at k'.mem dir u ≡ (if same_page u a then e else entry_at mem dir u)
  pub room : n ≤ length free + 1

-- The outcomes of a round: no page is left for a table, the page has an entry already, which is a panic, or
-- the entry is set.
pub data Mapping (k : Kmem) (n dir a e : ℕ) : Option (Bool × Kmem) → Type 0 where
  no_memory : entry_at k.mem dir a ≡ 0 → n ≡ 0 → Mapping k n dir a e (some (false, k))
  remaps : is_present (entry_at k.mem dir a) ≡ true → Mapping k n dir a e none
  maps :
      (k' : Kmem)
      → is_present (entry_at k.mem dir a) ≡ false
      → MappedTo k.mem n dir a e k'
      → Mapping k n dir a e (some (true, k'))

absent-entry :
    (mem : Cells) (dir a : ℕ) → has_table mem dir (pdx a) ≡ false → entry_at mem dir a ≡ 0
unfolding entry_at
absent-entry mem dir a p = rw p refl

-- A store into the entry's place.
module _ (mem : Cells) (n dir a pte e : ℕ) (k' : Kmem) (w : Walked mem n dir a pte k') where
  entry-at_place : k'.mem pte ≡ entry_at mem dir a
  unfolding entry_at
  entry-at_place =
      let there : entry_at k'.mem dir a ≡ k'.mem (table_at k'.mem dir (pdx a) + 4 * ptx a) =
        rw w.has refl in
      ap k'.mem w.place ∙ sym there ∙ w.entries a

  place-pos : (pte == 0) ≡ false
  place-pos =
      let pos = w.space.not_null (pdx a) (pdx-lt a) w.has in let at = w.place in ground arith

  abbrev table : ℕ
  table = table_at k'.mem dir (pdx a)

  abbrev stored : Cells
  stored = put k'.mem pte e

  stored-outside : SameOutside table k'.mem stored
  stored-outside x out = put_ne k'.mem pte e x (apart out)
    where
      apart : (x < table) ⊎ (table + 4096 ≤ x) → x ≢ pte
      apart (inl below) = λ q. omega (arith, q, w.place, below, ptx-lt a)
      apart (inr above) = λ q. omega (arith, q, w.place, above, ptx-lt a)

  abbrev lt_a : pdx a < 1024
  lt_a = pdx-lt a

  abbrev other_dir : table ≢ dir
  other_dir = w.space.not_dir (pdx a) lt_a w.has

  stored-IsSpace : IsSpace stored k'.freelist dir w.free
  stored-IsSpace =
      IsSpace-outside k'.mem stored k'.freelist dir table w.free w.space
        (p2v_aligned (dir_entry k'.mem dir (pdx a))) other_dir stored-outside
        (w.space.table_apart (pdx a) lt_a w.has)

  -- The entries of the other tables.
  stored-other_table : (u : ℕ) → pdx u ≢ pdx a → entry_at stored dir u ≡ entry_at k'.mem dir u
  stored-other_table u ne =
      entry_at-outside k'.mem stored k'.freelist dir table w.free w.space
        (p2v_aligned (dir_entry k'.mem dir (pdx a))) other_dir stored-outside u
        (λ p q. ne (sym (w.space.distinct (pdx a) (pdx u) lt_a (pdx-lt u) w.has p q)))

  -- The entries of this one.
  stored-this_table : (u : ℕ) → pdx u ≡ pdx a → entry_at stored dir u ≡ stored (table + 4 * ptx u)
  unfolding entry_at
  stored-this_table u same =
      let at =
        table_at-outside k'.mem stored k'.freelist dir table w.free w.space
          (p2v_aligned (dir_entry k'.mem dir (pdx a))) other_dir stored-outside (pdx a) lt_a in
      let has =
        has_table-outside k'.mem stored k'.freelist dir table w.free w.space
          (p2v_aligned (dir_entry k'.mem dir (pdx a))) other_dir stored-outside (pdx a) lt_a
        ∙ w.has in
      rw (same, has, at) refl

  this_table : (u : ℕ) → pdx u ≡ pdx a → entry_at k'.mem dir u ≡ k'.mem (table + 4 * ptx u)
  unfolding entry_at
  this_table u same = rw (same, w.has) refl

  stored-entries :
      (u : ℕ) → entry_at stored dir u ≡ (if same_page u a then e else entry_at mem dir u)
  unfolding same_page
  stored-entries u = elim (Bool-cases (pdx u == pdx a)) [
    | inl i ↦
        let same : pdx u ≡ pdx a = ground arith in
        elim (Bool-cases (ptx u == ptx a)) [
          | inl j ↦
              let at : table + 4 * ptx u ≡ pte = ground (arith, w.place) in
              rw (i, j) (stored-this_table u same ∙ ap stored at ∙ put_self k'.mem pte e)
          | inr j ↦
              let apart : ptx u ≢ ptx a = ground arith in
              rw (i, j)
                (stored-this_table u same
                  ∙ put_ne k'.mem pte e (table + 4 * ptx u) (λ q. apart (omega (arith, q, w.place)))
                  ∙ sym (this_table u same)
                  ∙ w.entries u)
        ]
    | inr i ↦ let ne : pdx u ≢ pdx a = ground arith in rw i (stored-other_table u ne ∙ w.entries u)
  ]

  pub stored-MappedTo : MappedTo mem n dir a e (record k' { mem = stored })
  stored-MappedTo = record {
    free = w.free;
    space = stored-IsSpace;
    entries = stored-entries;
    room = w.room;
  }

-- The end of a round, by what the walk came to.
abbrev finish : ℕ → ℕ × Kmem → Option (Bool × Kmem)
finish e w =
    if w.0 == 0
    then some (false, w.1)
    else if is_present (w.1.mem w.0)
    then none
    else some (true, record w.1 { mem = put w.1.mem w.0 e })

finish-Mapping :
    (k : Kmem) (n dir a e : ℕ) (q : ℕ × Kmem) → Walk k n dir a q → Mapping k n dir a e (finish e q)
finish-Mapping k n dir a e _ (no_page_left p z) = no_memory (absent-entry k.mem dir a p) z
finish-Mapping k n dir a e _ (walked pte k' w) =
    let here = entry-at_place k.mem n dir a pte e k' w in
    elim (Bool-cases (is_present (k'.mem pte))) [
      | inl p ↦ rw (place-pos k.mem n dir a pte e k' w, p) (remaps (ap is_present (sym here) ∙ p))
      | inr p ↦
          rw (place-pos k.mem n dir a pte e k' w, p)
            (maps _ (ap is_present (sym here) ∙ p) (stored-MappedTo k.mem n dir a pte e k' w))
    ]

pub map_page-Mapping :
    (k : Kmem) (dir a pa perm : ℕ) (free : List ℕ)
    → IsSpace k.mem k.freelist dir free
    → Mapping k (length free) dir a (bit_or (bit_or pa perm) 1) (map_page dir a pa perm k)
unfolding map_page
map_page-Mapping k dir a pa perm free h =
    finish-Mapping k (length free) dir a (bit_or (bit_or pa perm) 1) (walkpgdir dir a true k)
      (walkpgdir-Walk k dir a free h)

one_page :
    (a : ℕ)
    → a % 4096 ≡ 0
    → a < word
    → (page_round_down a ≡ a) × (page_round_down (sub32 (add32 a page_size) 1) ≡ a)
unfolding page_round_down
one_page a al lt = (omega arith, omega arith)

-- `mappages` on one page, with the directory, its tables and the free pages apart from one another, sets
-- the entry of this page to the physical address with the flags and PTE_P and leaves the entries of
-- all other pages and the pages apart; it fails only where the page has no table and no page is
-- free, and panics exactly where the page has a present entry.
pub mappages-Mapping :
    (k : Kmem) (dir a pa perm : ℕ) (free : List ℕ)
    → IsSpace k.mem k.freelist dir free
    → a % 4096 ≡ 0
    → a < word
    → Mapping k (length free) dir a (bit_or (bit_or pa perm) 1) (mappages dir a page_size pa perm k)
unfolding mappages map_from
mappages-Mapping k dir a pa perm free h al lt =
    let (down, last) = one_page a al lt in
    let rounds : sub32 a a / page_size ≡ 0 = omega arith in
    rw (down, last, rounds) (map_page-Mapping k dir a pa perm free h)
