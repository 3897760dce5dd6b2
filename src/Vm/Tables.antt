-- ===== src/Vm/Tables.antt =====
-- A new table of `walkpgdir`, in a page of the free list.
use Prim.Native.Nat.{bit_or}
use os_ca.Common.{
  ℕ, ◌+◌, ◌*◌, ◌%◌, ◌≤◌, ◌<◌, ◌≡◌, ◌≢◌, refl, ◌∙◌, sym, ap, ◌⊎◌, inl, inr, true, false, Bool-cases,
  List, ◌∷◌, length, Cells, put, put_ne, put_self, ◌==◌, arith, subst,
}
use os_ca.Kalloc.{Kmem}
use os_ca.Kalloc.Pages.{IsApart, differs, Chain, link, Chain-outside}
use os_ca.Vm.{pdx, ptx, pte_addr, is_present, v2p, p2v, clear_page}
use os_ca.Vm.Entries.{p2v_aligned, p2v-v2p, v2p_aligned, table-present, pte_addr-table}
use os_ca.Vm.Spaces.{
  dir_entry, has_table, table_at, entry_at, IsSpace, pdx-lt, ptx-lt, SameOutside, apart_pages,
}

-- What is known behind a call that found or made the entry, with `n` pages free before it.
pub record Walked (mem : Cells) (n dir va pte : ℕ) (k' : Kmem) : Type 0 where
  pub free : List ℕ
  pub space : IsSpace k'.mem k'.freelist dir free
  pub has : has_table k'.mem dir (pdx va) ≡ true
  pub place : pte ≡ table_at k'.mem dir (pdx va) + 4 * ptx va
  pub entries : (u : ℕ) → entry_at k'.mem dir u ≡ entry_at mem dir u
  pub room : n ≤ length free + 1

pub not_head : {v p : ℕ} {ps : List ℕ} → IsApart v (p ∷ ps) → v ≢ p
not_head (differs ne rest) = ne

pub others : {v p : ℕ} {ps : List ℕ} → IsApart v (p ∷ ps) → IsApart v ps
others (differs ne rest) = rest

pub page_aligned : {mem : Cells} {v p : ℕ} {ps : List ℕ} → Chain mem v (p ∷ ps) → v % 4096 ≡ 0
page_aligned (link pos al out rest) = al

pub page_pos : {mem : Cells} {v p : ℕ} {ps : List ℕ} → Chain mem v (p ∷ ps) → 0 < v
page_pos (link pos al out rest) = pos

pub Chain-head : {mem : Cells} {v p : ℕ} {ps : List ℕ} → Chain mem v (p ∷ ps) → v ≡ p
Chain-head (link pos al out rest) = refl

pub page_apart : {mem : Cells} {v p : ℕ} {ps : List ℕ} → Chain mem v (p ∷ ps) → IsApart v ps
page_apart (link pos al out rest) = out

pub rest-Chain : {mem : Cells} {v p : ℕ} {ps : List ℕ} → Chain mem v (p ∷ ps) → Chain mem (mem v) ps
rest-Chain (link pos al out rest) = rest

clear_page-inside : (v a : ℕ) (mem : Cells) → v ≤ a → a < v + 4096 → clear_page v mem a ≡ 0
unfolding clear_page
clear_page-inside v a mem low high = ground arith

pub clear_page-outside : (v : ℕ) (mem : Cells) → SameOutside v mem (clear_page v mem)
unfolding clear_page
clear_page-outside v mem a h = ground arith

-- A new table in the page `v`, for the index `i` that has none.
module _ (mem : Cells) (dir v i : ℕ) (ps : List ℕ) (h : IsSpace mem v dir (v ∷ ps)) (lt : i < 1024)
    (none_yet : has_table mem dir i ≡ false) where
  abbrev with_table : Cells
  with_table = put (clear_page v mem) (dir + 4 * i) (bit_or (v2p v) 7)

  dir_ne : dir ≢ v
  dir_ne = not_head h.dir_apart

  -- The directory's page is not `v`.
  with_table-other : (j : ℕ) → j < 1024 → j ≢ i → dir_entry with_table dir j ≡ dir_entry mem dir j
  with_table-other j lj ne =
      put_ne (clear_page v mem) (dir + 4 * i) (bit_or (v2p v) 7) (dir + 4 * j)
        (λ e. ne (omega (arith, e)))
      ∙ clear_page-outside v mem (dir + 4 * j) (
          apart_pages v dir (4 * j) (page_aligned h.chain) h.aligned (λ e. dir_ne (sym e))
            (omega arith))

  with_table-new : dir_entry with_table dir i ≡ bit_or (v2p v) 7
  with_table-new = put_self (clear_page v mem) (dir + 4 * i) (bit_or (v2p v) 7)

  pub new-present : has_table with_table dir i ≡ true
  new-present =
      ap is_present with_table-new ∙ table-present (v2p v) (v2p_aligned v (page_aligned h.chain))

  pub new-table_at : table_at with_table dir i ≡ v
  new-table_at =
      ap (λ e. p2v (pte_addr e)) with_table-new
      ∙ ap p2v (pte_addr-table (v2p v) (v2p_aligned v (page_aligned h.chain)))
      ∙ p2v-v2p v h.in_word.0

  other-present : (j : ℕ) → j < 1024 → j ≢ i → has_table with_table dir j ≡ has_table mem dir j
  other-present j lj ne = ap is_present (with_table-other j lj ne)

  other-table_at : (j : ℕ) → j < 1024 → j ≢ i → table_at with_table dir j ≡ table_at mem dir j
  other-table_at j lj ne = ap (λ e. p2v (pte_addr e)) (with_table-other j lj ne)

  -- Outside of the new table and of the directory the memory stays.
  with_table-far :
      (t o : ℕ) → t % 4096 ≡ 0 → o < 4096 → v ≢ t → t ≢ dir → with_table (t + o) ≡ mem (t + o)
  with_table-far t o al small nv nd =
      put_ne (clear_page v mem) (dir + 4 * i) (bit_or (v2p v) 7) (t + o) (λ e.
        elim (apart_pages dir t o h.aligned al (λ q. nd (sym q)) small) [
          | inl below ↦ omega (arith, e, below)
          | inr above ↦ omega (arith, e, above)
        ])
      ∙ clear_page-outside v mem (t + o) (apart_pages v t o (page_aligned h.chain) al nv small)

  -- Each table is the new one or an old one.
  data Origin (j : ℕ) : Type 0 where
    is_new : j ≡ i → table_at with_table dir j ≡ v → Origin j
    is_old :
        j ≢ i
        → has_table mem dir j ≡ true
        → table_at with_table dir j ≡ table_at mem dir j
        → Origin j

  origin : (j : ℕ) → j < 1024 → has_table with_table dir j ≡ true → Origin j
  origin j lj p = elim (Bool-cases (j == i)) [
    | inl e ↦
        let same : j ≡ i = ground arith in
        is_new same (ap (table_at with_table dir) same ∙ new-table_at)
    | inr e ↦
        let ne : j ≢ i = ground arith in
        is_old ne (sym (other-present j lj ne) ∙ p) (other-table_at j lj ne)
  ]

  old_apart : (j : ℕ) → j < 1024 → has_table mem dir j ≡ true → v ≢ table_at mem dir j
  old_apart j lj p e = not_head (h.table_apart j lj p) (sym e)

  pub with_table-IsSpace : IsSpace with_table (mem v) dir ps
  with_table-IsSpace = record {
    aligned = h.aligned;
    chain = Chain-outside dir h.aligned (others h.dir_apart) dir_only (
        Chain-outside v (page_aligned h.chain) (page_apart h.chain) (clear_page-outside v mem)
          (rest-Chain h.chain));
    in_word = h.in_word.1;
    dir_apart = others h.dir_apart;
    table_apart = λ j lj p. elim (origin j lj p) [
      | is_new e t ↦ subst (λ w. IsApart w ps) (sym t) (page_apart h.chain)
      | is_old ne q t ↦ subst (λ w. IsApart w ps) (sym t) (others (h.table_apart j lj q))
    ];
    not_null = λ j lj p. elim (origin j lj p) [
      | is_new _ t ↦ subst (λ w. 0 < w) (sym t) (page_pos h.chain)
      | is_old ne q t ↦ subst (λ w. 0 < w) (sym t) (h.not_null j lj q)
    ];
    not_dir = λ j lj p e. elim (origin j lj p) [
      | is_new _ t ↦ dir_ne (sym e ∙ t)
      | is_old ne q t ↦ h.not_dir j lj q (sym t ∙ e)
    ];
    distinct = λ j k lj lk p q e. elim (origin j lj p) [
      | is_new ej tj ↦ elim (origin k lk q) [
        | is_new ek tk ↦ ej ∙ sym ek
        | is_old ne had t ↦ absurd (old_apart k lk had (sym tj ∙ e ∙ t))
      ]
      | is_old nj hj tj ↦ elim (origin k lk q) [
        | is_new ek tk ↦ absurd (old_apart j lj hj (sym tk ∙ sym e ∙ tj))
        | is_old ne had t ↦ h.distinct j k lj lk hj had (sym tj ∙ e ∙ t)
      ]
    ];
  }
    where
      dir_only : SameOutside dir (clear_page v mem) with_table
      dir_only a out = put_ne (clear_page v mem) (dir + 4 * i) (bit_or (v2p v) 7) a (apart out)
        where
          apart : (a < dir) ⊎ (dir + 4096 ≤ a) → a ≢ dir + 4 * i
          apart (inl below) = λ e. omega (arith, e, below, lt)
          apart (inr above) = λ e. omega (arith, e, above, lt)

  -- The new table has no entries, and the others stay.
  pub with_table-entries : (u : ℕ) → entry_at with_table dir u ≡ entry_at mem dir u
  unfolding entry_at
  with_table-entries u = elim (Bool-cases (pdx u == i)) [
    | inl e ↦
        let same : pdx u ≡ i = ground arith in
        let cleared : with_table (v + 4 * ptx u) ≡ 0 =
          put_ne (clear_page v mem) (dir + 4 * i) (bit_or (v2p v) 7) (v + 4 * ptx u)
            (away (ptx u) (ptx-lt u))
          ∙ clear_page-inside v (v + 4 * ptx u) mem (omega arith) (omega (arith, ptx-lt u)) in
        rw (same, new-present, new-table_at, none_yet) cleared
    | inr e ↦
        let ne : pdx u ≢ i = ground arith in
        let lu = pdx-lt u in
        elim (Bool-cases (has_table mem dir (pdx u))) [
          | inl p ↦
              let far =
                with_table-far (table_at mem dir (pdx u)) (4 * ptx u)
                  (p2v_aligned (dir_entry mem dir (pdx u))) (omega (arith, ptx-lt u))
                  (old_apart (pdx u) lu p) (h.not_dir (pdx u) lu p) in
              rw (with_table-other (pdx u) lu ne, p) far
          | inr p ↦ rw (with_table-other (pdx u) lu ne, p) refl
        ]
  ]
    where
      away : (o : ℕ) → o < 1024 → v + 4 * o ≢ dir + 4 * i
      away o small e =
          elim (apart_pages dir v (4 * o) h.aligned (page_aligned h.chain) dir_ne (omega arith)) [
            | inl below ↦ omega (arith, e, below)
            | inr above ↦ omega (arith, e, above)
          ]
