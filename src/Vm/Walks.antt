-- ===== src/Vm/Walks.antt =====
-- `walkpgdir` finds the entry of a page, and makes a table for it where there is none.
use os_ca.Common.{
  ℕ, suc, ◌+◌, ◌*◌, ◌≡◌, refl, sym, ap, inl, inr, true, false, Bool-cases, List, [], ◌∷◌, length,
  ◌==◌, arith, subst,
}
use os_ca.Kalloc.{Kmem, kalloc}
use os_ca.Kalloc.Pages.{Chain, kalloc-empty}
use os_ca.Vm.{pdx, ptx, new_table, walkpgdir}
use os_ca.Vm.Spaces.{has_table, IsSpace, pdx-lt}
use os_ca.Vm.Tables.{
  Walked, page_pos, Chain-head, new-present, new-table_at, with_table-IsSpace, with_table-entries,
}

-- The outcome of `walkpgdir` with `alloc`: where no page is free, and a table is wanted, it is 0.
pub data Walk (k : Kmem) (n dir va : ℕ) : ℕ × Kmem → Type 0 where
  no_page_left : has_table k.mem dir (pdx va) ≡ false → n ≡ 0 → Walk k n dir va (0, k)
  walked : (pte : ℕ) (k' : Kmem) → Walked k.mem n dir va pte k' → Walk k n dir va (pte, k')

new_table-Walk :
    (k : Kmem) (dir va v : ℕ) (ps : List ℕ)
    → IsSpace k.mem v dir (v ∷ ps)
    → has_table k.mem dir (pdx va) ≡ false
    → Walk k
        (suc (length ps))
        dir
        va
        (new_table (dir + 4 * pdx va) va (v, record k { freelist = k.mem v }))
unfolding new_table
new_table-Walk k dir va v ps h none_yet =
    let pos = page_pos h.chain in
    let real : (v == 0) ≡ false = ground arith in
    let lt = pdx-lt va in
    rw real (
      walked (v + 4 * ptx va) _ (record {
        free = ps;
        space = with_table-IsSpace k.mem dir v (pdx va) ps h lt none_yet;
        has = new-present k.mem dir v (pdx va) ps h lt none_yet;
        place = ap (λ t. t + 4 * ptx va) (sym (new-table_at k.mem dir v (pdx va) ps h lt none_yet));
        entries = with_table-entries k.mem dir v (pdx va) ps h lt none_yet;
        room = omega arith;
      }))

pub kalloc-some :
    (k : Kmem) (v : ℕ) (ps : List ℕ)
    → Chain k.mem k.freelist (v ∷ ps)
    → kalloc k ≡ (v, record k { freelist = k.mem v })
unfolding kalloc
kalloc-some k v ps c = let e = Chain-head c in let pos = page_pos c in ground arith

-- With or without a table for it, a page's entry is found as long as a page is free.
pub walkpgdir-Walk :
    (k : Kmem) (dir va : ℕ) (free : List ℕ)
    → IsSpace k.mem k.freelist dir free
    → Walk k (length free) dir va (walkpgdir dir va true k)
unfolding walkpgdir new_table
walkpgdir-Walk k dir va [] h = elim (Bool-cases (has_table k.mem dir (pdx va))) [
  | inl p ↦ rw p (
      walked _ k (record {
        free = [];
        space = h;
        has = p;
        place = refl;
        entries = λ u. refl;
        room = omega arith;
      }))
  | inr p ↦ let e = kalloc-empty k h.chain in rw (p, e) (no_page_left p refl)
]
walkpgdir-Walk k dir va (v ∷ ps) h = elim (Bool-cases (has_table k.mem dir (pdx va))) [
  | inl p ↦ rw p (
      walked _ k (record {
        free = v ∷ ps;
        space = h;
        has = p;
        place = refl;
        entries = λ u. refl;
        room = omega arith;
      }))
  | inr p ↦
      let e = kalloc-some k v ps h.chain in
      let h' = subst (λ f. IsSpace k.mem f dir (v ∷ ps)) (Chain-head h.chain) h in
      rw (p, e) (new_table-Walk k dir va v ps h' p)
]
