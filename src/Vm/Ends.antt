-- ===== src/Vm/Ends.antt =====
-- The loop of `deallocuvm` ends: its rounds are enough.
use os_ca.Common.{
  ℕ, zero, suc, ◌+◌, ◌*◌, ◌%◌, ◌≤◌, ◌<◌, ◌≡◌, refl, ◌∙◌, sym, false, Bool-cases, inl, inr, Option,
  none, some, ltb, ◌==◌, arith, add32,
}
use os_ca.Kalloc.{Kmem, kernbase, page_round_up}
use os_ca.Vm.{
  pdx, is_present, walkpgdir, free_entry, next_table, Freed, ended, panicked, then_go, dealloc_from,
  pages_between,
}

-- Where no table is, the loop goes on behind all the pages that it would hold.
next_table-le : (a : ℕ) → a % 4096 ≡ 0 → a < kernbase → a + 4096 ≤ next_table a
unfolding next_table pdx
next_table-le a al lt = omega arith

next_table-aligned : (a : ℕ) → a < kernbase → next_table a % 4096 ≡ 0
unfolding next_table pdx
next_table-aligned a lt = omega arith

then_go-eq :
    (m : Option Kmem) (f g : Kmem → Freed) → ((k : Kmem) → f k ≡ g k) → then_go m f ≡ then_go m g
unfolding then_go
then_go-eq none f g h = refl
then_go-eq (some k) f g h = h k

-- The loop stops at once where it is at the end.
dealloc_from-done :
    (n kernel_end dir a oldsz : ℕ) (k : Kmem)
    → oldsz ≤ a
    → dealloc_from n kernel_end dir a oldsz k ≡ ended k
unfolding dealloc_from
dealloc_from-done zero kernel_end dir a oldsz k le =
    let stop : ltb a oldsz ≡ false = ground arith in rw stop refl
dealloc_from-done (suc n) kernel_end dir a oldsz k le =
    let stop : ltb a oldsz ≡ false = ground arith in rw stop refl

-- From a page's address on, with an end at most KERNBASE, more rounds than there are pages up to the end
-- change nothing.
pub dealloc_from-enough :
    (n m kernel_end dir a oldsz : ℕ) (k : Kmem)
    → a % 4096 ≡ 0
    → oldsz ≤ kernbase
    → oldsz ≤ a + 4096 * n
    → oldsz ≤ a + 4096 * m
    → dealloc_from n kernel_end dir a oldsz k ≡ dealloc_from m kernel_end dir a oldsz k
unfolding dealloc_from
dealloc_from-enough zero m kernel_end dir a oldsz k al top ln lm =
    dealloc_from-done zero kernel_end dir a oldsz k (omega arith)
    ∙ sym (dealloc_from-done m kernel_end dir a oldsz k (omega arith))
dealloc_from-enough (suc n) zero kernel_end dir a oldsz k al top ln lm =
    dealloc_from-done (suc n) kernel_end dir a oldsz k (omega arith)
    ∙ sym (dealloc_from-done zero kernel_end dir a oldsz k (omega arith))
dealloc_from-enough (suc n) (suc m) kernel_end dir a oldsz k al top ln lm =
    elim (Bool-cases (ltb a oldsz)) [
      | inr stop ↦ rw stop refl
      | inl more ↦
          let lt : a < oldsz = ground arith in
          let pte = (walkpgdir dir a false k).0 in
          let next : add32 a 4096 ≡ a + 4096 = omega arith in
          let far = next_table-le a al (omega arith) in
          let rest = λ (b : ℕ) (t : Kmem) (low : a + 4096 ≤ b) (bl : b % 4096 ≡ 0).
            dealloc_from-enough n m kernel_end dir b oldsz t bl top (omega arith) (omega arith) in
          rw more (elim (Bool-cases (pte == 0)) [
            | inl z ↦ rw z (rest (next_table a) k far (next_table-aligned a (omega arith)))
            | inr nz ↦ elim (Bool-cases (is_present (k.mem pte))) [
              | inl p ↦
                  rw (nz, p)
                    (then_go-eq (free_entry kernel_end pte k) _ _
                      (λ t. rest (add32 a 4096) t (omega arith) (omega arith)))
              | inr p ↦ rw (nz, p) (rest (add32 a 4096) k (omega arith) (omega arith))
            ]
          ])
    ]

-- The loop has come to its own end, or to a panic.
pub data IsOver : Freed → Type 0 where
  at_end : (k : Kmem) → IsOver (ended k)
  at_panic : IsOver panicked

then_go-IsOver :
    (m : Option Kmem) (f : Kmem → Freed) → ((k : Kmem) → IsOver (f k)) → IsOver (then_go m f)
unfolding then_go
then_go-IsOver none f h = at_panic
then_go-IsOver (some k) f h = h k

dealloc_from-IsOver :
    (n kernel_end dir a oldsz : ℕ) (k : Kmem)
    → a % 4096 ≡ 0
    → oldsz ≤ kernbase
    → oldsz ≤ a + 4096 * n
    → IsOver (dealloc_from n kernel_end dir a oldsz k)
unfolding dealloc_from
dealloc_from-IsOver zero kernel_end dir a oldsz k al top enough =
    let stop : ltb a oldsz ≡ false = ground arith in rw stop (at_end k)
dealloc_from-IsOver (suc n) kernel_end dir a oldsz k al top enough =
    let pte = (walkpgdir dir a false k).0 in
    let rest = λ (b : ℕ) (t : Kmem) (low : a + 4096 ≤ b) (bl : b % 4096 ≡ 0).
      dealloc_from-IsOver n kernel_end dir b oldsz t bl top (omega arith) in
    elim (Bool-cases (ltb a oldsz)) [
      | inr stop ↦ rw stop (at_end k)
      | inl more ↦
          let lt : a < oldsz = ground arith in
          let far = next_table-le a al (omega arith) in
          rw more (elim (Bool-cases (pte == 0)) [
            | inl z ↦ rw z (rest (next_table a) k far (next_table-aligned a (omega arith)))
            | inr nz ↦ elim (Bool-cases (is_present (k.mem pte))) [
              | inl p ↦
                  rw (nz, p)
                    (then_go-IsOver (free_entry kernel_end pte k) _
                      (λ t. rest (add32 a 4096) t (omega arith) (omega arith)))
              | inr p ↦ rw (nz, p) (rest (add32 a 4096) k (omega arith) (omega arith))
            ]
          ])
    ]

-- The loop of `deallocuvm`, from a new size below an old one at most KERNBASE, comes to its own end or
-- to a panic within one round for each page of its range, whatever tables there are; with any more
-- rounds it comes to the same.
pub dealloc_from-ends :
    (kernel_end dir oldsz newsz : ℕ) (k : Kmem)
    → newsz < oldsz
    → oldsz ≤ kernbase
    → let a = page_round_up newsz in
      let n = pages_between a oldsz in
      IsOver (dealloc_from n kernel_end dir a oldsz k)
      × ((more : ℕ)
          → dealloc_from (n + more) kernel_end dir a oldsz k
            ≡ dealloc_from n kernel_end dir a oldsz k)
unfolding page_round_up pages_between
dealloc_from-ends kernel_end dir oldsz newsz k lt top =
    let a = page_round_up newsz in
    let n = pages_between a oldsz in
    let al : a % 4096 ≡ 0 = omega arith in
    let enough : oldsz ≤ a + 4096 * n = omega arith in
    (
      dealloc_from-IsOver n kernel_end dir a oldsz k al top enough,
      λ more.
          dealloc_from-enough (n + more) n kernel_end dir a oldsz k al top (omega (arith, enough))
            enough,
    )
