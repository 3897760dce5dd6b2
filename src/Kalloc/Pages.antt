-- ===== src/Kalloc/Pages.antt =====
-- The free list as the list of its pages.
use os_ca.Common.{
  ℕ, zero, suc, ◌+◌, ◌-◌, ◌*◌, ◌/◌, ◌%◌, ◌≤◌, ◌<◌, ◌≡◌, ◌≢◌, refl, List, [], ◌∷◌, Cells, put, some,
  arith, subst, put_self, sym, ◌⊎◌,
}
use os_ca.Kalloc.{
  Kmem, page_size, kernbase, phystop, page_round_up, fill_junk, kfree, kalloc, free_pages,
  freerange,
}

-- `v` is none of the pages.
pub data IsApart (v : ℕ) : List ℕ → Type 0 where
  none_left : IsApart v []
  differs : {p : ℕ} {ps : List ℕ} → v ≢ p → IsApart v ps → IsApart v (p ∷ ps)

-- The list from the address on is that of the pages: no page is in it twice, and each is a multiple
-- of PGSIZE and not the null pointer.
pub data Chain (mem : Cells) : ℕ → List ℕ → Type 0 where
  done : Chain mem 0 []
  link :
      {v : ℕ} {ps : List ℕ}
      → 0 < v
      → v % 4096 ≡ 0
      → IsApart v ps
      → Chain mem (mem v) ps
      → Chain mem v (v ∷ ps)

-- The list reads nothing of a page that is not in it.
pub Chain-outside :
    {mem mem' : Cells} {h : ℕ} {ps : List ℕ} (v : ℕ)
    → v % 4096 ≡ 0
    → IsApart v ps
    → ((a : ℕ) → (a < v) ⊎ (v + 4096 ≤ a) → mem' a ≡ mem a)
    → Chain mem h ps
    → Chain mem' h ps
Chain-outside v al out same done = done
Chain-outside {mem} {mem'} {h} v al (differs ne out) same (link {ps = ps} pos al' fresh rest) =
    let e : mem' h ≡ mem h = same h (omega (arith, ne)) in
    link pos al' fresh (subst (λ a. Chain mem' a ps) (sym e) (Chain-outside v al out same rest))

-- Where the range holds no page that `kfree` refuses, it puts the page in front.
module _ (kernel_end v : ℕ) (k : Kmem) (ps : List ℕ) where
  module _ (al : v % 4096 ≡ 0) (low : kernel_end ≤ v) (base : kernbase ≤ v)
      (top : v < kernbase + phystop) where
    abbrev freed : Kmem
    freed = record k { mem = put (fill_junk v k.mem) v k.freelist; freelist = v }

    kfree-some : kfree kernel_end v k ≡ some freed
    unfolding kfree
    kfree-some = ground arith

    -- A page that the list does not hold goes to its front, for an address that is a multiple of
    -- PGSIZE between the kernel's end and PHYSTOP.
    pub kfree-Chain :
        IsApart v ps
        → Chain k.mem k.freelist ps
        → (k' : Kmem) × (kfree kernel_end v k ≡ some k') × Chain k'.mem k'.freelist (v ∷ ps)
    unfolding fill_junk
    kfree-Chain out list =
        let e : freed.mem v ≡ k.freelist = put_self (fill_junk v k.mem) v k.freelist in
        let moved = Chain-outside {mem' = freed.mem} v al out (λ a h. ground arith) list in
        (
          freed,
          kfree-some,
          link (omega arith) al out (subst (λ a. Chain freed.mem a ps) (sym e) moved),
        )

-- `kalloc` takes the first page off, and whatever the caller writes into the page, the list stays.
pub kalloc-Chain :
    (k : Kmem) (v : ℕ) (ps : List ℕ) (mem' : Cells)
    → Chain k.mem k.freelist (v ∷ ps)
    → ((a : ℕ) → (a < v) ⊎ (v + 4096 ≤ a) → mem' a ≡ k.mem a)
    → ((kalloc k).0 ≡ v) × IsApart v ps × Chain mem' (kalloc k).1.freelist ps
unfolding kalloc
kalloc-Chain k v ps mem' (link pos al out rest) same =
    let e : kalloc k ≡ (k.freelist, record k { freelist = k.mem k.freelist }) = ground arith in
    subst (λ t. (t.0 ≡ k.freelist) × IsApart k.freelist ps × Chain mem' t.1.freelist ps) (sym e)
      (refl, out, Chain-outside k.freelist al out same rest)

Chain-nil : {mem : Cells} {h : ℕ} → Chain mem h [] → h ≡ 0
Chain-nil done = refl

-- Where no page is free, `kalloc` returns 0 and changes nothing.
pub kalloc-empty : (k : Kmem) → Chain k.mem k.freelist [] → kalloc k ≡ (0, k)
unfolding kalloc
kalloc-empty k list = rw (Chain-nil list)

-- Pages that lie below an address.
data IsBelow (p : ℕ) : List ℕ → Type 0 where
  no_page : IsBelow p []
  below : {q : ℕ} {ps : List ℕ} → q < p → IsBelow p ps → IsBelow p (q ∷ ps)

below-IsApart : {p : ℕ} {ps : List ℕ} → IsBelow p ps → IsApart p ps
below-IsApart no_page = none_left
below-IsApart (below h r) = differs (omega arith) (below-IsApart r)

IsBelow-mono : {p q : ℕ} {ps : List ℕ} → p ≤ q → IsBelow p ps → IsBelow q ps
IsBelow-mono h no_page = no_page
IsBelow-mono h (below b r) = below (omega arith) (IsBelow-mono h r)

-- `n` pages from `p` on, the last one first, before others.
unfoldable pub pages_from : ℕ → ℕ → List ℕ → List ℕ
pages_from zero p ps = ps
pages_from (suc n) p ps = pages_from n (p + page_size) (p ∷ ps)

free_pages-Chain :
    (kernel_end n p : ℕ) (k : Kmem) (ps : List ℕ)
    → p % 4096 ≡ 0
    → kernel_end ≤ p
    → kernbase ≤ p
    → p + 4096 * n ≤ kernbase + phystop
    → IsBelow p ps
    → Chain k.mem k.freelist ps
    → (k' : Kmem) × (free_pages kernel_end n p k ≡ some k')
      × Chain k'.mem k'.freelist (pages_from n p ps)
unfolding free_pages pages_from
free_pages-Chain kernel_end zero p k ps al low base top b list = (k, refl, list)
free_pages-Chain kernel_end (suc n) p k ps al low base top b list =
    let (k', e, list') =
      kfree-Chain kernel_end p k ps al low base (omega arith) (below-IsApart b) list in
    let (k'', e', list'') =
      free_pages-Chain kernel_end n (p + 4096) k' (p ∷ ps) (omega arith) (omega arith) (omega arith)
        (omega arith) (below (omega arith) (IsBelow-mono (omega arith) b)) list' in
    (k'', rw (e, e'), list'')

-- `freerange` puts every page that lies in the range as a whole on the empty list once, and no
-- other, for a range between the kernel's end and PHYSTOP.
pub freerange-Chain :
    (kernel_end vstart vend : ℕ) (k : Kmem)
    → kernel_end ≤ vstart
    → kernbase ≤ vstart
    → vstart ≤ vend
    → vend ≤ kernbase + phystop
    → k.freelist ≡ 0
    → let p = page_round_up vstart in
      (k' : Kmem) × (freerange kernel_end vstart vend k ≡ some k')
      × Chain k'.mem k'.freelist (pages_from ((vend - p) / page_size) p [])
unfolding freerange page_round_up
freerange-Chain kernel_end vstart vend k low base le top e =
    free_pages-Chain kernel_end ((vend - page_round_up vstart) / page_size) (page_round_up vstart) k
      [] (omega arith) (omega arith) (omega arith) (omega arith) no_page
      (subst (λ a. Chain k.mem a []) (sym e) done)
