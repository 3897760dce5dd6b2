-- ===== src/Vm/Grows.antt =====
-- `allocuvm` maps every page of the range that a process grows by.
use os_ca.Common.{
  ℕ, zero, suc, ◌+◌, ◌*◌, ◌/◌, ◌%◌, ◌≤◌, ◌<◌, ◌≡◌, ◌≢◌, refl, ◌∙◌, sym, ap, ◌⊎◌, inl, inr, true,
  false, Bool-cases, some, List, [], ◌∷◌, length, Cells, if◌then◌else◌, ltb, leb, ◌==◌, arith, word,
  subst,
}
use os_ca.Kalloc.{Kmem, kernbase, page_round_up}
use os_ca.Vm.{pdx, ptx, is_present, pages_between, alloc_from, allocuvm}
use os_ca.Vm.Spaces.{entry_at, IsSpace}
use os_ca.Vm.Maps.{same_page}
use os_ca.Vm.NewPage.{IsMapped, GrownBy, grow_page-GrownBy}

-- Pages by their addresses.
same_page-inside :
    (u a : ℕ) → a % 4096 ≡ 0 → u < word → a < word → a ≤ u → u < a + 4096 → same_page u a ≡ true
unfolding same_page pdx ptx
same_page-inside u a al lu la low high =
    let e : u / 4096 ≡ a / 4096 = omega arith in
    let d : u / 4194304 ≡ a / 4194304 = omega (arith, e) in ground (arith, e, d)

same_page-outside :
    (u a : ℕ)
    → a % 4096 ≡ 0
    → u < word
    → a < word
    → (u < a) ⊎ (a + 4096 ≤ u)
    → same_page u a ≡ false
unfolding same_page pdx ptx
same_page-outside u a al lu la out = elim (Bool-cases (u / 4194304 % 1024 == a / 4194304 % 1024)) [
  | inl d ↦
      let same_table : u / 4194304 % 1024 ≡ a / 4194304 % 1024 = ground arith in
      let ne : u / 4096 % 1024 ≢ a / 4096 % 1024 = λ e. elim out [
        | inl below ↦ omega (arith, e, same_table, below)
        | inr above ↦ omega (arith, e, same_table, above)
      ] in
      rw d (ground arith)
  | inr d ↦ rw d refl
]

-- The pages of a range are mapped, and all other entries are as they were.
pub record Extended (mem : Cells) (dir a n : ℕ) (k' : Kmem) : Type 0 where
  pub free : List ℕ
  pub space : IsSpace k'.mem k'.freelist dir free
  pub inside : (u : ℕ) → u < word → a ≤ u → u < a + 4096 * n → IsMapped (entry_at k'.mem dir u)
  pub outside :
      (u : ℕ) → u < word → (u < a) ⊎ (a + 4096 * n ≤ u) → entry_at k'.mem dir u ≡ entry_at mem dir u

-- No page of the range is present.
abbrev pub IsUnmapped : Cells → ℕ → ℕ → ℕ → Type 0
IsUnmapped mem dir a n =
    (u : ℕ) → u < word → a ≤ u → u < a + 4096 * n → is_present (entry_at mem dir u) ≡ false

-- One page, and the pages behind it.
module _ (mem : Cells) (dir a n : ℕ) (al : a % 4096 ≡ 0) (la : a + 4096 * suc n ≤ kernbase) (m : ℕ)
    (k1 : Kmem) (g : GrownBy mem m dir a k1) where
  grown-first : (u : ℕ) → u < word → a ≤ u → u < a + 4096 → entry_at k1.mem dir u ≡ g.entry
  grown-first u lu low high =
      let here = same_page-inside u a al lu (omega arith) low high in
      g.entries u ∙ ap (λ b. if b then g.entry else entry_at mem dir u) here

  grown-other :
      (u : ℕ) → u < word → (u < a) ⊎ (a + 4096 ≤ u) → entry_at k1.mem dir u ≡ entry_at mem dir u
  grown-other u lu out =
      let there = same_page-outside u a al lu (omega arith) out in
      g.entries u ∙ ap (λ b. if b then g.entry else entry_at mem dir u) there

  grown-IsUnmapped : IsUnmapped mem dir a (suc n) → IsUnmapped k1.mem dir (a + 4096) n
  grown-IsUnmapped h u lu low high =
      ap is_present (grown-other u lu (inr low)) ∙ h u lu (omega arith) (omega (arith, high))

  grown-Extended : (k' : Kmem) → Extended k1.mem dir (a + 4096) n k' → Extended mem dir a (suc n) k'
  grown-Extended k' x = record {
    free = x.free;
    space = x.space;
    inside = λ u lu low high. elim (Bool-cases (ltb u (a + 4096))) [
      | inl first ↦
          let in_first : u < a + 4096 = ground arith in
          subst IsMapped (sym (x.outside u lu (inl in_first) ∙ grown-first u lu low in_first))
            g.entry-IsMapped
      | inr later ↦
          let behind : a + 4096 ≤ u = ground arith in x.inside u lu behind (omega (arith, high))
    ];
    outside = λ u lu out. elim out [
      | inl below ↦ x.outside u lu (inl (omega (arith, below))) ∙ grown-other u lu (inl below)
      | inr above ↦
          x.outside u lu (inr (omega (arith, above)))
          ∙ grown-other u lu (inr (omega (arith, above)))
    ];
  }

alloc_from-Extended :
    (n kernel_end dir a oldsz newsz : ℕ) (k : Kmem) (free : List ℕ)
    → IsSpace k.mem k.freelist dir free
    → 2 * n ≤ length free
    → a % 4096 ≡ 0
    → a + 4096 * n ≤ kernbase
    → IsUnmapped k.mem dir a n
    → (k' : Kmem) × (alloc_from n kernel_end dir a oldsz newsz k ≡ some (newsz, k'))
      × Extended k.mem dir a n k'
unfolding alloc_from
alloc_from-Extended zero kernel_end dir a oldsz newsz k free h room al la out = (
  k,
  refl,
  record {
    free = free;
    space = h;
    inside = λ u lu low high. absurd (omega (arith, low, high));
    outside = λ u lu o. refl;
  },
)
alloc_from-Extended (suc n) kernel_end dir a oldsz newsz k [] h room al la out =
    absurd (omega arith)
alloc_from-Extended (suc n) kernel_end dir a oldsz newsz k (v ∷ ps) h room al la out =
    let (k1, e, g) =
      grow_page-GrownBy k dir a v ps h (omega arith) al (omega arith)
        (out a (omega arith) (omega arith) (omega arith)) in
    let (k', e', x) =
      alloc_from-Extended n kernel_end dir (a + 4096) oldsz newsz k1 g.free g.space
        (omega (arith, g.room)) (omega arith) (omega arith)
        (grown-IsUnmapped k.mem dir a n al la (length (v ∷ ps)) k1 g out) in
    (k', rw e e', grown-Extended k.mem dir a n al la (length (v ∷ ps)) k1 g k' x)

-- With two free pages for each page of the range, none of which is present, `allocuvm` returns the new
-- size, for sizes in order and below KERNBASE: every page from the old size, rounded up, to the new
-- size is present and open to the process then, no other entry has changed, and the directory, its
-- tables and the free pages are apart from one another again.
pub allocuvm-Extended :
    (kernel_end dir oldsz newsz : ℕ) (k : Kmem) (free : List ℕ)
    → IsSpace k.mem k.freelist dir free
    → oldsz ≤ newsz
    → newsz < kernbase
    → 2 * pages_between (page_round_up oldsz) newsz ≤ length free
    → IsUnmapped k.mem dir (page_round_up oldsz) (pages_between (page_round_up oldsz) newsz)
    → (k' : Kmem) × (allocuvm kernel_end dir oldsz newsz k ≡ some (newsz, k'))
      × Extended k.mem dir (page_round_up oldsz) (pages_between (page_round_up oldsz) newsz) k'
unfolding allocuvm pages_between page_round_up
allocuvm-Extended kernel_end dir oldsz newsz k free h le top room out =
    let low : leb kernbase newsz ≡ false = ground arith in
    let grows : ltb newsz oldsz ≡ false = ground arith in
    rw (low, grows)
      (alloc_from-Extended (pages_between (page_round_up oldsz) newsz) kernel_end dir
        (page_round_up oldsz) oldsz newsz k free h room (omega arith) (omega arith) out)
