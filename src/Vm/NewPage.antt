-- ===== src/Vm/NewPage.antt =====
-- One page more of a process: it is taken off the free list, cleared and mapped.
use Prim.Native.Nat.{bit_or}
use os_ca.Common.{
  ℕ, suc, ◌+◌, ◌%◌, ◌≤◌, ◌<◌, ◌≡◌, ◌≢◌, refl, ◌∙◌, sym, ap, Bool, true, false, Option, some, ◌>>=◌,
  List, ◌∷◌, length, Cells, if◌then◌else◌, ◌==◌, arith, word, subst,
}
use os_ca.Kalloc.{Kmem, page_size}
use os_ca.Vm.{
  pdx, is_present, is_user, v2p, clear_page, mappages, Grown, mapped, no_table, grow_page,
}
use os_ca.Vm.Entries.{v2p_aligned, entry-present, is_user-entry}
use os_ca.Vm.Spaces.{entry_at, IsSpace, IsSpace-outside, entry_at-outside, pdx-lt}
use os_ca.Vm.Walks.{kalloc-some}
use os_ca.Vm.Tables.{
  clear_page-outside, not_head, others, page_aligned, page_apart, page_pos, rest-Chain, Chain-head,
}
use os_ca.Vm.Maps.{same_page, Mapping, no_memory, remaps, maps, mappages-Mapping}

-- A page that is taken off the free list and cleared.
module _ (mem : Cells) (dir v : ℕ) (ps : List ℕ) (h : IsSpace mem v dir (v ∷ ps)) where
  without-IsSpace : IsSpace mem (mem v) dir ps
  without-IsSpace = record {
    aligned = h.aligned;
    chain = rest-Chain h.chain;
    in_word = h.in_word.1;
    dir_apart = others h.dir_apart;
    table_apart = λ i lt p. others (h.table_apart i lt p);
    not_null = h.not_null;
    not_dir = h.not_dir;
    distinct = h.distinct;
  }

  page_not_dir : v ≢ dir
  page_not_dir e = not_head h.dir_apart (sym e)

  cleared-IsSpace : IsSpace (clear_page v mem) (mem v) dir ps
  cleared-IsSpace =
      IsSpace-outside mem (clear_page v mem) (mem v) dir v ps without-IsSpace (page_aligned h.chain)
        page_not_dir (clear_page-outside v mem) (page_apart h.chain)

  cleared-entries : (u : ℕ) → entry_at (clear_page v mem) dir u ≡ entry_at mem dir u
  cleared-entries u =
      entry_at-outside mem (clear_page v mem) (mem v) dir v ps without-IsSpace
        (page_aligned h.chain) page_not_dir (clear_page-outside v mem) u
        (λ p e. not_head (h.table_apart (pdx u) (pdx-lt u) p) (sym e))

-- An entry that lets the process at its page.
abbrev pub IsMapped : ℕ → Type 0
IsMapped e = (is_present e ≡ true) × (is_user e ≡ true)

-- One more page is mapped, for at most two pages of the `n` free ones.
pub record GrownBy (mem : Cells) (n dir a : ℕ) (k' : Kmem) : Type 0 where
  pub free : List ℕ
  pub space : IsSpace k'.mem k'.freelist dir free
  pub entry : ℕ
  pub entry-IsMapped : IsMapped entry
  pub entries :
      (u : ℕ) → entry_at k'.mem dir u ≡ (if same_page u a then entry else entry_at mem dir u)
  pub room : n ≤ length free + 2

user_entry-IsMapped : (v : ℕ) → v % 4096 ≡ 0 → IsMapped (bit_or (bit_or (v2p v) 6) 1)
unfolding is_user
user_entry-IsMapped v al =
    let low = v2p_aligned v al in
    (entry-present (v2p v) 6 low (omega arith), is_user-entry (v2p v) 6 low (omega arith) ∙ refl)

mapped_as : ℕ → Bool × Kmem → Option Grown
mapped_as page r = some (if r.0 then mapped r.1 else no_table page r.1)

-- The mapping of a cleared page, by the outcome of `mappages`.
Mapping-GrownBy :
    (k : Kmem) (mem : Cells) (n dir a v : ℕ) (m : Option (Bool × Kmem))
    → v % 4096 ≡ 0
    → 0 < n
    → is_present (entry_at k.mem dir a) ≡ false
    → ((u : ℕ) → entry_at k.mem dir u ≡ entry_at mem dir u)
    → Mapping k n dir a (bit_or (bit_or (v2p v) 6) 1) m
    → (k' : Kmem) × ((m >>= mapped_as v) ≡ some (mapped k')) × GrownBy mem (suc n) dir a k'
unfolding mapped_as
Mapping-GrownBy k mem n dir a v _ al pos free_entry same (no_memory e z) = absurd (omega (arith, z))
Mapping-GrownBy k mem n dir a v _ al pos free_entry same (remaps p) =
    let never : true ≡ false = sym p ∙ free_entry in cc
Mapping-GrownBy k mem n dir a v _ al pos free_entry same (maps k' absent to) = (
  k',
  refl,
  record {
    free = to.free;
    space = to.space;
    entry = bit_or (bit_or (v2p v) 6) 1;
    entry-IsMapped = user_entry-IsMapped v al;
    entries = λ u.
        to.entries u ∙ ap (λ x. if same_page u a then bit_or (bit_or (v2p v) 6) 1 else x) (same u);
    room = omega (arith, to.room);
  },
)

pub grow_page-GrownBy :
    (k : Kmem) (dir a v : ℕ) (ps : List ℕ)
    → IsSpace k.mem k.freelist dir (v ∷ ps)
    → 0 < length ps
    → a % 4096 ≡ 0
    → a < word
    → is_present (entry_at k.mem dir a) ≡ false
    → (k' : Kmem) × (grow_page dir a k ≡ some (mapped k'))
      × GrownBy k.mem (length (v ∷ ps)) dir a k'
unfolding grow_page mapped_as
grow_page-GrownBy k dir a v ps h more al lt absent =
    let h' = subst (λ f. IsSpace k.mem f dir (v ∷ ps)) (Chain-head h.chain) h in
    let real : (v == 0) ≡ false = let pos = page_pos h'.chain in ground arith in
    let cleared : Kmem = record k { freelist = k.mem v; mem = clear_page v k.mem } in
    let (k', e, g) =
      Mapping-GrownBy cleared k.mem (length ps) dir a v (mappages dir a page_size (v2p v) 6 cleared)
        (page_aligned h'.chain) more (ap is_present (cleared-entries k.mem dir v ps h' a) ∙ absent)
        (cleared-entries k.mem dir v ps h')
        (mappages-Mapping cleared dir a (v2p v) 6 ps (cleared-IsSpace k.mem dir v ps h') al lt) in
    (k', rw (kalloc-some k v ps h.chain, real) e, g)
