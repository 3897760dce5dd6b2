-- ===== src/Vm/Tests.antt =====
-- Runs of the page tables, and their theorems at a small memory.
use Prim.Native.Nat.{bit_or}
use os_ca.Common.{
  ℕ, ◌<◌, ◌≡◌, refl, sym, true, false, Option, none, some, List, [], ◌∷◌, Cells, ◌==◌,
  if◌then◌else◌, arith, ◌∙◌, ap, ◌+◌, minus_one, ◌-◌,
}
use os_ca.Kalloc.{Kmem, kalloc, kfree, fill_junk, page_round_up}
use os_ca.Kalloc.Pages.{none_left, differs, done, link}
use os_ca.Vm.{
  pdx, ptx, pte_addr, v2p, p2v, is_present, is_user, walkpgdir, new_table, clear_page, map_page,
  map_from, page_round_down, mappages, pages_between, grow_page, alloc_from, allocuvm, dealloc_from,
  deallocuvm, freed_to, then_go, free_entry, next_table,
}
use os_ca.Vm.Processes.{uva2ka, growproc, grown_to, Growth, grew, too_big}
use os_ca.Vm.Spaces.{has_table, entry_at, IsSpace}
use os_ca.Vm.Maps.{Mapping, mappages-Mapping}
use os_ca.Vm.Grows.{Extended, allocuvm-Extended}
use os_ca.Vm.Ends.{IsOver, dealloc_from-ends}

-- An empty directory at 0x80400000 and four free pages behind it.
abbrev dir : ℕ
dir = 0x80400000

abbrev words : Cells
words a =
    if a == 0x80401000
    then 0x80402000
    else if a == 0x80402000
    then 0x80403000
    else if a == 0x80403000
    then 0x80404000
    else 0

abbrev start : Kmem
start = record { mem = words; use_lock = false; freelist = 0x80401000 }

abbrev free : List ℕ
free = 0x80401000 ∷ 0x80402000 ∷ 0x80403000 ∷ 0x80404000 ∷ []

no_tables : (i : ℕ) → i < 1024 → has_table words dir i ≡ false
unfolding is_present
no_tables i lt = ground arith

no_entries : (u : ℕ) → entry_at words dir u ≡ 0
unfolding entry_at pdx
no_entries u = let none_there = no_tables (pdx u) (omega arith) in rw none_there refl

no_pages : (u : ℕ) → is_present (entry_at words dir u) ≡ false
unfolding is_present
no_pages u = ap is_present (no_entries u) ∙ refl

start-IsSpace : IsSpace words 0x80401000 dir free
start-IsSpace = record {
  aligned = omega arith;
  chain =
      link (omega arith) (omega arith)
        (differs (omega arith) (differs (omega arith) (differs (omega arith) none_left)))
        (link (omega arith) (omega arith) (differs (omega arith) (differs (omega arith) none_left))
          (link (omega arith) (omega arith) (differs (omega arith) none_left)
            (link (omega arith) (omega arith) none_left done)));
  in_word = omega arith;
  dir_apart =
      differs (omega arith)
        (differs (omega arith) (differs (omega arith) (differs (omega arith) none_left)));
  table_apart = λ i lt p. let never : true ≡ false = sym p ∙ no_tables i lt in cc;
  not_null = λ i lt p. let never : true ≡ false = sym p ∙ no_tables i lt in cc;
  not_dir = λ i lt p. let never : true ≡ false = sym p ∙ no_tables i lt in cc;
  distinct = λ i j li lj p q. let never : true ≡ false = sym p ∙ no_tables i li in cc;
}

mappages-Mapping_example :
    Mapping start 4 dir 0x3000
      (bit_or (bit_or 0x5000 6) 1)
      (mappages dir 0x3000 4096 0x5000 6 start)
mappages-Mapping_example =
    mappages-Mapping start dir 0x3000 0x5000 6 free start-IsSpace (omega arith) (omega arith)

allocuvm-Extended_example :
    (k' : Kmem) × (allocuvm 0x80100000 dir 0 5000 start ≡ some (5000, k'))
    × Extended words dir 0 2 k'
unfolding page_round_up pages_between
allocuvm-Extended_example =
    allocuvm-Extended 0x80100000 dir 0 5000 start free start-IsSpace (omega arith) (omega arith)
      (omega arith) (λ u lu low high. no_pages u)

dealloc_from-ends_example :
    IsOver (
      dealloc_from
        (pages_between (page_round_up 904) 9000)
        0x80100000
        dir
        (page_round_up 904)
        9000
        start)
    × ((more : ℕ)
        → dealloc_from
            (pages_between (page_round_up 904) 9000 + more)
            0x80100000
            dir
            (page_round_up 904)
            9000
            start
          ≡ dealloc_from
              (pages_between (page_round_up 904) 9000)
              0x80100000
              dir
              (page_round_up 904)
              9000
              start)
dealloc_from-ends_example =
    dealloc_from-ends 0x80100000 dir 9000 904 start (omega arith) (omega arith)

-- The memory of a process of 5000 bytes.
abbrev grown : Kmem
grown = elim (allocuvm 0x80100000 dir 0 5000 start) [ some (n, k) ↦ k | none ↦ start ]

mapped-page : uva2ka dir 4096 grown ≡ 0x80403000
unfolding uva2ka allocuvm alloc_from pages_between page_round_up grow_page mappages map_from
    map_page page_round_down walkpgdir new_table clear_page kalloc pdx ptx pte_addr v2p p2v
    is_present is_user
mapped-page = refl

unmapped-zero : uva2ka dir 8192 grown ≡ 0
unfolding uva2ka allocuvm alloc_from pages_between page_round_up grow_page mappages map_from
    map_page page_round_down walkpgdir new_table clear_page kalloc pdx ptx pte_addr v2p p2v
    is_present is_user
unmapped-zero = refl

-- The state behind a `growproc`, and whether it returned 0.
abbrev returned : Option Growth → ℕ
returned (some (grew sz k)) = sz
returned (some (too_big k)) = minus_one
returned none = 0

shrinks : returned (growproc 0x80100000 dir 5000 (minus_one - 4095) grown) ≡ 904
unfolding growproc grown_to deallocuvm freed_to dealloc_from then_go free_entry kfree fill_junk
    next_table uva2ka allocuvm alloc_from pages_between page_round_up grow_page mappages map_from
    map_page page_round_down walkpgdir new_table clear_page kalloc pdx ptx pte_addr v2p p2v
    is_present is_user
shrinks = refl

-- A process that gives back all its memory is told that this failed.
shrinks-to_zero : returned (growproc 0x80100000 dir 5000 (minus_one - 4999) grown) ≡ minus_one
unfolding growproc grown_to deallocuvm freed_to dealloc_from then_go free_entry kfree fill_junk
    next_table uva2ka allocuvm alloc_from pages_between page_round_up grow_page mappages map_from
    map_page page_round_down walkpgdir new_table clear_page kalloc pdx ptx pte_addr v2p p2v
    is_present is_user
shrinks-to_zero = refl
