-- ===== src/Kalloc/Tests.antt =====
-- Runs of the allocator, and its theorems at concrete states.
use os_ca.Common.{ℕ, ◌+◌, ◌/◌, ◌-◌, ◌≡◌, refl, false, arith, some, [], ◌∷◌, none}
use os_ca.Kalloc.{Kmem, kfree, freerange, page_round_up, page_size}
use os_ca.Kalloc.Pages.{none_left, Chain, done, link, freerange-Chain, pages_from}

abbrev empty : Kmem
empty = record { mem = λ a. 0; use_lock = false; freelist = 0 }

-- the first pages of the kernel's own range
abbrev low_end : ℕ
low_end = 0x80110400

abbrev first_page : ℕ
first_page = 0x80111000

refuses-odd : kfree low_end (first_page + 4) empty ≡ none
unfolding kfree
refuses-odd = refl

abbrev one_page : Kmem
one_page = record empty { freelist = first_page }

one_page-Chain : Chain one_page.mem first_page (first_page ∷ [])
one_page-Chain = link (omega arith) refl none_left done

freerange-Chain_example :
    (k' : Kmem) × (freerange low_end low_end (low_end + 20000) empty ≡ some k')
    × Chain k'.mem k'.freelist (
        pages_from
          ((low_end + 20000 - page_round_up low_end) / page_size)
          (page_round_up low_end)
          [])
freerange-Chain_example =
    freerange-Chain low_end low_end (low_end + 20000) empty (omega arith) (omega arith)
      (omega arith) (omega arith) refl
