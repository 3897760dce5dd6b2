-- ===== src/Kalloc.antt =====
-- kalloc.c: the allocator of physical pages, whose free list runs through the first words of the
-- free pages. The memory is the word at each address; `kernel_end` is the linker's symbol `end`.
pub mod Pages
mod Tests
use os_ca.Common.{
  ℕ, zero, suc, ◌+◌, ◌-◌, ◌*◌, ◌/◌, ◌%◌, Bool, true, false, ◌||◌, not, Option, none, some, Cells,
  put, ltb, leb, ◌==◌, if◌then◌else◌, add32, sub32, ◌>>=◌,
}

pub record Kmem : Type 0 where
  pub mem : Cells
  pub use_lock : Bool
  pub freelist : ℕ

-- PGSIZE, KERNBASE and PHYSTOP
abbrev pub page_size : ℕ
page_size = 4096

abbrev pub kernbase : ℕ
kernbase = 0x80000000

abbrev pub phystop : ℕ
phystop = 0xE000000

-- PGROUNDUP
unfoldable pub page_round_up : ℕ → ℕ
page_round_up a = add32 a 4095 / page_size * page_size

-- `memset(v, 1, PGSIZE)`: four bytes of 1 in each word.
unfoldable pub fill_junk : ℕ → Cells → Cells
fill_junk v mem a = if leb v a then (if ltb a (v + page_size) then 0x01010101 else mem a) else mem a

-- `none` is the panic.
unfoldable pub kfree : ℕ → ℕ → Kmem → Option Kmem
kfree kernel_end v k =
    if not (v % page_size == 0) || ltb v kernel_end || leb phystop (sub32 v kernbase)
    then none
    else some (record k { mem = put (fill_junk v k.mem) v k.freelist; freelist = v })

-- The page's address, or 0.
unfoldable pub kalloc : Kmem → ℕ × Kmem
kalloc k =
    if k.freelist == 0 then (0, k) else (k.freelist, record k { freelist = k.mem k.freelist })

-- The loop of `freerange`, `n` rounds from `p` on.
unfoldable pub free_pages : ℕ → ℕ → ℕ → Kmem → Option Kmem
free_pages kernel_end zero p k = some k
free_pages kernel_end (suc n) p k = do
  k' ← kfree kernel_end p k
  free_pages kernel_end n (p + page_size) k'

-- `p + PGSIZE <= vend` holds for that many rounds.
unfoldable pub freerange : ℕ → ℕ → ℕ → Kmem → Option Kmem
freerange kernel_end vstart vend k =
    let p = page_round_up vstart in free_pages kernel_end ((vend - p) / page_size) p k

unfoldable pub kinit1 : ℕ → ℕ → ℕ → Kmem → Option Kmem
kinit1 kernel_end vstart vend k = freerange kernel_end vstart vend (record k { use_lock = false })

unfoldable pub kinit2 : ℕ → ℕ → ℕ → Kmem → Option Kmem
kinit2 kernel_end vstart vend k = do
  k' ← freerange kernel_end vstart vend k
  some (record k' { use_lock = true })
