-- ===== src/Vm.antt =====
-- vm.c: page tables in the memory that kalloc.c hands out, and `growproc` of proc.c on top of them. The
-- memory is the word at each kernel address; `none` is a panic.
pub mod Entries
pub mod Spaces
pub mod Tables
pub mod Walks
pub mod Maps
pub mod NewPage
pub mod Grows
pub mod Ends
pub mod Processes
mod Tests
use Prim.Native.Nat.{bit_or}
use os_ca.Common.{
  ℕ, zero, suc, ◌+◌, ◌-◌, ◌*◌, ◌/◌, ◌%◌, Bool, true, false, ◌&&◌, not, Option, none, some, ◌>>=◌,
  List, [], ◌∷◌, Cells, put, ltb, leb, slt, ◌==◌, if◌then◌else◌, add32, sub32,
}
use os_ca.Kalloc.{Kmem, page_size, kernbase, phystop, page_round_up, kalloc, kfree}

-- PDX, PTX, PTE_ADDR and PTE_FLAGS
unfoldable pub pdx : ℕ → ℕ
pdx va = va / 4194304 % 1024

unfoldable pub ptx : ℕ → ℕ
ptx va = va / 4096 % 1024

unfoldable pub pte_addr : ℕ → ℕ
pte_addr e = e / 4096 * 4096

unfoldable pub pte_flags : ℕ → ℕ
pte_flags e = e % 4096

-- V2P and P2V
unfoldable pub v2p : ℕ → ℕ
v2p a = sub32 a kernbase

unfoldable pub p2v : ℕ → ℕ
p2v a = add32 a kernbase

-- The tests of PTE_P and PTE_U.
unfoldable pub is_present : ℕ → Bool
is_present e = e % 2 == 1

unfoldable pub is_user : ℕ → Bool
is_user e = e / 4 % 2 == 1

-- `memset(v, 0, PGSIZE)`
unfoldable pub clear_page : ℕ → Cells → Cells
clear_page v mem a = if leb v a && ltb a (v + page_size) then 0 else mem a

-- `walkpgdir` behind its call of `kalloc`, for the directory entry at `pde`.
unfoldable pub new_table : ℕ → ℕ → ℕ × Kmem → ℕ × Kmem
new_table pde va (page, k) = if page == 0 then (0, k) else (
  page + 4 * ptx va,
  record k { mem = put (clear_page page k.mem) pde (bit_or (v2p page) 7) },
)

-- The address of the entry, or 0.
unfoldable pub walkpgdir : ℕ → ℕ → Bool → Kmem → ℕ × Kmem
walkpgdir pgdir va alloc k =
    let pde = pgdir + 4 * pdx va in
    if is_present (k.mem pde)
    then (p2v (pte_addr (k.mem pde)) + 4 * ptx va, k)
    else if not alloc
    then (0, k)
    else new_table pde va (kalloc k)

-- A round of the loop of `mappages`, with whether the loop goes on.
unfoldable pub map_page : ℕ → ℕ → ℕ → ℕ → Kmem → Option (Bool × Kmem)
map_page pgdir a pa perm k =
    let w = walkpgdir pgdir a true k in
    if w.0 == 0
    then some (false, w.1)
    else if is_present (w.1.mem w.0)
    then none
    else some (true, record w.1 { mem = put w.1.mem w.0 (bit_or (bit_or pa perm) 1) })

-- The loop with `n` more rounds behind this one.
unfoldable pub map_from : ℕ → ℕ → ℕ → ℕ → ℕ → Kmem → Option (Bool × Kmem)
map_from zero pgdir a pa perm k = map_page pgdir a pa perm k
map_from (suc n) pgdir a pa perm k = map_page pgdir a pa perm k >>= λ (q : Bool × Kmem).
    let rest = map_from n pgdir (add32 a page_size) (add32 pa page_size) perm q.1 in
    if q.0 then rest else some q

-- PGROUNDDOWN
unfoldable pub page_round_down : ℕ → ℕ
page_round_down a = a / 4096 * 4096

-- `false` is the return value -1. The loop ends where `a` is `last`, after this many pages.
unfoldable pub mappages : ℕ → ℕ → ℕ → ℕ → ℕ → Kmem → Option (Bool × Kmem)
mappages pgdir va size pa perm k =
    let a = page_round_down va in
    let last = page_round_down (sub32 (add32 va size) 1) in
    map_from (sub32 last a / page_size) pgdir a pa perm k

-- A round of `deallocuvm` at a present entry.
unfoldable pub free_entry : ℕ → ℕ → Kmem → Option Kmem
free_entry kernel_end pte k =
    let pa = pte_addr (k.mem pte) in
    if pa == 0
    then none
    else (kfree kernel_end (p2v pa) k >>= λ (k' : Kmem).
        some (record k' { mem = put k'.mem pte 0 }))

-- The address that the loop goes on with where there is no table: PGADDR(PDX(a) + 1, 0, 0).
unfoldable pub next_table : ℕ → ℕ
next_table a = add32 (sub32 ((pdx a + 1) * 4194304 % 4294967296) page_size) page_size

-- What the loop of `deallocuvm` comes to: its own end, a panic, or none of them within its rounds.
pub data Freed : Type 0 where
  ended : Kmem → Freed
  panicked : Freed
  unfinished : Freed

-- A step that may panic, and what follows it.
unfoldable pub then_go : Option Kmem → (Kmem → Freed) → Freed
then_go none next = panicked
then_go (some k) next = next k

-- The loop, at most `n` rounds.
unfoldable pub dealloc_from : ℕ → ℕ → ℕ → ℕ → ℕ → Kmem → Freed
dealloc_from zero kernel_end pgdir a oldsz k = if ltb a oldsz then unfinished else ended k
dealloc_from (suc n) kernel_end pgdir a oldsz k =
    let pte = (walkpgdir pgdir a false k).0 in
    let skip = dealloc_from n kernel_end pgdir (next_table a) oldsz k in
    let absent = dealloc_from n kernel_end pgdir (add32 a page_size) oldsz k in
    let freed =
      then_go (free_entry kernel_end pte k)
        (λ k'. dealloc_from n kernel_end pgdir (add32 a page_size) oldsz k') in
    if not (ltb a oldsz)
    then ended k
    else if pte == 0
    then skip
    else if is_present (k.mem pte)
    then freed
    else absent

-- The pages from `a` up to `b`, the last one counted where it is only begun.
unfoldable pub pages_between : ℕ → ℕ → ℕ
pages_between a b = (b - a + 4095) / page_size

-- The end of `deallocuvm`, with the new size.
unfoldable pub freed_to : ℕ → Freed → Option (ℕ × Kmem)
freed_to newsz (ended k) = some (newsz, k)
freed_to newsz panicked = none
freed_to newsz unfinished = none

-- `none` is a panic, or a loop that has not ended in a round for each page of its range.
unfoldable pub deallocuvm : ℕ → ℕ → ℕ → ℕ → Kmem → Option (ℕ × Kmem)
deallocuvm kernel_end pgdir oldsz newsz k =
    let a = page_round_up newsz in
    if leb oldsz newsz
    then some (oldsz, k)
    else freed_to newsz (dealloc_from (pages_between a oldsz) kernel_end pgdir a oldsz k)

-- A round of `allocuvm`: the page at `a` is mapped, or there is no page, or no table for it.
pub data Grown : Type 0 where
  mapped : Kmem → Grown
  no_page : Kmem → Grown
  no_table : ℕ → Kmem → Grown

unfoldable pub grow_page : ℕ → ℕ → Kmem → Option Grown
grow_page pgdir a k =
    let q = kalloc k in
    let cleared = record q.1 { mem = clear_page q.0 q.1.mem } in
    let tried = mappages pgdir a page_size (v2p q.0) 6 cleared >>= λ (r : Bool × Kmem).
    some (if r.0 then mapped r.1 else no_table q.0 r.1) in
    if q.0 == 0 then some (no_page q.1) else tried

-- What `allocuvm` does where a round failed, and its return value 0.
unfoldable pub undo_growth : ℕ → ℕ → ℕ → ℕ → Kmem → Option (ℕ × Kmem)
undo_growth kernel_end pgdir oldsz newsz k =
    deallocuvm kernel_end pgdir newsz oldsz k >>= λ (q : ℕ × Kmem). some (0, q.1)

-- The loop of `allocuvm`, `n` rounds from `a` on.
unfoldable pub alloc_from : ℕ → ℕ → ℕ → ℕ → ℕ → ℕ → Kmem → Option (ℕ × Kmem)
alloc_from zero kernel_end pgdir a oldsz newsz k = some (newsz, k)
alloc_from (suc n) kernel_end pgdir a oldsz newsz k = grow_page pgdir a k >>= λ (g : Grown).
    elim g [
      | mapped k' ↦ alloc_from n kernel_end pgdir (a + page_size) oldsz newsz k'
      | no_page k' ↦ undo_growth kernel_end pgdir oldsz newsz k'
      | no_table page k' ↦
          (undo_growth kernel_end pgdir oldsz newsz k' >>= λ (q : ℕ × Kmem).
          kfree kernel_end page q.1 >>= λ (k'' : Kmem). some (0, k''))
    ]

unfoldable pub allocuvm : ℕ → ℕ → ℕ → ℕ → Kmem → Option (ℕ × Kmem)
allocuvm kernel_end pgdir oldsz newsz k =
    let a = page_round_up oldsz in
    if leb kernbase newsz
    then some (0, k)
    else if ltb newsz oldsz
    then some (oldsz, k)
    else alloc_from (pages_between a newsz) kernel_end pgdir a oldsz newsz k
