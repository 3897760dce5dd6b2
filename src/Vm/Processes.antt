-- ===== src/Vm/Processes.antt =====
-- The page tables of processes: `setupkvm`, `freevm`, `clearpteu`, `copyuvm` and `uva2ka` of vm.c, and
-- `growproc` of proc.c. The linker's symbols `end` and `data` are parameters.
use os_ca.Common.{
  ℕ, zero, suc, ◌+◌, ◌-◌, ◌*◌, Bool, true, false, ◌&&◌, not, Option, none, some, ◌>>=◌, List, [],
  ◌∷◌, Cells, put, ltb, leb, slt, ◌==◌, if◌then◌else◌, add32, sub32,
}
use os_ca.Kalloc.{Kmem, page_size, kernbase, phystop, kalloc, kfree}
use os_ca.Vm.{
  pte_addr, pte_flags, v2p, p2v, is_present, is_user, clear_page, walkpgdir, mappages, deallocuvm,
  allocuvm, pages_between,
}

-- A row of `kmap`.
pub record Kmap : Type 0 where
  pub virt : ℕ
  pub phys_start : ℕ
  pub phys_end : ℕ
  pub perm : ℕ

-- The table, with EXTMEM, KERNLINK and DEVSPACE.
unfoldable pub kmap : ℕ → List Kmap
kmap data_start =
    record { virt = kernbase; phys_start = 0; phys_end = 0x100000; perm = 2 }
    ∷ record { virt = 0x80100000; phys_start = v2p 0x80100000; phys_end = v2p data_start; perm = 0 }
    ∷ record { virt = data_start; phys_start = v2p data_start; phys_end = phystop; perm = 2 }
    ∷ record { virt = 0xFE000000; phys_start = 0xFE000000; phys_end = 0; perm = 2 }
    ∷ []

-- The loop of `freevm` over the directory, `n` entries from `i` on.
unfoldable pub free_tables : ℕ → ℕ → ℕ → ℕ → Kmem → Option Kmem
free_tables zero kernel_end i pgdir k = some k
free_tables (suc n) kernel_end i pgdir k =
    let e = k.mem (pgdir + 4 * i) in
    let freed = kfree kernel_end (p2v (pte_addr e)) k >>= λ (k' : Kmem).
    free_tables n kernel_end (i + 1) pgdir k' in
    let kept = free_tables n kernel_end (i + 1) pgdir k in if is_present e then freed else kept

unfoldable pub freevm : ℕ → ℕ → Kmem → Option Kmem
freevm kernel_end pgdir k =
    if pgdir == 0
    then none
    else (deallocuvm kernel_end pgdir kernbase 0 k >>= λ (q : ℕ × Kmem).
        free_tables 1024 kernel_end 0 pgdir q.1 >>= kfree kernel_end pgdir)

-- The loop of `setupkvm` over the table; `false` where a call of `mappages` failed.
unfoldable pub map_rows : List Kmap → ℕ → Kmem → Option (Bool × Kmem)
map_rows [] pgdir k = some (true, k)
map_rows (row ∷ rows) pgdir k =
    mappages pgdir row.virt (sub32 row.phys_end row.phys_start) row.phys_start row.perm k
    >>= λ (q : Bool × Kmem). let rest = map_rows rows pgdir q.1 in if q.0 then rest else some q

unfoldable pub kvm_or_free : ℕ → ℕ → Bool × Kmem → Option (ℕ × Kmem)
kvm_or_free kernel_end pgdir (true, k) = some (pgdir, k)
kvm_or_free kernel_end pgdir (false, k) = freevm kernel_end pgdir k >>= λ (k' : Kmem). some (0, k')

-- The directory, or 0. P2V(PHYSTOP) is not above DEVSPACE, so there is no panic.
unfoldable pub setupkvm : ℕ → ℕ → Kmem → Option (ℕ × Kmem)
setupkvm kernel_end data_start k =
    let q = kalloc k in
    let cleared = record q.1 { mem = clear_page q.0 q.1.mem } in
    let built = map_rows (kmap data_start) q.0 cleared >>= kvm_or_free kernel_end q.0 in
    if q.0 == 0 then some (0, q.1) else built

-- `*pte &= ~PTE_U`
unfoldable pub clearpteu : ℕ → ℕ → Kmem → Option Kmem
clearpteu pgdir uva k =
    let pte = (walkpgdir pgdir uva false k).0 in
    let e = k.mem pte in
    if pte == 0
    then none
    else some (record k { mem = put k.mem pte (if is_user e then e - 4 else e) })

-- `memmove(dst, src, PGSIZE)` of two pages
unfoldable pub copy_page : ℕ → ℕ → Cells → Cells
copy_page dst src mem a =
    if leb dst a && ltb a (dst + page_size) then mem (src + (a - dst)) else mem a

-- What happens behind the label `bad`.
unfoldable pub give_up_copy : ℕ → ℕ → Kmem → Option (ℕ × Kmem)
give_up_copy kernel_end d k = freevm kernel_end d k >>= λ (k' : Kmem). some (0, k')

-- What `copyuvm` does with the page at `mem`: the entry in the child's table.
unfoldable pub map_copy : ℕ → ℕ → ℕ → ℕ → ℕ × Kmem → Option (Bool × ℕ × Kmem)
map_copy d i pa flags (mem, k) =
    mappages d i page_size (v2p mem) flags (record k { mem = copy_page mem (p2v pa) k.mem })
    >>= λ (r : Bool × Kmem). some (r.0, mem, r.1)

-- The loop of `copyuvm`, `n` pages from `i` on, into the directory `d`.
unfoldable pub copy_from : ℕ → ℕ → ℕ → ℕ → ℕ → Kmem → Option (ℕ × Kmem)
copy_from zero kernel_end i pgdir d k = some (d, k)
copy_from (suc n) kernel_end i pgdir d k =
    let pte = (walkpgdir pgdir i false k).0 in
    let e = k.mem pte in
    let q = kalloc k in
    let copied = map_copy d i (pte_addr e) (pte_flags e) q >>= λ (r : Bool × ℕ × Kmem).
    let rest = copy_from n kernel_end (i + page_size) pgdir d r.2 in
    let failed = kfree kernel_end r.1 r.2 >>= give_up_copy kernel_end d in
    if r.0 then rest else failed in
    let no_memory = give_up_copy kernel_end d q.1 in
    if pte == 0
    then none
    else if not (is_present e)
    then none
    else if q.0 == 0
    then no_memory
    else copied

-- The child's directory, or 0.
unfoldable pub copyuvm : ℕ → ℕ → ℕ → ℕ → Kmem → Option (ℕ × Kmem)
copyuvm kernel_end data_start pgdir sz k = setupkvm kernel_end data_start k >>= λ (q : ℕ × Kmem).
    let copied = copy_from (pages_between 0 sz) kernel_end 0 pgdir q.0 q.1 in
    if q.0 == 0 then some (0, q.1) else copied

-- The kernel address, or 0. It reads the word at 0 where there is no entry.
unfoldable pub uva2ka : ℕ → ℕ → Kmem → ℕ
uva2ka pgdir uva k =
    let e = k.mem (walkpgdir pgdir uva false k).0 in
    if not (is_present e) then 0 else if not (is_user e) then 0 else p2v (pte_addr e)

-- `growproc` for a process of size `sz`: its new size with 0, or -1.
pub data Growth : Type 0 where
  grew : ℕ → Kmem → Growth
  too_big : Kmem → Growth

unfoldable pub grown_to : ℕ × Kmem → Growth
grown_to (sz, k) = if sz == 0 then too_big k else grew sz k

unfoldable pub growproc : ℕ → ℕ → ℕ → ℕ → Kmem → Option Growth
growproc kernel_end pgdir sz n k =
    let more =
      allocuvm kernel_end pgdir sz (add32 sz n) k >>= λ (q : ℕ × Kmem). some (grown_to q) in
    let less =
      deallocuvm kernel_end pgdir sz (add32 sz n) k >>= λ (q : ℕ × Kmem). some (grown_to q) in
    if slt 0 n then more else if slt n 0 then less else some (grew sz k)
