-- ===== src/Syscall.antt =====
-- syscall.c: how the kernel fetches the arguments of a system call from the memory of the process that
-- calls. `none` is the return value -1.
pub mod Words
pub mod Arguments
mod Tests
use os_ca.Common.{
  ℕ, zero, suc, ◌+◌, ◌-◌, ◌*◌, Bool, true, false, ◌&&◌, ◌||◌, Option, none, some, ◌>>=◌, Cells, ltb,
  leb, slt, ◌==◌, if◌then◌else◌, add32, minus_one,
}

-- Of the process: its size, the user stack pointer of its trap frame, and the byte at each address.
pub record Caller : Type 0 where
  pub sz : ℕ
  pub esp : ℕ
  pub mem : Cells

-- `*(int*)addr`
unfoldable pub int_at : Cells → ℕ → ℕ
int_at mem a = mem a + 256 * mem (a + 1) + 65536 * mem (a + 2) + 16777216 * mem (a + 3)

unfoldable pub fetchint : ℕ → Caller → Option ℕ
fetchint addr c =
    if leb c.sz addr || ltb c.sz (add32 addr 4) then none else some (int_at c.mem addr)

-- The loop of `fetchstr`, `n` bytes from `s` on.
unfoldable pub find_nul : ℕ → ℕ → ℕ → Cells → Option ℕ
find_nul zero start s mem = none
find_nul (suc n) start s mem =
    let rest = find_nul n start (s + 1) mem in if mem s == 0 then some (s - start) else rest

-- The string's length; `*pp` is `addr`.
unfoldable pub fetchstr : ℕ → Caller → Option ℕ
fetchstr addr c = if leb c.sz addr then none else find_nul (c.sz - addr) addr addr c.mem

unfoldable pub argint : ℕ → Caller → Option ℕ
argint n c = fetchint (add32 (add32 c.esp 4) (4 * n)) c

-- The pointer `*pp`.
unfoldable pub argptr : ℕ → ℕ → Caller → Option ℕ
argptr n size c = argint n c >>= λ (i : ℕ).
    if slt size 0 || leb c.sz i || ltb c.sz (add32 i size) then none else some i

-- The pointer `*pp` and the length.
unfoldable pub argstr : ℕ → Caller → Option (ℕ × ℕ)
argstr n c = argint n c >>= λ (addr : ℕ). fetchstr addr c >>= λ (len : ℕ). some (addr, len)

-- `syscall`, with the table of the system calls, each a change of the state `S` with a return value, which
-- has the numbers 1 to 21. The result goes to `eax`.
unfoldable pub syscall : {S : Type 0} → (ℕ → S → ℕ × S) → ℕ → S → ℕ × S
syscall calls num s = if slt 0 num && ltb num 22 then calls num s else (minus_one, s)
