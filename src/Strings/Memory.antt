-- ===== src/Strings/Memory.antt =====
-- string.c: the functions that copy and compare bytes in memory, which is the byte at each address.
-- What they are given does not go round the end of the address space.
use os_ca.Common.{ℕ, zero, suc, ◌+◌, Cells, put, ltb, ◌&&◌, ◌==◌, if◌then◌else◌, sub32}

-- `*d++ = *s++`, `n` times
unfoldable pub copy_up : ℕ → ℕ → ℕ → Cells → Cells
copy_up zero d s mem = mem
copy_up (suc n) d s mem = copy_up n (d + 1) (s + 1) (put mem d (mem s))

-- `*--d = *--s`, `n` times, down to the addresses `d` and `s`
unfoldable pub copy_down : ℕ → ℕ → ℕ → Cells → Cells
copy_down zero d s mem = mem
copy_down (suc n) d s mem = copy_down n d s (put mem (d + n) (mem (s + n)))

unfoldable pub memmove : ℕ → ℕ → ℕ → Cells → Cells
memmove dst src n mem =
    if ltb src dst && ltb dst (src + n) then copy_down n dst src mem else copy_up n dst src mem

unfoldable pub memcpy : ℕ → ℕ → ℕ → Cells → Cells
memcpy dst src n mem = memmove dst src n mem

unfoldable pub memcmp : ℕ → ℕ → ℕ → Cells → ℕ
memcmp v1 v2 zero mem = 0
memcmp v1 v2 (suc n) mem =
    let rest = memcmp (v1 + 1) (v2 + 1) n mem in
    if mem v1 == mem v2 then rest else sub32 (mem v1) (mem v2)

-- The loop of `safestrcpy`, at most `n` bytes, and the NUL behind it: the loop has moved on from a
-- NUL that it copied.
unfoldable pub copy_string : ℕ → ℕ → ℕ → Cells → Cells
copy_string zero s t mem = put mem s 0
copy_string (suc n) s t mem =
    let mem' : Cells = put mem s (mem t) in
    let rest = copy_string n (s + 1) (t + 1) mem' in if mem t == 0 then put mem' (s + 1) 0 else rest

-- `safestrcpy` for an `n` that is not negative
unfoldable pub safestrcpy : ℕ → ℕ → ℕ → Cells → Cells
safestrcpy s t zero mem = mem
safestrcpy s t (suc n) mem = copy_string n s t mem
