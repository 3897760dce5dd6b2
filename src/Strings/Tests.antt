-- ===== src/Strings/Tests.antt =====
-- The copies at concrete states.
use os_ca.Common.{ℕ, ◌+◌, ◌≤◌, ◌<◌, ◌≡◌, ◌⊎◌, refl, Cells}
use os_ca.Strings.Memory.{memmove, copy_up, copy_down, memcmp}
use os_ca.Strings.Copies.{memmove-copies}

abbrev bytes : Cells
bytes a = a + 1

overlap : memmove 3 1 5 bytes 6 ≡ 5
unfolding memmove copy_up copy_down
overlap = refl

compares : memcmp 1 1 4 bytes ≡ 0
unfolding memcmp
compares = refl

memmove-copies_example :
    ((k : ℕ) → k < 5 → memmove 3 1 5 bytes (3 + k) ≡ bytes (1 + k))
    × ((a : ℕ) → a < 3 ⊎ 3 + 5 ≤ a → memmove 3 1 5 bytes a ≡ bytes a)
memmove-copies_example = memmove-copies 3 1 5 bytes
