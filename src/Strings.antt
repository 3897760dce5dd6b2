-- ===== src/Strings.antt =====
-- string.c: the string functions the kernel's components call, over lists of bytes.
pub mod Memory
pub mod Copies
mod Tests
use os_ca.Common.{ℕ, zero, suc, ◌+◌, List, [], ◌∷◌, sub32, ◌==◌, if◌then◌else◌}

-- A C string is the list of its bytes without the NUL; what is read at the list's end is the NUL.
-- The result is the difference of two `uchar`, an `int`.
unfoldable pub strncmp : List ℕ → List ℕ → ℕ → ℕ
strncmp p q zero = 0
strncmp [] [] (suc n) = 0
strncmp [] (b ∷ q) (suc n) = sub32 0 b
strncmp (a ∷ p) [] (suc n) = a
strncmp (a ∷ p) (b ∷ q) (suc n) =
    let rest = strncmp p q n in if a == 0 then sub32 a b else if a == b then rest else sub32 a b

unfoldable pub strlen : List ℕ → ℕ
strlen [] = 0
strlen (c ∷ s) = strlen s + 1
