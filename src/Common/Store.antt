-- ===== src/Common/Store.antt =====
-- A C array as a function from cell indices. The cells beyond its size stand for the memory that
-- lies behind (or, at the pattern of a negative index, before) the array.
use Prim.Native.Nat.{ℕ}
use mathlib.Core.Path.{◌≡◌}
use mathlib.Core.Logic.{◌≢◌}
use native.Mathlib.Omega.{arith}
use os_ca.Common.Tests.{◌==◌, if◌then◌else◌}

abbrev pub Cells : Type 0
Cells = ℕ → ℕ

abbrev pub put : Cells → ℕ → ℕ → Cells
put a i v j = if j == i then v else a j

pub put_self : (a : Cells) (i v : ℕ) → put a i v i ≡ v
put_self a i v = ground arith

pub put_ne : (a : Cells) (i v j : ℕ) → j ≢ i → put a i v j ≡ a j
put_ne a i v j h = ground arith
