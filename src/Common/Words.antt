-- ===== src/Common/Words.antt =====
-- 32-bit words. An `int` and a `uint` are both the bit pattern, a number below 2^32, so a cast
-- between them changes nothing; the signed tests compare patterns with the sign bit turned round.
use Prim.Native.Nat.{ℕ, ◌+◌, ◌-◌, ◌%◌, ◌<◌}
use mathlib.Core.Path.{◌≡◌}
use mathlib.Core.Bool.{Bool}
use native.Mathlib.Omega.{arith}
use os_ca.Common.Tests.{ltb, if◌then◌else◌}

abbrev pub word : ℕ
word = 4294967296

abbrev pub half_word : ℕ
half_word = 2147483648

abbrev pub minus_one : ℕ
minus_one = 4294967295

-- a + b and a - b, of either type
abbrev pub add32 : ℕ → ℕ → ℕ
add32 a b = (a + b) % word

abbrev pub sub32 : ℕ → ℕ → ℕ
sub32 a b = (a + word - b) % word

-- The order of the signed numbers is that of the patterns shifted by half the range.
abbrev pub flip : ℕ → ℕ
flip a = (a + half_word) % word

-- a < b for two `int`
abbrev pub slt : ℕ → ℕ → Bool
slt a b = ltb (flip a) (flip b)

-- a % n for an `int` a and a positive n: C's remainder has the sign of a.
abbrev pub srem : ℕ → ℕ → ℕ
srem a n = if ltb a half_word then a % n else (word - (word - a) % n) % word

-- the rounds of `for (i = a; i < b; i++)`, by the unsigned and by the signed test
abbrev pub rounds : ℕ → ℕ → ℕ
rounds a b = b - a

abbrev pub srounds : ℕ → ℕ → ℕ
srounds a b = flip b - flip a

pub srounds_small : (a b : ℕ) → a < half_word → b < half_word → srounds a b ≡ b - a
srounds_small a b ha hb = omega arith
