-- ===== src/Console/Print.antt =====
-- `printint` and `cprintf`.
pub mod Digits
use os_ca.Common.{
  ℕ, zero, suc, ◌+◌, ◌-◌, ◌/◌, ◌%◌, ◌<◌, Bool, true, false, not, ◌++◌, ◌&&◌, ◌||◌, List, [], ◌∷◌,
  ltb, ◌==◌, if◌then◌else◌, slt, sub32, half_word, Option, none, some,
}
use mathlib.Core.Option
use os_ca.Console.Display.{put_bytes}
use os_ca.Console.State.{Screen}

-- `digits[d]`
unfoldable pub digit : ℕ → ℕ
digit d = if ltb d 10 then b'0' + d else b'a' + (d - 10)

-- The `do … while ((x /= base) != 0)` loop on fuel: the bytes are stored upwards and printed
-- downwards, so each digit goes in front of those that are there.
unfoldable pub put_digits : ℕ → ℕ → ℕ → List ℕ → List ℕ
unfolding digit
put_digits zero base x acc = acc
put_digits (suc fuel) base x acc =
    let more = put_digits fuel base (x / base) (digit (x % base) ∷ acc) in
    if x / base == 0 then digit (x % base) ∷ acc else more

-- What `printint` prints. A 32-bit number has at most 32 digits.
unfoldable pub int_bytes : ℕ → ℕ → Bool → List ℕ
unfolding put_digits
int_bytes xx base sign =
    if sign && ltb (half_word - 1) xx
    then b'-' ∷ put_digits 32 base (sub32 0 xx) []
    else put_digits 32 base xx []

-- An argument of `cprintf`: a number, or a string (`none` is the null pointer).
pub data Arg : Type 0 where
  num : ℕ → Arg
  str : Option (List ℕ) → Arg

-- "(null)"
abbrev pub null_bytes : List ℕ
null_bytes = b'(' ∷ b'n' ∷ b'u' ∷ b'l' ∷ b'l' ∷ b')' ∷ []

abbrev pub arg_bytes : Option (List ℕ) → List ℕ
arg_bytes none = null_bytes
arg_bytes (some s) = s

-- The bytes that `cprintf` prints; `none` where an argument is missing or is of the other kind,
-- which C leaves undefined. Two helpers put bytes in front of those of the rest.
abbrev in_front : List ℕ → Option (List ℕ) → Option (List ℕ)
in_front bs none = none
in_front bs (some rest) = some (bs ++ rest)

-- The argument that a `%d`, `%x` or `%p` takes, and the arguments behind it.
abbrev next_num : List Arg → Option (ℕ × List Arg)
next_num (num n ∷ args) = some (n, args)
next_num _ = none

abbrev next_str : List Arg → Option (List ℕ × List Arg)
next_str (str s ∷ args) = some (arg_bytes s, args)
next_str _ = none

-- The loop over the format. A `%` at its end prints nothing.
unfoldable pub format : List ℕ → List Arg → Option (List ℕ)
unfolding int_bytes
format [] args = some []
format (c ∷ []) args = if c == b'%' then some [] else some (c ∷ [])
format (c ∷ d ∷ fmt) args =
    let plain = format (d ∷ fmt) args in
    let same = format fmt args in
    let decimal : Option (List ℕ) = elim (next_num args) [
      | none ↦ none
      | some (n, rest) ↦ in_front (int_bytes n 10 true) (format fmt rest)
    ] in
    let hex : Option (List ℕ) = elim (next_num args) [
      | none ↦ none
      | some (n, rest) ↦ in_front (int_bytes n 16 false) (format fmt rest)
    ] in
    let text : Option (List ℕ) = elim (next_str args) [
      | none ↦ none
      | some (s, rest) ↦ in_front s (format fmt rest)
    ] in
    if not (c == b'%')
    then in_front (c ∷ []) plain
    else if d == b'd'
    then decimal
    else if d == b'x' || d == b'p'
    then hex
    else if d == b's'
    then text
    else if d == b'%'
    then in_front (b'%' ∷ []) same
    else in_front (b'%' ∷ d ∷ []) same

-- `cprintf`, between `acquire` and `release` where `locking` is set.
unfoldable pub cprintf : List ℕ → List Arg → Screen → Option Screen
unfolding format put_bytes
cprintf fmt args s = Option.map (λ bs. put_bytes bs s) (format fmt args)
