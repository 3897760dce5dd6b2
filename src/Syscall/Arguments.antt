-- ===== src/Syscall/Arguments.antt =====
-- The kernel reads and takes only memory of the process.
use os_ca.Common.{
  ℕ, zero, suc, ◌+◌, ◌-◌, ◌≤◌, ◌<◌, ◌≡◌, ◌≢◌, ◌↔◌, refl, ◌∙◌, sym, ap, false, ◌||◌, Bool-cases, inl,
  inr, Option, none, some, ◌>>=◌, Cells, if◌then◌else◌, ltb, leb, slt, ◌==◌, arith, add32, word,
  half_word, subst,
}
use os_ca.Kalloc.{kernbase}
use os_ca.Syscall.{Caller, int_at, find_nul, fetchstr, argint, argptr, argstr}
use os_ca.Syscall.Words.{
  IsUser, arg_place, int_at-lt, HoldsInt, Fetched, argint-Fetched, fetched, refused,
}

-- What `argptr` gives: a pointer whose `size` bytes lie in the memory of the process, taken from a word of
-- the stack that lies there too.
pub record PointsInside (n size : ℕ) (c : Caller) (p : ℕ) : Type 0 where
  pub on_stack : HoldsInt (arg_place n c) c
  pub value : p ≡ int_at c.mem (arg_place n c)
  pub positive : size < half_word
  pub below : p < c.sz
  pub fits : p + size ≤ c.sz

-- The tests of `argptr`.
abbrev checked : ℕ → Caller → ℕ → Option ℕ
checked size c i = if slt size 0 || leb c.sz i || ltb c.sz (add32 i size) then none else some i

checked_iff :
    (size v p : ℕ) (c : Caller)
    → c.sz ≤ kernbase
    → size < word
    → v < word
    → (checked size c v ≡ some p) ↔ ((p ≡ v) × (size < half_word) × (p < c.sz) × (p + size ≤ c.sz))
checked_iff size v p c top ls lv = (
  λ e. (ground arith, ground arith, ground arith, ground arith),
  λ (e, pos, below, fits).
      let passes : (slt size 0 || leb c.sz v || ltb c.sz (add32 v size)) ≡ false = ground arith in
      rw (passes, e) refl,
)

from_stack :
    (n size p : ℕ) (c : Caller) (o : Option ℕ)
    → IsUser c
    → size < word
    → Fetched n c o
    → ((o >>= checked size c) ≡ some p) ↔ PointsInside n size c p
from_stack n size p c _ u ls (refused out) = (λ e. cc, λ h. absurd (out h.on_stack))
from_stack n size p c _ u ls (fetched inside) =
    let test =
      checked_iff size (int_at c.mem (arg_place n c)) p c u.top ls
        (int_at-lt c (arg_place n c) u) in
    (
      λ e.
          let (value, positive, below, fits) = test.0 e in
          record {
            on_stack = inside;
            value = value;
            positive = positive;
            below = below;
            fits = fits;
          },
      λ h. test.1 (h.value, h.positive, h.below, h.fits),
    )

-- For a process whose memory ends below the kernel, `argptr` gives a pointer exactly where the word of
-- the argument on the user stack and all bytes that it points to lie in the memory of the process and
-- the size is not negative, and fails otherwise; no address that wraps round gets through.
pub argptr_iff :
    (n size p : ℕ) (c : Caller)
    → IsUser c
    → size < word
    → (argptr n size c ≡ some p) ↔ PointsInside n size c p
unfolding argptr
argptr_iff n size p c u ls = from_stack n size p c (argint n c) u ls (argint-Fetched n c u)

-- A string of `len` bytes and a NUL at the address.
pub record IsString (mem : Cells) (p len : ℕ) : Type 0 where
  pub ends : mem (p + len) ≡ 0
  pub goes_on : (i : ℕ) → i < len → mem (p + i) ≢ 0

find_nul-IsString :
    (n s start len : ℕ) (mem : Cells)
    → start ≤ s
    → ((i : ℕ) → start + i < s → mem (start + i) ≢ 0)
    → (find_nul n start s mem ≡ some len)
      ↔ (IsString mem start len × (start + len < s + n) × (s ≤ start + len))
unfolding find_nul
find_nul-IsString zero s start len mem le before =
    (λ e. cc, λ (str, lt, low). absurd (omega (arith, lt, low)))
find_nul-IsString (suc n) s start len mem le before = elim (Bool-cases (mem s == 0)) [
  | inl z ↦
      let nul : mem s ≡ 0 = ground arith in
      let at : start + (s - start) ≡ s = omega arith in
      rw z (
        λ e.
            let l : s - start ≡ len = cc in
            subst (λ k. IsString mem start k × (start + k < s + suc n) × (s ≤ start + k)) l
              (
                record { ends = ap mem at ∙ nul; goes_on = λ i lt. before i (omega arith) },
                omega arith,
                omega arith,
              ),
        λ (str, lt, low). ap some (elim (Bool-cases (ltb (s - start) len)) [
          | inl early ↦ absurd (str.goes_on (s - start) (ground arith) (ap mem at ∙ nul))
          | inr on_time ↦ ground arith
        ]),
      )
  | inr nz ↦
      let more : mem s ≢ 0 = ground arith in
      let rest = find_nul-IsString n (s + 1) start len mem (omega arith) (λ i lt.
        elim (Bool-cases (start + i == s)) [
          | inl same ↦ let at : start + i ≡ s = ground arith in λ e. more (ap mem (sym at) ∙ e)
          | inr other ↦ before i (ground arith)
        ]) in
      rw nz (
        λ e. let (str, lt, low) = rest.0 e in (str, omega (arith, lt), omega (arith, low)),
        λ (str, lt, low).
            let ne : s ≢ start + len = λ e. more (ap mem e ∙ str.ends) in
            rest.1 (str, omega (arith, lt), omega (arith, low, ne)),
      )
]

-- What `argstr` gives: the address of a string whose bytes and NUL lie in the memory of the process.
pub record StringInside (n : ℕ) (c : Caller) (p len : ℕ) : Type 0 where
  pub on_stack : HoldsInt (arg_place n c) c
  pub value : p ≡ int_at c.mem (arg_place n c)
  pub string : IsString c.mem p len
  pub fits : p + len < c.sz

fetchstr_iff :
    (a len : ℕ) (c : Caller) → (fetchstr a c ≡ some len) ↔ (IsString c.mem a len × (a + len < c.sz))
unfolding fetchstr
fetchstr_iff a len c =
    let scan =
      find_nul-IsString (c.sz - a) a a len c.mem (omega arith)
        (λ i lt. absurd (omega (arith, lt))) in
    elim (Bool-cases (leb c.sz a)) [
      | inl out ↦ rw out (λ e. cc, λ (str, lt). absurd (ground arith))
      | inr inside ↦
          let low : a < c.sz = ground arith in
          rw inside (
            λ e. let (str, lt, le) = scan.0 e in (str, omega (arith, lt, low)),
            λ (str, lt). scan.1 (str, omega (arith, lt, low), omega arith),
          )
    ]

with_address : ℕ → Option ℕ → Option (ℕ × ℕ)
with_address a m = m >>= λ (len : ℕ). some (a, len)

with_address_iff :
    (a p len : ℕ) (m : Option ℕ) → (with_address a m ≡ some (p, len)) ↔ ((p ≡ a) × (m ≡ some len))
unfolding with_address
with_address_iff a p len none = (λ e. cc, λ (e, f). cc)
with_address_iff a p len (some l) = (λ e. (ground arith, ground arith), λ (e, f). ground arith)

string_from_stack :
    (n p len : ℕ) (c : Caller) (o : Option ℕ)
    → Fetched n c o
    → ((o >>= λ (a : ℕ). with_address a (fetchstr a c)) ≡ some (p, len)) ↔ StringInside n c p len
string_from_stack n p len c _ (refused out) = (λ e. cc, λ h. absurd (out h.on_stack))
string_from_stack n p len c _ (fetched inside) =
    let a = int_at c.mem (arg_place n c) in
    let pair = with_address_iff a p len (fetchstr a c) in
    let scan = fetchstr_iff a len c in
    (
      λ e.
          let (at, found) = pair.0 e in
          let (str, fits) = scan.0 found in
          record {
            on_stack = inside;
            value = at;
            string = subst (λ q. IsString c.mem q len) (sym at) str;
            fits = omega (arith, at, fits);
          },
      λ h. pair.1 (
        h.value,
        scan.1 (subst (λ q. IsString c.mem q len) h.value h.string, omega (arith, h.value, h.fits)),
      ),
    )

-- For a process whose memory ends below the kernel, `argstr` gives a pointer and a length exactly where
-- the word of the argument and the string of that length with its NUL lie in the memory of the
-- process, and fails otherwise.
pub argstr_iff :
    (n p len : ℕ) (c : Caller) → IsUser c → (argstr n c ≡ some (p, len)) ↔ StringInside n c p len
unfolding argstr with_address
argstr_iff n p len c u = string_from_stack n p len c (argint n c) (argint-Fetched n c u)
