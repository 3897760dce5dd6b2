-- ===== src/Syscall/Words.antt =====
-- The words of the user stack that hold the arguments.
use os_ca.Common.{
  ℕ, ◌+◌, ◌*◌, ◌%◌, ◌≤◌, ◌<◌, ◌≡◌, refl, sym, true, false, ◌||◌, Bool-cases, inl, inr, Option, none,
  some, ltb, leb, arith, add32, word, subst,
}
use os_ca.Kalloc.{kernbase}
use os_ca.Syscall.{Caller, int_at, fetchint, argint}

-- A caller whose memory ends below the kernel, as `allocuvm` sees to, with bytes in it.
pub record IsUser (c : Caller) : Type 0 where
  pub top : c.sz ≤ kernbase
  pub stack : c.esp < word
  pub byte : (a : ℕ) → c.mem a < 256

-- The word of the stack that holds the argument `n`, for few arguments.
abbrev pub arg_place : ℕ → Caller → ℕ
arg_place n c = (c.esp + 4 + 4 * n) % word

place-eq : (n : ℕ) (c : Caller) → add32 (add32 c.esp 4) (4 * n) ≡ arg_place n c
place-eq n c = omega arith

pub int_at-lt : (c : Caller) (a : ℕ) → IsUser c → int_at c.mem a < word
unfolding int_at
int_at-lt c a u = omega (arith, u.byte a, u.byte (a + 1), u.byte (a + 2), u.byte (a + 3))

-- The four bytes lie in the memory of the process.
abbrev pub HoldsInt : ℕ → Caller → Type 0
HoldsInt a c = a + 4 ≤ c.sz

fetchint-some :
    (a : ℕ) (c : Caller) → c.sz ≤ kernbase → HoldsInt a c → fetchint a c ≡ some (int_at c.mem a)
unfolding fetchint
fetchint-some a c top h =
    let inside : (leb c.sz a || ltb c.sz (add32 a 4)) ≡ false = ground arith in rw inside refl

fetchint-none :
    (a : ℕ) (c : Caller) → c.sz ≤ kernbase → a < word → ¬ HoldsInt a c → fetchint a c ≡ none
unfolding fetchint
fetchint-none a c top la h =
    let out : c.sz < a + 4 = omega (arith, h) in
    let outside : (leb c.sz a || ltb c.sz (add32 a 4)) ≡ true = ground arith in rw outside refl

-- An argument is fetched, or its word is not in the memory of the process.
pub data Fetched (n : ℕ) (c : Caller) : Option ℕ → Type 0 where
  fetched : HoldsInt (arg_place n c) c → Fetched n c (some (int_at c.mem (arg_place n c)))
  refused : ¬ HoldsInt (arg_place n c) c → Fetched n c none

pub argint-Fetched : (n : ℕ) (c : Caller) → IsUser c → Fetched n c (argint n c)
unfolding argint
argint-Fetched n c u =
    let a = arg_place n c in
    let top = u.top in
    subst (λ b. Fetched n c (fetchint b c)) (sym (place-eq n c))
      (elim (Bool-cases (leb (a + 4) c.sz)) [
        | inl i ↦
            let inside : HoldsInt a c = ground arith in
            subst (Fetched n c) (sym (fetchint-some a c top inside)) (fetched inside)
        | inr o ↦
            let out : ¬ HoldsInt a c = λ h. ground arith in
            subst (Fetched n c) (sym (fetchint-none a c top (omega arith) out)) (refused out)
      ])
