-- ===== src/Strings/Copies.antt =====
-- The copies: what is in memory after them.
use os_ca.Common.{
  ℕ, zero, suc, ◌+◌, ◌≤◌, ◌<◌, ◌≡◌, ◌⊎◌, inl, inr, refl, ◌∙◌, Bool-cases, Cells, put, put_ne,
  put_self, ltb, ◌&&◌, ◌==◌, if_cases, arith, ap, sym,
}
use os_ca.Strings.Memory.{copy_up, copy_down, memmove, copy_string, safestrcpy}

copy_up-outside :
    (n d s : ℕ) (mem : Cells) (a : ℕ) → a < d ⊎ d + n ≤ a → copy_up n d s mem a ≡ mem a
unfolding copy_up
copy_up-outside zero d s mem a h = refl
copy_up-outside (suc n) d s mem a h =
    copy_up-outside n (d + 1) (s + 1) (put mem d (mem s)) a (omega arith)
    ∙ put_ne mem d (mem s) a (omega arith)

copy_up-inside :
    (n d s : ℕ) (mem : Cells)
    → d ≤ s ⊎ s + n ≤ d
    → (k : ℕ) → k < n
    → copy_up n d s mem (d + k) ≡ mem (s + k)
unfolding copy_up
copy_up-inside zero d s mem h k lt = omega arith
copy_up-inside (suc n) d s mem h zero lt =
    let first : d + 0 ≡ d = omega arith in
    let source : s ≡ s + 0 = omega arith in
    let rest : Cells = copy_up n (d + 1) (s + 1) (put mem d (mem s)) in
    ap rest first
    ∙ copy_up-outside n (d + 1) (s + 1) (put mem d (mem s)) d (omega arith)
    ∙ put_self mem d (mem s)
    ∙ ap mem source
copy_up-inside (suc n) d s mem h (suc k) lt =
    let to : d + suc k ≡ d + 1 + k = omega arith in
    let from : s + 1 + k ≡ s + suc k = omega arith in
    let rest : Cells = copy_up n (d + 1) (s + 1) (put mem d (mem s)) in
    ap rest to
    ∙ copy_up-inside n (d + 1) (s + 1) (put mem d (mem s)) (omega arith) k (omega arith)
    ∙ put_ne mem d (mem s) (s + 1 + k) (omega arith)
    ∙ ap mem from

copy_down-outside :
    (n d s : ℕ) (mem : Cells) (a : ℕ) → a < d ⊎ d + n ≤ a → copy_down n d s mem a ≡ mem a
unfolding copy_down
copy_down-outside zero d s mem a h = refl
copy_down-outside (suc n) d s mem a h =
    copy_down-outside n d s (put mem (d + n) (mem (s + n))) a (omega arith)
    ∙ put_ne mem (d + n) (mem (s + n)) a (omega arith)

copy_down-inside :
    (n d s : ℕ) (mem : Cells) → s < d → (k : ℕ) → k < n → copy_down n d s mem (d + k) ≡ mem (s + k)
unfolding copy_down
copy_down-inside zero d s mem h k lt = omega arith
copy_down-inside (suc n) d s mem h k lt = elim (Bool-cases (ltb k n)) [
  | inl e ↦
      copy_down-inside n d s (put mem (d + n) (mem (s + n))) h k (ground arith)
      ∙ put_ne mem (d + n) (mem (s + n)) (s + k) (ground arith)
  | inr e ↦
      let last : k ≡ n = ground arith in
      copy_down-outside n d s (put mem (d + n) (mem (s + n))) (d + k) (ground arith)
      ∙ ap (put mem (d + n) (mem (s + n))) (ap (λ i. d + i) last)
      ∙ put_self mem (d + n) (mem (s + n))
      ∙ ap (λ i. mem (s + i)) (sym last)
]

-- `memmove` leaves at the destination what was at the source before, also where the two overlap,
-- and changes no other byte.
pub memmove-copies :
    (dst src n : ℕ) (mem : Cells)
    → ((k : ℕ) → k < n → memmove dst src n mem (dst + k) ≡ mem (src + k))
      × ((a : ℕ) → a < dst ⊎ dst + n ≤ a → memmove dst src n mem a ≡ mem a)
unfolding memmove
memmove-copies dst src n mem =
    if_cases
      (λ (q : Cells).
        ((k : ℕ) → k < n → q (dst + k) ≡ mem (src + k))
        × ((a : ℕ) → a < dst ⊎ dst + n ≤ a → q a ≡ mem a))
      (ltb src dst && ltb dst (src + n)) _ _
      (λ c. (copy_down-inside n dst src mem (ground arith), copy_down-outside n dst src mem))
      (λ c. (copy_up-inside n dst src mem (ground arith), copy_up-outside n dst src mem))

copy_string-outside :
    (n s t : ℕ) (mem : Cells) (a : ℕ) → a < s ⊎ s + n < a → copy_string n s t mem a ≡ mem a
unfolding copy_string
copy_string-outside zero s t mem a h = put_ne mem s 0 a (omega arith)
copy_string-outside (suc n) s t mem a h =
    let same = put_ne mem s (mem t) a (omega arith) in
    if_cases (λ (q : Cells). q a ≡ mem a) (mem t == 0) _ _
      (λ c. put_ne (put mem s (mem t)) (s + 1) 0 a (omega arith) ∙ same)
      (λ c. copy_string-outside n (s + 1) (t + 1) (put mem s (mem t)) a (omega arith) ∙ same)

copy_string-ends :
    (n s t : ℕ) (mem : Cells) → (k : ℕ) × (k ≤ n) × (copy_string n s t mem (s + k) ≡ 0)
unfolding copy_string
copy_string-ends zero s t mem =
    let first : s + 0 ≡ s = omega arith in
    (0, omega arith, ap (put mem s 0) first ∙ put_self mem s 0)
copy_string-ends (suc n) s t mem =
    let (k, le, e) = copy_string-ends n (s + 1) (t + 1) (put mem s (mem t)) in
    if_cases (λ (q : Cells). (k : ℕ) × (k ≤ suc n) × (q (s + k) ≡ 0)) (mem t == 0) _ _
      (λ c. (1, omega arith, put_self (put mem s (mem t)) (s + 1) 0))
      (λ c.
        let place : s + (k + 1) ≡ s + 1 + k = omega arith in
        (k + 1, omega arith, ap (copy_string n (s + 1) (t + 1) (put mem s (mem t))) place ∙ e))

-- `safestrcpy` with room for a byte at least leaves a NUL among the `n` bytes of the destination, and
-- changes no byte outside them.
pub safestrcpy-ends :
    (s t n : ℕ) (mem : Cells)
    → 0 < n
    → ((k : ℕ) × (k < n) × (safestrcpy s t n mem (s + k) ≡ 0))
      × ((a : ℕ) → a < s ⊎ s + n ≤ a → safestrcpy s t n mem a ≡ mem a)
unfolding safestrcpy
safestrcpy-ends s t zero mem h = absurd (omega arith)
safestrcpy-ends s t (suc n) mem h =
    let (k, le, e) = copy_string-ends n s t mem in
    ((k, omega arith, e), λ a p. copy_string-outside n s t mem a (omega arith))
