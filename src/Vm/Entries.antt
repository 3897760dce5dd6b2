-- ===== src/Vm/Entries.antt =====
-- The words of page tables: an address and its flags in one number.
use Prim.Native.Nat.{bit_or, digits, max, bit_or-bitwise}
use os_ca.Common.{
  ℕ, zero, suc, ◌+◌, ◌*◌, ◌/◌, ◌%◌, ◌≤◌, ◌<◌, ◌≡◌, refl, ◌∙◌, sym, ap, true, arith, word, subst,
}
use os_ca.Vm.{pte_addr, is_present, is_user, v2p, p2v}

abbrev or_digits : ℕ → ℕ → ℕ → ℕ
or_digits n a b = digits (λ y. y) max n a b

-- The digits left to go do not matter, if they are enough.
or_digits-enough : (n m a b : ℕ) → a ≤ n → a ≤ m → or_digits n a b ≡ or_digits m a b
or_digits-enough zero zero a b p q = refl
or_digits-enough zero (suc m) zero b p q = refl
or_digits-enough zero (suc m) (suc a) b p q = absurd (omega arith)
or_digits-enough (suc n) zero zero b p q = refl
or_digits-enough (suc n) zero (suc a) b p q = absurd (omega arith)
or_digits-enough (suc n) (suc m) zero b p q = refl
or_digits-enough (suc n) (suc m) (suc a) b p q =
    let rest = or_digits-enough n m (suc a / 2) (b / 2) (omega arith) (omega arith) in
    ap (λ d. d * 2 + max (suc a % 2) (b % 2)) rest

zero-bit_or : (b : ℕ) → bit_or 0 b ≡ b
zero-bit_or b = bit_or-bitwise 0 b

bit_or-halves : (a b : ℕ) → bit_or a b ≡ bit_or (a / 2) (b / 2) * 2 + max (a % 2) (b % 2)
bit_or-halves zero b = omega (arith, zero-bit_or b, zero-bit_or (b / 2))
bit_or-halves (suc a) b =
    bit_or-bitwise (suc a) b
    ∙ ap (λ d. d * 2 + max (suc a % 2) (b % 2))
        (or_digits-enough a (suc a / 2) (suc a / 2) (b / 2) (omega arith) (omega arith)
          ∙ sym (bit_or-bitwise (suc a / 2) (b / 2)))

bit_or-zero_below : (n a : ℕ) → a ≤ n → bit_or a 0 ≡ a
bit_or-zero_below n zero h = zero-bit_or 0
bit_or-zero_below zero (suc a) h = absurd (omega arith)
bit_or-zero_below (suc n) (suc a) h =
    omega (arith, bit_or-halves (suc a) 0, bit_or-zero_below n (suc a / 2) (omega arith))

bit_or-zero : (a : ℕ) → bit_or a 0 ≡ a
bit_or-zero a = bit_or-zero_below a a (omega arith)

bit_or-one : (a : ℕ) → bit_or a 1 ≡ a / 2 * 2 + 1
bit_or-one a = omega (arith, bit_or-halves a 1, bit_or-zero (a / 2))

-- `b` doubled `n` times
twice : ℕ → ℕ → ℕ
twice zero b = b
twice (suc n) b = 2 * twice n b

bit_or-twice : (n b f : ℕ) → f < twice n 1 → bit_or (twice n b) f ≡ twice n b + f
unfolding twice
bit_or-twice zero b f h =
    let none_set : f ≡ 0 = omega arith in rw none_set (bit_or-zero b ∙ omega arith)
bit_or-twice (suc n) b f h =
    let half : 2 * twice n b / 2 ≡ twice n b = omega arith in
    let rest = bit_or-twice n b (f / 2) (omega arith) in
    let lowest : 2 * twice n b % 2 ≡ 0 = omega arith in
    bit_or-halves (2 * twice n b) f ∙ rw (half, rest, lowest) (omega arith)

-- Where the low bits of an address are clear, the flags are added to it.
bit_or-aligned : (a f : ℕ) → a % 4096 ≡ 0 → f < 4096 → bit_or a f ≡ a + f
unfolding twice
bit_or-aligned a f al h =
    let e : twice 12 (a / 4096) ≡ a = omega arith in
    subst (λ x. bit_or x f ≡ x + f) e (bit_or-twice 12 (a / 4096) f (omega arith))

pub p2v-v2p : (v : ℕ) → v < word → p2v (v2p v) ≡ v
unfolding p2v v2p
p2v-v2p v h = omega arith

pub v2p_aligned : (v : ℕ) → v % 4096 ≡ 0 → v2p v % 4096 ≡ 0
unfolding v2p
v2p_aligned v al = omega arith

pub p2v_aligned : (e : ℕ) → p2v (pte_addr e) % 4096 ≡ 0
unfolding p2v pte_addr
p2v_aligned e = omega arith

-- What `mappages` stores: it is present, and its parts are the address and the flags.
module _ (a perm : ℕ) (al : a % 4096 ≡ 0) (small : perm < 4096) where
  entry-eq : bit_or (bit_or a perm) 1 ≡ a + perm / 2 * 2 + 1
  entry-eq =
      ap (λ x. bit_or x 1) (bit_or-aligned a perm al small) ∙ bit_or-one (a + perm) ∙ omega arith

  pub entry-present : is_present (bit_or (bit_or a perm) 1) ≡ true
  unfolding is_present
  entry-present = rw entry-eq (ground arith)

  pub pte_addr-entry : pte_addr (bit_or (bit_or a perm) 1) ≡ a
  unfolding pte_addr
  pte_addr-entry = rw entry-eq (omega arith)

  pub is_user-entry : is_user (bit_or (bit_or a perm) 1) ≡ is_user perm
  unfolding is_user
  is_user-entry =
      let e : (a + perm / 2 * 2 + 1) / 4 % 2 ≡ perm / 4 % 2 = omega arith in rw (entry-eq, e) refl

-- What `walkpgdir` stores in the directory.
module _ (a : ℕ) (al : a % 4096 ≡ 0) where
  pub table-present : is_present (bit_or a 7) ≡ true
  unfolding is_present
  table-present = rw (bit_or-aligned a 7 al (omega arith)) (ground arith)

  pub pte_addr-table : pte_addr (bit_or a 7) ≡ a
  unfolding pte_addr
  pte_addr-table = rw (bit_or-aligned a 7 al (omega arith)) (omega arith)
