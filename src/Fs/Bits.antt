-- ===== src/Fs/Bits.antt =====
-- The bits of a byte.
use os_ca.Common.{
  ℕ, zero, suc, ◌<◌, ◌≡◌, refl, Bool, true, false, ◌&&◌, ◌||◌, not, ◌==◌, ltb, arith,
}
use os_ca.Fs.{has_bit, set_bit, clear_bit}

abbrev same : Bool → Bool → Bool
same true b = b
same false b = not b

same-eq : (a b : Bool) → same a b ≡ true → a ≡ b
same-eq a b h = ground arith

all_below : ℕ → (ℕ → Bool) → Bool
all_below zero p = true
all_below (suc n) p = p n && all_below n p

all_below-lt : (n : ℕ) (p : ℕ → Bool) (x : ℕ) → all_below n p ≡ true → x < n → p x ≡ true
unfolding all_below
all_below-lt zero p x h lt = absurd (omega arith)
all_below-lt (suc n) p x h lt = ground (arith, all_below-lt n p x)

-- The laws at a byte and two bits, as one test over all of them.
law : (ℕ → ℕ → ℕ → Bool) → Bool
law p = all_below 256 (λ x. all_below 8 (λ k. all_below 8 (p x k)))

law-at :
    (p : ℕ → ℕ → ℕ → Bool) → law p ≡ true → (x k j : ℕ) → x < 256 → k < 8 → j < 8 → p x k j ≡ true
unfolding law
law-at p h x k j hx hk hj =
    all_below-lt 8 (p x k) j
      (all_below-lt 8 (λ k. all_below 8 (p x k)) k
        (all_below-lt 256 (λ x. all_below 8 (λ k. all_below 8 (p x k))) x h hx) hk)
      hj

set_law : law (λ x k j. same (has_bit (set_bit x k) j) ((j == k) || has_bit x j)) ≡ true
unfolding law all_below has_bit set_bit
set_law = refl

clear_law : law (λ x k j. same (has_bit (clear_bit x k) j) (not (j == k) && has_bit x j)) ≡ true
unfolding law all_below has_bit clear_bit
clear_law = refl

byte_law : law (λ x k j. ltb (set_bit x k) 256 && ltb (clear_bit x k) 256) ≡ true
unfolding law all_below has_bit set_bit clear_bit
byte_law = refl

-- Setting a bit sets it alone, and clearing it clears it alone.
module _ (x k j : ℕ) (hx : x < 256) (hk : k < 8) (hj : j < 8) where
  pub has_bit-set_bit : has_bit (set_bit x k) j ≡ ((j == k) || has_bit x j)
  has_bit-set_bit = same-eq _ _ (law-at _ set_law x k j hx hk hj)

  pub has_bit-clear_bit : has_bit (clear_bit x k) j ≡ (not (j == k) && has_bit x j)
  has_bit-clear_bit = same-eq _ _ (law-at _ clear_law x k j hx hk hj)

pub set_bit-lt : (x k : ℕ) → x < 256 → k < 8 → set_bit x k < 256
set_bit-lt x k hx hk = let h = law-at _ byte_law x k 0 hx hk (omega arith) in ground arith

pub clear_bit-lt : (x k : ℕ) → x < 256 → k < 8 → clear_bit x k < 256
clear_bit-lt x k hx hk = let h = law-at _ byte_law x k 0 hx hk (omega arith) in ground arith
