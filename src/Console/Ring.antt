-- ===== src/Console/Ring.antt =====
-- The input ring as a window over the indices: what the two shifts and a write do to the cells of
-- up to 128 consecutive indices.
use os_ca.Common.{
  ℕ, zero, suc, ◌+◌, ◌-◌, ◌%◌, ◌≤◌, ◌<◌, ◌≡◌, Cells, put, ltb, leb, ◌&&◌, if◌then◌else◌, arith,
  half_word, add32, sub32, srem, ap, ◌∙◌,
}
use os_ca.Console.Select.{shift_down}
use os_ca.Console.Keys.{shift_up}

-- The cell of index `i`.
abbrev pub at : Cells → ℕ → ℕ
at buf i = buf (i % 128)

pub srem_small : (i : ℕ) → i < half_word → srem i 128 ≡ i % 128
srem_small i h = ground arith

pub at-put :
    (buf : Cells) (j v i : ℕ)
    → i < j + 128
    → j < i + 128
    → at (put buf (j % 128) v) i ≡ (if leb i j && leb j i then v else at buf i)
at-put buf j v i h k = ground arith

module _ (n j : ℕ) (buf : Cells) where
  shift_up-suc :
      0 < j
      → j < half_word
      → shift_up (suc n) j buf ≡ shift_up n (j - 1) (put buf (j % 128) (at buf (j - 1)))
  unfolding shift_up
  shift_up-suc p h =
      let down : sub32 j 1 ≡ j - 1 = omega arith in
      rw (down, srem_small j h, srem_small (j - 1) (omega arith))

  shift_down-suc :
      0 < j
      → j + 1 < half_word
      → shift_down (suc n) 1 j buf ≡ shift_down n 1 (j + 1) (put buf ((j - 1) % 128) (at buf j))
  unfolding shift_down
  shift_down-suc p h =
      let up : add32 j 1 ≡ j + 1 = omega arith in
      let down : sub32 j 1 ≡ j - 1 = omega arith in
      rw (up, down, srem_small j (omega arith), srem_small (j - 1) (omega arith))

-- `shift_up n j` moves the bytes of the `n` indices below `j` one up.
pub at-shift_up :
    (n j lo i : ℕ) (buf : Cells)
    → n + lo ≤ j
    → j < half_word
    → j < lo + 128
    → lo ≤ i
    → i < lo + 128
    → at (shift_up n j buf) i ≡ (if ltb (j - n) i && leb i j then at buf (i - 1) else at buf i)
unfolding shift_up
at-shift_up zero j lo i buf a b c d e = ground arith
at-shift_up (suc n) j lo i buf a b c d e =
    let buf' : Cells = put buf (j % 128) (at buf (j - 1)) in
    ap (λ f. at f i) (shift_up-suc n j buf (omega arith) b)
    ∙ at-shift_up n (j - 1) lo i buf' (omega arith) (omega arith) (omega arith) d e
    ∙ ground (arith, at-put buf j (at buf (j - 1)) i, at-put buf j (at buf (j - 1)) (i - 1))

-- `shift_down n 1 j` moves the bytes of the `n` indices from `j` on one down.
pub at-shift_down :
    (n j lo i : ℕ) (buf : Cells)
    → lo < j
    → j + n < half_word
    → j + n ≤ lo + 128
    → lo ≤ i
    → i < lo + 128
    → at (shift_down n 1 j buf) i
      ≡ (if leb j (i + 1) && ltb (i + 1) (j + n) then at buf (i + 1) else at buf i)
unfolding shift_down
at-shift_down zero j lo i buf a b c d e = ground arith
at-shift_down (suc n) j lo i buf a b c d e =
    let buf' : Cells = put buf ((j - 1) % 128) (at buf j) in
    ap (λ f. at f i) (shift_down-suc n j buf (omega arith) (omega arith))
    ∙ at-shift_down n (j + 1) lo i buf' (omega arith) (omega arith) (omega arith) d e
    ∙ ground (arith, at-put buf (j - 1) (at buf j) i, at-put buf (j - 1) (at buf j) (i + 1))
