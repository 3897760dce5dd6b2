-- ===== src/Console/Line.antt =====
-- The line editor as what it edits: the bytes before and after the cursor, behind the bytes of the
-- finished lines that no reader has taken yet.
use os_ca.Common.{
  ℕ, zero, suc, ◌+◌, ◌-◌, ◌≤◌, ◌<◌, ◌≡◌, refl, List, [], ◌∷◌, ◌++◌, Cells, arith, half_word, ap,
  ap₂, ◌∙◌, length,
}
use os_ca.Console.State.{Console}
use os_ca.Console.Ring.{at}

-- The bytes of the `n` indices from `i` on.
unfoldable pub window : Cells → ℕ → ℕ → List ℕ
window buf i zero = []
window buf i (suc n) = at buf i ∷ window buf (i + 1) n

-- The fields that hold the text.
pub record Text : Type 0 where
  pub buf : Cells
  pub r : ℕ
  pub w : ℕ
  pub e : ℕ
  pub c : ℕ

abbrev pub text : Console → Text
text s = record { buf = s.buf; r = s.r; w = s.w; e = s.e; c = s.c }

abbrev pub unread : Text → List ℕ
unread t = window t.buf t.r (t.w - t.r)

abbrev pub before : Text → List ℕ
before t = window t.buf t.w (t.c - t.w)

abbrev pub after : Text → List ℕ
after t = window t.buf t.c (t.e - t.c)

-- The order of the indices, and the room of the ring.
pub record IsValid (t : Text) : Type 0 where
  pub read_le : t.r ≤ t.w
  pub cursor_low : t.w ≤ t.c
  pub cursor_high : t.c ≤ t.e
  pub room : t.e ≤ t.r + 128

-- The indices count all bytes ever typed; up to here no `int` that holds one is negative.
abbrev pub IsYoung : Text → Type 0
IsYoung t = t.e + 256 < half_word

-- `t` is `s` but for the line, which now reads `front` up to the cursor and `back` from there.
pub record Edited (s t : Text) (front back : List ℕ) : Type 0 where
  pub same_r : t.r ≡ s.r
  pub same_w : t.w ≡ s.w
  pub same_unread : unread t ≡ unread s
  pub front_is : before t ≡ front
  pub back_is : after t ≡ back
  pub valid : IsValid t

-- Two windows agree if their cells do, at `d` indices apart.
pub window-ext :
    (a b : Cells) (n i j : ℕ)
    → ((k : ℕ) → k < n → at a (i + k) ≡ at b (j + k))
    → window a i n ≡ window b j n
unfolding window
window-ext a b zero i j h = refl
window-ext a b (suc n) i j h =
    ap₂ ◌∷◌ (ap (at a) (omega arith) ∙ h 0 (omega arith) ∙ ap (at b) (omega arith)) (
      window-ext a b n (i + 1) (j + 1)
        (λ k p. ap (at a) (omega arith) ∙ h (k + 1) (omega arith) ∙ ap (at b) (omega arith)))

pub window-append :
    (a : Cells) (n m i : ℕ) → window a i (n + m) ≡ window a i n ++ window a (i + n) m
unfolding window
window-append a zero m i = ap₂ (window a) (omega arith) (omega arith)
window-append a (suc n) m i =
    let size : suc n + m ≡ suc (n + m) = omega arith in
    let start : i + suc n ≡ i + 1 + n = omega arith in
    rw (size, start) (ap (λ l. at a i ∷ l) (window-append a n m (i + 1)))

pub length-window : (a : Cells) (n i : ℕ) → length (window a i n) ≡ n
unfolding window
length-window a zero i = refl
length-window a (suc n) i = ap suc (length-window a n (i + 1))

-- A window that is one longer, by its last byte and by its first.
pub window-last : (a : Cells) (i n : ℕ) → window a i (n + 1) ≡ window a i n ++ (at a (i + n) ∷ [])
unfolding window
window-last a i n = window-append a n 1 i

pub window-first : (a : Cells) (i n : ℕ) → 0 < n → window a i n ≡ at a i ∷ window a (i + 1) (n - 1)
unfolding window
window-first a i zero h = elim h [ ]
window-first a i (suc n) h = ap (λ k. at a i ∷ window a (i + 1) k) (omega arith)

pub window-split :
    (a : Cells) (i j k : ℕ)
    → i ≤ j
    → j ≤ k
    → window a i (k - i) ≡ window a i (j - i) ++ window a j (k - j)
window-split a i j k p q =
    let size : k - i ≡ j - i + (k - j) = omega arith in
    let mid : i + (j - i) ≡ j = omega arith in
    ap (window a i) size
    ∙ window-append a (j - i) (k - j) i
    ∙ ap (λ m. window a i (j - i) ++ window a m (k - j)) mid

-- The three parts of the text are one run of the ring.
pub text_bytes :
    (t : Text) → IsValid t → window t.buf t.r (t.e - t.r) ≡ unread t ++ (before t ++ after t)
text_bytes t v =
    window-split t.buf t.r t.w t.e v.read_le (omega arith)
    ∙ ap (λ l. unread t ++ l) (window-split t.buf t.w t.c t.e v.cursor_low v.cursor_high)
