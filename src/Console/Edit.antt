-- ===== src/Console/Edit.antt =====
-- Typing and erasing a byte, and undoing what was typed, on the line's two halves.
use os_ca.Common.{
  ℕ, ◌+◌, ◌-◌, ◌%◌, ◌≤◌, ◌<◌, ◌≡◌, refl, [], ◌∷◌, ◌++◌, Cells, put, arith, half_word, ap, ap₂, ◌∙◌,
  ltb, leb, ◌&&◌, if◌then◌else◌, add32,
}
use os_ca.Console.State.{Console}
use os_ca.Console.Keys.{shift_up, insert_at}
use os_ca.Console.Ring.{at, at-put, at-shift_up}
use os_ca.Console.Line.{
  window, window-ext, window-last, Text, text, before, after, IsValid, IsYoung, Edited,
}

-- The byte before an insertion's cursor, the inserted byte, and the bytes that moved up.
module _ (buf : Cells) (lo c e x : ℕ) (low : lo ≤ c) (high : c ≤ e) (room : e < lo + 128)
    (young : e < half_word) where
  abbrev pub inserted : Cells
  inserted = put (shift_up (e - c) e buf) (c % 128) x

  at-inserted :
      (i : ℕ)
      → lo ≤ i
      → i ≤ e
      → at inserted i ≡ (
          if leb i c && leb c i then x else if ltb c i && leb i e then at buf (i - 1) else at buf i)
  at-inserted i p q = ground (
    arith,
    at-put (shift_up (e - c) e buf) c x i,
    at-shift_up (e - c) e lo i buf (omega arith) young room p (omega arith),
  )

  -- What lies before the cursor stays, the byte stands there, and the rest follows it.
  pub window-inserted_low : (i n : ℕ) → lo ≤ i → i + n ≤ c → window inserted i n ≡ window buf i n
  window-inserted_low i n p q =
      window-ext inserted buf n i i (λ k h. ground (arith, at-inserted (i + k)))

  pub window-inserted_high : window inserted (c + 1) (e - c) ≡ window buf c (e - c)
  window-inserted_high = window-ext inserted buf (e - c) (c + 1) c (λ k h.
      let down : c + 1 + k - 1 ≡ c + k = omega arith in
      at-inserted (c + 1 + k) (omega arith) (omega arith) ∙ rw down (ground arith))

  pub at-inserted_self : at inserted c ≡ x
  at-inserted_self = ground (arith, at-inserted c)

-- The text behind an insertion at the cursor.
abbrev pub insert_text : ℕ → Text → Text
insert_text x t = record { buf = inserted_text; r = t.r; w = t.w; e = t.e + 1; c = t.c + 1 }
  where
    inserted_text : Cells
    inserted_text = put (shift_up (t.e - t.c) t.e t.buf) (t.c % 128) x

pub insert_text-Edited :
    (x : ℕ) (t : Text)
    → IsValid t
    → IsYoung t
    → t.e < t.r + 128
    → Edited t (insert_text x t) (before t ++ (x ∷ [])) (after t)
insert_text-Edited x t v y free =
    let low : t.r ≤ t.c = omega arith in
    let young : t.e < half_word = omega arith in
    let grown : t.c + 1 - t.w ≡ t.c - t.w + 1 = omega arith in
    let end : t.w + (t.c - t.w) ≡ t.c = omega arith in
    let rest : t.e + 1 - (t.c + 1) ≡ t.e - t.c = omega arith in
    let hi = v.cursor_high in
    record {
      same_r = refl;
      same_w = refl;
      same_unread =
          window-inserted_low t.buf t.r t.c t.e x low hi free young t.r (t.w - t.r) (omega arith)
            (omega arith);
      front_is =
          rw (grown, window-last, end)
            (ap₂ ◌++◌
              (window-inserted_low t.buf t.r t.c t.e x low hi free young t.w (t.c - t.w)
                (omega arith) (omega arith))
              (ap (λ b. b ∷ []) (at-inserted_self t.buf t.r t.c t.e x low hi free young)));
      back_is = rw rest (window-inserted_high t.buf t.r t.c t.e x low hi free young);
      valid = omega arith;
    }

pub text-insert_at :
    (x n : ℕ) (between : ℕ → ℕ → ℕ) (s : Console)
    → IsValid (text s)
    → IsYoung (text s)
    → n ≡ s.e - s.c
    → text (insert_at x n between s) ≡ insert_text x (text s)
unfolding insert_at
text-insert_at x n between s v y size =
    let up_e : add32 s.e 1 ≡ s.e + 1 = omega arith in
    let up_c : add32 s.c 1 ≡ s.c + 1 = omega arith in rw (size, up_e, up_c)
