-- ===== src/Console/Moves.antt =====
-- Moving the cursor, ending a line and killing it.
use os_ca.Common.{
  ◌+◌, ◌-◌, ◌≤◌, ◌<◌, ◌≡◌, refl, true, [], ◌∷◌, ◌++◌, arith, ap, ◌∙◌, sym, subst, ltb, ◌==◌,
  Bool-cases, ==_iff, inl, inr, sub32, add32,
}
use os_ca.Console.State.{Console}
use os_ca.Console.Select.{deselect_if_any}
use os_ca.Console.Keys.More.{key_left, key_right, key_kill}
use os_ca.Console.Ring.{at}
use os_ca.Console.Line.{
  window, window-last, window-first, Text, text, before, after, IsValid, IsYoung, Edited,
}
use os_ca.Console.Marks.{text-deselect_if_any}

-- `t` is `s` with the cursor one to the right.
abbrev pub MovedRight : Text → Text → Type 0
MovedRight s t =
    Edited s t (before s ++ (at s.buf s.c ∷ [])) (after t) × (after s ≡ at s.buf s.c ∷ after t)

abbrev right_of : Text → Text
right_of t = record t { c = t.c + 1 }

right_of-MovedRight : (t : Text) → IsValid t → t.c < t.e → MovedRight t (right_of t)
right_of-MovedRight t v h =
    let grown : t.c + 1 - t.w ≡ t.c - t.w + 1 = omega arith in
    let here : t.w + (t.c - t.w) ≡ t.c = omega arith in
    let fewer : t.e - t.c - 1 ≡ t.e - (t.c + 1) = omega arith in
    (
      record {
        same_r = refl;
        same_w = refl;
        same_unread = refl;
        front_is =
            rw grown
              (window-last t.buf t.w (t.c - t.w) ∙ ap (λ k. before t ++ (at t.buf k ∷ [])) here);
        back_is = refl;
        valid = omega arith;
      },
      rw (window-first t.buf t.c (t.e - t.c) (omega arith), fewer),
    )

text-key_right :
    (s : Console) → IsYoung (text s) → s.c < s.e → text (key_right s) ≡ right_of (text s)
unfolding key_right
text-key_right s y h =
    let d = deselect_if_any s in
    let same = text-deselect_if_any s in
    let some_byte : ltb d.c d.e ≡ true =
      subst (λ t. ltb t.c t.e ≡ true) (sym same) (ground arith) in
    let up : add32 d.c 1 ≡ d.c + 1 = subst (λ t. add32 t.c 1 ≡ t.c + 1) (sym same) (omega arith) in
    rw (some_byte, up) (ap right_of same)

text-key_left :
    (s : Console)
    → IsYoung (text s)
    → s.w < s.c
    → s.c ≤ s.e
    → text (key_left s) ≡ record (text s) { c = s.c - 1 }
unfolding key_left
text-key_left s y h k =
    let d = deselect_if_any s in
    let same = text-deselect_if_any s in
    let some_byte : ltb d.w d.c ≡ true =
      subst (λ t. ltb t.w t.c ≡ true) (sym same) (ground arith) in
    let down : sub32 d.c 1 ≡ d.c - 1 =
      subst (λ t. sub32 t.c 1 ≡ t.c - 1) (sym same) (omega arith) in
    rw (some_byte, down) (ap left_of same)
  where
    left_of : Text → Text
    left_of t = record t { c = t.c - 1 }

-- The right arrow moves the byte under the cursor from the second half of the line to the end of
-- the first, when there is one, and changes nothing else of the text.
pub key_right-MovedRight :
    (s : Console)
    → IsValid (text s)
    → IsYoung (text s)
    → s.c < s.e
    → MovedRight (text s) (text (key_right s))
key_right-MovedRight s v y h =
    subst (MovedRight (text s)) (sym (text-key_right s y h)) (right_of-MovedRight (text s) v h)

-- The left arrow, where the cursor is behind the line's start, is the way back: seen from the state
-- that it leads to, the old state has the cursor one to the right and nothing else changed.
pub key_left-MovedRight :
    (s : Console)
    → IsValid (text s)
    → IsYoung (text s)
    → s.w < s.c
    → MovedRight (text (key_left s)) (text s)
key_left-MovedRight s v y h =
    let left : Text = record (text s) { c = s.c - 1 } in
    let up : s.c - 1 + 1 ≡ s.c = omega arith in
    let moved : MovedRight left (right_of left) =
      right_of-MovedRight left (omega arith) (omega arith) in
    subst (λ t. MovedRight t (text s)) (sym (text-key_left s y h v.cursor_high))
      (subst (λ k. MovedRight left (record left { c = k })) up moved)

abbrev killed : Text → Text
killed t = record t { e = t.w; c = t.w }

killed_lem : (t : Text) → t.e ≡ t.w → record t { c = t.w } ≡ killed t
killed_lem t h = ap (λ k. record t { e = k; c = t.w }) h

text-key_kill : (s : Console) → (text (key_kill s) ≡ killed (text s)) × ((key_kill s).undo ≡ [])
unfolding key_kill
text-key_kill s =
    let d = deselect_if_any s in
    let same = text-deselect_if_any s in
    elim (Bool-cases (d.e == d.w)) [
      | inl empty ↦
          (rw empty (killed_lem (text d) ((==_iff d.e d.w).0 empty) ∙ ap killed same), rw empty)
      | inr some_byte ↦ (rw some_byte (ap killed same), rw some_byte)
    ]

-- C('U') leaves both halves of the line empty, the undo stack too, and the bytes that no reader has
-- taken as they are.
pub key_kill-Edited :
    (s : Console)
    → IsValid (text s)
    → Edited (text s) (text (key_kill s)) [] [] × ((key_kill s).undo ≡ [])
unfolding window
key_kill-Edited s v =
    let none_left : s.w - s.w ≡ 0 = omega arith in
    (
      subst (λ t. Edited (text s) t [] []) (sym (text-key_kill s).0)
          (record {
            same_r = refl;
            same_w = refl;
            same_unread = refl;
            front_is = rw none_left;
            back_is = rw none_left;
            valid = omega arith;
          }),
      (text-key_kill s).1,
    )
