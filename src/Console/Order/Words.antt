-- ===== src/Console/Order/Words.antt =====
-- The keys that move by words, and those of the selection and the clipboard, keep the order.
use os_ca.Common.{
  ℕ, zero, suc, ◌+◌, ◌-◌, ◌≤◌, ◌<◌, ◌≡◌, true, false, not, Cells, arith, ltb, ◌==◌, Bool-cases,
  if_cases, inl, inr, if◌then◌else◌, add32, sub32, slt, rounds, word,
}
use os_ca.Console.State.{Console}
use os_ca.Console.Select.{
  clear_selection, deselect_if_any, delete_selection, has_selection, update_highlight,
}
use os_ca.Console.Keys.{
  key_select, key_copy, key_paste, paste_bytes, key_word_left, back_blanks, back_word,
}
use os_ca.Console.Keys.More.{key_word_right, on_word, on_blanks}
use os_ca.Console.Marks.{update_highlight-same}
use os_ca.Console.Order.{
  IsOrdered, Keeps, keep, text-IsOrdered, clear_selection-Keeps, deselect_if_any-Keeps,
  paste_bytes-Keeps, delete_selection-Keeps,
}

-- The word loops stay within the rounds that they are given.
back_blanks-le :
    (n t : ℕ) (buf : Cells)
    → n ≤ t
    → t < word
    → (back_blanks n t buf ≤ t) × (t ≤ back_blanks n t buf + n)
unfolding back_blanks
back_blanks-le zero t buf p q = omega arith
back_blanks-le (suc n) t buf p q =
    let down : sub32 t 1 ≡ t - 1 = omega arith in ground (arith, back_blanks-le n (t - 1) buf)

back_word-le :
    (n t : ℕ) (buf : Cells)
    → n ≤ t
    → t < word
    → (back_word n t buf ≤ t) × (t ≤ back_word n t buf + n)
unfolding back_word
back_word-le zero t buf p q = omega arith
back_word-le (suc n) t buf p q =
    let down : sub32 t 1 ≡ t - 1 = omega arith in ground (arith, back_word-le n (t - 1) buf)

on_word-le :
    (n t : ℕ) (buf : Cells) → t + n < word → (t ≤ on_word n t buf) × (on_word n t buf ≤ t + n)
unfolding on_word
on_word-le zero t buf p = omega arith
on_word-le (suc n) t buf p =
    let up : add32 t 1 ≡ t + 1 = omega arith in ground (arith, on_word-le n (t + 1) buf)

on_blanks-le :
    (n t : ℕ) (buf : Cells) → t + n < word → (t ≤ on_blanks n t buf) × (on_blanks n t buf ≤ t + n)
unfolding on_blanks
on_blanks-le zero t buf p = omega arith
on_blanks-le (suc n) t buf p =
    let up : add32 t 1 ≡ t + 1 = omega arith in ground (arith, on_blanks-le n (t + 1) buf)

pub key_word_left-Keeps : Keeps 0 key_word_left
unfolding key_word_left
key_word_left-Keeps m s0 o0 =
    let s = deselect_if_any s0 in
    let o : IsOrdered m s = deselect_if_any-Keeps m s0 o0 in
    let t1 = sub32 s.c 1 in
    let t2 = back_blanks (rounds s.w t1) t1 s.buf in
    elim (Bool-cases (ltb s.w s.c)) [
      | inl some_byte ↦
          let down : t1 ≡ s.c - 1 = ground arith in
          rw some_byte (
            ground (
              arith,
              back_blanks-le (rounds s.w t1) t1 s.buf,
              back_word-le (rounds s.w t2) t2 s.buf,
            ))
      | inr at_start ↦ rw at_start o
    ]

pub key_select-Keeps : Keeps 0 key_select
unfolding key_select
key_select-Keeps m s o =
    if_cases (IsOrdered m) (not s.selecting) _ _
      (λ fresh. let kept = clear_selection-Keeps m s o in omega arith)
      (λ started.
        if_cases (IsOrdered m) (s.sel_start == s.c) _ _ (λ empty. omega arith)
          (λ some_byte.
            marked (if slt s.c s.sel_start then s.c else s.sel_start)
              (if slt s.c s.sel_start then s.sel_start else s.c) (ground arith) (ground arith)))
  where
    marked :
        (a b : ℕ)
        → a < word
        → b < word
        → IsOrdered m
            (update_highlight a b true (record s { selecting = false; sel_start = a; sel_end = b }))
    marked a b p q =
        let s' : Console = record s { selecting = false; sel_start = a; sel_end = b } in
        let (same, _, start, end) = update_highlight-same a b true s' in
        text-IsOrdered m m s' (update_highlight a b true s') same (omega arith)
          (omega (arith, start)) (omega (arith, end)) (omega arith)

pub key_copy-Keeps : Keeps 0 key_copy
unfolding key_copy
key_copy-Keeps m s o = elim (Bool-cases (has_selection s)) [
  | inl marked ↦ rw marked (omega arith)
  | inr unmarked ↦ let kept = clear_selection-Keeps m s o in rw unmarked (omega arith)
]

-- The deletion of a selection in front of an insertion.
pub replaced-Keeps :
    (m : ℕ) (s : Console)
    → IsOrdered m s
    → IsOrdered m (if has_selection s then delete_selection s else s)
replaced-Keeps m s o = elim (Bool-cases (has_selection s)) [
  | inl marked ↦ rw marked (keep delete_selection delete_selection-Keeps m s o)
  | inr unmarked ↦ rw unmarked o
]

pub key_paste-Keeps : Keeps 0 key_paste
unfolding key_paste
key_paste-Keeps m s o = keep clear_selection clear_selection-Keeps m _ (
    keep deselect_if_any deselect_if_any-Keeps m _ (elim (Bool-cases (ltb 0 s.clip_n)) [
      | inl some_byte ↦ rw some_byte (
          keep (paste_bytes s.clip_n 0) (paste_bytes-Keeps s.clip_n 0) m _
            (replaced-Keeps m s (omega arith)))
      | inr empty ↦ rw empty (omega arith)
    ]))

pub key_word_right-Keeps : Keeps 1 key_word_right
unfolding key_word_right
key_word_right-Keeps m s0 o0 =
    let s = deselect_if_any s0 in
    let o : IsOrdered (1 + m) s = keep deselect_if_any deselect_if_any-Keeps (1 + m) s0 o0 in
    let t1 = on_word (rounds s.c s.e) s.c s.buf in
    elim (Bool-cases (s.e == s.w)) [
      | inl empty ↦ rw empty (omega arith)
      | inr some_byte ↦ rw some_byte (
          ground
            (arith, on_word-le (rounds s.c s.e) s.c s.buf, on_blanks-le (rounds t1 s.e) t1 s.buf))
    ]
