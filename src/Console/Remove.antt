-- ===== src/Console/Remove.antt =====
-- Taking a byte out of the line: backspace, and the undoing of a typed byte.
use os_ca.Common.{
  ℕ, ◌+◌, ◌-◌, ◌≤◌, ◌<◌, ◌≡◌, ◌≢◌, refl, true, false, List, [], ◌∷◌, ◌++◌, Cells, arith, ap, ◌∙◌,
  sym, subst, leb, ltb, ◌&&◌, if◌then◌else◌, half_word, srounds, srounds_small, sub32, add32,
  length,
}
use os_ca.Console.State.{Console, Op, op_insert}
use os_ca.Console.Select.{shift_down, has_selection, deselect_if_any}
use os_ca.Console.Keys.More.{
  key_default, key_backspace, erase_byte, remove_at, undo_op, pop_op, key_undo,
}
use os_ca.Console.Ring.{at, at-shift_down}
use os_ca.Console.Line.{
  window, window-ext, window-last, Text, text, before, after, IsValid, IsYoung, Edited,
}
use os_ca.Console.Edit.{insert_text, insert_text-Edited, window-inserted_low}
use os_ca.Console.Marks.{text-deselect_if_any, undo-deselect_if_any}
use os_ca.Console.Typing.{text-key_default, undo-key_default}

-- The text without the byte of index `p`, with the cursor there.
abbrev pub remove_text : ℕ → Text → Text
remove_text p t = record {
  buf = shift_down (t.e - (p + 1)) 1 (p + 1) t.buf;
  r = t.r;
  w = t.w;
  e = t.e - 1;
  c = p;
}

module _ (p : ℕ) (t : Text) (v : IsValid t) (y : t.e < half_word) (low : t.w ≤ p)
    (high : p < t.e) where
  abbrev removed : Cells
  removed = shift_down (t.e - (p + 1)) 1 (p + 1) t.buf

  at-removed :
      (i : ℕ)
      → t.r ≤ i
      → i < t.r + 128
      → at removed i
        ≡ (if leb (p + 1) (i + 1) && ltb (i + 1) t.e then at t.buf (i + 1) else at t.buf i)
  at-removed i a b =
      let end : p + 1 + (t.e - (p + 1)) ≡ t.e = omega arith in
      at-shift_down (t.e - (p + 1)) (p + 1) t.r i t.buf (omega arith) (omega arith) (omega arith) a
        b
      ∙ rw end

  window-removed_low : (i n : ℕ) → t.r ≤ i → i + n ≤ p → window removed i n ≡ window t.buf i n
  window-removed_low i n a b =
      window-ext removed t.buf n i i (λ k h. ground (arith, at-removed (i + k)))

  window-removed_high : window removed p (t.e - (p + 1)) ≡ window t.buf (p + 1) (t.e - (p + 1))
  window-removed_high = window-ext removed t.buf (t.e - (p + 1)) p (p + 1) (λ k h.
      let up : p + 1 + k ≡ p + k + 1 = omega arith in
      at-removed (p + k) (omega arith) (omega arith) ∙ rw up (ground arith))

  pub remove_text-Edited :
      Edited t (remove_text p t) (window t.buf t.w (p - t.w)) (window t.buf (p + 1) (t.e - (p + 1)))
  remove_text-Edited =
      let rest : t.e - 1 - p ≡ t.e - (p + 1) = omega arith in
      record {
        same_r = refl;
        same_w = refl;
        same_unread = window-removed_low t.r (t.w - t.r) (omega arith) (omega arith);
        front_is = window-removed_low t.w (p - t.w) (omega arith) (omega arith);
        back_is = rw rest window-removed_high;
        valid = omega arith;
      }

-- `t` is `s` without the byte before the cursor.
abbrev pub Erased : Text → Text → Type 0
Erased s t = Edited s t (before t) (after s) × (before s ≡ before t ++ (at s.buf (s.c - 1) ∷ []))

module _ (s : Console) (v : IsValid (text s)) (y : s.e < half_word) (some_byte : s.w < s.c)
    (unmarked : has_selection s ≡ false) where
  text-erase_byte : text (erase_byte s) ≡ remove_text (s.c - 1) (text s)
  unfolding erase_byte
  text-erase_byte =
      let size : srounds s.c s.e ≡ s.e - s.c = srounds_small s.c s.e (omega arith) (omega arith) in
      let down_c : sub32 s.c 1 ≡ s.c - 1 = omega arith in
      let down_e : sub32 s.e 1 ≡ s.e - 1 = omega arith in
      let up : s.c - 1 + 1 ≡ s.c = omega arith in rw (size, down_c, down_e, up)

  text-key_backspace : text (key_backspace s) ≡ remove_text (s.c - 1) (text s)
  unfolding key_backspace
  text-key_backspace =
      let has_byte : ltb s.w s.c ≡ true = ground arith in rw (unmarked, has_byte) text-erase_byte

  remove_text-Erased : Erased (text s) (remove_text (s.c - 1) (text s))
  remove_text-Erased =
      let up : s.c - 1 + 1 ≡ s.c = omega arith in
      let grown : s.c - s.w ≡ s.c - 1 - s.w + 1 = omega arith in
      let last : s.w + (s.c - 1 - s.w) ≡ s.c - 1 = omega arith in
      let ed = remove_text-Edited (s.c - 1) (text s) v y (omega arith) (omega arith) in
      let back = ed.back_is ∙ ap (λ k. window s.buf k (s.e - k)) up in
      (
        record {
          same_r = refl;
          same_w = refl;
          same_unread = ed.same_unread;
          front_is = refl;
          back_is = back;
          valid = ed.valid;
        },
        rw (ed.front_is, grown)
            (window-last s.buf s.w (s.c - 1 - s.w)
              ∙ ap (λ k. window s.buf s.w (s.c - 1 - s.w) ++ (at s.buf k ∷ [])) last),
      )

  -- With no selection and the cursor behind the line's start, a backspace takes the byte before the
  -- cursor out of the line, and changes nothing else of the text.
  pub key_backspace-Erased : Erased (text s) (text (key_backspace s))
  key_backspace-Erased = subst (Erased (text s)) (sym text-key_backspace) remove_text-Erased

-- Popping an OP_INSERT whose byte is in the line.
module _ (x p : ℕ) (ops : List Op) (s : Console) (v : IsValid (text s)) (y : s.e < half_word)
    (low : s.w ≤ p) (high : p < s.e) where
  pop_op-insert :
      let t = pop_op (record { type = op_insert; c = x; pos = p } ∷ ops) s in
      (text t ≡ remove_text p (text s)) × (t.undo ≡ ops)
  unfolding pop_op undo_op remove_at
  pop_op-insert =
      let up : add32 p 1 ≡ p + 1 = omega arith in
      let down : sub32 s.e 1 ≡ s.e - 1 = omega arith in
      let not_low : ltb p s.w ≡ false = ground arith in
      let not_high : leb s.e p ≡ false = ground arith in
      (rw (not_low, not_high, up, down), rw (not_low, not_high))

key_undo-insert :
    (x p : ℕ) (ops : List Op) (s : Console)
    → IsValid (text s)
    → s.e < half_word
    → s.w ≤ p
    → p < s.e
    → s.undo ≡ record { type = op_insert; c = x; pos = p } ∷ ops
    → (text (key_undo s) ≡ remove_text p (text s)) × ((key_undo s).undo ≡ ops)
unfolding key_undo deselect_if_any
key_undo-insert x p ops s v y low high top =
    let d = deselect_if_any s in
    let same = text-deselect_if_any s in
    let top' = undo-deselect_if_any s ∙ top in
    let v' = subst IsValid (sym same) v in
    let y' = subst (λ t. t.e < half_word) (sym same) y in
    let low' = subst (λ t. t.w ≤ p) (sym same) low in
    let high' = subst (λ t. p < t.e) (sym same) high in
    let popped = pop_op-insert x p ops d v' y' low' high' in
    rw top' (popped.0 ∙ ap (remove_text p) same, popped.1)

-- Undoing what the `default` key typed.
module _ (x : ℕ) (s : Console) (v : IsValid (text s)) (y : IsYoung (text s))
    (free : s.e < s.r + 128) (nul : x ≢ 0) (lf : x ≢ 10) (cr : x ≢ 13)
    (unmarked : has_selection s ≡ false) (stack : length s.undo < 128) where
  abbrev typed : Console
  typed = key_default x s

  text-typed : text typed ≡ insert_text x (text s)
  text-typed = text-key_default x s v y free nul lf cr unmarked

  undo-typed : typed.undo ≡ record { type = op_insert; c = x; pos = s.c } ∷ s.undo
  undo-typed =
      let room : ltb (length s.undo) 128 ≡ true = ground arith in
      undo-key_default x s v y free nul lf cr unmarked ∙ rw room

  back_again :
      Edited (text s) (remove_text s.c (insert_text x (text s))) (before (text s)) (after (text s))
  back_again =
      let put_in = insert_text-Edited x (text s) v y free in
      let ed =
        remove_text-Edited s.c (insert_text x (text s)) put_in.valid (omega arith) v.cursor_low
          (omega arith) in
      let rest : s.e + 1 - (s.c + 1) ≡ s.e - s.c = omega arith in
      record {
        same_r = refl;
        same_w = refl;
        same_unread = ed.same_unread ∙ put_in.same_unread;
        front_is =
            ed.front_is
            ∙ window-inserted_low s.buf s.r s.c s.e x (omega arith) v.cursor_high free (omega arith)
                s.w (s.c - s.w) (omega arith) (omega arith);
        back_is = ed.back_is ∙ put_in.back_is;
        valid = ed.valid;
      }

  -- Typing a byte and then undoing restores both halves of the line, the cursor, the bytes that no
  -- reader has taken and the undo stack, under the conditions of typing and while the undo stack
  -- has room.
  pub key_undo-key_default :
      Edited (text s) (text (key_undo typed)) (before (text s)) (after (text s))
      × ((key_undo typed).undo ≡ s.undo)
  key_undo-key_default =
      let put_in = insert_text-Edited x (text s) v y free in
      let ok = subst IsValid (sym text-typed) put_in.valid in
      let old = subst (λ t. t.e < half_word) (sym text-typed) (omega arith) in
      let low = subst (λ t. t.w ≤ s.c) (sym text-typed) v.cursor_low in
      let high = subst (λ t. s.c < t.e) (sym text-typed) (omega arith) in
      let gone = key_undo-insert x s.c s.undo typed ok old low high undo-typed in
      (
        subst (λ t. Edited (text s) t (before (text s)) (after (text s)))
            (sym (gone.0 ∙ ap (remove_text s.c) text-typed)) back_again,
        gone.1,
      )
