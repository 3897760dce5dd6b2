-- ===== src/Console/Typing.antt =====
-- Typing a byte, in the middle of a line too.
use os_ca.Common.{
  ℕ, ◌+◌, ◌-◌, ◌<◌, ◌≡◌, ◌≢◌, false, [], ◌∷◌, ◌++◌, arith, srounds, srounds_small, add32, ◌∙◌, ap,
  ◌==◌,
}
use os_ca.Console.State.{Console, op_insert, record_op}
use os_ca.Console.Select.{clear_selection, has_selection}
use os_ca.Console.Keys.{insert_at}
use os_ca.Console.Keys.More.{type_byte, key_default}
use os_ca.Console.Line.{text, before, after, IsValid, IsYoung, Edited}
use os_ca.Console.Edit.{insert_text, insert_text-Edited, text-insert_at}
use os_ca.Console.Marks.{text-clear_selection, undo-clear_selection}

module _ (x : ℕ) (s : Console) (v : IsValid (text s)) (y : IsYoung (text s))
    (free : s.e < s.r + 128) (line : x ≢ 10) where
  pub text-type_byte : text (type_byte x s) ≡ insert_text x (text s)
  unfolding type_byte
  text-type_byte =
      let size : srounds s.c s.e ≡ s.e - s.c = srounds_small s.c s.e (omega arith) (omega arith) in
      let end : add32 s.r 128 ≡ s.r + 128 = omega arith in
      ground (arith, text-insert_at x (srounds s.c s.e) srounds s v y size)

  pub undo-type_byte :
      (type_byte x s).undo ≡ record_op (record { type = op_insert; c = x; pos = s.c }) s.undo
  unfolding type_byte insert_at
  undo-type_byte = let end : add32 s.r 128 ≡ s.r + 128 = omega arith in ground arith

-- The `default` key with no selection: a byte other than 0, `\n` and `\r` goes in at the cursor.
module _ (x : ℕ) (s : Console) (v : IsValid (text s)) (y : IsYoung (text s))
    (free : s.e < s.r + 128) (nul : x ≢ 0) (lf : x ≢ 10) (cr : x ≢ 13)
    (unmarked : has_selection s ≡ false) where
  key_default-plain : key_default x s ≡ clear_selection (type_byte x s)
  unfolding key_default
  key_default-plain =
      let not_nul : (x == 0) ≡ false = ground arith in
      let not_cr : (x == 13) ≡ false = ground arith in rw (not_nul, not_cr, unmarked)

  pub text-key_default : text (key_default x s) ≡ insert_text x (text s)
  text-key_default =
      ap text key_default-plain
      ∙ text-clear_selection (type_byte x s)
      ∙ text-type_byte x s v y free lf

  pub undo-key_default :
      (key_default x s).undo ≡ record_op (record { type = op_insert; c = x; pos = s.c }) s.undo
  undo-key_default =
      ap (λ t. t.undo) key_default-plain
      ∙ undo-clear_selection (type_byte x s)
      ∙ undo-type_byte x s v y free lf

  -- A printable key puts its byte between the two halves of the line and changes nothing else of the
  -- text: what lies before the cursor gains the byte, what lies behind it and the bytes that no
  -- reader has taken stay, for a key that is not NUL, newline or return, no selection, and a free
  -- cell in the ring.
  pub key_default-inserts :
      Edited (text s) (text (key_default x s)) (before (text s) ++ (x ∷ [])) (after (text s))
  key_default-inserts = rw text-key_default (insert_text-Edited x (text s) v y free)
