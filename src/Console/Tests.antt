-- ===== src/Console/Tests.antt =====
-- Runs of the line editor, and its theorems at concrete states.
use os_ca.Common.{
  ℕ, ◌+◌, ◌≡◌, refl, inr, true, false, List, [], ◌∷◌, ◌++◌, Cells, put, arith, length,
  if◌then◌else◌, ltb, ◌-◌, ◌≤◌, half_word, word, minus_one,
}
use os_ca.Console.State.{Console, Screen}
use os_ca.Console.Display.{
  cga_get_cursor_pos, cga_set_cursor_pos, cgaputc, cga_move, cga_finish, scroll, uartputc, consputc,
  put_range, put_times, put_bytes, cursor_left, cursor_right,
}
use os_ca.Console.Select.{
  paint, update_highlight, clear_selection, deselect_if_any, delete_selection, delete_range,
  record_deletes, shift_down,
}
use os_ca.Console.Complete.{
  find_lcp_len, lcp_loop, all_have, has_blank, copy_prefix, find_matches, append_bytes, slice,
  complete, handle_tab_completion, print_matches_and_redraw, put_matches,
}
use os_ca.Strings.{strncmp, strlen}
use os_ca.Console.Keys.{
  is_whitespace, shift_up, insert_at, key_select, key_copy, copy_bytes, key_paste, paste_bytes,
  key_word_left, back_blanks, back_word,
}
use os_ca.Console.Keys.More.{
  key_word_right, on_word, on_blanks, key_kill, key_backspace, erase_byte, remove_at, undo_op,
  pop_op, key_undo, key_left, key_right, key_default, type_byte, commit_line,
}
use os_ca.Console.Intr.{decode, run_key, consoleintr}
use os_ca.Console.Read.{Outcome, done, read_loop, wait_input, consoleread}
use os_ca.Console.Read.Lines.{take_line, used, ends, consoleread-take_line}
use os_ca.Console.Print.{int_bytes}
use os_ca.Console.Print.Digits.{numeral_value, AllDigits, int_bytes-decimal}
use os_ca.Console.Ring.{at}
use os_ca.Console.Line.{text, window, unread, before, after, IsValid, Edited}
use os_ca.Console.Typing.{key_default-inserts}
use os_ca.Console.Remove.{Erased, key_backspace-Erased, key_undo-key_default}
use os_ca.Console.Newline.{key_default-ends_line, key_default-overwrites}
use os_ca.Console.Order.{IsOrdered}
use os_ca.Console.Order.Keys.{consoleintr-Keeps}

abbrev blank_screen : Screen
blank_screen = record { crt = λ _. 0; cursor = 1000; sent = []; panicked = false }

-- `n` bytes of the line, from `cells`, with the cursor at `c`, behind `w` bytes of finished lines.
abbrev console : Cells → ℕ → ℕ → ℕ → Console
console cells w c e = record {
  buf = cells;
  r = 0;
  w = w;
  e = e;
  c = c;
  selecting = false;
  sel_start = minus_one;
  sel_end = minus_one;
  undo = [];
  clip = λ _. 0;
  clip_n = 0;
  last_key_was_tab = false;
  locking = true;
  woken = 0;
  screen = blank_screen;
}

-- "hi" and a newline, then "ab" with the cursor between the two
abbrev cells : Cells
cells = put (put (put (put (put (λ _. 0) 0 104) 1 105) 2 10) 3 97) 4 98

abbrev s : Console
s = console cells 3 4 5

abbrev full : Console
full = console cells 3 4 128

-- What a read gives behind some keys on an empty console.
abbrev bytes_of : Outcome → List ℕ
bytes_of (done s bs) = bs
bytes_of _ = []

keys_run : List ℕ → List ℕ
unfolding consoleintr decode run_key key_default type_byte insert_at shift_up commit_line key_undo
    pop_op undo_op remove_at key_backspace erase_byte shift_down key_left key_right key_kill
    key_select key_copy copy_bytes key_paste paste_bytes key_word_left back_blanks back_word
    is_whitespace key_word_right on_word on_blanks deselect_if_any clear_selection delete_selection
    delete_range record_deletes update_highlight paint handle_tab_completion has_blank copy_prefix
    find_matches strncmp strlen complete append_bytes slice find_lcp_len lcp_loop all_have
    print_matches_and_redraw put_matches put_bytes consoleread read_loop wait_input consputc cgaputc
    cga_move cga_finish scroll cga_get_cursor_pos cga_set_cursor_pos uartputc put_range put_times
    cursor_left cursor_right
keys_run keys = bytes_of (consoleread 128 false [] (consoleintr keys (console (λ _. 0) 0 0 0)).0)

-- "ok!", a backspace, a left arrow, "s", and return
typed_line :
    keys_run (b'o' ∷ b'k' ∷ b'!' ∷ 8 ∷ 0xe4 ∷ b's' ∷ 13 ∷ []) ≡ b'o' ∷ b's' ∷ b'k' ∷ 10 ∷ []
unfolding keys_run
typed_line = refl

-- "use" and a tab
completed_line :
    keys_run (b'u' ∷ b's' ∷ b'e' ∷ 9 ∷ 10 ∷ [])
    ≡ b'u' ∷ b's' ∷ b'e' ∷ b'r' ∷ b't' ∷ b'e' ∷ b's' ∷ b't' ∷ b's' ∷ 10 ∷ []
unfolding keys_run
completed_line = refl

-- "ab", its first byte selected and copied, and pasted over itself and at the end
pasted_line :
    keys_run (b'a' ∷ b'b' ∷ 0xe4 ∷ 0xe4 ∷ 19 ∷ 0xe5 ∷ 19 ∷ 3 ∷ 22 ∷ 0xe5 ∷ 22 ∷ 10 ∷ [])
    ≡ b'a' ∷ b'b' ∷ b'a' ∷ 10 ∷ []
unfolding keys_run
pasted_line = refl

-- "a bc", C('A') to the word's start, "x", and undone
undone_line :
    keys_run (b'a' ∷ 32 ∷ b'b' ∷ b'c' ∷ 1 ∷ b'x' ∷ b'y' ∷ 26 ∷ 10 ∷ [])
    ≡ b'a' ∷ 32 ∷ b'x' ∷ b'b' ∷ b'c' ∷ 10 ∷ []
unfolding keys_run
undone_line = refl

valid : IsValid (text s)
valid = omega arith

key_default-inserts_example :
    Edited (text s) (text (key_default b'x' s)) (before (text s) ++ (b'x' ∷ [])) (after (text s))
key_default-inserts_example =
    key_default-inserts b'x' s valid (omega arith) (omega arith) (omega arith) (omega arith)
      (omega arith) refl

key_undo-key_default_example :
    Edited (text s) (text (key_undo (key_default b'x' s))) (before (text s)) (after (text s))
    × ((key_undo (key_default b'x' s)).undo ≡ [])
key_undo-key_default_example =
    key_undo-key_default b'x' s valid (omega arith) (omega arith) (omega arith) (omega arith)
      (omega arith) refl (omega arith)

key_backspace-Erased_example : Erased (text s) (text (key_backspace s))
key_backspace-Erased_example = key_backspace-Erased s valid (omega arith) (omega arith) refl

key_default-ends_line_example :
    let t = text (key_default 13 s) in
    (unread t ≡ unread (text s) ++ (before (text s) ++ (after (text s) ++ (10 ∷ []))))
    × (before t ≡ [])
    × (after t ≡ [])
    × IsValid t
key_default-ends_line_example =
    key_default-ends_line 13 s valid (omega arith) (omega arith) refl (inr refl)

key_default-overwrites_example :
    let t = text (key_default b'x' full) in
    (at t.buf t.r ≡ 10) × (t.r ≡ 0) × (t.w ≡ 129) × ¬ IsValid t
key_default-overwrites_example =
    key_default-overwrites b'x' full (omega arith) (omega arith) refl refl (omega arith)

consoleintr-Keeps_example : IsOrdered 0 (consoleintr (b'a' ∷ 26 ∷ 13 ∷ []) s).0
consoleintr-Keeps_example = consoleintr-Keeps (b'a' ∷ 26 ∷ 13 ∷ []) 0 s (omega arith)

consoleread-take_line_example :
    consoleread 10 false [] s
    ≡ done (record s { r = 0 + used 10 true (unread (text s)) }) (take_line 10 (unread (text s)))
consoleread-take_line_example = consoleread-take_line 10 false s valid (omega arith) ends_there
  where
    ends_there : ends 10 (unread (text s)) ≡ true
    ends_there = unfold ends window in refl

int_bytes-decimal_example :
    (ds : List ℕ) × (int_bytes 4294967254 10 true
      ≡ (if ltb 4294967254 half_word then ds else b'-' ∷ ds))
    × (numeral_value 10 0 ds ≡ (if ltb 4294967254 half_word then 4294967254 else word - 4294967254))
    × AllDigits ds
    × (1 ≤ length ds)
    × (length ds ≤ 10)
int_bytes-decimal_example = int_bytes-decimal 4294967254 (omega arith)
