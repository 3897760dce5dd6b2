-- ===== src/Console/Keys.antt =====
-- The cases of the switch in `consoleintr`, one function for each.
pub mod More
use os_ca.Common.{
  ℕ, zero, suc, ◌+◌, ◌-◌, ◌%◌, Bool, true, false, ◌||◌, ◌&&◌, not, List, [], ◌∷◌, Cells, put, ltb,
  leb, ◌==◌, if◌then◌else◌, minus_one, add32, sub32, slt, srem, rounds, srounds,
}
use os_ca.Console.State.{Console, Op, OpType, op_insert, op_delete, record_op, ctrl, clipboard_buf}
use os_ca.Console.Display.{
  backspace, cga_get_cursor_pos, cga_set_cursor_pos, cgaputc, consputc, put_range, put_times,
  cursor_right, cursor_left,
}
use os_ca.Console.Select.{
  update_highlight, clear_selection, deselect_if_any, delete_selection, has_selection, sel_low,
  sel_high, clip_low, clip_high, shift_down,
}

unfoldable pub is_whitespace : ℕ → Bool
is_whitespace c = c == b' ' || c == 9 || c == 10 || c == 11

-- `for (j = from; j > …; j--) buf[j % INPUT_BUF] = buf[(j - 1) % INPUT_BUF]`, `j` an `int`
unfoldable pub shift_up : ℕ → ℕ → Cells → Cells
shift_up zero j buf = buf
shift_up (suc n) j buf = shift_up n (sub32 j 1) (put buf (srem j 128) (buf (srem (sub32 j 1) 128)))

-- A byte goes in at the cursor: the insertion that typing and pasting share. `n` is the number of
-- bytes that move up; `between` counts the rounds of the loop that draws, by that code's test.
unfoldable pub insert_at : ℕ → ℕ → (ℕ → ℕ → ℕ) → Console → Console
insert_at ch n between s =
    let buf' : Cells = put (shift_up n s.e s.buf) (s.c % 128) ch in
    let e' = add32 s.e 1 in
    let c' = add32 s.c 1 in
    record s {
      undo = record_op (record { type = op_insert; c = ch; pos = s.c }) s.undo;
      buf = buf';
      e = e';
      c = c';
      screen =
          cursor_left (sub32 e' c')
            (put_range (between (sub32 c' 1) e') (sub32 c' 1) buf' s.screen);
    }

-- C('S')
unfoldable pub key_select : Console → Console
key_select s =
    if not s.selecting
    then record (clear_selection s) { selecting = true; sel_start = s.c; sel_end = minus_one }
    else if s.sel_start == s.c
    then record s { selecting = false; sel_start = minus_one; sel_end = minus_one }
    else (let a : ℕ = if slt s.c s.sel_start then s.c else s.sel_start in
        let b : ℕ = if slt s.c s.sel_start then s.sel_start else s.c in
        update_highlight a b true (record s { selecting = false; sel_start = a; sel_end = b }))

-- `clipboard.buf[i] = input.buf[(s + i) % INPUT_BUF]`, for `n` bytes from `i` on; `p` is `s + i`.
unfoldable pub copy_bytes : ℕ → ℕ → ℕ → Cells → Cells → Cells
copy_bytes zero i p buf clip = clip
copy_bytes (suc n) i p buf clip =
    copy_bytes n (i + 1) (add32 p 1) buf (put clip i (buf (srem p 128)))

-- `if (len > CLIPBOARD_BUF) len = CLIPBOARD_BUF`, signed
abbrev pub clip_len : ℕ → ℕ
clip_len len = if slt 128 len then 128 else len

-- C('C'). The loop runs by the signed `len`, and `clipboard.n` takes it as a `uint`.
unfoldable pub key_copy : Console → Console
key_copy s =
    if has_selection s
    then (let a = clip_low s (sel_low s) in
        let n = clip_len (sub32 (clip_high s (sel_high s)) a) in
        record s { clip = copy_bytes (srounds 0 n) 0 a s.buf s.clip; clip_n = n })
    else record (clear_selection s) { clip_n = 0 }

-- the loop over the clipboard, `n` bytes from `i` on
unfoldable pub paste_bytes : ℕ → ℕ → Console → Console
paste_bytes zero i s = s
paste_bytes (suc n) i s =
    paste_bytes n (i + 1)
      (if ltb s.e (add32 s.r 128) then insert_at (s.clip i) (rounds s.c s.e) rounds s else s)

-- C('V')
unfoldable pub key_paste : Console → Console
key_paste s = clear_selection (
    deselect_if_any (
      if ltb 0 s.clip_n
      then paste_bytes s.clip_n 0 (if has_selection s then delete_selection s else s)
      else s))

-- The loops of C('A'): back over blanks, then back to the start of the word.
unfoldable pub back_blanks : ℕ → ℕ → Cells → ℕ
back_blanks zero t buf = t
back_blanks (suc n) t buf =
    let more = back_blanks n (sub32 t 1) buf in if is_whitespace (buf (srem t 128)) then more else t

unfoldable pub back_word : ℕ → ℕ → Cells → ℕ
back_word zero t buf = t
back_word (suc n) t buf =
    let more = back_word n (sub32 t 1) buf in
    if not (is_whitespace (buf (srem (sub32 t 1) 128))) then more else t

-- C('A'): `while (temp_c > input.w && …)` goes `temp_c - w` rounds at most.
unfoldable pub key_word_left : Console → Console
key_word_left s0 =
    let s = deselect_if_any s0 in
    let t1 = sub32 s.c 1 in
    let t2 = back_blanks (rounds s.w t1) t1 s.buf in
    let t3 = back_word (rounds s.w t2) t2 s.buf in
    if ltb s.w s.c then record s { c = t3; screen = cursor_left (sub32 s.c t3) s.screen } else s
