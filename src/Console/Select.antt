-- ===== src/Console/Select.antt =====
-- The selection: highlighting it, clearing it, deleting it.
use os_ca.Common.{
  ℕ, zero, suc, ◌+◌, ◌%◌, Bool, false, ◌||◌, ◌&&◌, not, List, Cells, put, ltb, ◌==◌, if◌then◌else◌,
  minus_one, add32, sub32, slt, srem, rounds, srounds,
}
use os_ca.Console.State.{Console, Op, op_delete, record_op}
use os_ca.Console.Display.{cga_get_cursor_pos, cga_set_cursor_pos, put_range, put_times}

-- the loop of `update_highlight`: `screen_pos` is an `int`
unfoldable pub paint : ℕ → ℕ → ℕ → Cells → Cells
paint zero pos attr crt = crt
paint (suc n) pos attr crt =
    paint n (add32 pos 1) attr (if ltb pos 2000 then put crt pos (crt pos % 256 + attr) else crt)

-- The part of [start, end) inside the line [w, e), by the signed tests.
abbrev pub clip_low : Console → ℕ → ℕ
clip_low s start = if slt start s.w then s.w else start

abbrev pub clip_high : Console → ℕ → ℕ
clip_high s end = if slt s.e end then s.e else end

unfoldable pub update_highlight : ℕ → ℕ → Bool → Console → Console
update_highlight start end on s =
    if slt start 0 || not (slt start end)
    then s
    else if not (slt (clip_low s start) (clip_high s end))
    then s
    else (let screen_pos_of_w = sub32 (cga_get_cursor_pos s.screen) (sub32 s.c s.w) in
        let first = add32 screen_pos_of_w (sub32 (clip_low s start) s.w) in
        let attr : ℕ = if on then 0x7000 else 0x700 in
        let n = srounds (clip_low s start) (clip_high s end) in
        record s { screen = record (s.screen) { crt = paint n first attr s.screen.crt } })

unfoldable pub clear_selection : Console → Console
clear_selection s =
    if not (s.sel_start == minus_one)
    then record (update_highlight s.sel_start s.sel_end false s) {
      sel_start = minus_one;
      sel_end = minus_one;
      selecting = false;
    }
    else record s { selecting = false }

-- `input.sel_start != -1 && input.sel_end != -1`
abbrev pub has_selection : Console → Bool
has_selection s = not (s.sel_start == minus_one) && not (s.sel_end == minus_one)

unfoldable pub deselect_if_any : Console → Console
deselect_if_any s = if has_selection s then clear_selection s else s

-- the two ends in order, by the signed test
abbrev pub sel_low : Console → ℕ
sel_low s = if slt s.sel_end s.sel_start then s.sel_end else s.sel_start

abbrev pub sel_high : Console → ℕ
sel_high s = if slt s.sel_end s.sel_start then s.sel_start else s.sel_end

-- `for (k = 0; k < len && undo.n < UNDO_BUF; k++)`: the deleted bytes go on the undo stack. Once it
-- is full `record_op` adds nothing, as the loop's end does.
unfoldable pub record_deletes : ℕ → ℕ → Cells → List Op → List Op
record_deletes zero p buf ops = ops
record_deletes (suc n) p buf ops =
    record_deletes n (add32 p 1) buf
      (record_op (record { type = op_delete; c = buf (srem p 128); pos = p }) ops)

-- `for (i = from; …; i++) buf[(i - by) % INPUT_BUF] = buf[i % INPUT_BUF]`, all `int`
unfoldable pub shift_down : ℕ → ℕ → ℕ → Cells → Cells
shift_down zero by i buf = buf
shift_down (suc n) by i buf =
    shift_down n by (add32 i 1) (put buf (srem (sub32 i by) 128) (buf (srem i 128)))

-- The screen position of the line's start, kept on the screen.
abbrev pub clamp_screen : ℕ → ℕ
clamp_screen p = if slt p 0 then 0 else if slt p 2000 then p else 1999

-- From `int len = e - s` on, for the clipped ends `a` and `b`.
unfoldable pub delete_range : ℕ → ℕ → Console → Console
delete_range a b s =
    let len = sub32 b a in
    let start = clamp_screen (sub32 (cga_get_cursor_pos s.screen) (sub32 s.c s.w)) in
    let buf' : Cells = shift_down (srounds b s.e) len b s.buf in
    let e' = sub32 s.e len in
    let drawn = cga_set_cursor_pos (add32 start (sub32 a s.w)) (
      put_times (srounds 0 (sub32 s.e e')) 32
        (put_range (rounds s.w e') s.w buf' (cga_set_cursor_pos start s.screen))) in
    clear_selection (record s {
      undo = record_deletes (srounds 0 len) a s.buf s.undo;
      buf = buf';
      e = e';
      c = a;
      screen = drawn;
    })

unfoldable pub delete_selection : Console → Console
delete_selection s =
    if (s.sel_start == minus_one) || (s.sel_end == minus_one)
    then s
    else if not (slt (clip_low s (sel_low s)) (clip_high s (sel_high s)))
    then clear_selection s
    else delete_range (clip_low s (sel_low s)) (clip_high s (sel_high s)) s
