-- ===== src/Console/Keys/More.antt =====
-- The other cases of the switch in `consoleintr`.
use os_ca.Common.{
  ℕ, zero, suc, ◌+◌, ◌%◌, Bool, ◌||◌, ◌&&◌, not, List, [], ◌∷◌, Cells, put, ltb, leb, ◌==◌,
  if◌then◌else◌, add32, sub32, srem, rounds, srounds,
}
use os_ca.Console.State.{Console, Op, OpType, op_insert, op_delete, record_op, ctrl}
use os_ca.Console.Display.{
  backspace, cga_get_cursor_pos, cga_set_cursor_pos, cgaputc, consputc, put_range, put_times,
  cursor_right, cursor_left,
}
use os_ca.Console.Select.{
  clear_selection, deselect_if_any, delete_selection, has_selection, shift_down,
}
use os_ca.Console.Keys.{is_whitespace, insert_at}

-- The loops of C('D'): on over the word, then over the blanks behind it.
unfoldable pub on_word : ℕ → ℕ → Cells → ℕ
on_word zero t buf = t
on_word (suc n) t buf =
    let more = on_word n (add32 t 1) buf in
    if not (is_whitespace (buf (srem t 128))) then more else t

unfoldable pub on_blanks : ℕ → ℕ → Cells → ℕ
on_blanks zero t buf = t
on_blanks (suc n) t buf =
    let more = on_blanks n (add32 t 1) buf in if is_whitespace (buf (srem t 128)) then more else t

-- C('D'): the end of file on an empty line, else a word to the right.
unfoldable pub key_word_right : Console → Console
key_word_right s0 =
    let s = deselect_if_any s0 in
    let t1 = on_word (rounds s.c s.e) s.c s.buf in
    let t2 = on_blanks (rounds t1 s.e) t1 s.buf in
    if s.e == s.w
    then record s {
      buf = put s.buf (s.e % 128) (ctrl b'D');
      e = add32 s.e 1;
      w = add32 s.e 1;
      c = add32 s.e 1;
      woken = s.woken + 1;
    }
    else if ltb s.c s.e && ltb t2 s.e
    then record s { c = t2; screen = cursor_right (sub32 t2 s.c) s.screen }
    else s

-- C('U')
unfoldable pub key_kill : Console → Console
key_kill s0 =
    let s = deselect_if_any s0 in
    if not (s.e == s.w)
    then record s {
      e = s.w;
      c = s.w;
      undo = [];
      screen = put_times (sub32 s.e s.w) backspace (cursor_right (sub32 s.e s.c) s.screen);
    }
    else record s { c = s.w; undo = [] }

-- C('H') and DEL with no selection: the byte before the cursor goes.
unfoldable pub erase_byte : Console → Console
erase_byte s =
    let start = sub32 (cga_get_cursor_pos s.screen) (sub32 s.c s.w) in
    let buf' : Cells = shift_down (srounds s.c s.e) 1 s.c s.buf in
    let c' = sub32 s.c 1 in
    let e' = sub32 s.e 1 in
    let drawn = put_range (srounds s.w e') s.w buf' (cga_set_cursor_pos start s.screen) in
    record s {
      undo =
          record_op (record { type = op_delete; c = s.buf (sub32 s.c 1 % 128); pos = sub32 s.c 1 })
            s.undo;
      buf = buf';
      c = c';
      e = e';
      screen = cga_set_cursor_pos (add32 start (sub32 c' s.w)) (consputc 32 drawn);
    }

unfoldable pub key_backspace : Console → Console
key_backspace s =
    if has_selection s then delete_selection s else if ltb s.w s.c then erase_byte s else s

-- The byte at `pos` goes, and the cursor moves there.
unfoldable pub remove_at : ℕ → Console → Console
remove_at pos s =
    let buf' : Cells = shift_down (rounds (add32 pos 1) s.e) 1 (add32 pos 1) s.buf in
    let e' = sub32 s.e 1 in
    let drawn = put_range (rounds pos e') pos buf' (cursor_left (sub32 s.c pos) s.screen) in
    record s {
      buf = buf';
      e = e';
      c = pos;
      screen = cursor_left (add32 (sub32 e' pos) 1) (consputc 32 drawn);
    }

-- C('Z') for the operation that it pops. An OP_DELETE is dropped.
unfoldable pub undo_op : OpType → ℕ → Console → Console
undo_op op_delete pos s = s
undo_op op_insert pos s = if ltb pos s.w || leb s.e pos then s else remove_at pos s

-- the pop itself
unfoldable pub pop_op : List Op → Console → Console
pop_op [] s = s
pop_op (o ∷ ops) s = undo_op o.type o.pos (record s { undo = ops })

unfoldable pub key_undo : Console → Console
key_undo s0 = let s = deselect_if_any s0 in pop_op s.undo s

-- KEY_LF and KEY_RT
unfoldable pub key_left : Console → Console
key_left s0 =
    let s = deselect_if_any s0 in
    if ltb s.w s.c then record s { c = sub32 s.c 1; screen = cursor_left 1 s.screen } else s

unfoldable pub key_right : Console → Console
key_right s0 =
    let s = deselect_if_any s0 in
    if ltb s.c s.e then record s { c = add32 s.c 1; screen = cursor_right 1 s.screen } else s

-- A line ends: the newline goes in at `e`, at whatever place the cursor is.
unfoldable pub commit_line : Bool → Console → Console
commit_line newline s = record s {
  buf = put s.buf (s.e % 128) 10;
  e = add32 s.e 1;
  w = add32 s.e 1;
  c = add32 s.e 1;
  undo = [];
  woken = s.woken + 1;
  screen = if newline then cgaputc 10 s.screen else s.screen;
}

-- The `default` case behind the deletion of a selection, for a byte that is not 0.
unfoldable pub type_byte : ℕ → Console → Console
type_byte c s =
    if c == 10 || s.e == add32 s.r 128
    then commit_line (c == 10) s
    else if ltb s.e (add32 s.r 128)
    then insert_at c (srounds s.c s.e) srounds s
    else s

unfoldable pub key_default : ℕ → Console → Console
key_default c s =
    if c == 0
    then s
    else clear_selection
        (type_byte (if c == 13 then 10 else c) (if has_selection s then delete_selection s else s))
