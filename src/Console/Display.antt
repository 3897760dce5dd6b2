-- ===== src/Console/Display.antt =====
-- The display side of console.c: the cursor register, `cgaputc`, `consputc`, and `uartputc`'s
-- effect as the list of the bytes sent, newest first.
use os_ca.Common.{
  ℕ, zero, suc, ◌+◌, ◌-◌, ◌/◌, ◌%◌, true, List, [], ◌∷◌, Cells, put, ltb, leb, ◌==◌, if◌then◌else◌,
  add32, sub32, srem,
}
use os_ca.Console.State.{Screen}

abbrev pub backspace : ℕ
backspace = 0x100

-- The register has two bytes: of the `int` that is written to it the low 16 bits stay.
unfoldable pub cga_get_cursor_pos : Screen → ℕ
cga_get_cursor_pos s = s.cursor

unfoldable pub cga_set_cursor_pos : ℕ → Screen → Screen
cga_set_cursor_pos pos s = if s.panicked then s else record s { cursor = pos % 65536 }

-- the message goes to the display, which is not followed from here
abbrev pub panic : Screen → Screen
panic s = record s { panicked = true }

-- `memmove(crt, crt + 80, 23*80 cells)`, then `memset` of `24*80 - pos` cells from `pos`
unfoldable pub scroll : ℕ → Cells → Cells
scroll pos crt i =
    if leb pos i
    then if ltb i 1920 then 0 else crt i
    else if ltb i 1840
    then crt (i + 80)
    else crt i

-- The cell write and the new position, by the kind of character.
unfoldable pub cga_move : ℕ → ℕ → Cells → ℕ × Cells
cga_move c pos crt =
    if c == 10
    then (pos + (80 - pos % 80), crt)
    else if c == backspace
    then (if ltb 0 pos then pos - 1 else pos, crt)
    else (pos + 1, put crt pos (c % 256 + 0x700))

-- The range check, the scrolling, the register, and the blank of a backspace.
unfoldable pub cga_finish : ℕ → ℕ × Cells → Screen → Screen
unfolding scroll cga_set_cursor_pos
cga_finish c (pos, crt) s =
    if ltb 2000 pos
    then panic (record s { crt = crt })
    else (let top : ℕ = if leb 24 (pos / 80) then pos - 80 else pos in
        let cells : Cells = if leb 24 (pos / 80) then scroll (pos - 80) crt else crt in
        record (cga_set_cursor_pos top s) {
          crt = if c == backspace then put cells top 0x720 else cells;
        })

unfoldable pub cgaputc : ℕ → Screen → Screen
unfolding cga_move cga_finish cga_get_cursor_pos
cgaputc c s = if s.panicked then s else cga_finish c (cga_move c (cga_get_cursor_pos s) s.crt) s

-- a backspace is sent as `\b`, a blank and `\b`
unfoldable pub uartputc : ℕ → Screen → Screen
uartputc c s = record s { sent = c % 256 ∷ s.sent }

unfoldable pub consputc : ℕ → Screen → Screen
unfolding uartputc cgaputc
consputc c s =
    if s.panicked
    then s
    else cgaputc c
        (if c == backspace then uartputc 8 (uartputc 32 (uartputc 8 s)) else uartputc c s)

-- `for (i = from; …; i++) consputc(buf[i % INPUT_BUF])` with `n` rounds, `i` an `int`
unfoldable pub put_range : ℕ → ℕ → Cells → Screen → Screen
put_range zero i buf s = s
put_range (suc n) i buf s = put_range n (add32 i 1) buf (consputc (buf (srem i 128)) s)

-- `n` times `consputc(c)`
unfoldable pub put_times : ℕ → ℕ → Screen → Screen
put_times zero c s = s
put_times (suc n) c s = put_times n c (consputc c s)

-- The bytes of a C string, one after the other.
unfoldable pub put_bytes : List ℕ → Screen → Screen
put_bytes [] s = s
put_bytes (b ∷ bs) s = put_bytes bs (consputc b s)

-- `cga_set_cursor_pos(cga_get_cursor_pos() + by)`, and the same with `-`
unfoldable pub cursor_right : ℕ → Screen → Screen
unfolding cga_get_cursor_pos cga_set_cursor_pos
cursor_right by s = cga_set_cursor_pos (add32 (cga_get_cursor_pos s) by) s

unfoldable pub cursor_left : ℕ → Screen → Screen
unfolding cga_get_cursor_pos cga_set_cursor_pos
cursor_left by s = cga_set_cursor_pos (sub32 (cga_get_cursor_pos s) by) s
