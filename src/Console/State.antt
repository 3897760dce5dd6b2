-- ===== src/Console/State.antt =====
-- The state of console.c: `input`, `undo`, `clipboard`, `tab_state`, `cons.locking`, and the
-- display (the CGA text memory `crt`, its cursor register and the serial line).
use os_ca.Common.{ℕ, ◌-◌, Bool, false, List, [], Cells, length, ltb, if◌then◌else◌, ◌∷◌}

-- `enum { OP_INSERT, OP_DELETE }`
pub data OpType : Type 0 where
  op_insert op_delete : OpType

-- `struct op`
pub record Op : Type 0 where
  pub type : OpType
  pub c : ℕ
  pub pos : ℕ

-- `panicked` is set by `panic`, which never returns: a state with it set stands for a stopped
-- machine, and nothing on the display changes from there.
pub record Screen : Type 0 where
  pub crt : Cells
  pub cursor : ℕ
  pub sent : List ℕ
  pub panicked : Bool

-- The undo stack is the list of the operations in use, newest first: `undo.n` is its length. `sel_start` and `sel_end` are `int`, `r`, `w`, `e` and
-- `c` are `uint`. `clip` and `clip_n` are the clipboard's array and its `n`. `woken` counts the calls `wakeup(&input.r)`.
pub record Console : Type 0 where
  pub buf : Cells
  pub r : ℕ
  pub w : ℕ
  pub e : ℕ
  pub c : ℕ
  pub selecting : Bool
  pub sel_start : ℕ
  pub sel_end : ℕ
  pub undo : List Op
  pub clip : Cells
  pub clip_n : ℕ
  pub last_key_was_tab : Bool
  pub locking : Bool
  pub woken : ℕ
  pub screen : Screen

-- `INPUT_BUF`, `UNDO_BUF` and `CLIPBOARD_BUF`
abbrev pub input_buf : ℕ
input_buf = 128

abbrev pub undo_buf : ℕ
undo_buf = 128

abbrev pub clipboard_buf : ℕ
clipboard_buf = 128

-- `if (undo.n < UNDO_BUF) undo.buf[undo.n++] = op`
abbrev pub record_op : Op → List Op → List Op
record_op o ops = if ltb (length ops) undo_buf then o ∷ ops else ops

-- `C(x)`
abbrev pub ctrl : ℕ → ℕ
ctrl x = x - b'@'

-- the start of `consoleinit`, over the display as it stands
unfoldable pub consoleinit : Console → Console
consoleinit s = record s {
  locking = Bool.true;
  r = 0;
  w = 0;
  e = 0;
  c = 0;
  undo = [];
  last_key_was_tab = false;
}
