-- ===== src/Console/Intr.antt =====
-- `consoleintr`: the loop over the keys, and the switch.
use os_ca.Common.{ℕ, Bool, false, ◌||◌, List, [], ◌∷◌, ◌==◌, if◌then◌else◌}
use os_ca.Console.State.{Console, ctrl}
use os_ca.Console.Select.{deselect_if_any}
use os_ca.Console.Complete.{handle_tab_completion}
use os_ca.Console.Keys.{key_select, key_copy, key_paste, key_word_left}
use os_ca.Console.Keys.More.{
  key_word_right, key_kill, key_backspace, key_undo, key_left, key_right, key_default,
}

-- The cases of the switch.
pub data Key : Type 0 where
  tab select copy paste word_left word_right dump kill backspace undo left right : Key
  other : ℕ → Key

-- KEY_LF and KEY_RT of kbd.h, and C(x) of the letters
unfoldable pub decode : ℕ → Key
decode c =
    if c == 9
    then tab
    else if c == ctrl b'S'
    then select
    else if c == ctrl b'C'
    then copy
    else if c == ctrl b'V'
    then paste
    else if c == ctrl b'A'
    then word_left
    else if c == ctrl b'D'
    then word_right
    else if c == ctrl b'P'
    then dump
    else if c == ctrl b'U'
    then kill
    else if c == ctrl b'H' || c == 0x7f
    then backspace
    else if c == ctrl b'Z'
    then undo
    else if c == 0xe4
    then left
    else if c == 0xe5
    then right
    else other c

unfoldable pub run_key : Key → Console → Console
run_key tab s = handle_tab_completion (deselect_if_any s)
run_key select s = key_select s
run_key copy s = key_copy s
run_key paste s = key_paste s
run_key word_left s = key_word_left s
run_key word_right s = key_word_right s
run_key dump s = deselect_if_any s
run_key kill s = key_kill s
run_key backspace s = key_backspace s
run_key undo s = key_undo s
run_key left s = key_left s
run_key right s = key_right s
run_key (other c) s = key_default c s

-- The loop over what `getc` returns until it is negative; the other result is `doprocdump`. It runs
-- under `cons.lock`, so it is one step for the readers.
unfoldable pub consoleintr : List ℕ → Console → Console × Bool
consoleintr [] s = (s, false)
consoleintr (c ∷ cs) s =
    let (s', doprocdump) = consoleintr cs (run_key (decode c) s) in
    (s', c == ctrl b'P' || doprocdump)
