-- ===== src/Console/Order/Keys.antt =====
-- Each case of the switch keeps the order of the indices.
use os_ca.Common.{
  ℕ, ◌+◌, ◌%◌, ◌≤◌, ◌<◌, ◌≡◌, ◌||◌, List, [], ◌∷◌, arith, ltb, leb, ◌==◌, Bool-cases, if_cases, inl,
  inr, if◌then◌else◌, add32, sub32, rounds, srounds, length,
}
use os_ca.Console.State.{Console, Op, OpType, op_insert, op_delete}
use os_ca.Console.Select.{clear_selection, deselect_if_any, has_selection}
use os_ca.Console.Complete.{
  handle_tab_completion, complete, print_matches_and_redraw, find_lcp_len, slice, has_blank,
  find_matches, copy_prefix, commands,
}
use os_ca.Strings.{strlen}
use os_ca.Console.Keys.{key_select, key_copy, key_paste, key_word_left}
use os_ca.Console.Keys.More.{
  key_kill, key_backspace, erase_byte, remove_at, undo_op, pop_op, key_undo, key_left, key_right,
  key_default, type_byte, commit_line,
}
use os_ca.Console.Intr.{
  Key, tab, select, copy, paste, word_left, word_right, dump, kill, backspace, undo, left, right,
  other, decode, run_key, consoleintr,
}
use os_ca.Console.Order.{
  IsOrdered, Keeps, keep, clear_selection-Keeps, deselect_if_any-Keeps, insert_at-Keeps,
  appended-Keeps, delete_selection-Keeps,
}
use os_ca.Console.Order.Words.{
  key_word_left-Keeps, key_select-Keeps, key_copy-Keeps, replaced-Keeps, key_paste-Keeps,
  key_word_right-Keeps,
}

pub key_kill-Keeps : Keeps 0 key_kill
unfolding key_kill
key_kill-Keeps m s0 o0 =
    let s = deselect_if_any s0 in
    let o : IsOrdered m s = deselect_if_any-Keeps m s0 o0 in
    elim (Bool-cases (s.e == s.w)) [
      | inl empty ↦ rw empty (omega arith)
      | inr some_byte ↦ rw some_byte (omega arith)
    ]

pub key_backspace-Keeps : Keeps 0 key_backspace
unfolding key_backspace erase_byte
key_backspace-Keeps m s o = elim (Bool-cases (has_selection s)) [
  | inl marked ↦ rw marked (delete_selection-Keeps m s o)
  | inr unmarked ↦ rw unmarked (elim (Bool-cases (ltb s.w s.c)) [
    | inl some_byte ↦ let below : s.w < s.c = ground arith in rw some_byte (omega arith)
    | inr at_start ↦ rw at_start (omega arith)
  ])
]

undo_op-Keeps : (t : OpType) (pos : ℕ) → Keeps 0 (undo_op t pos)
unfolding undo_op remove_at
undo_op-Keeps op_delete pos m s o = omega arith
undo_op-Keeps op_insert pos m s o = elim (Bool-cases (ltb pos s.w || leb s.e pos)) [
  | inl outside ↦ rw outside (omega arith)
  | inr inside ↦
      let low : s.w ≤ pos = ground arith in
      let high : pos < s.e = ground arith in rw inside (omega arith)
]

pop_op-Keeps : (ops : List Op) → Keeps 0 (pop_op ops)
unfolding pop_op
pop_op-Keeps [] m s o = omega arith
pop_op-Keeps (op ∷ ops) m s o = undo_op-Keeps op.type op.pos m _ (omega arith)

pub key_undo-Keeps : Keeps 0 key_undo
unfolding key_undo
key_undo-Keeps m s0 o0 =
    keep (pop_op (deselect_if_any s0).undo) (pop_op-Keeps (deselect_if_any s0).undo) m
      (deselect_if_any s0) (deselect_if_any-Keeps m s0 o0)

pub key_left-Keeps : Keeps 0 key_left
unfolding key_left
key_left-Keeps m s0 o0 =
    let s = deselect_if_any s0 in
    let o : IsOrdered m s = deselect_if_any-Keeps m s0 o0 in
    elim (Bool-cases (ltb s.w s.c)) [
      | inl some_byte ↦ let below : s.w < s.c = ground arith in rw some_byte (omega arith)
      | inr at_start ↦ rw at_start o
    ]

pub key_right-Keeps : Keeps 0 key_right
unfolding key_right
key_right-Keeps m s0 o0 =
    let s = deselect_if_any s0 in
    let o : IsOrdered m s = deselect_if_any-Keeps m s0 o0 in
    elim (Bool-cases (ltb s.c s.e)) [
      | inl some_byte ↦ let below : s.c < s.e = ground arith in rw some_byte (omega arith)
      | inr at_end ↦ rw at_end o
    ]

type_byte-Keeps : (c : ℕ) → Keeps 1 (type_byte c)
unfolding type_byte commit_line
type_byte-Keeps c m s o =
    let end : add32 s.r 128 ≡ s.r + 128 = omega arith in
    elim (Bool-cases (c == 10 || s.e == add32 s.r 128)) [
      | inl stop ↦ rw stop (omega arith)
      | inr more ↦ rw more (elim (Bool-cases (ltb s.e (s.r + 128))) [
        | inl free ↦
            rw (end, free)
              (insert_at-Keeps c (srounds s.c s.e) m srounds s (ground arith) (omega arith))
        | inr full ↦ rw (end, full) (omega arith)
      ])
    ]

pub key_default-Keeps : (c : ℕ) → Keeps 1 (key_default c)
unfolding key_default
key_default-Keeps c m s o = elim (Bool-cases (c == 0)) [
  | inl nul ↦ rw nul (omega arith)
  | inr byte ↦ rw byte (
      keep clear_selection clear_selection-Keeps m _
        (type_byte-Keeps (if c == 13 then 10 else c) m _ (replaced-Keeps (1 + m) s o)))
]

complete-Keeps : (len : ℕ) (matches : List (List ℕ)) → Keeps 0 (complete len matches)
unfolding complete print_matches_and_redraw
complete-Keeps len [] m s o = omega arith
complete-Keeps len (x ∷ []) m s o =
    let kept = appended-Keeps (slice x len (strlen x)) m s (omega arith) in omega arith
complete-Keeps len (x ∷ y ∷ ms) m s o =
    let kept = appended-Keeps (slice x len (find_lcp_len (x ∷ y ∷ ms))) m s (omega arith) in
    if_cases (IsOrdered m) s.last_key_was_tab _ _ (λ again. omega arith)
      (λ once.
        if_cases (IsOrdered m) (ltb len (find_lcp_len (x ∷ y ∷ ms))) _ _ (λ longer. omega arith)
          (λ short. omega arith))

pub handle_tab_completion-Keeps : Keeps 0 handle_tab_completion
unfolding handle_tab_completion
handle_tab_completion-Keeps m s o =
    elim (Bool-cases (has_blank (rounds s.w s.e) s.w s.buf || leb 128 (sub32 s.e s.w))) [
      | inl none_wanted ↦ rw none_wanted (omega arith)
      | inr wanted ↦ rw wanted (
          complete-Keeps (sub32 s.e s.w)
            (find_matches (copy_prefix (sub32 s.e s.w) (s.w % 128) s.buf) (sub32 s.e s.w) commands)
            m s o)
    ]

-- Each key adds a byte to the line at most, beyond what the ring has room for.
pub run_key-Keeps : (k : Key) → Keeps 1 (run_key k)
unfolding run_key
run_key-Keeps tab m s o =
    keep handle_tab_completion handle_tab_completion-Keeps m _
      (keep deselect_if_any deselect_if_any-Keeps m s (omega arith))
run_key-Keeps select m s o = keep key_select key_select-Keeps m s (omega arith)
run_key-Keeps copy m s o = keep key_copy key_copy-Keeps m s (omega arith)
run_key-Keeps paste m s o = keep key_paste key_paste-Keeps m s (omega arith)
run_key-Keeps word_left m s o = keep key_word_left key_word_left-Keeps m s (omega arith)
run_key-Keeps word_right m s o = key_word_right-Keeps m s o
run_key-Keeps dump m s o = keep deselect_if_any deselect_if_any-Keeps m s (omega arith)
run_key-Keeps kill m s o = keep key_kill key_kill-Keeps m s (omega arith)
run_key-Keeps backspace m s o = keep key_backspace key_backspace-Keeps m s (omega arith)
run_key-Keeps undo m s o = keep key_undo key_undo-Keeps m s (omega arith)
run_key-Keeps left m s o = keep key_left key_left-Keeps m s (omega arith)
run_key-Keeps right m s o = keep key_right key_right-Keeps m s (omega arith)
run_key-Keeps (other c) m s o = key_default-Keeps c m s o

-- Whatever keys come in, in whatever order, the indices keep the order r ≤ w ≤ c ≤ e and the ends of
-- the selection stay words, as long as the indices stay `int`s that are not negative: each key may
-- cost one.
pub consoleintr-Keeps :
    (keys : List ℕ) (m : ℕ) (s : Console)
    → IsOrdered (length keys + m) s
    → IsOrdered m (consoleintr keys s).0
unfolding consoleintr
consoleintr-Keeps [] m s o = omega arith
consoleintr-Keeps (c ∷ cs) m s o =
    consoleintr-Keeps cs m (run_key (decode c) s)
      (run_key-Keeps (decode c) (length cs + m) s (omega arith))
