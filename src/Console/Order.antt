-- ===== src/Console/Order.antt =====
-- Every key keeps the order r ≤ w ≤ c ≤ e of the indices.
pub mod Words
pub mod Keys
use os_ca.Common.{
  ℕ, zero, suc, ◌+◌, ◌-◌, ◌*◌, ◌≤◌, ◌<◌, ◌≡◌, ◌≢◌, refl, true, false, Bool, not, ◌||◌, ◌&&◌, List,
  [], ◌∷◌, Cells, arith, ap, ◌∙◌, sym, subst, ltb, leb, ◌==◌, Bool-cases, inl, inr, if◌then◌else◌,
  add32, sub32, slt, srem, rounds, srounds, half_word, minus_one, length, flip, word,
}
use os_ca.Console.State.{Console, Op, OpType, op_insert, op_delete}
use os_ca.Console.Select.{
  clear_selection, deselect_if_any, delete_selection, delete_range, has_selection, sel_low,
  sel_high, clip_low, clip_high,
}
use os_ca.Console.Complete.{handle_tab_completion, complete, append_bytes, print_matches_and_redraw}
use os_ca.Console.Keys.{
  insert_at, key_select, key_copy, key_paste, paste_bytes, key_word_left, back_blanks, back_word,
  is_whitespace,
}
use os_ca.Console.Keys.More.{
  key_word_right, on_word, on_blanks, key_kill, key_backspace, erase_byte, remove_at, undo_op,
  pop_op, key_undo, key_left, key_right, key_default, type_byte, commit_line,
}
use os_ca.Console.Intr.{
  Key, tab, select, copy, paste, word_left, word_right, dump, kill, backspace, undo, left, right,
  other, decode, run_key, consoleintr,
}
use os_ca.Console.Line.{Text, text}
use os_ca.Console.Marks.{text-clear_selection, text-deselect_if_any, sel-clear_selection}

-- The order, the room that is left before the largest index would be a negative `int`, and that the
-- selection's ends are words.
pub record IsOrdered (room : ℕ) (s : Console) : Type 0 where
  pub read_le : s.r ≤ s.w
  pub cursor_low : s.w ≤ s.c
  pub cursor_high : s.c ≤ s.e
  pub young : s.e + room < half_word
  pub young_ring : s.r + 128 + room < half_word
  pub start_word : s.sel_start < word
  pub end_word : s.sel_end < word

-- `f` may add `n` bytes.
abbrev pub Keeps : ℕ → (Console → Console) → Type 0
Keeps n f = (m : ℕ) (s : Console) → IsOrdered (n + m) s → IsOrdered m (f s)

pub text-IsOrdered :
    (n m : ℕ) (s t : Console)
    → text t ≡ text s
    → n ≤ m
    → t.sel_start < word
    → t.sel_end < word
    → IsOrdered m s
    → IsOrdered n t
text-IsOrdered n m s t same le a b o =
    let r_same : t.r ≡ s.r = ap (λ x. x.r) same in
    let w_same : t.w ≡ s.w = ap (λ x. x.w) same in
    let e_same : t.e ≡ s.e = ap (λ x. x.e) same in
    let c_same : t.c ≡ s.c = ap (λ x. x.c) same in omega arith

pub keep :
    (f : Console → Console) → Keeps 0 f → (m : ℕ) (s : Console) → IsOrdered m s → IsOrdered m (f s)
keep f h m s o = h m s (omega arith)

pub clear_selection-Keeps : Keeps 0 clear_selection
clear_selection-Keeps m s o =
    text-IsOrdered m (0 + m) s (clear_selection s) (text-clear_selection s) (omega arith)
      (omega (arith, sel-clear_selection s)) (omega (arith, sel-clear_selection s)) o

pub deselect_if_any-Keeps : Keeps 0 deselect_if_any
unfolding deselect_if_any
deselect_if_any-Keeps m s o = elim (Bool-cases (has_selection s)) [
  | inl marked ↦ rw marked (clear_selection-Keeps m s o)
  | inr unmarked ↦ rw unmarked (omega arith)
]

pub insert_at-Keeps :
    (x n m : ℕ) (between : ℕ → ℕ → ℕ) (s : Console)
    → s.e < s.r + 128
    → IsOrdered m s
    → IsOrdered m (insert_at x n between s)
unfolding insert_at
insert_at-Keeps x n m between s free o = omega arith

pub paste_bytes-Keeps : (n i : ℕ) → Keeps 0 (paste_bytes n i)
unfolding paste_bytes
paste_bytes-Keeps zero i m s o = omega arith
paste_bytes-Keeps (suc n) i m s o =
    let end : add32 s.r 128 ≡ s.r + 128 = omega arith in
    elim (Bool-cases (ltb s.e (s.r + 128))) [
      | inl free ↦
          rw (end, free)
            (paste_bytes-Keeps n (i + 1) m _
              (insert_at-Keeps (s.clip i) (rounds s.c s.e) (0 + m) rounds s (ground arith) o))
      | inr full ↦ rw (end, full) (paste_bytes-Keeps n (i + 1) m s o)
    ]

append_bytes-Keeps :
    (bs : List ℕ) (m : ℕ) (s : Console)
    → IsOrdered m s
    → IsOrdered m (append_bytes bs s) × ((append_bytes bs s).w ≤ (append_bytes bs s).e)
unfolding append_bytes
append_bytes-Keeps [] m s o = (o, omega arith)
append_bytes-Keeps (b ∷ bs) m s o =
    let end : add32 s.r 128 ≡ s.r + 128 = omega arith in
    elim (Bool-cases (ltb s.e (s.r + 128))) [
      | inl free ↦
          rw (end, free)
            (let below : s.e < s.r + 128 = ground arith in append_bytes-Keeps bs m _ (omega arith))
      | inr full ↦ rw (end, full) (o, omega arith)
    ]

-- With the cursor at the end of what was appended.
pub appended-Keeps :
    (bs : List ℕ) (m : ℕ) (s : Console)
    → IsOrdered m s
    → IsOrdered m (record (append_bytes bs s) { c = (append_bytes bs s).e })
appended-Keeps bs m s o = let (kept, le) = append_bytes-Keeps bs m s o in omega arith

-- A clipped selection that is not empty lies in the line.
clip_bounds :
    (s : Console) (a b : ℕ)
    → s.w ≤ s.e
    → s.e < half_word
    → a < word
    → b < word
    → slt (clip_low s a) (clip_high s b) ≡ true
    → (s.w ≤ clip_low s a) × (clip_low s a ≤ clip_high s b) × (clip_high s b ≤ s.e)
clip_bounds s a b h k low p q = ground arith

delete_range-Keeps :
    (a b m : ℕ) (s : Console)
    → s.w ≤ a
    → a ≤ b
    → b ≤ s.e
    → IsOrdered m s
    → IsOrdered m (delete_range a b s)
unfolding delete_range
delete_range-Keeps a b m s p q h o = clear_selection-Keeps m _ (omega arith)

pub delete_selection-Keeps : Keeps 0 delete_selection
unfolding delete_selection
delete_selection-Keeps m s o =
    elim (Bool-cases (s.sel_start == minus_one || s.sel_end == minus_one)) [
      | inl unset ↦ rw unset (omega arith)
      | inr is_set ↦
          rw is_set (elim (Bool-cases (slt (clip_low s (sel_low s)) (clip_high s (sel_high s)))) [
            | inl some_byte ↦
                let high_word : sel_high s < word = ground arith in
                let (low, mid, high) =
                  clip_bounds s (sel_low s) (sel_high s) (omega arith) (omega arith) (ground arith)
                    high_word some_byte in
                rw some_byte (
                  delete_range-Keeps (clip_low s (sel_low s)) (clip_high s (sel_high s)) m s low mid
                    high (omega arith))
            | inr empty ↦ rw empty (clear_selection-Keeps m s o)
          ])
    ]
