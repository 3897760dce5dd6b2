-- ===== src/Console/Newline.antt =====
-- The end of a line, with a free cell in the ring and without one.
use os_ca.Common.{
  ℕ, ◌+◌, ◌-◌, ◌%◌, ◌≤◌, ◌<◌, ◌≡◌, ◌≢◌, ◌⊎◌, inl, inr, refl, true, false, Bool, [], ◌∷◌, ◌++◌, put,
  arith, ◌∙◌, sym, subst, ◌||◌, ◌==◌, if◌then◌else◌, add32, append_assoc,
}
use os_ca.Console.State.{Console}
use os_ca.Console.Select.{has_selection}
use os_ca.Console.Keys.More.{key_default, type_byte, commit_line}
use os_ca.Console.Ring.{at, at-put}
use os_ca.Console.Line.{
  window, window-ext, window-last, text_bytes, Text, text, unread, before, after, IsValid, IsYoung,
}
use os_ca.Console.Marks.{text-clear_selection}

abbrev pub committed : Text → Text
committed t = record {
  buf = put t.buf (t.e % 128) 10;
  r = t.r;
  w = t.e + 1;
  e = t.e + 1;
  c = t.e + 1;
}

text-commit_line :
    (newline : Bool) (s : Console)
    → IsYoung (text s)
    → text (commit_line newline s) ≡ committed (text s)
unfolding commit_line
text-commit_line newline s y = let up : add32 s.e 1 ≡ s.e + 1 = omega arith in rw up

-- The key that ends a line: a newline or a return, or any byte where the ring is full.
abbrev pub EndsLine : ℕ → Console → Type 0
EndsLine x s = (x ≢ 0) × ((x ≡ 10) ⊎ (x ≡ 13) ⊎ (s.e ≡ s.r + 128))

text-key_default_end :
    (x : ℕ) (s : Console)
    → IsYoung (text s)
    → s.r ≤ s.e
    → has_selection s ≡ false
    → EndsLine x s
    → text (key_default x s) ≡ committed (text s)
unfolding key_default type_byte
text-key_default_end x s y le unmarked (nul, ends) =
    let not_nul : (x == 0) ≡ false = ground arith in
    let byte : ℕ = if x == 13 then 10 else x in
    let stop : (byte == 10 || s.e == add32 s.r 128) ≡ true = ground arith in
    rw (not_nul, unmarked)
      (text-clear_selection (type_byte byte s) ∙ rw stop (text-commit_line (byte == 10) s y))

-- What `committed` does to the text, where the ring has a free cell.
module _ (t : Text) (v : IsValid t) (free : t.e < t.r + 128) where
  window-committed : window (committed t).buf t.r (t.e - t.r) ≡ window t.buf t.r (t.e - t.r)
  window-committed =
      window-ext (committed t).buf t.buf (t.e - t.r) t.r t.r
        (λ k h. ground (arith, at-put t.buf t.e 10 (t.r + k)))

  unread-committed : unread (committed t) ≡ unread t ++ (before t ++ (after t ++ (10 ∷ [])))
  unread-committed =
      let grown : t.e + 1 - t.r ≡ t.e - t.r + 1 = omega arith in
      let last : t.r + (t.e - t.r) ≡ t.e = omega arith in
      let newline : at (committed t).buf t.e ≡ 10 = ground arith in
      rw (grown, window-last, last, newline, window-committed, text_bytes t v) (simp append_assoc)

-- Return and newline end the line: with a free cell in the ring and no selection, the bytes that
-- wait for a reader gain the whole line, wherever the cursor is in it, and a newline; the line
-- itself is empty.
pub key_default-ends_line :
    (x : ℕ) (s : Console)
    → IsValid (text s)
    → IsYoung (text s)
    → s.e < s.r + 128
    → has_selection s ≡ false
    → (x ≡ 10) ⊎ (x ≡ 13)
    → let t = text (key_default x s) in
      (unread t ≡ unread (text s) ++ (before (text s) ++ (after (text s) ++ (10 ∷ []))))
      × (before t ≡ [])
      × (after t ≡ [])
      × IsValid t
unfolding window
key_default-ends_line x s v y free unmarked key =
    let none_left : s.e + 1 - (s.e + 1) ≡ 0 = omega arith in
    let ends : EndsLine x s = (omega arith, elim key [ inl a ↦ inl a | inr b ↦ inr (inl b) ]) in
    subst
      (λ t.
        (unread t ≡ unread (text s) ++ (before (text s) ++ (after (text s) ++ (10 ∷ []))))
        × (before t ≡ [])
        × (after t ≡ [])
        × IsValid t)
      (sym (text-key_default_end x s y (omega arith) unmarked ends))
      (unread-committed (text s) v free, rw none_left, rw none_left, omega arith)

-- A defect: where the ring is full and nothing is selected, any key but NUL that comes to the
-- `default` case ends the line, and its newline goes to the cell of index `r`, the oldest byte that
-- no reader has taken. `w` is then 129 beyond `r`, so the indices no longer fit the ring.
pub key_default-overwrites :
    (x : ℕ) (s : Console)
    → IsValid (text s)
    → IsYoung (text s)
    → s.e ≡ s.r + 128
    → has_selection s ≡ false
    → x ≢ 0
    → let t = text (key_default x s) in
      (at t.buf t.r ≡ 10) × (t.r ≡ s.r) × (t.w ≡ s.r + 129) × ¬ IsValid t
key_default-overwrites x s v y full unmarked nul =
    subst (λ t. (at t.buf t.r ≡ 10) × (t.r ≡ s.r) × (t.w ≡ s.r + 129) × ¬ IsValid t)
      (sym (text-key_default_end x s y (omega arith) unmarked (nul, inr (inr full))))
      (ground arith, refl, omega arith, λ bad. absurd (omega arith))
