-- ===== src/Grep/Buffer/Lines.antt =====
-- What `grep` writes, as the lines of all that it reads.
use os_ca.Common.{
  ℕ, ◌≡◌, ◌≢◌, refl, ◌∙◌, sym, ap, Bool, true, false, Bool-cases, inl, inr, List, [], ◌∷◌, ◌++◌,
  ◌==◌, if◌then◌else◌, arith, append-nil, append_assoc, ◌⊎◌, ◌||◌, if_cases,
}
use os_ca.Grep.Buffer.{Pass, shown, scan_lines, kept, grep}

-- The lines of a text that end in a newline, for a first line that begins with `line`, and what lies
-- behind the last newline.
unfoldable pub lines : List ℕ → List ℕ → List (List ℕ)
lines line [] = []
lines line (c ∷ text) =
    let behind = line ∷ lines [] text in
    let further = lines (line ++ (c ∷ [])) text in if c == 10 then behind else further

unfoldable tail_of : List ℕ → List ℕ → List ℕ
tail_of line [] = line
tail_of line (c ∷ text) =
    let behind = tail_of [] text in
    let further = tail_of (line ++ (c ∷ [])) text in if c == 10 then behind else further

-- The lines that match, each with its newline.
unfoldable pub matching : List ℕ → List (List ℕ) → List ℕ
matching pattern [] = []
matching pattern (line ∷ more) = shown pattern line ++ matching pattern more

unfoldable pub concat : List (List ℕ) → List ℕ
concat [] = []
concat (chunk ∷ chunks) = chunk ++ concat chunks

-- A text without NUL, and one without newline.
pub data NoNul : List ℕ → Type 0 where
  no_byte : NoNul []
  other : {c : ℕ} {text : List ℕ} → c ≢ 0 → NoNul text → NoNul (c ∷ text)

unfoldable pub has_newline : List ℕ → Bool
has_newline [] = false
has_newline (c ∷ text) = if c == 10 then true else has_newline text

matching-append :
    (p : List ℕ) (xs ys : List (List ℕ)) → matching p (xs ++ ys) ≡ matching p xs ++ matching p ys
unfolding matching
matching-append p [] ys = refl
matching-append p (x ∷ xs) ys =
    ap (λ l. shown p x ++ l) (matching-append p xs ys)
    ∙ sym (append_assoc (shown p x) (matching p xs) (matching p ys))

scan-output :
    (p : List ℕ) (moved : Bool) (line text : List ℕ)
    → NoNul text
    → (scan_lines p moved line text).output ≡ matching p (lines line text)
unfolding scan_lines lines matching
scan-output p moved line [] no_byte = refl
scan-output p moved line (c ∷ text) (other ne h) =
    let stop : (c == 0) ≡ false = ground arith in
    elim (Bool-cases (c == 10)) [
      | inl e ↦ rw e (ap (λ l. shown p line ++ l) (scan-output p true [] text h))
      | inr e ↦ rw (e, stop) (scan-output p moved (line ++ (c ∷ [])) text h)
    ]

scan-left :
    (p : List ℕ) (moved : Bool) (line text : List ℕ)
    → NoNul text
    → (scan_lines p moved line text).left ≡ tail_of line text
unfolding scan_lines tail_of
scan-left p moved line [] no_byte = refl
scan-left p moved line (c ∷ text) (other ne h) =
    let stop : (c == 0) ≡ false = ground arith in
    elim (Bool-cases (c == 10)) [
      | inl e ↦ rw e (scan-left p true [] text h)
      | inr e ↦ rw (e, stop) (scan-left p moved (line ++ (c ∷ [])) text h)
    ]

scan-moved :
    (p : List ℕ) (moved : Bool) (line text : List ℕ)
    → NoNul text
    → moved ≡ true ⊎ has_newline text ≡ true
    → (scan_lines p moved line text).moved ≡ true
unfolding scan_lines has_newline
scan-moved p moved line [] no_byte (inl m) = m
scan-moved p moved line [] no_byte (inr m) = cc
scan-moved p moved line (c ∷ text) (other ne h) m =
    let stop : (c == 0) ≡ false = ground arith in
    elim (Bool-cases (c == 10)) [
      | inl e ↦ rw e (scan-moved p true [] text h (inl refl))
      | inr e ↦ rw (e, stop) (scan-moved p moved (line ++ (c ∷ [])) text h (rw e at m))
    ]

lines-append : (line s t : List ℕ) → lines line (s ++ t) ≡ lines line s ++ lines (tail_of line s) t
unfolding lines tail_of
lines-append line [] t = refl
lines-append line (c ∷ s) t = elim (Bool-cases (c == 10)) [
  | inl e ↦ rw e (ap (λ l. line ∷ l) (lines-append [] s t))
  | inr e ↦ rw e (lines-append (line ++ (c ∷ [])) s t)
]

NoNul-append : {s t : List ℕ} → NoNul s → NoNul t → NoNul (s ++ t)
NoNul-append no_byte t = t
NoNul-append (other ne s) t = other ne (NoNul-append s t)

tail_of-NoNul : (line text : List ℕ) → NoNul line → NoNul text → NoNul (tail_of line text)
unfolding tail_of
tail_of-NoNul line [] l t = l
tail_of-NoNul line (c ∷ text) l (other ne t) =
    if_cases NoNul (c == 10) _ _ (λ _. tail_of-NoNul [] text no_byte t)
      (λ _. tail_of-NoNul (line ++ (c ∷ [])) text (NoNul-append l (other ne no_byte)) t)

has_newline-append : (s t : List ℕ) → has_newline (s ++ t) ≡ (has_newline s || has_newline t)
unfolding has_newline
has_newline-append [] t = refl
has_newline-append (c ∷ s) t = let rest = has_newline-append s t in ground arith

tail_of-newline :
    (line text : List ℕ) → has_newline line ≡ false → has_newline (tail_of line text) ≡ false
unfolding tail_of has_newline
tail_of-newline line [] h = h
tail_of-newline line (c ∷ text) h = elim (Bool-cases (c == 10)) [
  | inl e ↦ rw e (tail_of-newline [] text refl)
  | inr e ↦
      let longer : has_newline (line ++ (c ∷ [])) ≡ false =
        has_newline-append line (c ∷ []) ∙ rw (h, e) in
      rw e (tail_of-newline (line ++ (c ∷ [])) text longer)
]

-- A text without newline only makes the first line longer.
lines-front :
    (line s t : List ℕ) → has_newline s ≡ false → lines line (s ++ t) ≡ lines (line ++ s) t
unfolding lines has_newline
lines-front line [] t h = ap (λ l. lines l t) (sym (append-nil line))
lines-front line (c ∷ s) t h = elim (Bool-cases (c == 10)) [
  | inl e ↦ let no : true ≡ false = rw e at h in cc
  | inr e ↦ rw e (
      lines-front (line ++ (c ∷ [])) s t (rw e at h)
      ∙ ap (λ l. lines l t) (append_assoc line (c ∷ []) s))
]

-- Each read gives a newline, and no NUL.
pub data EndsLines : List (List ℕ) → Type 0 where
  no_read : EndsLines []
  read :
      {c : ℕ} {chunk : List ℕ} {reads : List (List ℕ)}
      → NoNul (c ∷ chunk)
      → has_newline (c ∷ chunk) ≡ true
      → EndsLines reads
      → EndsLines ((c ∷ chunk) ∷ reads)

kept_left : (pass : Pass) {left : List ℕ} → pass.moved ≡ true → pass.left ≡ left → kept pass ≡ left
unfolding kept
kept_left pass m l = rw m l

grep-lines_from :
    (p buf : List ℕ) (reads : List (List ℕ))
    → NoNul buf
    → EndsLines reads
    → has_newline buf ≡ false
    → grep p buf reads ≡ matching p (lines [] (buf ++ concat reads))
unfolding grep concat matching lines has_newline
grep-lines_from p buf ([] ∷ reads) nn h clean = elim h [ ]
grep-lines_from p buf [] nn no_read clean = ap (matching p) (sym (lines-front [] buf [] clean))
grep-lines_from p buf ((c ∷ chunk) ∷ reads) nn (read nc has later) clean =
    let whole = buf ++ (c ∷ chunk) in
    let pure : NoNul whole = NoNul-append nn nc in
    let newline : has_newline whole ≡ true = has_newline-append buf (c ∷ chunk) ∙ ground arith in
    let left = tail_of [] whole in
    let plain = tail_of-newline [] whole refl in
    let ih = grep-lines_from p left reads (tail_of-NoNul [] whole no_byte pure) later plain in
    let out = scan-output p false [] whole pure in
    let moved = scan-moved p false [] whole pure (inr newline) in
    let rest = scan-left p false [] whole pure in
    ap (λ l. l ++ grep p (kept (scan_lines p false [] whole)) reads) out
    ∙ ap (λ l. matching p (lines [] whole) ++ l)
        (ap (λ l. grep p l reads) (kept_left (scan_lines p false [] whole) moved rest) ∙ ih)
    ∙ ap (λ l. matching p (lines [] whole) ++ matching p l)
        (lines-front [] left (concat reads) plain)
    ∙ sym (matching-append p (lines [] whole) (lines left (concat reads)))
    ∙ ap (matching p) (
        sym (lines-append [] whole (concat reads))
        ∙ ap (lines []) (append_assoc buf (c ∷ chunk) (concat reads)))

-- Where every read brings a newline and no NUL, `grep` writes those of the lines it reads that end in a
-- newline and match, each with its newline, in order, also the lines that begin in one read and end in
-- the next; what lies behind the last newline is not looked at.
pub grep-lines :
    (p : List ℕ) (reads : List (List ℕ))
    → EndsLines reads
    → grep p [] reads ≡ matching p (lines [] (concat reads))
unfolding has_newline
grep-lines p reads h = grep-lines_from p [] reads no_byte h refl
