-- ===== src/Shell/Tokens.antt =====
-- How much text white space, words and tokens leave.
use os_ca.Common.{
  ℕ, suc, ◌≤◌, ◌<◌, ◌≡◌, true, false, ◌||◌, List, [], ◌∷◌, length, ◌==◌, Bool-cases, inl, inr,
  if_cases, arith,
}
use os_ca.Shell.{
  is_among, whitespace, symbols, skip_space, word_end, Token, greater, token_at, gettoken, peek_at,
  peek,
}

pub skip_space-le : (text : List ℕ) → length (skip_space text) ≤ length text
unfolding skip_space
skip_space-le [] = omega arith
skip_space-le (c ∷ text) =
    let Fits : List ℕ → Type 0 = λ t. length t ≤ suc (length text) in
    let further : Fits (skip_space text) = omega (arith, skip_space-le text) in
    if_cases Fits (is_among c whitespace) (skip_space text) (c ∷ text) (λ _. further)
      (λ _. omega arith)

word_end-le : (text : List ℕ) → length (word_end text) ≤ length text
unfolding word_end
word_end-le [] = omega arith
word_end-le (c ∷ text) =
    let Fits : List ℕ → Type 0 = λ t. length t ≤ suc (length text) in
    let further : Fits (word_end text) = omega (arith, word_end-le text) in
    if_cases Fits (is_among c whitespace || is_among c symbols) (c ∷ text) (word_end text)
      (λ _. omega arith) (λ _. further)

greater-le : (text : List ℕ) → length (greater text).rest ≤ length text
unfolding greater
greater-le [] = omega arith
greater-le (c ∷ text) =
    let Short : Token → Type 0 = λ t. length t.rest ≤ suc (length text) in
    let further : length (skip_space text) ≤ suc (length text) =
      omega (arith, skip_space-le text) in
    if_cases Short (c == b'>') _ _ (λ _. further) (λ _. skip_space-le (c ∷ text))

-- A token takes its first byte, unless that is a NUL.
token_at-le :
    (c : ℕ) (text : List ℕ) → (c == 0) ≡ false → length (token_at (c ∷ text)).rest ≤ length text
unfolding token_at
token_at-le c text ne =
    let Short : Token → Type 0 = λ t. length t.rest ≤ length text in
    let further : length (skip_space (word_end text)) ≤ length text =
      omega (arith, skip_space-le (word_end text), word_end-le text) in
    rw ne (
      if_cases Short (c == b'>') _ _ (λ _. greater-le text)
        (λ _. if_cases Short (is_among c symbols) _ _ (λ _. skip_space-le text) (λ _. further)))

token_at-shorter_peek :
    (toks text : List ℕ) → peek_at toks text ≡ true → length (token_at text).rest < length text
unfolding peek_at
token_at-shorter_peek toks [] e = cc
token_at-shorter_peek toks (c ∷ text) e =
    let ne : (c == 0) ≡ false = ground arith in omega (arith, token_at-le c text ne)

token_at-shorter_kind :
    (text : List ℕ)
    → ((token_at text).kind == 0) ≡ false
    → length (token_at text).rest < length text
unfolding token_at
token_at-shorter_kind [] e = cc
token_at-shorter_kind (c ∷ text) e = elim (Bool-cases (c == 0)) [
  | inl z ↦ let no : true ≡ false = rw z at e in cc
  | inr ne ↦ omega (arith, token_at-le c text ne)
]

token_at-all : (text : List ℕ) → length (token_at text).rest ≤ length text
unfolding token_at
token_at-all [] = omega arith
token_at-all (c ∷ text) = elim (Bool-cases (c == 0)) [
  | inl z ↦ rw z (omega arith)
  | inr ne ↦ omega (arith, token_at-le c text ne)
]

pub gettoken-le : (text : List ℕ) → length (gettoken text).rest ≤ length text
unfolding gettoken
gettoken-le text = omega (arith, skip_space-le text, token_at-all (skip_space text))

module _ (text : List ℕ) where
  pub gettoken-shorter_peek :
      (toks : List ℕ) → peek toks text ≡ true → length (gettoken text).rest < length text
  unfolding peek gettoken
  gettoken-shorter_peek toks e =
      omega (arith, skip_space-le text, token_at-shorter_peek toks (skip_space text) e)

  pub gettoken-shorter_kind :
      ((gettoken text).kind == 0) ≡ false → length (gettoken text).rest < length text
  unfolding gettoken
  gettoken-shorter_kind e =
      omega (arith, skip_space-le text, token_at-shorter_kind (skip_space text) e)
