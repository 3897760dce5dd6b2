-- ===== src/Shell/Words.antt =====
-- `gettoken` and `peek` at a word of plain bytes.
use os_ca.Common.{ℕ, ◌≡◌, refl, ◌∙◌, ap, false, List, [], ◌∷◌, ◌++◌, ◌==◌, arith}
use os_ca.Shell.{
  is_among, whitespace, symbols, skip_space, word_end, word_of, token_at, gettoken, peek_at, peek,
}

-- A byte that a word may have.
pub record IsPlain (c : ℕ) : Type 0 where
  pub no_space : is_among c whitespace ≡ false
  pub no_symbol : is_among c symbols ≡ false
  pub no_nul : (c == 0) ≡ false

-- A nonempty word of such bytes.
pub data IsWord : List ℕ → Type 0 where
  byte : {c : ℕ} → IsPlain c → IsWord (c ∷ [])
  bytes : {c : ℕ} {w : List ℕ} → IsPlain c → IsWord w → IsWord (c ∷ w)

word_of-IsWord : (w t : List ℕ) → IsWord w → word_of (w ++ (b' ' ∷ t)) ≡ w
unfolding word_of is_among
word_of-IsWord [] t h = elim h [ ]
word_of-IsWord (c ∷ []) t (byte h) = rw (h.no_space, h.no_symbol) refl
word_of-IsWord (c ∷ w) t (bytes h hs) =
    rw (h.no_space, h.no_symbol) (ap (λ v. c ∷ v) (word_of-IsWord w t hs))

word_end-IsWord : (w t : List ℕ) → IsWord w → word_end (w ++ (b' ' ∷ t)) ≡ b' ' ∷ t
unfolding word_end is_among
word_end-IsWord [] t h = elim h [ ]
word_end-IsWord (c ∷ []) t (byte h) = rw (h.no_space, h.no_symbol) refl
word_end-IsWord (c ∷ w) t (bytes h hs) = rw (h.no_space, h.no_symbol) (word_end-IsWord w t hs)

pub skip-IsWord : (w t : List ℕ) → IsWord w → skip_space (w ++ t) ≡ w ++ t
unfolding skip_space
skip-IsWord [] t h = elim h [ ]
skip-IsWord (c ∷ []) t (byte h) = rw (h.no_space) refl
skip-IsWord (c ∷ w) t (bytes h hs) = rw (h.no_space) refl

-- The signs that the parser asks for: none starts a word.
pub data IsSign : List ℕ → Type 0 where
  redir_signs : IsSign (b'<' ∷ b'>' ∷ [])
  end_signs : IsSign (b'|' ∷ b')' ∷ b'&' ∷ b';' ∷ [])
  open_sign : IsSign (b'(' ∷ [])
  pipe_sign : IsSign (b'|' ∷ [])
  back_sign : IsSign (b'&' ∷ [])
  list_sign : IsSign (b';' ∷ [])

sign-IsPlain :
    (c : ℕ) (toks : List ℕ) → IsSign toks → is_among c symbols ≡ false → is_among c toks ≡ false
unfolding is_among
sign-IsPlain c _ redir_signs h = ground arith
sign-IsPlain c _ end_signs h = ground arith
sign-IsPlain c _ open_sign h = ground arith
sign-IsPlain c _ pipe_sign h = ground arith
sign-IsPlain c _ back_sign h = ground arith
sign-IsPlain c _ list_sign h = ground arith

pub peek-IsWord : (toks w t : List ℕ) → IsSign toks → IsWord w → peek toks (w ++ t) ≡ false
unfolding peek peek_at skip_space
peek-IsWord toks [] t i h = elim h [ ]
peek-IsWord toks (c ∷ []) t i (byte h) =
    rw (h.no_space, h.no_nul, sign-IsPlain c toks i h.no_symbol) refl
peek-IsWord toks (c ∷ w) t i (bytes h hs) =
    rw (h.no_space, h.no_nul, sign-IsPlain c toks i h.no_symbol) refl

greater_is_symbol : (c : ℕ) → is_among c symbols ≡ false → (c == b'>') ≡ false
unfolding is_among
greater_is_symbol c h = ground arith

space-word_of : (t : List ℕ) → word_of (b' ' ∷ t) ≡ []
unfolding word_of is_among
space-word_of t = refl

space-word_end : (t : List ℕ) → word_end (b' ' ∷ t) ≡ b' ' ∷ t
unfolding word_end is_among
space-word_end t = refl

space-skip : (t : List ℕ) → skip_space (b' ' ∷ t) ≡ skip_space t
unfolding skip_space is_among
space-skip t = refl

token_at-IsWord :
    (w t : List ℕ)
    → IsWord w
    → token_at (w ++ (b' ' ∷ t)) ≡ record { kind = b'a'; word = w; rest = skip_space t }
unfolding token_at
token_at-IsWord [] t h = elim h [ ]
token_at-IsWord (c ∷ []) t (byte h) =
    rw
      (
        h.no_nul,
        greater_is_symbol c h.no_symbol,
        h.no_symbol,
        space-word_of t,
        space-word_end t,
        space-skip t,
      )
      refl
token_at-IsWord (c ∷ w) t (bytes h hs) =
    rw
      (
        h.no_nul,
        greater_is_symbol c h.no_symbol,
        h.no_symbol,
        word_of-IsWord w t hs,
        word_end-IsWord w t hs,
        space-skip t,
      )
      refl

-- A word and the space behind it are one token.
pub gettoken-IsWord :
    (w t : List ℕ)
    → IsWord w
    → gettoken (w ++ (b' ' ∷ t)) ≡ record { kind = b'a'; word = w; rest = skip_space t }
unfolding gettoken
gettoken-IsWord w t h = ap token_at (skip-IsWord w (b' ' ∷ t) h) ∙ token_at-IsWord w t h
