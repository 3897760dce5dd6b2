-- ===== src/Shell.antt =====
-- sh.c: the parser of command lines. A string is the list of its bytes without the NUL, and a word of a
-- command is cut out where `nulterminate` puts its NUL.
pub mod Words
pub mod Commands
pub mod Pipelines
pub mod Tokens
pub mod Total
mod Tests
use os_ca.Common.{
  ℕ, zero, suc, ◌+◌, Bool, true, false, ◌||◌, ◌&&◌, not, List, [], ◌∷◌, ◌++◌, length, leb, ◌==◌,
  if◌then◌else◌,
}

-- MAXARGS
abbrev pub max_args : ℕ
max_args = 10

-- The file, the mode and the descriptor of a `redircmd`.
pub record Redir : Type 0 where
  pub file : List ℕ
  pub mode : ℕ
  pub fd : ℕ

-- `struct cmd` and its kinds: EXEC, REDIR, PIPE, LIST and BACK.
pub data Cmd : Type 0 where
  execcmd : List (List ℕ) → Cmd
  redircmd : Cmd → Redir → Cmd
  pipecmd : Cmd → Cmd → Cmd
  listcmd : Cmd → Cmd → Cmd
  backcmd : Cmd → Cmd

-- What a parser comes to: a value and the text behind it, a `panic`, or no fuel left.
pub data Parsed (A : Type 0) : Type 0 where
  parsed : A → List ℕ → Parsed A
  panics : Parsed A
  no_fuel : Parsed A

unfoldable pub and_then : {A B : Type 0} → Parsed A → (A → List ℕ → Parsed B) → Parsed B
and_then (parsed a t) f = f a t
and_then panics f = panics
and_then no_fuel f = no_fuel

-- `strchr(bytes, c) != 0`
unfoldable pub is_among : ℕ → List ℕ → Bool
is_among c [] = false
is_among c (b ∷ bytes) = c == b || is_among c bytes

abbrev pub whitespace : List ℕ
whitespace = b' ' ∷ 9 ∷ 13 ∷ 10 ∷ 11 ∷ []

abbrev pub symbols : List ℕ
symbols = b'<' ∷ b'|' ∷ b'>' ∷ b'&' ∷ b';' ∷ b'(' ∷ b')' ∷ []

unfoldable pub skip_space : List ℕ → List ℕ
skip_space [] = []
skip_space (c ∷ text) =
    let rest = skip_space text in if is_among c whitespace then rest else c ∷ text

-- The word at the start of the text, and what lies behind it.
unfoldable pub word_end : List ℕ → List ℕ
word_end [] = []
word_end (c ∷ text) =
    let rest = word_end text in
    if is_among c whitespace || is_among c symbols then c ∷ text else rest

unfoldable pub word_of : List ℕ → List ℕ
word_of [] = []
word_of (c ∷ text) =
    let rest = word_of text in if is_among c whitespace || is_among c symbols then [] else c ∷ rest

-- What `gettoken` returns, `q` up to `eq`, and the new `*ps`.
pub record Token : Type 0 where
  pub kind : ℕ
  pub word : List ℕ
  pub rest : List ℕ

-- The case of `>`, for the text behind it.
unfoldable pub greater : List ℕ → Token
greater [] = record { kind = b'>'; word = b'>' ∷ []; rest = [] }
greater (c ∷ text) =
    if c == b'>'
    then record { kind = b'+'; word = b'>' ∷ b'>' ∷ []; rest = skip_space text }
    else record { kind = b'>'; word = b'>' ∷ []; rest = skip_space (c ∷ text) }

-- `gettoken` behind the first white space.
unfoldable pub token_at : List ℕ → Token
token_at [] = record { kind = 0; word = []; rest = [] }
token_at (c ∷ text) =
    if c == 0
    then record { kind = 0; word = []; rest = c ∷ text }
    else if c == b'>'
    then greater text
    else if is_among c symbols
    then record { kind = c; word = c ∷ []; rest = skip_space text }
    else record { kind = b'a'; word = c ∷ word_of text; rest = skip_space (word_end text) }

unfoldable pub gettoken : List ℕ → Token
gettoken text = token_at (skip_space text)

-- `peek`: whether the first byte behind the white space is one of `toks`; `*ps` is `skip_space text`.
unfoldable pub peek_at : List ℕ → List ℕ → Bool
peek_at toks [] = false
peek_at toks (c ∷ text) = not (c == 0) && is_among c toks

unfoldable pub peek : List ℕ → List ℕ → Bool
peek toks text = peek_at toks (skip_space text)

-- O_RDONLY, and O_WRONLY|O_CREATE
unfoldable pub redir_of : ℕ → List ℕ → Redir
redir_of tok file =
    if tok == b'<'
    then record { file = file; mode = 0; fd = 0 }
    else record { file = file; mode = 0x201; fd = 1 }

-- The loop of `parseredirs`: the redirections in the order in which they stand.
unfoldable pub redirs : ℕ → List ℕ → Parsed (List Redir)
redirs zero text = no_fuel
redirs (suc m) text =
    let sign = gettoken text in
    let name = gettoken sign.rest in
    let more = redirs m name.rest in
    if not (peek (b'<' ∷ b'>' ∷ []) text)
    then parsed [] (skip_space text)
    else if not (name.kind == b'a')
    then panics
    else and_then more (λ rs t. parsed (redir_of sign.kind name.word ∷ rs) t)

unfoldable pub all_redirs : List ℕ → Parsed (List Redir)
all_redirs text = redirs (suc (length text)) text

-- `redircmd` around a command, the first redirection innermost.
unfoldable pub with_redirs : Cmd → List Redir → Cmd
with_redirs c [] = c
with_redirs c (r ∷ rs) = with_redirs (redircmd c r) rs

-- The loop of `parseexec` from argument `argc` on: the words, and the redirections between them, which go
-- around the one `execcmd`.
unfoldable pub exec_args : ℕ → ℕ → List ℕ → Parsed (List (List ℕ) × List Redir)
exec_args zero argc text = no_fuel
exec_args (suc m) argc text =
    let t = gettoken text in
    let more = and_then (all_redirs t.rest) (λ rs behind.
      and_then (exec_args m (argc + 1) behind)
        (λ ws last. parsed (t.word ∷ ws.0, rs ++ ws.1) last)) in
    if peek (b'|' ∷ b')' ∷ b'&' ∷ b';' ∷ []) text
    then parsed ([], []) (skip_space text)
    else if t.kind == 0
    then parsed ([], []) t.rest
    else if not (t.kind == b'a')
    then panics
    else if leb max_args (argc + 1)
    then panics
    else more

-- `parseexec`, with `block` for `parseblock`
unfoldable pub parseexec : (List ℕ → Parsed Cmd) → List ℕ → Parsed Cmd
parseexec block text =
    if peek (b'(' ∷ []) text
    then block (skip_space text)
    else and_then (all_redirs (skip_space text)) (λ rs t.
      and_then (exec_args (suc (length t)) 0 t)
        (λ ws rest. parsed (with_redirs (execcmd ws.0) (rs ++ ws.1)) rest))

unfoldable pub parsepipe : ℕ → (List ℕ → Parsed Cmd) → List ℕ → Parsed Cmd
parsepipe zero block text = no_fuel
parsepipe (suc m) block text = and_then (parseexec block text) (λ c t.
    if peek (b'|' ∷ []) t
    then and_then (parsepipe m block (gettoken t).rest)
        (λ right rest. parsed (pipecmd c right) rest)
    else parsed c (skip_space t))

-- The loop of `parseline` over `&`.
unfoldable pub backs : ℕ → Cmd → List ℕ → Parsed Cmd
backs zero c text = no_fuel
backs (suc m) c text =
    let more = backs m (backcmd c) (gettoken text).rest in
    if peek (b'&' ∷ []) text then more else parsed c (skip_space text)

-- `parseblock`, with `line` for `parseline`
unfoldable pub parseblock : (List ℕ → Parsed Cmd) → List ℕ → Parsed Cmd
parseblock line text =
    if not (peek (b'(' ∷ []) text)
    then panics
    else and_then (line (gettoken text).rest) (λ c t.
      if not (peek (b')' ∷ []) t)
      then panics
      else and_then (all_redirs (gettoken t).rest) (λ rs rest. parsed (with_redirs c rs) rest))

unfoldable pub parseline : ℕ → List ℕ → Parsed Cmd
parseline zero text = no_fuel
parseline (suc n) text =
    and_then (parsepipe (suc (length text)) (parseblock (parseline n)) text) (λ c t.
      and_then (backs (suc (length t)) c t) (λ d u.
        if peek (b';' ∷ []) u
        then and_then (parseline n (gettoken u).rest) (λ right rest. parsed (listcmd d right) rest)
        else parsed d (skip_space u)))

-- What follows `parseline`: nothing may be left over.
unfoldable pub no_leftovers : Cmd → List ℕ → Parsed Cmd
no_leftovers c [] = parsed c []
no_leftovers c (b ∷ text) = panics

unfoldable pub parsecmd : List ℕ → Parsed Cmd
parsecmd text = and_then (parseline (suc (length text)) text) (λ c t. no_leftovers c (skip_space t))
