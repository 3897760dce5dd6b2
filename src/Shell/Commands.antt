-- ===== src/Shell/Commands.antt =====
-- The parser on the words of a plain command.
use os_ca.Common.{
  ℕ, zero, suc, ◌+◌, ◌≤◌, ◌<◌, ◌≡◌, refl, ◌∙◌, ap, false, List, [], ◌∷◌, ◌++◌, length,
  length-append, leb, arith,
}
use os_ca.Shell.{
  max_args, Cmd, execcmd, Parsed, parsed, and_then, is_among, skip_space, token_at, gettoken,
  peek_at, peek, redirs, all_redirs, with_redirs, exec_args, parseexec,
}
use os_ca.Shell.Words.{
  IsWord, skip-IsWord, peek-IsWord, gettoken-IsWord, redir_signs, end_signs, open_sign,
}

-- Words, each with a space behind it.
unfoldable pub spaced : List (List ℕ) → List ℕ → List ℕ
spaced [] tail = tail
spaced (w ∷ ws) tail = w ++ (b' ' ∷ spaced ws tail)

pub data AllWords : List (List ℕ) → Type 0 where
  no_words : AllWords []
  and_word : {w : List ℕ} {ws : List (List ℕ)} → IsWord w → AllWords ws → AllWords (w ∷ ws)

-- What may follow a command: nothing, or a pipe.
pub data IsTail : List ℕ → Type 0 where
  ends_here : IsTail []
  pipes_on : (u : List ℕ) → IsTail (b'|' ∷ u)

tail-skip : (t : List ℕ) → IsTail t → skip_space t ≡ t
unfolding skip_space is_among
tail-skip _ ends_here = refl
tail-skip _ (pipes_on u) = refl

tail-redirs : (t : List ℕ) → IsTail t → all_redirs t ≡ parsed [] t
unfolding all_redirs redirs peek peek_at skip_space is_among
tail-redirs _ ends_here = refl
tail-redirs _ (pipes_on u) = refl

tail-args : (m argc : ℕ) (t : List ℕ) → IsTail t → exec_args (suc m) argc t ≡ parsed ([], []) t
unfolding exec_args peek peek_at skip_space is_among gettoken token_at
tail-args m argc _ ends_here = refl
tail-args m argc _ (pipes_on u) = refl

spaced-skip :
    (ws : List (List ℕ)) (t : List ℕ)
    → AllWords ws
    → IsTail t
    → skip_space (spaced ws t) ≡ spaced ws t
unfolding spaced
spaced-skip [] t no_words h = tail-skip t h
spaced-skip (w ∷ ws) t (and_word i is) h = skip-IsWord w (b' ' ∷ spaced ws t) i

word-redirs : (w u : List ℕ) → IsWord w → all_redirs (w ++ u) ≡ parsed [] (w ++ u)
unfolding all_redirs redirs
word-redirs w u h =
    rw (peek-IsWord (b'<' ∷ b'>' ∷ []) w u redir_signs h) (ap (parsed []) (skip-IsWord w u h))

spaced-redirs :
    (ws : List (List ℕ)) (t : List ℕ)
    → AllWords ws
    → IsTail t
    → all_redirs (spaced ws t) ≡ parsed [] (spaced ws t)
unfolding spaced
spaced-redirs [] t no_words h = tail-redirs t h
spaced-redirs (w ∷ ws) t (and_word i is) h = word-redirs w (b' ' ∷ spaced ws t) i

-- The words of a command are its arguments.
args-spaced :
    (m argc : ℕ) (ws : List (List ℕ)) (t : List ℕ)
    → length ws < m
    → argc + length ws < max_args
    → AllWords ws
    → IsTail t
    → exec_args m argc (spaced ws t) ≡ parsed (ws, []) t
unfolding exec_args spaced and_then
args-spaced zero argc ws t lm la i h = absurd (omega arith)
args-spaced (suc m) argc [] t lm la no_words h = tail-args m argc t h
args-spaced (suc m) argc (w ∷ ws) t lm la (and_word i is) h =
    let token =
      gettoken-IsWord w (spaced ws t) i
      ∙ ap (λ r. record { kind = b'a'; word = w; rest = r }) (spaced-skip ws t is h) in
    let room : leb max_args (argc + 1) ≡ false = ground arith in
    let more = args-spaced m (argc + 1) ws t (omega arith) (omega arith) is h in
    rw
      (peek-IsWord _ w (b' ' ∷ spaced ws t) end_signs i, token, room, spaced-redirs ws t is h, more)
      refl

length-spaced : (ws : List (List ℕ)) (t : List ℕ) → length ws ≤ length (spaced ws t)
unfolding spaced
length-spaced [] t = omega arith
length-spaced (w ∷ ws) t = omega (arith, length-spaced ws t, length-append w (b' ' ∷ spaced ws t))

-- The words of a command, at least one and at most nine.
pub data IsCommand : List (List ℕ) → Type 0 where
  command :
      {w : List ℕ} {ws : List (List ℕ)}
      → IsWord w
      → AllWords ws
      → length (w ∷ ws) < max_args
      → IsCommand (w ∷ ws)

pub command-skip :
    (ws : List (List ℕ)) (t : List ℕ) → IsCommand ws → skip_space (spaced ws t) ≡ spaced ws t
unfolding spaced
command-skip [] t h = elim h [ ]
command-skip (w ∷ ws) t (command i is lt) = skip-IsWord w (b' ' ∷ spaced ws t) i

command-no_block :
    (ws : List (List ℕ)) (t : List ℕ) → IsCommand ws → peek (b'(' ∷ []) (spaced ws t) ≡ false
unfolding spaced
command-no_block [] t h = elim h [ ]
command-no_block (w ∷ ws) t (command i is lt) =
    peek-IsWord (b'(' ∷ []) w (b' ' ∷ spaced ws t) open_sign i

command-words : (ws : List (List ℕ)) → IsCommand ws → AllWords ws × (length ws < max_args)
command-words [] h = elim h [ ]
command-words (w ∷ ws) (command i is lt) = (and_word i is, lt)

pub parseexec-spaced :
    (block : List ℕ → Parsed Cmd) (ws : List (List ℕ)) (t : List ℕ)
    → IsCommand ws
    → IsTail t
    → parseexec block (spaced ws t) ≡ parsed (execcmd ws) t
unfolding parseexec and_then with_redirs
parseexec-spaced block ws t i h =
    let (is, lt) = command-words ws i in
    let args =
      args-spaced (suc (length (spaced ws t))) 0 ws t (omega (arith, length-spaced ws t))
        (omega arith) is h in
    rw (command-no_block ws t i, command-skip ws t i, spaced-redirs ws t is h, args) refl
