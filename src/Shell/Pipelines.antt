-- ===== src/Shell/Pipelines.antt =====
-- The parser on printed pipelines of plain commands.
use os_ca.Common.{
  ℕ, zero, suc, ◌≤◌, ◌<◌, ◌≡◌, refl, ◌∙◌, true, false, List, [], ◌∷◌, length, length-append, arith,
}
use os_ca.Shell.{
  Cmd, execcmd, pipecmd, Parsed, parsed, and_then, is_among, skip_space, token_at, gettoken,
  peek_at, peek, parsepipe, backs, parseblock, parseline, no_leftovers, parsecmd,
}
use os_ca.Shell.Commands.{spaced, IsCommand, command-skip, parseexec-spaced, ends_here, pipes_on}

-- Commands joined by pipes, and what is parsed of them.
unfoldable pub print : List (List ℕ) → List (List (List ℕ)) → List ℕ
print ws [] = spaced ws []
print ws (vs ∷ more) = spaced ws (b'|' ∷ print vs more)

unfoldable pub pipe_of : List (List ℕ) → List (List (List ℕ)) → Cmd
pipe_of ws [] = execcmd ws
pipe_of ws (vs ∷ more) = pipecmd (execcmd ws) (pipe_of vs more)

pub data AllCommands : List (List (List ℕ)) → Type 0 where
  no_commands : AllCommands []
  and_command :
      {ws : List (List ℕ)} {more : List (List (List ℕ))}
      → IsCommand ws
      → AllCommands more
      → AllCommands (ws ∷ more)

print-skip :
    (ws : List (List ℕ)) (more : List (List (List ℕ)))
    → IsCommand ws
    → skip_space (print ws more) ≡ print ws more
unfolding print
print-skip ws [] i = command-skip ws [] i
print-skip ws (vs ∷ more) i = command-skip ws (b'|' ∷ print vs more) i

pipe-token : (u : List ℕ) → (gettoken (b'|' ∷ u)).rest ≡ skip_space u
unfolding gettoken token_at skip_space is_among
pipe-token u = refl

pipe-peek : (u : List ℕ) → peek (b'|' ∷ []) (b'|' ∷ u) ≡ true
unfolding peek peek_at skip_space is_among
pipe-peek u = refl

end-peek : (toks : List ℕ) → peek toks [] ≡ false
unfolding peek peek_at skip_space
end-peek toks = refl

parsepipe-print :
    (m : ℕ) (block : List ℕ → Parsed Cmd) (ws : List (List ℕ)) (more : List (List (List ℕ)))
    → length more < m
    → IsCommand ws
    → AllCommands more
    → parsepipe m block (print ws more) ≡ parsed (pipe_of ws more) []
unfolding parsepipe print pipe_of and_then skip_space
parsepipe-print zero block ws more lt i is = absurd (omega arith)
parsepipe-print (suc m) block ws [] lt i no_commands =
    rw (parseexec-spaced block ws [] i ends_here, end-peek (b'|' ∷ [])) refl
parsepipe-print (suc m) block ws (vs ∷ more) lt i (and_command j js) =
    let behind = pipe-token (print vs more) ∙ print-skip vs more j in
    rw
      (
        parseexec-spaced block ws (b'|' ∷ print vs more) i (pipes_on (print vs more)),
        pipe-peek (print vs more),
        behind,
        parsepipe-print m block vs more (omega arith) j js,
      )
      refl

length-print :
    (ws : List (List ℕ)) (more : List (List (List ℕ))) → length more ≤ length (print ws more)
unfolding print spaced
length-print ws [] = omega arith
length-print ws (vs ∷ more) =
    omega (arith, length-print vs more, length-behind ws (b'|' ∷ print vs more))
  where
    length-behind : (ws : List (List ℕ)) (t : List ℕ) → length t ≤ length (spaced ws t)
    length-behind [] t = omega arith
    length-behind (w ∷ ws) t =
        omega (arith, length-behind ws t, length-append w (b' ' ∷ spaced ws t))

backs-end : (c : Cmd) → backs 1 c [] ≡ parsed c []
unfolding backs skip_space
backs-end c = rw (end-peek (b'&' ∷ [])) refl

parseline-print :
    (n : ℕ) (ws : List (List ℕ)) (more : List (List (List ℕ)))
    → IsCommand ws
    → AllCommands more
    → parseline (suc n) (print ws more) ≡ parsed (pipe_of ws more) []
unfolding parseline and_then skip_space
parseline-print n ws more i is =
    let pipe =
      parsepipe-print (suc (length (print ws more))) (parseblock (parseline n)) ws more
        (omega (arith, length-print ws more)) i is in
    rw (pipe, backs-end (pipe_of ws more), end-peek (b';' ∷ [])) refl

-- The parser reads back a printed pipeline: of commands of one to nine words, without white space, signs of
-- the shell and NUL in them, each with a space behind it, joined by `|`, it returns the pipe of
-- those commands with those words.
pub parsecmd-print :
    (ws : List (List ℕ)) (more : List (List (List ℕ)))
    → IsCommand ws
    → AllCommands more
    → parsecmd (print ws more) ≡ parsed (pipe_of ws more) []
unfolding parsecmd and_then no_leftovers skip_space
parsecmd-print ws more i is = rw (parseline-print (length (print ws more)) ws more i is) refl
