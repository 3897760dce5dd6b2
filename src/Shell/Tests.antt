-- ===== src/Shell/Tests.antt =====
-- Lines that the parser reads, and its theorem at one of them.
use os_ca.Common.{ℕ, ◌≡◌, ◌≢◌, refl, false, ◌==◌, arith, List, [], ◌∷◌}
use os_ca.Shell.{
  Cmd, execcmd, redircmd, pipecmd, listcmd, backcmd, parsed, panics, no_fuel, and_then, is_among,
  skip_space, word_end, word_of, greater, token_at, gettoken, peek_at, peek, redir_of, redirs,
  all_redirs, with_redirs, exec_args, parseexec, parsepipe, backs, parseblock, parseline,
  no_leftovers, parsecmd,
}
use os_ca.Shell.{whitespace, symbols}
use os_ca.Shell.Words.{IsWord, IsPlain, byte, bytes}
use os_ca.Shell.Pipelines.{print, pipe_of, no_commands, and_command, parsecmd-print}
use os_ca.Shell.Commands.{IsCommand, command, no_words, and_word}
use os_ca.Shell.Total.{parsecmd-ends}

-- `a >b c|d&`
abbrev line : List ℕ
line = b'a' ∷ b' ' ∷ b'>' ∷ b'b' ∷ b' ' ∷ b'c' ∷ b'|' ∷ b'd' ∷ b'&' ∷ []

abbrev parsed_line : Cmd
parsed_line = backcmd (
    pipecmd
      (redircmd (execcmd ((b'a' ∷ []) ∷ (b'c' ∷ []) ∷ []))
        (record { file = b'b' ∷ []; mode = 0x201; fd = 1 }))
      (execcmd ((b'd' ∷ []) ∷ [])))

line-parses : parsecmd line ≡ parsed parsed_line []
unfolding and_then is_among skip_space word_end word_of greater token_at gettoken peek_at peek
    redir_of redirs all_redirs with_redirs exec_args parseexec parsepipe backs parseblock parseline
    no_leftovers parsecmd
line-parses = refl

-- `(a` lacks its parenthesis.
open_block-panics : parsecmd (b'(' ∷ b'a' ∷ []) ≡ panics
unfolding and_then is_among skip_space word_end word_of greater token_at gettoken peek_at peek
    redir_of redirs all_redirs with_redirs exec_args parseexec parsepipe backs parseblock parseline
    no_leftovers parsecmd
open_block-panics = refl

-- `a;b` in a block
block-parses :
    parsecmd (b'(' ∷ b'a' ∷ b';' ∷ b'b' ∷ b')' ∷ [])
    ≡ parsed (listcmd (execcmd ((b'a' ∷ []) ∷ [])) (execcmd ((b'b' ∷ []) ∷ []))) []
unfolding and_then is_among skip_space word_end word_of greater token_at gettoken peek_at peek
    redir_of redirs all_redirs with_redirs exec_args parseexec parsepipe backs parseblock parseline
    no_leftovers parsecmd
block-parses = refl

parsecmd-ends_example : parsecmd line ≢ no_fuel
parsecmd-ends_example = parsecmd-ends line

-- `ls -l | wc`
abbrev ls_words : List (List ℕ)
ls_words = (b'l' ∷ b's' ∷ []) ∷ (b'-' ∷ b'l' ∷ []) ∷ []

abbrev wc_words : List (List ℕ)
wc_words = (b'w' ∷ b'c' ∷ []) ∷ []

two_bytes : (a b : ℕ) → IsPlain a → IsPlain b → IsWord (a ∷ b ∷ [])
two_bytes a b ha hb = bytes ha (byte hb)

plain :
    (c : ℕ)
    → is_among c whitespace ≡ false
    → is_among c symbols ≡ false
    → (c == 0) ≡ false
    → IsPlain c
plain c s g z = record { no_space = s; no_symbol = g; no_nul = z }

ls-IsCommand : IsCommand ls_words
unfolding is_among
ls-IsCommand =
    command (two_bytes b'l' b's' (plain b'l' refl refl refl) (plain b's' refl refl refl))
      (and_word (two_bytes b'-' b'l' (plain b'-' refl refl refl) (plain b'l' refl refl refl))
        no_words)
      (omega arith)

wc-IsCommand : IsCommand wc_words
unfolding is_among
wc-IsCommand =
    command (two_bytes b'w' b'c' (plain b'w' refl refl refl) (plain b'c' refl refl refl)) no_words
      (omega arith)

parsecmd-print_example :
    parsecmd (print ls_words (wc_words ∷ [])) ≡ parsed (pipe_of ls_words (wc_words ∷ [])) []
parsecmd-print_example =
    parsecmd-print ls_words (wc_words ∷ []) ls-IsCommand (and_command wc-IsCommand no_commands)
