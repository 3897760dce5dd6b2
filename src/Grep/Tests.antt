-- ===== src/Grep/Tests.antt =====
-- Runs of the matcher, and its theorems at concrete patterns and texts.
use os_ca.Common.{ℕ, ◌≡◌, refl, ◌↔◌, true, false, List, [], ◌∷◌, ◌++◌, arith}
use os_ca.Grep.{match, match_from, matchhere, matchstar, matchone}
use os_ca.Grep.Buffer.{grep, scan_lines, shown, kept}
use os_ca.Grep.Buffer.Lines.{
  lines, matching, concat, EndsLines, no_read, read, no_byte, other, has_newline, grep-lines,
}
use os_ca.Grep.Meaning.{Asked, match_iff}

-- `ab*c`
abbrev pattern : List ℕ
pattern = b'a' ∷ b'b' ∷ b'*' ∷ b'c' ∷ []

abbrev two_bs : List ℕ
two_bs = b'x' ∷ b'a' ∷ b'b' ∷ b'b' ∷ b'c' ∷ []

match-inside : match pattern two_bs ≡ true
unfolding match match_from matchhere matchstar matchone
match-inside = refl

-- `^ab*c` does not match there, nor does `ab*c$` with a byte behind it.
match-front : match (b'^' ∷ pattern) two_bs ≡ false
unfolding match match_from matchhere matchstar matchone
match-front = refl

match-end : match (pattern ++ (b'$' ∷ [])) (two_bs ++ (b'd' ∷ [])) ≡ false
unfolding match match_from matchhere matchstar matchone
match-end = refl

match_iff_example : (match pattern two_bs ≡ true) ↔ Asked pattern two_bs
match_iff_example = match_iff pattern two_bs

-- The second line lies in two reads, and the bytes behind the last newline are lost.
abbrev reads : List (List ℕ)
reads = (b'a' ∷ b'c' ∷ 10 ∷ b'a' ∷ []) ∷ (b'b' ∷ b'c' ∷ 10 ∷ b'd' ∷ 10 ∷ b'a' ∷ b'c' ∷ []) ∷ []

reads-EndsLines : EndsLines reads
unfolding has_newline
reads-EndsLines =
    read
      (other (ground arith)
        (other (ground arith) (other (ground arith) (other (ground arith) no_byte))))
      refl
      (read
        (other (ground arith) (
          other (ground arith) (
            other (ground arith) (
              other (ground arith)
                (other (ground arith) (other (ground arith) (other (ground arith) no_byte)))))))
        refl no_read)

grep-lines_example : grep pattern [] reads ≡ matching pattern (lines [] (concat reads))
grep-lines_example = grep-lines pattern reads reads-EndsLines

grep-two : grep pattern [] reads ≡ b'a' ∷ b'c' ∷ 10 ∷ b'a' ∷ b'b' ∷ b'c' ∷ 10 ∷ []
unfolding grep scan_lines shown kept match match_from matchhere matchstar matchone
grep-two = refl

-- Where a read ends inside a line and brings no newline, what it brought is lost.
grep-short_read : grep pattern [] ((b'a' ∷ []) ∷ (b'c' ∷ 10 ∷ []) ∷ []) ≡ []
unfolding grep scan_lines shown kept match match_from matchhere matchstar matchone
grep-short_read = refl
