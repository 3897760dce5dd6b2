-- ===== src/Grep.antt =====
-- grep.c: the matcher of its patterns. A string is the list of its bytes without the NUL.
pub mod Meaning
pub mod Buffer
mod Tests
use os_ca.Common.{ℕ, Bool, true, false, ◌||◌, List, [], ◌∷◌, ◌==◌, if◌then◌else◌}

-- `*text == '\0'`
abbrev pub at_end : List ℕ → Bool
at_end [] = true
at_end (t ∷ text) = false

-- `matchstar`, with `here` for `matchhere` on the pattern behind the star
unfoldable pub matchstar : ℕ → (List ℕ → Bool) → List ℕ → Bool
matchstar c here [] = here []
matchstar c here (t ∷ text) =
    let more = matchstar c here text in
    here (t ∷ text) || (if t == c || c == b'.' then more else false)

-- The last test of `matchhere`: one byte, and `here` for `matchhere` behind it.
unfoldable pub matchone : ℕ → (List ℕ → Bool) → List ℕ → Bool
matchone c here [] = false
matchone c here (t ∷ text) = if c == b'.' || c == t then here text else false

unfoldable pub matchhere : List ℕ → List ℕ → Bool
matchhere [] text = true
matchhere (c ∷ []) text = if c == b'$' then at_end text else matchone c (matchhere []) text
matchhere (c ∷ d ∷ re) text =
    let star = matchstar c (matchhere re) text in
    let one = matchone c (matchhere (d ∷ re)) text in if d == b'*' then star else one

-- the loop of `match`: the empty string at the end is tried too
unfoldable pub match_from : List ℕ → List ℕ → Bool
match_from re [] = matchhere re []
match_from re (t ∷ text) = matchhere re (t ∷ text) || match_from re text

unfoldable pub match : List ℕ → List ℕ → Bool
match [] text = match_from [] text
match (c ∷ re) text = if c == b'^' then matchhere re text else match_from (c ∷ re) text
