-- ===== src/Grep/Buffer.antt =====
-- The loop of `grep` over what `read` returns, and the lines that it writes.
pub mod Lines
use os_ca.Common.{ℕ, Bool, true, false, List, [], ◌∷◌, ◌++◌, ◌==◌, if◌then◌else◌}
use os_ca.Grep.{match}

-- What the loop over the lines of the buffer comes to: what it writes, what lies from `p` on, and
-- whether it met a newline, which is `p != buf`.
pub record Pass : Type 0 where
  pub output : List ℕ
  pub left : List ℕ
  pub moved : Bool

-- What `write` gets for a line.
unfoldable pub shown : List ℕ → List ℕ → List ℕ
shown pattern line = if match pattern line then line ++ (10 ∷ []) else []

-- The loop over the buffer, whose bytes from `p` on are `line` and then the list. `strchr` stops at a
-- NUL too.
unfoldable pub scan_lines : List ℕ → Bool → List ℕ → List ℕ → Pass
scan_lines pattern moved line [] = record { output = []; left = line; moved = moved }
scan_lines pattern moved line (c ∷ rest) =
    let behind = scan_lines pattern true [] rest in
    let further = scan_lines pattern moved (line ++ (c ∷ [])) rest in
    if c == 10
    then record behind { output = shown pattern line ++ behind.output }
    else if c == 0
    then record { output = []; left = line ++ (c ∷ rest); moved = moved }
    else further

-- The buffer after a round: `if(p == buf) m = 0`.
unfoldable pub kept : Pass → List ℕ
kept p = if p.moved then p.left else []

-- `grep` with the buffer's bytes, over what the calls of `read` return; none returns more than there
-- is room for, and the first that returns nothing ends the loop.
unfoldable pub grep : List ℕ → List ℕ → List (List ℕ) → List ℕ
grep pattern buf [] = []
grep pattern buf ([] ∷ reads) = []
grep pattern buf ((c ∷ chunk) ∷ reads) =
    let pass = scan_lines pattern false [] (buf ++ (c ∷ chunk)) in
    pass.output ++ grep pattern (kept pass) reads
