-- ===== src/Console/Complete.antt =====
-- Tab completion: `find_lcp_len`, `print_matches_and_redraw` and `handle_tab_completion`.
use os_ca.Common.{
  ℕ, zero, suc, ◌+◌, ◌%◌, Bool, true, false, ◌||◌, ◌&&◌, not, List, [], ◌∷◌, Cells, put, ltb, leb,
  ◌==◌, if◌then◌else◌, get_or, take, drop, add32, sub32, srem, rounds,
}
use Prim.Native.String.{String}
use Prim.Native.Char.{code}
use os_ca.Strings.{strncmp, strlen}
use os_ca.Console.State.{Console, Screen}
use os_ca.Console.Display.{backspace, consputc, put_times, put_bytes, cursor_right}

abbrev pub codes : String → List ℕ
codes String.[] = []
codes (String.◌∷◌ c s) = code c ∷ codes s

abbrev pub commands : List (List ℕ)
commands =
    codes "cat"
    ∷ codes "echo"
    ∷ codes "find_sum"
    ∷ codes "forktest"
    ∷ codes "grep"
    ∷ codes "init"
    ∷ codes "kill"
    ∷ codes "ln"
    ∷ codes "ls"
    ∷ codes "mkdir"
    ∷ codes "rm"
    ∷ codes "sh"
    ∷ codes "stressfs"
    ∷ codes "usertests"
    ∷ codes "wc"
    ∷ codes "zombie"
    ∷ codes "console"
    ∷ []

-- `matches[i][k]`: a C string ends in a NUL.
abbrev pub char_at : List ℕ → ℕ → ℕ
char_at s k = get_or s k 0

-- `for (i = 1; i < count; i++)`: every other match has `c` at `k`
unfoldable pub all_have : ℕ → ℕ → List (List ℕ) → Bool
all_have c k [] = true
all_have c k (m ∷ ms) = (char_at m k == c) && all_have c k ms

-- The `while (1)` loop of `find_lcp_len` over the rest of the first match: it stops at its end or
-- at the first place where another match differs.
unfoldable pub lcp_loop : List ℕ → ℕ → List (List ℕ) → ℕ
lcp_loop [] k ms = k
lcp_loop (c ∷ cs) k ms = if all_have c k ms then lcp_loop cs (k + 1) ms else k

unfoldable pub find_lcp_len : List (List ℕ) → ℕ
find_lcp_len [] = 0
find_lcp_len (first ∷ []) = strlen first
find_lcp_len (first ∷ m ∷ ms) = lcp_loop first 0 (m ∷ ms)

-- `cprintf("%s  ", matches[i])`
unfoldable pub put_matches : List (List ℕ) → Screen → Screen
put_matches [] s = s
put_matches (m ∷ ms) s = put_matches ms (consputc 32 (consputc 32 (put_bytes m s)))

unfoldable pub print_matches_and_redraw : List (List ℕ) → Console → Console
print_matches_and_redraw matches s =
    let shown =
      consputc 32 (consputc b'$' (consputc 10 (put_matches matches (consputc 10 s.screen)))) in
    let erased =
      if not (s.e == s.w)
      then put_times (sub32 s.e s.w) backspace (cursor_right (sub32 s.e s.c) shown)
      else shown in
    record s { e = s.w; c = s.w; undo = []; screen = consputc 32 erased }

-- The first loop of `handle_tab_completion`: is there a blank from `i` on?
unfoldable pub has_blank : ℕ → ℕ → Cells → Bool
has_blank zero i buf = false
has_blank (suc n) i buf = (buf (srem i 128) == 32) || has_blank n (add32 i 1) buf

-- `memmove(prefix, input.buf + (input.w % INPUT_BUF), len)`: a straight copy
unfoldable pub copy_prefix : ℕ → ℕ → Cells → List ℕ
copy_prefix zero i buf = []
copy_prefix (suc n) i buf = buf i ∷ copy_prefix n (i + 1) buf

unfoldable pub find_matches : List ℕ → ℕ → List (List ℕ) → List (List ℕ)
find_matches prefix len [] = []
find_matches prefix len (m ∷ ms) =
    let rest = find_matches prefix len ms in if strncmp prefix m len == 0 then m ∷ rest else rest

-- `if (input.e >= input.r + INPUT_BUF) break; buf[e++ % INPUT_BUF] = b; consputc(b)`, for each byte
unfoldable pub append_bytes : List ℕ → Console → Console
append_bytes [] s = s
append_bytes (b ∷ bs) s =
    let rest =
      append_bytes bs (record s {
        buf = put s.buf (s.e % 128) b;
        e = add32 s.e 1;
        screen = consputc b s.screen;
      }) in
    if ltb s.e (add32 s.r 128) then rest else s

abbrev pub reset_tab_state : Console → Console
reset_tab_state s = record s { last_key_was_tab = false }

-- `matches[0]` from index `from` up to `to`: the bytes that the append loops go through.
unfoldable pub slice : List ℕ → ℕ → ℕ → List ℕ
slice m from to = drop from (take to m)

-- What follows the search, by the number of matches.
unfoldable pub complete : ℕ → List (List ℕ) → Console → Console
complete len [] s = reset_tab_state s
complete len (m ∷ []) s =
    let s' = append_bytes (slice m len (strlen m)) s in reset_tab_state (record s' { c = s'.e })
complete len (m ∷ m' ∷ ms) s =
    if s.last_key_was_tab
    then reset_tab_state (print_matches_and_redraw (m ∷ m' ∷ ms) s)
    else if ltb len (find_lcp_len (m ∷ m' ∷ ms))
    then (let s' = append_bytes (slice m len (find_lcp_len (m ∷ m' ∷ ms))) s in
        record s' { c = s'.e; last_key_was_tab = true })
    else record s { last_key_was_tab = true }

-- `len < 0 || len >= INPUT_BUF` as one unsigned test.
unfoldable pub handle_tab_completion : Console → Console
handle_tab_completion s =
    let len = sub32 s.e s.w in
    if has_blank (rounds s.w s.e) s.w s.buf || leb 128 len
    then reset_tab_state s
    else complete len (find_matches (copy_prefix len (s.w % 128) s.buf) len commands) s
