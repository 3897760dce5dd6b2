-- ===== src/Console/Read/Lines.antt =====
-- What `consoleread` returns, against the bytes that wait for it.
use os_ca.Common.{
  ℕ, zero, suc, ◌+◌, ◌-◌, ◌%◌, ◌<◌, ◌≡◌, true, false, Bool, ◌||◌, List, [], ◌∷◌, arith, ap, ◌∙◌,
  ◌==◌, ==_iff, if◌then◌else◌, add32, word,
}
use os_ca.Console.State.{Console}
use os_ca.Console.Read.{Nap, done, failed, stored, ready, wait_input, read_loop, consoleread}
use os_ca.Console.Line.{window, text, unread, IsValid, IsYoung}

-- The bytes that a read of at most `n` takes from those that wait: up to a newline, which it
-- includes, or an end of file, which it does not.
unfoldable pub take_line : ℕ → List ℕ → List ℕ
take_line zero bs = []
take_line (suc n) [] = []
take_line (suc n) (b ∷ bs) = if b == 4 then [] else if b == 10 then b ∷ [] else b ∷ take_line n bs

-- How many bytes it uses up. An end of file counts if it is the first byte.
unfoldable pub used : ℕ → Bool → List ℕ → ℕ
used zero first bs = 0
used (suc n) first [] = 0
used (suc n) first (b ∷ bs) =
    if b == 4 then (if first then 1 else 0) else if b == 10 then 1 else suc (used n false bs)

-- Does the read end with what is there?
unfoldable pub ends : ℕ → List ℕ → Bool
ends zero bs = true
ends (suc n) [] = false
ends (suc n) (b ∷ bs) = b == 4 || b == 10 || ends n bs

abbrev advanced : Console → ℕ → Console
advanced s n = record s { r = s.r + n }

wait_input-ready :
    (killed : Bool) (s : Console)
    → (s.r == s.w) ≡ false
    → wait_input killed [] s ≡ ready s killed []
unfolding wait_input
wait_input-ready killed s some_byte = rw some_byte

read_loop_ready :
    (n : ℕ) (first killed : Bool) (s : Console)
    → (s.r == s.w) ≡ false
    → s.r + 1 < word
    → read_loop (suc n) first killed [] s ≡ (
        if s.buf (s.r % 128) == 4
        then done (if first then advanced s 1 else s) []
        else stored (s.buf (s.r % 128)) (
            if s.buf (s.r % 128) == 10
            then done (advanced s 1) []
            else read_loop n false killed [] (advanced s 1)))
unfolding read_loop
read_loop_ready n first killed s some_byte small =
    let up : add32 s.r 1 ≡ s.r + 1 = omega arith in
    rw (wait_input-ready killed s some_byte, read_loop) (rw up)

advanced_twice : (s : Console) (n : ℕ) → advanced (advanced s 1) n ≡ advanced s (suc n)
advanced_twice s n = ap (λ k. record s { r = k }) (omega arith)

advanced_none : (s : Console) → s ≡ advanced s 0
advanced_none s = ap (λ k. record s { r = k }) (omega arith)

read_loop-ends :
    (n m : ℕ) (first killed : Bool) (s : Console)
    → s.w ≡ s.r + m
    → s.w < word
    → ends n (window s.buf s.r m) ≡ true
    → read_loop n first killed [] s
      ≡ done (advanced s (used n first (window s.buf s.r m))) (take_line n (window s.buf s.r m))
unfolding window take_line used ends read_loop
read_loop-ends zero m first killed s e small h = ap (λ t. done t []) (advanced_none s)
read_loop-ends (suc n) zero first killed s e small h = cc
read_loop-ends (suc n) (suc m) first killed s e small h =
    let some_byte : (s.r == s.w) ≡ false = ground arith in
    let step = read_loop_ready n first killed s some_byte (omega arith) in
    let rest = read_loop-ends n m false killed (advanced s 1) (omega arith) small in
    step
    ∙ ground
        (arith, rest, advanced_none s, advanced_twice s (used n false (window s.buf (s.r + 1) m)))

-- A read whose line is there (or its count of bytes) returns without sleeping, with the bytes of
-- `take_line`, and `r` passes over the bytes used up; nothing else changes.
pub consoleread-take_line :
    (n : ℕ) (killed : Bool) (s : Console)
    → IsValid (text s)
    → IsYoung (text s)
    → ends n (unread (text s)) ≡ true
    → consoleread n killed [] s
      ≡ done (record s { r = s.r + used n true (unread (text s)) }) (take_line n (unread (text s)))
unfolding consoleread
consoleread-take_line n killed s v y h =
    read_loop-ends n (s.w - s.r) true killed s (omega arith) (omega arith) h

-- Where no byte waits, a read of at least one byte by a process that is not killed sleeps: what it
-- returns is what the same read returns from the state that it is woken in.
pub consoleread-sleeps :
    (n : ℕ) (nap : Nap) (naps : List Nap) (s : Console)
    → s.r ≡ s.w
    → consoleread (suc n) false (nap ∷ naps) s
      ≡ consoleread (suc n) nap.killed naps (nap.meanwhile s)
unfolding consoleread read_loop wait_input
consoleread-sleeps n nap naps s h =
    let nothing : (s.r == s.w) ≡ true = ground arith in rw (nothing, read_loop)

-- A killed process that finds no byte fails.
pub consoleread-killed :
    (n : ℕ) (naps : List Nap) (s : Console) → s.r ≡ s.w → consoleread (suc n) true naps s ≡ failed s
unfolding consoleread read_loop wait_input
consoleread-killed n [] s h = rw ((==_iff s.r s.w).1 h, read_loop)
consoleread-killed n (nap ∷ naps) s h = rw ((==_iff s.r s.w).1 h, read_loop)
