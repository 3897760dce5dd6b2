-- ===== src/Console/Read.antt =====
-- `consoleread` and `consolewrite`.
pub mod Lines
use os_ca.Common.{
  ℕ, zero, suc, ◌+◌, ◌%◌, Bool, true, false, List, [], ◌∷◌, ltb, ◌==◌, if◌then◌else◌, add32, sub32,
}
use os_ca.Console.State.{Console, ctrl}
use os_ca.Console.Display.{put_bytes}

-- What happens while the reader sleeps: the keys that come in, by the function that they are on the
-- state, and then whether the process was killed by the time that it is woken.
pub record Nap : Type 0 where
  pub meanwhile : Console → Console
  pub killed : Bool

-- `done s bytes`: the call returned `target - n`, the number of the bytes that it stored.
-- `failed`: it returned -1. `asleep`: the schedule ends with the reader asleep.
pub data Outcome : Type 0 where
  done : Console → List ℕ → Outcome
  failed : Console → Outcome
  asleep : Console → List ℕ → Outcome

-- the bytes stored so far, in front of what the rest of the loop stores
abbrev pub stored : ℕ → Outcome → Outcome
stored b (done s bs) = done s (b ∷ bs)
stored b (failed s) = failed s
stored b (asleep s bs) = asleep s (b ∷ bs)

-- The inner `while (input.r == input.w)`: the state in which there is a byte to read, with
-- `myproc()->killed` and the naps that are left. `killed` is read before each sleep.
pub data Waited : Type 0 where
  ready : Console → Bool → List Nap → Waited
  was_killed : Console → Waited
  waiting : Console → Waited

unfoldable pub wait_input : Bool → List Nap → Console → Waited
wait_input killed [] s =
    if s.r == s.w then (if killed then was_killed s else waiting s) else ready s killed []
wait_input killed (nap ∷ naps) s =
    let rest = wait_input nap.killed naps (nap.meanwhile s) in
    if s.r == s.w then (if killed then was_killed s else rest) else ready s killed (nap ∷ naps)

-- The outer loop, with `n` bytes left to read. `first` says that `n == target`. The schedule of naps
-- is used up as the reader sleeps.
unfoldable pub read_loop : ℕ → Bool → Bool → List Nap → Console → Outcome
unfolding wait_input
read_loop zero first killed naps s = done s []
read_loop (suc n) first killed naps s = elim (wait_input killed naps s) [
  | was_killed t ↦ failed t
  | waiting t ↦ asleep t []
  | ready t killed_by_then rest ↦
      let c = t.buf (t.r % 128) in
      let t' = record t { r = add32 t.r 1 } in
      let more = read_loop n false killed_by_then rest t' in
      if c == ctrl b'D'
      then done (if first then t' else t) []
      else stored c (if c == 10 then done t' [] else more)
]

-- `consoleread` with `n` read as an `int` that is not negative.
unfoldable pub consoleread : ℕ → Bool → List Nap → Console → Outcome
unfolding read_loop
consoleread n killed naps s = read_loop n true killed naps s

-- `consolewrite` returns `n`, the length of the bytes.
unfoldable pub consolewrite : List ℕ → Console → Console
unfolding put_bytes
consolewrite bytes s = record s { screen = put_bytes bytes s.screen }
