-- ===== src/Pipe/Fifo.antt =====
-- What a pipe promises: a queue of at most 512 bytes.
use os_ca.Common.{ℕ, ◌%◌, ◌≤◌, ◌<◌, List, Cells, run, word, sub32}
use os_ca.Pipe.{Pipe, pipesize}

-- The bytes in the pipe: `nwrite - nread` as `uint`s, also where `nwrite` has wrapped round.
abbrev pub count : Pipe → ℕ
count p = sub32 p.nwrite p.nread

abbrev pub cell : Cells → ℕ → ℕ
cell buf i = buf (i % pipesize)

abbrev pub contents : Pipe → List ℕ
contents p = run (cell p.buf) p.nread (count p)

pub record IsValid (p : Pipe) : Type 0 where
  pub fits : count p ≤ pipesize
  pub read_word : p.nread < word
  pub write_word : p.nwrite < word
