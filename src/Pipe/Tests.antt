-- ===== src/Pipe/Tests.antt =====
-- Runs of a pipe, and its theorems at concrete states.
use os_ca.Common.{◌≡◌, refl, true, false, [], ◌∷◌, ◌++◌, put, arith, run, take, drop}
use os_ca.Pipe.{Pipe, pipewrite, piperead, wrote, got}
use os_ca.Pipe.Fifo.{contents, IsValid}
use os_ca.Pipe.Laws.{pipewrite-contents, piperead-contents}

-- Two bytes, the first just before the counters wrap round.
abbrev wrapped : Pipe
wrapped = record {
  buf = put (put (λ _. 0) 511 7) 0 8;
  nread = 4294967295;
  nwrite = 1;
  readopen = true;
  writeopen = true;
  reader_wakes = 0;
  writer_wakes = 0;
  freed = false;
}

abbrev full : Pipe
full = record wrapped { nread = 0; nwrite = 512; readopen = false }

contents-wrapped : contents wrapped ≡ 7 ∷ 8 ∷ []
unfolding run
contents-wrapped = refl

valid : IsValid wrapped
valid = omega arith

pipewrite-contents_example :
    (q : Pipe) × (pipewrite (1 ∷ 2 ∷ []) false [] wrapped ≡ wrote q)
    × (contents q ≡ contents wrapped ++ (1 ∷ 2 ∷ []))
    × IsValid q
pipewrite-contents_example = pipewrite-contents (1 ∷ 2 ∷ []) false [] wrapped valid (omega arith)

piperead-contents_example :
    (q : Pipe) × (piperead 1 false [] wrapped ≡ got q (take 1 (contents wrapped)))
    × (contents q ≡ drop 1 (contents wrapped))
    × IsValid q
piperead-contents_example = piperead-contents 1 false [] wrapped valid refl
