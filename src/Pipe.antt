-- ===== src/Pipe.antt =====
-- pipe.c: a ring of 512 bytes between a writer and a reader. `nread` and `nwrite` count all bytes
-- ever read and written, as `uint`s that wrap round.
pub mod Fifo
mod Tests
pub mod Laws
use os_ca.Common.{
  ℕ, zero, suc, ◌+◌, ◌%◌, Bool, true, false, not, ◌&&◌, ◌||◌, List, [], ◌∷◌, Cells, put, ◌==◌,
  if◌then◌else◌, add32,
}

-- `struct pipe` but its lock. `reader_wakes` and `writer_wakes` count the calls `wakeup(&p->nread)`
-- and `wakeup(&p->nwrite)`; `freed` says that the page went back to `kfree`.
pub record Pipe : Type 0 where
  pub buf : Cells
  pub nread : ℕ
  pub nwrite : ℕ
  pub readopen : Bool
  pub writeopen : Bool
  pub reader_wakes : ℕ
  pub writer_wakes : ℕ
  pub freed : Bool

-- PIPESIZE
abbrev pub pipesize : ℕ
pipesize = 512

-- the part of `pipealloc` that fills in the new page
unfoldable pub pipeinit : Cells → Pipe
pipeinit page = record {
  buf = page;
  nread = 0;
  nwrite = 0;
  readopen = true;
  writeopen = true;
  reader_wakes = 0;
  writer_wakes = 0;
  freed = false;
}

abbrev pub wake_readers : Pipe → Pipe
wake_readers p = record p { reader_wakes = p.reader_wakes + 1 }

abbrev pub wake_writers : Pipe → Pipe
wake_writers p = record p { writer_wakes = p.writer_wakes + 1 }

unfoldable pub close_end : Bool → Pipe → Pipe
close_end true p = wake_readers (record p { writeopen = false })
close_end false p = wake_writers (record p { readopen = false })

unfoldable pub pipeclose : Bool → Pipe → Pipe
pipeclose writable p =
    let q = close_end writable p in
    if not q.readopen && not q.writeopen then record q { freed = true } else q

-- What happens while a process sleeps on the pipe, with the lock released, and whether the process
-- was killed by the time that it is woken.
pub record Nap : Type 0 where
  pub meanwhile : Pipe → Pipe
  pub killed : Bool

-- `wrote`: returned `n`. `failed`: returned -1. `asleep`: the schedule ends with the writer asleep.
pub data Written : Type 0 where
  wrote : Pipe → Written
  failed : Pipe → Written
  asleep : Pipe → Written

-- `data[nwrite++ % PIPESIZE] = addr[i]`
unfoldable pub put_byte : ℕ → Pipe → Pipe
put_byte b p = record p { buf = put p.buf (p.nwrite % pipesize) b; nwrite = add32 p.nwrite 1 }

abbrev pub is_full : Pipe → Bool
is_full p = p.nwrite == add32 p.nread pipesize

-- The inner `while` of `pipewrite`: room for a byte, with what is left of the schedule.
pub data Room : Type 0 where
  room : Pipe → Bool → List Nap → Room
  hopeless : Pipe → Room
  still_full : Pipe → Room

unfoldable pub wait_room : Bool → List Nap → Pipe → Room
wait_room killed [] p =
    if is_full p
    then (if not p.readopen || killed then hopeless p else still_full (wake_readers p))
    else room p killed []
wait_room killed (nap ∷ naps) p =
    let rest = wait_room nap.killed naps (nap.meanwhile (wake_readers p)) in
    if is_full p
    then (if not p.readopen || killed then hopeless p else rest)
    else room p killed (nap ∷ naps)

-- The bytes are `addr[i..n)`; `killed` is `myproc()->killed`.
unfoldable pub pipewrite : List ℕ → Bool → List Nap → Pipe → Written
pipewrite [] killed naps p = wrote (wake_readers p)
pipewrite (b ∷ bs) killed naps p = elim (wait_room killed naps p) [
  | hopeless q ↦ failed q
  | still_full q ↦ asleep q
  | room q killed_by_then rest ↦ pipewrite bs killed_by_then rest (put_byte b q)
]

-- `got p bytes`: returned the number of the bytes that it stored.
pub data Got : Type 0 where
  got : Pipe → List ℕ → Got
  refused : Pipe → Got
  waiting : Pipe → Got

abbrev pub is_empty : Pipe → Bool
is_empty p = p.nread == p.nwrite

-- The copy loop of `piperead`, for at most `n` bytes.
unfoldable pub take_bytes : ℕ → Pipe → Pipe × List ℕ
take_bytes zero p = (p, [])
take_bytes (suc n) p =
    let (q, bs) = take_bytes n (record p { nread = add32 p.nread 1 }) in
    if is_empty p then (p, []) else (q, p.buf (p.nread % pipesize) ∷ bs)

-- What follows the wait.
unfoldable pub copy_out : ℕ → Pipe → Got
copy_out n p = let (q, bs) = take_bytes n p in got (wake_writers q) bs

unfoldable pub piperead : ℕ → Bool → List Nap → Pipe → Got
piperead n killed [] p =
    if is_empty p && p.writeopen then (if killed then refused p else waiting p) else copy_out n p
piperead n killed (nap ∷ naps) p =
    let rest = piperead n nap.killed naps (nap.meanwhile p) in
    if is_empty p && p.writeopen then (if killed then refused p else rest) else copy_out n p
