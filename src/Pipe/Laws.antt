-- ===== src/Pipe/Laws.antt =====
-- `pipewrite` and `piperead` on the queue of the pipe's bytes.
use os_ca.Common.{
  ℕ, zero, suc, ◌+◌, ◌-◌, ◌%◌, ◌≤◌, ◌<◌, ◌≡◌, refl, true, false, Bool, not, ◌&&◌, List, [], ◌∷◌,
  ◌++◌, put, arith, ap, ap₂, ◌∙◌, sym, if_cases, if◌then◌else◌, run, run-ext, run-first, run-last,
  add32, length, take, drop, append_assoc, append-nil,
}
use os_ca.Pipe.{
  Pipe, pipesize, put_byte, is_full, room, wait_room, Nap, wrote, failed, pipewrite, got, is_empty,
  take_bytes, copy_out, piperead, wake_readers, wake_writers, pipeclose, close_end,
}
use os_ca.Pipe.Fifo.{count, cell, contents, IsValid}

is_full_iff : (p : Pipe) → IsValid p → is_full p ≡ false → count p < 512
is_full_iff p v h = ground arith

count-put_byte : (b : ℕ) (p : Pipe) → IsValid p → count p < 512 → count (put_byte b p) ≡ count p + 1
unfolding put_byte
count-put_byte b p v h = omega arith

-- A byte that is put goes to the end of the queue.
pub contents-put_byte :
    (b : ℕ) (p : Pipe)
    → IsValid p
    → count p < 512
    → (contents (put_byte b p) ≡ contents p ++ (b ∷ [])) × IsValid (put_byte b p)
unfolding put_byte
contents-put_byte b p v h =
    let f : ℕ → ℕ = cell (put p.buf (p.nwrite % pipesize) b) in
    let grown = count-put_byte b p v h in
    (
      ap (run f p.nread) grown
          ∙ run-last f p.nread (count p)
          ∙ ap₂ ◌++◌ (run-ext f (cell p.buf) (count p) p.nread p.nread (λ k q. ground arith))
              (ap (λ x. x ∷ []) (ground arith)),
      record { fits = omega arith; read_word = v.read_word; write_word = omega arith },
    )

wait_room-room :
    (killed : Bool) (naps : List Nap) (p : Pipe)
    → is_full p ≡ false
    → wait_room killed naps p ≡ room p killed naps
unfolding wait_room
wait_room-room killed [] p h = rw h
wait_room-room killed (nap ∷ naps) p h = rw h

-- A write for which there is room sleeps nowhere: the queue gains the bytes in order.
pub pipewrite-contents :
    (bs : List ℕ) (killed : Bool) (naps : List Nap) (p : Pipe)
    → IsValid p
    → count p + length bs ≤ 512
    → (q : Pipe) × (pipewrite bs killed naps p ≡ wrote q)
      × (contents q ≡ contents p ++ bs)
      × IsValid q
unfolding pipewrite
pipewrite-contents [] killed naps p v h = (wake_readers p, refl, sym (append-nil _), omega arith)
pipewrite-contents (b ∷ bs) killed naps p v h =
    let some_room : is_full p ≡ false = ground arith in
    let (longer, v') = contents-put_byte b p v (omega arith) in
    let grown = count-put_byte b p v (omega arith) in
    let (q, ran, all, vq) = pipewrite-contents bs killed naps (put_byte b p) v' (omega arith) in
    (
      q,
      rw (wait_room-room killed naps p some_room, pipewrite) ran,
      all ∙ ap (λ l. l ++ bs) longer ∙ append_assoc (contents p) (b ∷ []) bs,
      vq,
    )

-- The pipe behind the read of one byte.
abbrev popped : Pipe → Pipe
popped p = record p { nread = add32 p.nread 1 }

contents-popped :
    (p : Pipe)
    → IsValid p
    → is_empty p ≡ false
    → (contents p ≡ p.buf (p.nread % pipesize) ∷ contents (popped p)) × IsValid (popped p)
contents-popped p v some_byte =
    let some : 0 < count p = ground arith in
    let fewer : count (popped p) ≡ count p - 1 = ground arith in
    (
      run-first (cell p.buf) p.nread (count p) some
          ∙ ap (λ l. p.buf (p.nread % pipesize) ∷ l)
              (run-ext (cell p.buf) (cell p.buf) (count p - 1) (p.nread + 1) (add32 p.nread 1)
                  (λ k q. ap p.buf (omega arith))
                ∙ ap (run (cell p.buf) (add32 p.nread 1)) (sym fewer)),
      record { fits = omega arith; read_word = omega arith; write_word = v.write_word },
    )

contents-nil : (p : Pipe) → IsValid p → is_empty p ≡ true → contents p ≡ []
unfolding run
contents-nil p v h =
    let none_left : count p ≡ 0 = ground arith in ap (run (cell p.buf) p.nread) none_left

-- What a read of at most `n` bytes takes and leaves.
record Took (n : ℕ) (p : Pipe) (out : Pipe × List ℕ) : Type 0 where
  bytes : out.1 ≡ take n (contents p)
  left : contents out.0 ≡ drop n (contents p)
  valid : IsValid out.0

take_bytes-Took : (n : ℕ) (p : Pipe) → IsValid p → Took n p (take_bytes n p)
unfolding take_bytes
take_bytes-Took zero p v = record { bytes = refl; left = refl; valid = v }
take_bytes-Took (suc n) p v =
    let (q, bs) = take_bytes n (popped p) in
    if_cases (Took (suc n) p) (is_empty p) (p, []) (q, p.buf (p.nread % pipesize) ∷ bs)
      (λ empty.
        let none_left = contents-nil p v empty in
        record { bytes = rw none_left; left = none_left ∙ rw none_left; valid = v })
      (λ some_byte.
        let (first, v') = contents-popped p v some_byte in
        let rest = take_bytes-Took n (popped p) v' in
        record {
          bytes = rw first (ap (λ l. p.buf (p.nread % pipesize) ∷ l) rest.bytes);
          left = rw first rest.left;
          valid = rest.valid;
        })

-- A read of a pipe that holds a byte, or whose write end is closed, does not sleep: it returns the
-- first `n` bytes of the queue, or all of them if there are fewer, and leaves the rest. At the end
-- of a closed pipe that is no byte.
pub piperead-contents :
    (n : ℕ) (killed : Bool) (naps : List Nap) (p : Pipe)
    → IsValid p
    → (is_empty p && p.writeopen) ≡ false
    → (q : Pipe) × (piperead n killed naps p ≡ got q (take n (contents p)))
      × (contents q ≡ drop n (contents p))
      × IsValid q
unfolding piperead copy_out
piperead-contents n killed naps p v ready =
    let took = take_bytes-Took n p v in
    (
      wake_writers (take_bytes n p).0,
      piperead-copy_out killed naps ready ∙ ap (got (wake_writers (take_bytes n p).0)) took.bytes,
      took.left,
      record {
        fits = took.valid.fits;
        read_word = took.valid.read_word;
        write_word = took.valid.write_word;
      },
    )
  where
    piperead-copy_out :
        (killed : Bool) (naps : List Nap)
        → (is_empty p && p.writeopen) ≡ false
        → piperead n killed naps p ≡ got (wake_writers (take_bytes n p).0) (take_bytes n p).1
    piperead-copy_out killed [] h = rw h
    piperead-copy_out killed (nap ∷ naps) h = rw h

-- A write to a full pipe whose read end is closed fails and leaves the pipe as it is.
pub pipewrite-broken :
    (b : ℕ) (bs : List ℕ) (killed : Bool) (naps : List Nap) (p : Pipe)
    → is_full p ≡ true
    → p.readopen ≡ false
    → pipewrite (b ∷ bs) killed naps p ≡ failed p
unfolding pipewrite wait_room
pipewrite-broken b bs killed [] p full closed = rw (full, closed, pipewrite)
pipewrite-broken b bs killed (nap ∷ naps) p full closed = rw (full, closed, pipewrite)

-- The page is given back exactly when the second of the two ends is closed.
pub freed-pipeclose :
    (writable : Bool) (p : Pipe)
    → p.freed ≡ false
    → (pipeclose writable p).freed ≡ not (if writable then p.readopen else p.writeopen)
unfolding pipeclose close_end
freed-pipeclose true p h = ground arith
freed-pipeclose false p h = ground arith
