-- ===== src/Bcache/Chains/Search.antt =====
-- The two loops of `bget`, and `bget` itself, on the list of the buffers.
use os_ca.Common.{
  ℕ, zero, suc, ◌+◌, ◌<◌, ◌≡◌, refl, ap₂, false, Bool, Option, none, some, List, [], ◌∷◌, length,
  Cells, if◌then◌else◌, ◌==◌, arith,
}
use mathlib.Core.List.{reverse, reverse_aux}
use os_ca.Bcache.{
  n_buf, Buf, Bcache, find_along, is_cached, is_unused, find_cached, find_unused_buf, claim,
  take_buf,
}
use os_ca.Bcache.Chains.{Chain, last, link, Avoids}

-- The first buffer of the list that passes.
unfoldable pub first_in : (Buf → Bool) → (ℕ → Buf) → List ℕ → Option ℕ
first_in passes buf [] = none
first_in passes buf (b ∷ bs) =
    let rest = first_in passes buf bs in if passes (buf b) then some b else rest

find_along-Chain :
    (n a : ℕ) (passes : Buf → Bool) (next prev : Cells) (buf : ℕ → Buf) (xs : List ℕ)
    → length xs < n
    → Avoids n_buf xs
    → Chain next prev n_buf a xs
    → find_along n passes next buf (next a) ≡ first_in passes buf xs
unfolding find_along first_in
find_along-Chain zero a passes next prev buf xs le av c = absurd (omega arith)
find_along-Chain (suc n) a passes next prev buf [] le av (last e p) = rw e refl
find_along-Chain (suc n) a passes next prev buf (x ∷ xs) le (ne, av) (link e p c) =
    let rest = find_along-Chain n x passes next prev buf xs (omega arith) av c in
    let inside : (x == n_buf) ≡ false = ground arith in rw (e, inside, rest) refl

Chain-reverse_aux :
    (next prev : Cells) (z w a : ℕ) (xs ys : List ℕ)
    → Chain next prev z a xs
    → Chain prev next w a ys
    → Chain prev next w z (reverse_aux xs (a ∷ ys))
Chain-reverse_aux next prev z w a [] ys (last n p) done = link p n done
Chain-reverse_aux next prev z w a (x ∷ xs) ys (link n p c) done =
    Chain-reverse_aux next prev z w x xs (a ∷ ys) c (link p n done)

-- Backwards, the links lead through the reversed list.
pub Chain-reverse :
    (next prev : Cells) (h : ℕ) (xs : List ℕ)
    → Chain next prev h h xs
    → Chain prev next h h (reverse xs)
Chain-reverse next prev h [] (last n p) = last p n
Chain-reverse next prev h (x ∷ xs) (link n p c) =
    Chain-reverse_aux next prev h h x xs [] c (last p n)

length-reverse_aux : (xs ys : List ℕ) → length (reverse_aux xs ys) ≡ length xs + length ys
length-reverse_aux [] ys = omega arith
length-reverse_aux (x ∷ xs) ys = omega (arith, length-reverse_aux xs (x ∷ ys))

Avoids-reverse_aux :
    (y : ℕ) (xs ys : List ℕ) → Avoids y xs → Avoids y ys → Avoids y (reverse_aux xs ys)
Avoids-reverse_aux y [] ys h done = done
Avoids-reverse_aux y (x ∷ xs) ys (ne, h) done = Avoids-reverse_aux y xs (x ∷ ys) h (ne, done)

-- What `bget` does on the list: it takes the first buffer that holds the block, or else the last one that
-- is unused, or panics.
unfoldable pub choose : ℕ → ℕ → Bcache → List ℕ → Option (ℕ × Bcache)
choose dev blockno s xs =
    take_buf (first_in (is_cached dev blockno) s.buf xs) (first_in is_unused s.buf (reverse xs)) dev
      blockno s

pub claim-choose :
    (dev blockno : ℕ) (s : Bcache) (xs : List ℕ)
    → length xs ≡ n_buf
    → Avoids n_buf xs
    → Chain s.next s.prev n_buf n_buf xs
    → claim dev blockno s ≡ choose dev blockno s xs
unfolding claim choose find_cached find_unused_buf
claim-choose dev blockno s xs size av c =
    let forth =
      find_along-Chain (suc n_buf) n_buf (is_cached dev blockno) s.next s.prev s.buf xs
        (omega arith) av c in
    let back =
      find_along-Chain (suc n_buf) n_buf is_unused s.prev s.next s.buf (reverse xs)
        (omega (arith, length-reverse_aux xs [])) (Avoids-reverse_aux n_buf xs [] av tt)
        (Chain-reverse s.next s.prev n_buf xs c) in
    ap₂ (λ f u. take_buf f u dev blockno s) forth back
