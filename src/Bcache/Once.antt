-- ===== src/Bcache/Once.antt =====
-- No block has two buffers, and `bget` keeps it so.
use os_ca.Common.{
  ℕ, ◌<◌, ◌≡◌, ◌≢◌, refl, ◌∙◌, sym, ap, false, Bool, Bool-cases, Option, none, some, inl, inr, List,
  [], ◌∷◌, arith, subst,
}
use os_ca.Bcache.{n_buf, Buf, Bcache, set_buf, is_cached, claim, take_buf, share_buf, recycle}
use os_ca.Bcache.Chains.Search.{first_in, choose, claim-choose}
use os_ca.Bcache.Order.{IsOrdered, Holds, in_front, behind, set_buf-IsOrdered}

-- A block of a device is in one buffer. The buffers that were never used are for device 0.
pub record IsOnce (buf : ℕ → Buf) : Type 0 where
  pub once :
      (i j : ℕ)
      → i < n_buf
      → j < n_buf
      → (buf i).dev ≢ 0
      → (buf i).dev ≡ (buf j).dev
      → (buf i).blockno ≡ (buf j).blockno
      → i ≡ j

first_in-none :
    (passes : Buf → Bool) (buf : ℕ → Buf) (xs : List ℕ) (b : ℕ)
    → first_in passes buf xs ≡ none
    → Holds b xs
    → passes (buf b) ≡ false
unfolding first_in
first_in-none passes buf [] b e h = elim h [ ]
first_in-none passes buf (x ∷ xs) b e h = elim (Bool-cases (passes (buf x))) [
  | inl p ↦ let no : some x ≡ none = rw p at e in cc
  | inr p ↦ elim h [
    | in_front q ↦ ap (λ y. passes (buf y)) q ∙ p
    | behind m ↦ first_in-none passes buf xs b (rw p at e) m
  ]
]

-- A buffer that stays one of its block.
pub set_buf-IsOnce :
    (s : Bcache) (b : ℕ) (v : Buf)
    → v.dev ≡ (s.buf b).dev
    → v.blockno ≡ (s.buf b).blockno
    → IsOnce s.buf
    → IsOnce (set_buf b v s).buf
unfolding set_buf
set_buf-IsOnce s b v d n h = record {
  once = λ i j li lj nz ed en. h.once i j li lj (ground arith) (ground arith) (ground arith);
}

-- A buffer that becomes that of a block without one.
recycle-IsOnce :
    (s : Bcache) (b dev blockno : ℕ)
    → ((i : ℕ) → i < n_buf → is_cached dev blockno (s.buf i) ≡ false)
    → IsOnce s.buf
    → IsOnce (recycle b dev blockno s).buf
unfolding recycle set_buf is_cached
recycle-IsOnce s b dev blockno free h = record {
  once = λ i j li lj nz ed en.
      let old = h.once i j li lj in let fi = free i li in let fj = free j lj in ground arith;
}

-- What is known of the outcome of `bget`.
pub data Claimed (s : Bcache) (xs : List ℕ) : Option (ℕ × Bcache) → Type 0 where
  panics : Claimed s xs none
  claims : (b : ℕ) (t : Bcache) → IsOrdered t xs → IsOnce t.buf → Claimed s xs (some (b, t))

choose-Claimed :
    (s : Bcache) (xs : List ℕ) (dev blockno : ℕ) (f u : Option ℕ)
    → IsOrdered s xs
    → IsOnce s.buf
    → first_in (is_cached dev blockno) s.buf xs ≡ f
    → Claimed s xs (take_buf f u dev blockno s)
unfolding take_buf share_buf recycle
choose-Claimed s xs dev blockno (some b) u o h e =
    claims b _ (set_buf-IsOrdered s b _ xs o) (set_buf-IsOnce s b _ refl refl h)
choose-Claimed s xs dev blockno none (some b) o h e = claims b _ (set_buf-IsOrdered s b _ xs o) (
    recycle-IsOnce s b dev blockno
      (λ i li. first_in-none (is_cached dev blockno) s.buf xs i e (o.has_all i li)) h)
choose-Claimed s xs dev blockno none none o h e = panics

pub claim-Claimed :
    (s : Bcache) (xs : List ℕ) (dev blockno : ℕ)
    → IsOrdered s xs
    → IsOnce s.buf
    → Claimed s xs (claim dev blockno s)
unfolding choose
claim-Claimed s xs dev blockno o h =
    subst (Claimed s xs) (sym (claim-choose dev blockno s xs o.size o.distinct.0 o.chain))
      (choose-Claimed s xs dev blockno _ _ o h refl)
