-- ===== src/Fs/Cache/Once.antt =====
-- No inode has two entries of the cache.
use os_ca.Common.{
  ℕ, zero, suc, ◌+◌, ◌≤◌, ◌<◌, ◌≡◌, ◌≢◌, refl, inl, inr, ◌∙◌, sym, ap, true, false, ◌&&◌, Option,
  none, some, slt, add32, half_word, ◌==◌, if_cases, arith, subst, Bool-cases,
}
use mathlib.Core.Option.{some-injective, none-ne-some}
use os_ca.Fs.Inodes.{Inode}
use os_ca.Fs.Cache.{
  n_inode, Entries, put_inode, Search, cached, absent, first_of, search_from, take_entry, iget,
}

-- Entry `k` holds the inode.
abbrev pub Holds : Entries → ℕ → ℕ → ℕ → Type 0
Holds t k dev inum = (slt 0 (t k).ref ≡ true) × ((t k).dev ≡ dev) × ((t k).inum ≡ inum)

-- An entry that a search has remembered is free.
data IsFree (t : Entries) (bound : ℕ) : Option ℕ → Type 0 where
  no_entry : IsFree t bound none
  an_entry : (e : ℕ) → (t e).ref ≡ 0 → e < bound → IsFree t bound (some e)

-- What a search of the `n` entries from `i` on may answer.
data Found (n i dev inum : ℕ) (t : Entries) : Search → Type 0 where
  hit : (k : ℕ) → i ≤ k → k < i + n → Holds t k dev inum → Found n i dev inum t (cached k)
  miss :
      (o : Option ℕ)
      → ((k : ℕ) → i ≤ k → k < i + n → ¬ Holds t k dev inum)
      → IsFree t (i + n) o
      → Found n i dev inum t (absent o)

IsFree-mono : (t : Entries) (a b : ℕ) (o : Option ℕ) → a ≤ b → IsFree t a o → IsFree t b o
IsFree-mono t a b o h no_entry = no_entry
IsFree-mono t a b o h (an_entry e z lt) = an_entry e z (omega arith)

first_of-IsFree :
    (t : Entries) (i : ℕ) (o : Option ℕ)
    → IsFree t i o
    → IsFree t (i + 1) (first_of o i ((t i).ref == 0))
first_of-IsFree t i o (an_entry e z lt) = an_entry e z (omega arith)
first_of-IsFree t i o no_entry =
    if_cases (IsFree t (i + 1)) ((t i).ref == 0) _ _ (λ h. an_entry i (ground arith) (omega arith))
      (λ h. no_entry)

wider :
    (n i dev inum : ℕ) (t : Entries) (r : Search)
    → ¬ Holds t i dev inum
    → Found n (i + 1) dev inum t r
    → Found (suc n) i dev inum t r
wider n i dev inum t r no_hit (hit k p q h) = hit k (omega arith) (omega arith) h
wider n i dev inum t r no_hit (miss o none_holds free) =
    miss o
      (λ k p q h.
        let ne : i ≢ k = λ e. no_hit (subst (λ j. Holds t j dev inum) (sym e) h) in
        none_holds k (omega (arith, ne)) (omega arith) h)
      (IsFree-mono t (i + 1 + n) (i + suc n) o (omega arith) free)

search-Found :
    (n i dev inum : ℕ) (t : Entries) (o : Option ℕ)
    → IsFree t i o
    → Found n i dev inum t (search_from n i o dev inum t)
unfolding search_from
search-Found zero i dev inum t o free =
    miss o (λ k p q. absurd (omega arith)) (IsFree-mono t i (i + 0) o (omega arith) free)
search-Found (suc n) i dev inum t o free =
    if_cases (Found (suc n) i dev inum t)
      (slt 0 (t i).ref && (t i).dev == dev && (t i).inum == inum) _ _
      (λ h. hit i (omega arith) (omega arith) (ground arith, ground arith, ground arith))
      (λ h.
        wider n i dev inum t _ (λ (pos, e, e'). ground arith)
          (search-Found n (i + 1) dev inum t (first_of o i ((t i).ref == 0))
            (first_of-IsFree t i o free)))

-- No two entries in use hold the same inode.
pub record IsOnce (t : Entries) : Type 0 where
  pub once :
      (i j : ℕ)
      → i < n_inode
      → j < n_inode
      → slt 0 (t i).ref ≡ true
      → slt 0 (t j).ref ≡ true
      → (t i).dev ≡ (t j).dev
      → (t i).inum ≡ (t j).inum
      → i ≡ j

-- The inode that an entry in use held before.
abbrev pub Keeps : Entries → ℕ → Inode → Type 0
Keeps t k ip =
    slt 0 ip.ref ≡ true → (slt 0 (t k).ref ≡ true) × (ip.dev ≡ (t k).dev) × (ip.inum ≡ (t k).inum)

put_inode-Keeps :
    (k : ℕ) (ip : Inode) (t : Entries) → Keeps t k ip → (i : ℕ) → Keeps t i (put_inode k ip t i)
unfolding put_inode
put_inode-Keeps k ip t keeps i =
    if_cases (Keeps t i) (i == k) ip (t i)
      (λ h. let same : k ≡ i = ground arith in subst (λ j. Keeps t j ip) same keeps)
      (λ h r. (r, refl, refl))

-- An entry may change while it holds the inode that it held, or let go of it.
pub put_inode-IsOnce :
    (k : ℕ) (ip : Inode) (t : Entries) → Keeps t k ip → IsOnce t → IsOnce (put_inode k ip t)
put_inode-IsOnce k ip t keeps h = record {
  once = λ i j hi hj ri rj e e'.
      let (pi, di, ni) = put_inode-Keeps k ip t keeps i ri in
      let (pj, dj, nj) = put_inode-Keeps k ip t keeps j rj in
      h.once i j hi hj pi pj (sym di ∙ e ∙ dj) (sym ni ∙ e' ∙ nj);
}

-- A free entry may take an inode that no entry holds.
fresh-IsOnce :
    (k : ℕ) (ip : Inode) (t : Entries)
    → ((j : ℕ) → j < n_inode → ¬ Holds t j ip.dev ip.inum)
    → IsOnce t
    → IsOnce (put_inode k ip t)
unfolding put_inode
fresh-IsOnce k ip t new h = record {
  once = λ i j hi hj ri rj e e'. elim (Bool-cases (i == k)) [
    | inl a ↦ elim (Bool-cases (j == k)) [
      | inl b ↦ ground arith
      | inr b ↦ absurd (new j hj (ground arith, ground arith, ground arith))
    ]
    | inr a ↦ elim (Bool-cases (j == k)) [
      | inl b ↦ absurd (new i hi (ground arith, ground arith, ground arith))
      | inr b ↦ h.once i j hi hj (ground arith) (ground arith) (ground arith) (ground arith)
    ]
  ];
}

-- What `iget` returns: an entry that holds the inode, the one that held it if there was one, with
-- one reference more; no other entry changes.
pub record Got (dev inum : ℕ) (t : Entries) (k : ℕ) (t' : Entries) : Type 0 where
  pub inside : k < n_inode
  pub held : Holds t' k dev inum
  pub counted : (t' k).ref ≡ (t k).ref + 1
  pub same : (j : ℕ) → j < n_inode → Holds t j dev inum → j ≡ k
  pub others : (j : ℕ) → j ≢ k → t' j ≡ t j
  pub once : IsOnce t'

pub put_inode_self : (k : ℕ) (ip : Inode) (t : Entries) → put_inode k ip t k ≡ ip
unfolding put_inode
put_inode_self k ip t = let here : (k == k) ≡ true = ground arith in rw here

put_inode_ne : (k : ℕ) (ip : Inode) (t : Entries) (j : ℕ) → j ≢ k → put_inode k ip t j ≡ t j
unfolding put_inode
put_inode_ne k ip t j h = let other : (j == k) ≡ false = ground arith in rw other

take_entry-Got :
    (dev inum : ℕ) (t : Entries)
    → IsOnce t
    → (r : Search) → Found n_inode 0 dev inum t r
    → (k : ℕ) (t' : Entries) → take_entry r dev inum t ≡ some (k, t')
    → (t k).ref + 1 < half_word
    → Got dev inum t k t'
unfolding take_entry
take_entry-Got dev inum t h r (hit e p q holds) k t' run small =
    let (pos, ed, ei) = holds in
    let ip = record (t e) { ref = add32 (t e).ref 1 } in
    let made : Got dev inum t e (put_inode e ip t) = record {
      inside = omega arith;
      held =
          subst (λ (q : Inode). (slt 0 q.ref ≡ true) × (q.dev ≡ dev) × (q.inum ≡ inum))
            (sym (put_inode_self e ip t)) (ground arith, ed, ei);
      counted = ap (λ (q : Inode). q.ref) (put_inode_self e ip t) ∙ ground arith;
      same = λ j hj (pj, dj, nj). h.once j e hj (omega arith) pj pos (dj ∙ sym ed) (nj ∙ sym ei);
      others = put_inode_ne e ip t;
      once = put_inode-IsOnce e ip t (λ _. (pos, refl, refl)) h;
    } in
    subst (λ (q : ℕ × Entries). Got dev inum t q.0 q.1)
      (some-injective (e, put_inode e ip t) (k, t') run) made
take_entry-Got dev inum t h r (miss _ none_holds no_entry) k t' run small =
    absurd (none-ne-some (k, t') run)
take_entry-Got dev inum t h r (miss _ none_holds (an_entry e z lt)) k t' run small =
    let ip = record (t e) { dev = dev; inum = inum; ref = 1; valid = false } in
    let made : Got dev inum t e (put_inode e ip t) = record {
      inside = omega arith;
      held =
          subst (λ (q : Inode). (slt 0 q.ref ≡ true) × (q.dev ≡ dev) × (q.inum ≡ inum))
            (sym (put_inode_self e ip t)) (refl, refl, refl);
      counted = ap (λ (q : Inode). q.ref) (put_inode_self e ip t) ∙ omega arith;
      same = λ j hj holds. absurd (none_holds j (omega arith) (omega arith) holds);
      others = put_inode_ne e ip t;
      once = fresh-IsOnce e ip t (λ j hj. none_holds j (omega arith) (omega arith)) h;
    } in
    subst (λ (q : ℕ × Entries). Got dev inum t q.0 q.1)
      (some-injective (e, put_inode e ip t) (k, t') run) made

-- `iget` that does not panic, in a cache without duplicates, gives the entry that holds the inode
-- already if there is one, and otherwise an entry that had no reference; the cache stays without
-- duplicates. The count of the entry stays an `int`.
pub iget-Got :
    (dev inum : ℕ) (t : Entries) (k : ℕ) (t' : Entries)
    → IsOnce t
    → iget dev inum t ≡ some (k, t')
    → (t k).ref + 1 < half_word
    → Got dev inum t k t'
unfolding iget
iget-Got dev inum t k t' h run small =
    take_entry-Got dev inum t h (search_from n_inode 0 none dev inum t)
      (search-Found n_inode 0 dev inum t none no_entry) k t' run small
