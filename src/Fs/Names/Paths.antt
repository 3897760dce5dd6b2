-- ===== src/Fs/Names/Paths.antt =====
-- `skipelem` against the elements of a path.
use os_ca.Common.{
  ℕ, zero, suc, ◌≤◌, ◌<◌, ◌≡◌, refl, ◌∙◌, ap, ap₂, sym, true, false, Bool-cases, inl, inr, Option,
  none, some, List, [], ◌∷◌, ◌++◌, ◌==◌, if◌then◌else◌, if_cases, take, length, arith, map,
  append-nil, append_assoc,
}
use os_ca.Fs.Names.{dir_size, slash, skip_slashes, first_elem, skip_elem, split_front, skipelem}

-- The elements of a path, as the pieces between its slashes that are not empty: `piece` is the one
-- that is being read.
unfoldable pub elements_from : List ℕ → List ℕ → List (List ℕ)
elements_from [] [] = []
elements_from (c ∷ piece) [] = (c ∷ piece) ∷ []
elements_from [] (c ∷ path) =
    let in_piece = elements_from (c ∷ []) path in
    let between = elements_from [] path in if c == slash then between else in_piece
elements_from (b ∷ piece) (c ∷ path) =
    let in_piece = elements_from ((b ∷ piece) ++ (c ∷ [])) path in
    let behind = elements_from [] path in if c == slash then (b ∷ piece) ∷ behind else in_piece

unfoldable pub elements : List ℕ → List (List ℕ)
elements path = elements_from [] path

-- The names that `skipelem` yields, called on the rest of the path until it returns 0, at most
-- `k` times.
unfoldable pub names_of : ℕ → List ℕ → List (List ℕ)
names_of zero path = []
names_of (suc k) path = elim (skipelem path) [
  | none ↦ []
  | some (name, rest) ↦ name ∷ names_of k rest
]

abbrev names_from : ℕ → Option (List ℕ × List ℕ) → List (List ℕ)
names_from k r = elim r [ none ↦ [] | some (name, rest) ↦ name ∷ names_of k rest ]

elements-slash :
    (c : ℕ) (path : List ℕ)
    → (c == slash) ≡ true
    → elements_from [] (c ∷ path) ≡ elements_from [] path
unfolding elements_from
elements-slash c path e = rw e

module _ (c : ℕ) (path : List ℕ) where
  skip_slashes-other : (c == slash) ≡ false → skip_slashes (c ∷ path) ≡ c ∷ path
  unfolding skip_slashes
  skip_slashes-other e = rw e

  skip_slashes-slash : (c == slash) ≡ true → skip_slashes (c ∷ path) ≡ skip_slashes path
  unfolding skip_slashes
  skip_slashes-slash e = rw e

  skip_elem-slash : (c == slash) ≡ true → skip_elem (c ∷ path) ≡ c ∷ path
  unfolding skip_elem
  skip_elem-slash e = rw e

  first_elem-slash : (c == slash) ≡ true → first_elem (c ∷ path) ≡ []
  unfolding first_elem
  first_elem-slash e = rw e

  elements-cut :
      (b : ℕ) (piece : List ℕ)
      → (c == slash) ≡ true
      → elements_from (b ∷ piece) (c ∷ path) ≡ (b ∷ piece) ∷ elements_from [] path
  unfolding elements_from
  elements-cut b piece e = rw e

elements-skip : (path : List ℕ) → elements_from [] (skip_slashes path) ≡ elements_from [] path
unfolding skip_slashes
elements-skip [] = refl
elements-skip (c ∷ path) = elim (Bool-cases (c == slash)) [
  | inl e ↦
      ap (elements_from []) (skip_slashes-slash c path e)
      ∙ elements-skip path
      ∙ sym (elements-slash c path e)
  | inr e ↦ ap (elements_from []) (skip_slashes-other c path e)
]

elements-piece :
    (b : ℕ) (piece path : List ℕ)
    → elements_from (b ∷ piece) path
      ≡ ((b ∷ piece) ++ first_elem path) ∷ elements_from [] (skip_elem path)
unfolding elements_from first_elem skip_elem
elements-piece b piece [] = ap (λ l. l ∷ []) (sym (append-nil (b ∷ piece)))
elements-piece b piece (c ∷ path) = elim (Bool-cases (c == slash)) [
  | inl e ↦
      elements-cut c path b piece e
      ∙ ap₂ ◌∷◌
          (sym (append-nil (b ∷ piece))
            ∙ ap (λ l. (b ∷ piece) ++ l) (sym (first_elem-slash c path e)))
          (sym (elements-slash c path e) ∙ ap (elements_from []) (sym (skip_elem-slash c path e)))
  | inr e ↦ rw e (
      elements-piece b (piece ++ (c ∷ [])) path
      ∙ ap (λ l. l ∷ elements_from [] (skip_elem path))
          (append_assoc (b ∷ piece) (c ∷ []) (first_elem path)))
]

-- The first byte, if any, is no slash.
abbrev StartsElem : List ℕ → Type 0
StartsElem [] = Unit {0}
StartsElem (c ∷ path) = (c == slash) ≡ false

skip_slashes-StartsElem : (path : List ℕ) → StartsElem (skip_slashes path)
unfolding skip_slashes
skip_slashes-StartsElem [] = tt
skip_slashes-StartsElem (c ∷ path) =
    if_cases StartsElem (c == slash) _ _ (λ _. skip_slashes-StartsElem path) (λ e. e)

length-skip_slashes : (path : List ℕ) → length (skip_slashes path) ≤ length path
unfolding skip_slashes
length-skip_slashes [] = omega arith
length-skip_slashes (c ∷ path) = ground (arith, length-skip_slashes path)

length-skip_elem : (path : List ℕ) → length (skip_elem path) ≤ length path
unfolding skip_elem
length-skip_elem [] = omega arith
length-skip_elem (c ∷ path) = ground (arith, length-skip_elem path)

names_step :
    (k : ℕ) (path : List ℕ)
    → StartsElem path
    → length path ≤ k
    → ((rest : List ℕ) → length rest < k → names_of k rest ≡ map (take dir_size) (elements rest))
    → names_from k (split_front path) ≡ map (take dir_size) (elements path)
unfolding elements elements_from first_elem skip_elem
names_step k [] s h ih = refl
names_step k (c ∷ path) s h ih =
    let rest = skip_slashes (skip_elem path) in
    let short : length rest < k =
      omega (arith, length-skip_slashes (skip_elem path), length-skip_elem path) in
    rw (s, elements-piece, ih rest short, elements-skip)

-- The names that `skipelem` takes off a path, one after the other until it returns 0, are the pieces
-- between the path's slashes that are not empty, in order, each cut to DIRSIZ bytes; as many calls as
-- the path has bytes, and one more, are enough.
pub names_of-elements :
    (k : ℕ) (path : List ℕ)
    → length path < k
    → names_of k path ≡ map (take dir_size) (elements path)
unfolding names_of skipelem elements
names_of-elements zero path h = absurd (omega arith)
names_of-elements (suc k) path h =
    names_step k (skip_slashes path) (skip_slashes-StartsElem path)
      (omega (arith, length-skip_slashes path)) (names_of-elements k)
    ∙ ap (map (take dir_size)) (elements-skip path)
