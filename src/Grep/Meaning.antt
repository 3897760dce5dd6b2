-- ===== src/Grep/Meaning.antt =====
-- What a pattern means, with no order of search in it, and that the matcher decides it.
use os_ca.Common.{
  ℕ, ◌≡◌, refl, ◌↔◌, ◌∙◌, sym, ap, ◌⊎◌, Bool, true, false, ◌||◌, Bool-cases, inl, inr, List, [],
  ◌∷◌, ◌++◌, ◌==◌, if◌then◌else◌, arith,
}
use os_ca.Grep.{at_end, matchstar, matchone, matchhere, match_from, match}

-- A pattern's parts: `c`, and `c*`, where `.` stands for any byte.
pub data Item : Type 0 where
  one : ℕ → Item
  star : ℕ → Item

-- The parts of a pattern, and whether it ends in `$`. A `*` at the start of a pattern and a `$` before
-- its end stand for themselves, and so does a `^` that is not in front.
unfoldable pub items_of : List ℕ → List Item
items_of [] = []
items_of (c ∷ []) = if c == b'$' then [] else one c ∷ []
items_of (c ∷ d ∷ re) =
    let behind_star = star c ∷ items_of re in
    let behind_one = one c ∷ items_of (d ∷ re) in if d == b'*' then behind_star else behind_one

unfoldable pub is_ended : List ℕ → Bool
is_ended [] = false
is_ended (c ∷ []) = c == b'$'
is_ended (c ∷ d ∷ re) =
    let behind_star = is_ended re in
    let behind_one = is_ended (d ∷ re) in if d == b'*' then behind_star else behind_one

unfoldable pub accepts : ℕ → ℕ → Bool
accepts c t = c == b'.' || c == t

-- The parts match the front of the text, and leave the rest of it.
pub data Takes : List Item → List ℕ → List ℕ → Type 0 where
  done : {s : List ℕ} → Takes [] s s
  byte :
      {c t : ℕ} {is : List Item} {s r : List ℕ}
      → accepts c t ≡ true
      → Takes is s r
      → Takes (one c ∷ is) (t ∷ s) r
  leave : {c : ℕ} {is : List Item} {s r : List ℕ} → Takes is s r → Takes (star c ∷ is) s r
  more :
      {c t : ℕ} {is : List Item} {s r : List ℕ}
      → accepts c t ≡ true
      → Takes (star c ∷ is) s r
      → Takes (star c ∷ is) (t ∷ s) r

-- The parts match the front of the text, up to its end if they are to.
abbrev Fronts : List Item → Bool → List ℕ → Type 0
Fronts is ended text = (r : List ℕ) × Takes is text r × (ended ≡ true → r ≡ [])

-- The pattern, without `^`, matches at the front of the text.
abbrev pub Begins : List ℕ → List ℕ → Type 0
Begins re text = Fronts (items_of re) (is_ended re) text

module _ {c b : ℕ} {is : List Item} {s r : List ℕ} where
  byte_inv : Takes (one c ∷ is) (b ∷ s) r → (accepts c b ≡ true) × Takes is s r
  byte_inv (byte a t) = (a, t)

  star_inv :
      Takes (star c ∷ is) (b ∷ s) r
      → Takes is (b ∷ s) r ⊎ ((accepts c b ≡ true) × Takes (star c ∷ is) s r)
  star_inv (leave t) = inl t
  star_inv (more a t) = inr (a, t)

star_at_end : {c : ℕ} {is : List Item} {r : List ℕ} → Takes (star c ∷ is) [] r → Takes is [] r
star_at_end (leave t) = t

-- A test of texts decides whether the parts match at their front.
abbrev Decides : (List ℕ → Bool) → List Item → Bool → Type 0
Decides here is ended = (text : List ℕ) → (here text ≡ true) ↔ Fronts is ended text

module _ (c : ℕ) (here : List ℕ → Bool) (is : List Item) (ended : Bool)
    (h : Decides here is ended) where
  matchone-Decides : Decides (matchone c here) (one c ∷ is) ended
  unfolding matchone accepts
  matchone-Decides [] = (λ e. cc, λ (r, t, _). elim t [ ])
  matchone-Decides (b ∷ text) = (
    λ e. elim (Bool-cases (c == b'.' || c == b)) [
      | inl a ↦ let (r, t, q) = (h text).0 (rw a at e) in (r, byte a t, q)
      | inr a ↦ let no : false ≡ true = rw a at e in cc
    ],
    λ (r, t, q). let (a, t') = byte_inv t in rw a ((h text).1 (r, t', q)),
  )

  star_test : (b : ℕ) → (b == c || c == b'.') ≡ accepts c b
  unfolding accepts
  star_test b = ground arith

  star_sound : (text : List ℕ) → matchstar c here text ≡ true → Fronts (star c ∷ is) ended text
  unfolding matchstar
  star_sound [] e = let (r, t, q) = (h []).0 e in (r, leave t, q)
  star_sound (b ∷ text) e = elim (Bool-cases (here (b ∷ text))) [
    | inl now ↦ let (r, t, q) = (h (b ∷ text)).0 now in (r, leave t, q)
    | inr later ↦ elim (Bool-cases (b == c || c == b'.')) [
      | inl a ↦
          let (r, t, q) = star_sound text (rw (later, a) at e) in
          (r, more (sym (star_test b) ∙ a) t, q)
      | inr a ↦ let no : false ≡ true = rw (later, a) at e in cc
    ]
  ]

  star_complete : (text : List ℕ) → Fronts (star c ∷ is) ended text → matchstar c here text ≡ true
  unfolding matchstar
  star_complete [] (r, t, q) = (h []).1 (r, star_at_end t, q)
  star_complete (b ∷ text) (r, t, q) = elim (star_inv t) [
    | inl now ↦ rw ((h (b ∷ text)).1 (r, now, q))
    | inr (a, later) ↦
        let test : (b == c || c == b'.') ≡ true = star_test b ∙ a in
        let rest = star_complete text (r, later, q) in
        elim (Bool-cases (here (b ∷ text))) [ inl e ↦ rw e | inr e ↦ rw (e, test) rest ]
  ]

  matchstar-Decides : Decides (matchstar c here) (star c ∷ is) ended
  matchstar-Decides text = (star_sound text, star_complete text)

done_inv : {s r : List ℕ} → Takes [] s r → s ≡ r
done_inv done = refl

at_end_only : (b : ℕ) (text r : List ℕ) → Takes [] (b ∷ text) r → r ≡ [] → false ≡ true
at_end_only b text r t e = let none_left = done_inv t ∙ e in cc

end-Decides : Decides at_end [] true
end-Decides [] = (λ e. ([], done, λ n. refl), λ _. refl)
end-Decides (b ∷ text) = (λ e. cc, λ (r, t, q). at_end_only b text r t (q refl))

nothing-Decides : Decides (matchhere []) [] false
unfolding matchhere
nothing-Decides text = (λ e. (text, done, λ n. cc), λ _. refl)

matchhere-Decides : (re : List ℕ) → Decides (matchhere re) (items_of re) (is_ended re)
unfolding matchhere items_of is_ended
matchhere-Decides [] text = nothing-Decides text
matchhere-Decides (c ∷ []) text = elim (Bool-cases (c == b'$')) [
  | inl e ↦ rw e (end-Decides text)
  | inr e ↦ rw e (matchone-Decides c (matchhere []) [] false nothing-Decides text)
]
matchhere-Decides (c ∷ d ∷ re) text = elim (Bool-cases (d == b'*')) [
  | inl e ↦
      let star =
        matchstar-Decides c (matchhere re) (items_of re) (is_ended re) (matchhere-Decides re)
          text in
      rw e star
  | inr e ↦
      let one =
        matchone-Decides c (matchhere (d ∷ re)) (items_of (d ∷ re)) (is_ended (d ∷ re))
          (matchhere-Decides (d ∷ re)) text in
      rw e one
]

-- What `match` is asked: whether the pattern matches at the front of the text, for one that starts in
-- `^`, and otherwise at the front of some suffix.
abbrev pub Asked : List ℕ → List ℕ → Type 0
Asked [] text = (pre : List ℕ) × (post : List ℕ) × (text ≡ pre ++ post) × Begins [] post
Asked (c ∷ re) text =
    if c == b'^'
    then Begins re text
    else ((pre : List ℕ) × (post : List ℕ) × (text ≡ pre ++ post) × Begins (c ∷ re) post)

Somewhere : List ℕ → List ℕ → Type 0
Somewhere re text = (pre : List ℕ) × (post : List ℕ) × (text ≡ pre ++ post) × Begins re post

from_sound : (re text : List ℕ) → match_from re text ≡ true → Somewhere re text
unfolding match_from Somewhere
from_sound re [] e = ([], [], refl, (matchhere-Decides re []).0 e)
from_sound re (b ∷ text) e = elim (Bool-cases (matchhere re (b ∷ text))) [
  | inl now ↦ ([], b ∷ text, refl, (matchhere-Decides re (b ∷ text)).0 now)
  | inr later ↦
      let (pre, post, split, begins) = from_sound re text (rw later at e) in
      (b ∷ pre, post, ap (λ l. b ∷ l) split, begins)
]

from_complete : (re pre post : List ℕ) → Begins re post → match_from re (pre ++ post) ≡ true
unfolding match_from
from_complete re [] [] begins = (matchhere-Decides re []).1 begins
from_complete re [] (b ∷ post) begins = rw ((matchhere-Decides re (b ∷ post)).1 begins)
from_complete re (b ∷ pre) post begins = let rest = from_complete re pre post begins in ground arith

-- `match` returns 1 exactly where the pattern matches: at the front of the text for a pattern that
-- starts in `^`, at the front of some suffix of it, the empty one included, for any other.
pub match_iff : (re text : List ℕ) → (match re text ≡ true) ↔ Asked re text
unfolding match Somewhere
match_iff [] text = (
  from_sound [] text,
  λ (pre, post, e, begins). ap (match_from []) e ∙ from_complete [] pre post begins,
)
match_iff (c ∷ re) text = elim (Bool-cases (c == b'^')) [
  | inl e ↦ rw e (matchhere-Decides re text)
  | inr e ↦ rw e (
    from_sound (c ∷ re) text,
    λ (pre, post, split, begins).
        ap (match_from (c ∷ re)) split ∙ from_complete (c ∷ re) pre post begins,
  )
]
