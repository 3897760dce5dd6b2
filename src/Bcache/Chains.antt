-- ===== src/Bcache/Chains.antt =====
-- The list of the buffers that the links run through, from the head and back to it.
pub mod Search
use os_ca.Common.{
  ℕ, zero, suc, ◌+◌, ◌<◌, ◌≡◌, ◌≢◌, refl, inl, inr, ◌∙◌, sym, ap, true, false, Bool, List, [], ◌∷◌,
  ◌++◌, Cells, put, put_self, put_ne, arith, subst,
}
use mathlib.Core.List.{reverse, reverse_aux}

-- From `a` the links lead through the list to `z`, and back.
pub data Chain (next prev : Cells) (z : ℕ) : ℕ → List ℕ → Type 0 where
  last : {a : ℕ} → next a ≡ z → prev z ≡ a → Chain next prev z a []
  link :
      {a x : ℕ} {xs : List ℕ}
      → next a ≡ x
      → prev x ≡ a
      → Chain next prev z x xs
      → Chain next prev z a (x ∷ xs)

abbrev pub Avoids : ℕ → List ℕ → Type 0
Avoids y [] = Unit {0}
Avoids y (x ∷ xs) = (y ≢ x) × Avoids y xs

abbrev pub Distinct : List ℕ → Type 0
Distinct [] = Unit {0}
Distinct (x ∷ xs) = Avoids x xs × Distinct xs

pub Avoids-append : (y : ℕ) (l r : List ℕ) → Avoids y l → Avoids y r → Avoids y (l ++ r)
Avoids-append y [] r tt ar = ar
Avoids-append y (x ∷ l) r (ne, al) ar = (ne, Avoids-append y l r al ar)

pub Avoids-parts : (y : ℕ) (l r : List ℕ) → Avoids y (l ++ r) → Avoids y l × Avoids y r
Avoids-parts y [] r h = (tt, h)
Avoids-parts y (x ∷ l) r (ne, h) = let (al, ar) = Avoids-parts y l r h in ((ne, al), ar)

pub Avoids-drop :
    (y : ℕ) (l : List ℕ) (b : ℕ) (r : List ℕ) → Avoids y (l ++ (b ∷ r)) → Avoids y (l ++ r)
Avoids-drop y l b r h = let (al, (ne, ar)) = Avoids-parts y l (b ∷ r) h in Avoids-append y l r al ar

-- A list without repetitions stays one when an element moves to the front.
pub Distinct-move :
    (l : List ℕ) (b : ℕ) (r : List ℕ) → Distinct (l ++ (b ∷ r)) → Distinct (b ∷ (l ++ r))
Distinct-move [] b r h = h
Distinct-move (x ∷ l) b r (ax, d) =
    let (ab, d') = Distinct-move l b r d in
    let (al, (ne, ar)) = Avoids-parts x l (b ∷ r) ax in
    (((λ e. ne (sym e)), ab), (Avoids-append x l r al ar, d'))

Chain-next :
    (next prev : Cells) (z a x v : ℕ) (xs : List ℕ)
    → Avoids x (a ∷ xs)
    → Chain next prev z a xs
    → Chain (put next x v) prev z a xs
Chain-next next prev z a x v [] (ne, av) (last n p) =
    last (put_ne next x v a (λ e. ne (sym e)) ∙ n) p
Chain-next next prev z a x v (y ∷ xs) (ne, av) (link n p c) =
    link (put_ne next x v a (λ e. ne (sym e)) ∙ n) p (Chain-next next prev z y x v xs av c)

Chain-prev :
    (next prev : Cells) (z a x v : ℕ) (xs : List ℕ)
    → x ≢ z
    → Avoids x xs
    → Chain next prev z a xs
    → Chain next (put prev x v) z a xs
Chain-prev next prev z a x v [] nz av (last n p) = last n (put_ne prev x v z (λ e. nz (sym e)) ∙ p)
Chain-prev next prev z a x v (y ∷ xs) nz (ne, av) (link n p c) =
    link n (put_ne prev x v y (λ e. ne (sym e)) ∙ p) (Chain-prev next prev z y x v xs nz av c)

-- The insertion of `b` behind the head.
pub push-Chain :
    (next prev : Cells) (h b : ℕ) (xs : List ℕ)
    → Avoids b (h ∷ xs)
    → Distinct (h ∷ xs)
    → Chain next prev h h xs
    → Chain (put (put next b (next h)) h b) (put (put prev b h) (next h) b) h h (b ∷ xs)
push-Chain next prev h b [] (bh, tt) d (last n p) =
    link (put_self (put next b (next h)) h b) (ground arith) (last (ground arith) (ground arith))
push-Chain next prev h b (y ∷ ys) (bh, (by, bys)) ((hy, hys), (yys, d)) (link n p c) =
    let c1 = Chain-next next prev h y b (next h) ys (by, bys) c in
    let c2 = Chain-next (put next b (next h)) prev h y h b ys (hy, hys) c1 in
    let c3 = Chain-prev (put (put next b (next h)) h b) prev h y b h ys bh bys c2 in
    let c4 : Chain (put (put next b (next h)) h b) (put (put prev b h) (next h) b) h y ys =
      Chain-prev (put (put next b (next h)) h b) (put prev b h) h y (next h) b ys
        (λ e. hy (sym e ∙ n)) (subst (λ w. Avoids w ys) (sym n) yys) c3 in
    link (put_self (put next b (next h)) h b) (ground arith) (link (ground arith) (ground arith) c4)

-- The links of an element of the list lead to its neighbours.
prev-ne :
    (next prev : Cells) (z a y b : ℕ) (l r : List ℕ)
    → Avoids y (a ∷ l)
    → Chain next prev z a (l ++ (b ∷ r))
    → prev b ≢ y
prev-ne next prev z a y b [] r (ne, av) (link n p c) = λ e. ne (sym e ∙ p)
prev-ne next prev z a y b (x ∷ l) r (ne, av) (link n p c) = prev-ne next prev z x y b l r av c

next-ne :
    (next prev : Cells) (z a y b : ℕ) (l r : List ℕ)
    → y ≢ z
    → Avoids y r
    → Chain next prev z a (l ++ (b ∷ r))
    → next b ≢ y
next-ne next prev z a y b [] [] nz av (link n p (last n' p')) = λ e. nz (sym e ∙ n')
next-ne next prev z a y b [] (x ∷ r) nz (ne, av) (link n p (link n' p' c)) = λ e. ne (sym e ∙ n')
next-ne next prev z a y b (x ∷ l) r nz av (link n p c) = next-ne next prev z x y b l r nz av c

-- The removal of `b`.
pub unlink-Chain :
    (next prev : Cells) (z a b : ℕ) (l r : List ℕ)
    → Avoids z (l ++ (b ∷ r))
    → Distinct (a ∷ (l ++ (b ∷ r)))
    → Chain next prev z a (l ++ (b ∷ r))
    → Chain (put next (prev b) (next b)) (put prev (next b) (prev b)) z a (l ++ r)
unlink-Chain next prev z a b [] [] av d (link n p (last n' p')) = last (ground arith) (ground arith)
unlink-Chain next prev z a b [] (y ∷ ys) (zb, (zy, zys)) ((ab, (ay, ays)), (d, (yys, d')))
      (link n p (link n' p' c)) =
    let c1 =
      Chain-next next prev z y (prev b) (next b) ys
        (subst (λ w. Avoids w (y ∷ ys)) (sym p) (ay, ays)) c in
    let c2 =
      Chain-prev (put next (prev b) (next b)) prev z y (next b) (prev b) ys (λ e. zy (sym e ∙ n'))
        (subst (λ w. Avoids w ys) (sym n') yys) c1 in
    link (ground arith) (ground arith) c2
unlink-Chain next prev z a b (x ∷ l) r (zx, av) ((ax, al), (dx, d)) (link n p c) =
    let rest = unlink-Chain next prev z x b l r av (dx, d) c in
    let before : prev b ≢ a =
      prev-ne next prev z x a b l r (ax, (Avoids-parts a l (b ∷ r) al).0) c in
    let behind : next b ≢ x =
      next-ne next prev z x x b l r (λ e. zx (sym e)) (Avoids-parts x l (b ∷ r) dx).1.1 c in
    link (put_ne next (prev b) (next b) a (λ e. before (sym e)) ∙ n)
      (put_ne prev (next b) (prev b) x (λ e. behind (sym e)) ∙ p) rest
