-- ===== src/Bcache/Order.antt =====
-- The list of the buffers from `binit` on, and through `brelse`.
use os_ca.Common.{
  ℕ, zero, suc, ◌+◌, ◌<◌, ◌≤◌, ◌≡◌, ◌≢◌, refl, sym, Bool-cases, inl, inr, List, [], ◌∷◌, ◌++◌,
  length, length-append, put, ◌==◌, arith, subst,
}
use os_ca.Bcache.{n_buf, Buf, Bcache, set_buf, push_front, unlink, binit, binit_from}
use os_ca.Bcache.Chains.{
  Chain, last, Avoids, Distinct, Avoids-drop, Distinct-move, push-Chain, unlink-Chain,
}

-- The list holds `b`.
pub data Holds (b : ℕ) : List ℕ → Type 0 where
  in_front : {x : ℕ} {xs : List ℕ} → b ≡ x → Holds b (x ∷ xs)
  behind : {x : ℕ} {xs : List ℕ} → Holds b xs → Holds b (x ∷ xs)

-- The links run through the list, which has each buffer once.
pub record IsOrdered (s : Bcache) (xs : List ℕ) : Type 0 where
  pub chain : Chain s.next s.prev n_buf n_buf xs
  pub distinct : Distinct (n_buf ∷ xs)
  pub size : length xs ≡ n_buf
  pub has_all : (b : ℕ) → b < n_buf → Holds b xs

-- Where an element stands in a list.
pub data Stands (b : ℕ) : List ℕ → Type 0 where
  between : (l r : List ℕ) → Stands b (l ++ (b ∷ r))

Stands-cons : (b x : ℕ) {xs : List ℕ} → Stands b xs → Stands b (x ∷ xs)
Stands-cons b x (between l r) = between (x ∷ l) r

pub Holds-Stands : (b : ℕ) (xs : List ℕ) → Holds b xs → Stands b xs
Holds-Stands b [] h = elim h [ ]
Holds-Stands b (x ∷ xs) (in_front e) = subst (λ y. Stands b (y ∷ xs)) e (between [] xs)
Holds-Stands b (x ∷ xs) (behind m) = Stands-cons b x (Holds-Stands b xs m)

moved : (c b : ℕ) (l r : List ℕ) → Holds c (l ++ (b ∷ r)) → Holds c (b ∷ (l ++ r))
moved c b [] r m = m
moved c b (x ∷ l) r (in_front e) = behind (in_front e)
moved c b (x ∷ l) r (behind m) = further (moved c b l r m)
  where
    further : Holds c (b ∷ (l ++ r)) → Holds c (b ∷ (x ∷ (l ++ r)))
    further (in_front e) = in_front e
    further (behind k) = behind (behind k)

-- The move of `brelse` to the front of the list.
pub to_front-IsOrdered :
    (s : Bcache) (b : ℕ) (l r : List ℕ)
    → IsOrdered s (l ++ (b ∷ r))
    → IsOrdered (push_front b (unlink b s)) (b ∷ (l ++ r))
unfolding push_front unlink
to_front-IsOrdered s b l r h =
    let (av, d) = h.distinct in
    let (ab, d') = Distinct-move l b r d in
    let out = unlink-Chain s.next s.prev n_buf n_buf b l r av h.distinct h.chain in
    let ne : b ≢ n_buf = outside l av in
    record {
      chain =
          push-Chain (put s.next (s.prev b) (s.next b)) (put s.prev (s.next b) (s.prev b)) n_buf b
            (l ++ r) (ne, ab) (Avoids-drop n_buf l b r av, d') out;
      distinct = (((λ e. ne (sym e)), Avoids-drop n_buf l b r av), (ab, d'));
      size = omega (arith, h.size, length-append l (b ∷ r), length-append l r);
      has_all = λ c lt. moved c b l r (h.has_all c lt);
    }
  where
    outside : (l : List ℕ) → Avoids n_buf (l ++ (b ∷ r)) → b ≢ n_buf
    outside [] (ne, av) = λ e. ne (sym e)
    outside (x ∷ l) (ne, av) = outside l av

-- A change of the buffers leaves the links.
pub set_buf-IsOrdered :
    (s : Bcache) (b : ℕ) (v : Buf) (xs : List ℕ) → IsOrdered s xs → IsOrdered (set_buf b v s) xs
unfolding set_buf
set_buf-IsOrdered s b v xs h = record {
  chain = h.chain;
  distinct = h.distinct;
  size = h.size;
  has_all = h.has_all;
}

-- The numbers below `n`, from the greatest on.
pub descending : ℕ → List ℕ
descending zero = []
descending (suc n) = n ∷ descending n

descending-Avoids : (n c : ℕ) → n ≤ c → Avoids c (descending n)
unfolding descending
descending-Avoids zero c le = tt
descending-Avoids (suc n) c le = ((λ e. omega (arith, e)), descending-Avoids n c (omega arith))

descending-Distinct : (n : ℕ) → Distinct (descending n)
unfolding descending
descending-Distinct zero = tt
descending-Distinct (suc n) = (descending-Avoids n n (omega arith), descending-Distinct n)

length-descending : (n : ℕ) → length (descending n) ≡ n
unfolding descending
length-descending zero = refl
length-descending (suc n) = omega (arith, length-descending n)

descending-has_all : (n c : ℕ) → c < n → Holds c (descending n)
unfolding descending
descending-has_all zero c lt = absurd (omega arith)
descending-has_all (suc n) c lt = elim (Bool-cases (c == n)) [
  | inl e ↦ in_front (ground arith)
  | inr e ↦ let ne : c ≢ n = ground arith in behind (descending-has_all n c (omega (arith, ne)))
]

-- The rounds of `binit` push the buffers in front, one by one.
binit_from-Chain :
    (n b : ℕ) (s : Bcache)
    → n + b ≡ n_buf
    → Chain s.next s.prev n_buf n_buf (descending b)
    → Chain (binit_from n b s).next (binit_from n b s).prev n_buf n_buf (descending n_buf)
unfolding binit_from push_front set_buf descending
binit_from-Chain zero b s e c =
    let all : b ≡ n_buf = omega (arith, e) in
    subst (λ k. Chain s.next s.prev n_buf n_buf (descending k)) all c
binit_from-Chain (suc n) b s e c = binit_from-Chain n (suc b) _ (omega arith) (
    push-Chain s.next s.prev n_buf b (descending b)
      ((λ q. omega (arith, q)), descending-Avoids b b (omega arith))
      (descending-Avoids b n_buf (omega arith), descending-Distinct b) c)

-- `binit` puts all buffers into the list, the last one in front.
pub binit-IsOrdered : (s : Bcache) → IsOrdered (binit s) (descending n_buf)
unfolding binit descending
binit-IsOrdered s = record {
  chain = binit_from-Chain n_buf 0 _ refl (last (ground arith) (ground arith));
  distinct = (descending-Avoids n_buf n_buf (omega arith), descending-Distinct n_buf);
  size = length-descending n_buf;
  has_all = λ b lt. descending-has_all n_buf b lt;
}
