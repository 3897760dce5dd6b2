-- ===== src/Log/Reserve.antt =====
-- The log's space: what `begin_op` lets in always fits.
use os_ca.Common.{
  ℕ, zero, suc, ◌+◌, ◌≤◌, ◌<◌, ◌≡◌, ◌≢◌, ◌⊎◌, inl, inr, refl, true, false, Cells, put, put_self,
  put_ne, ◌==◌, ==_iff, Bool-cases, if_cases, some, arith, ap, sym, subst, ◌∙◌,
}
use os_ca.Log.{Log}
use os_ca.Log.Ops.{find_slot, absorb, log_write}

-- `find_slot` stops at an entry that is `b`, or behind the last entry, with no `b` on the way.
record Found (n i : ℕ) (block : Cells) (b j : ℕ) : Type 0 where
  low : i ≤ j
  high : j ≤ i + n
  first : (k : ℕ) → i ≤ k → k < j → block k ≢ b
  hit : (j ≡ i + n) ⊎ (block j ≡ b)

find_slot-Found : (n i : ℕ) (block : Cells) (b : ℕ) → Found n i block b (find_slot n i block b)
unfolding find_slot
find_slot-Found zero i block b = record {
  low = omega arith;
  high = omega arith;
  first = λ k p q. absurd (omega arith);
  hit = inl (omega arith);
}
find_slot-Found (suc n) i block b =
    let rest = find_slot-Found n (i + 1) block b in
    if_cases (Found (suc n) i block b) (block i == b) i (find_slot n (i + 1) block b)
      (λ here. record {
        low = omega arith;
        high = omega arith;
        first = λ k p q. absurd (omega arith);
        hit = inr ((==_iff (block i) b).0 here);
      })
      (λ away. record {
        low = omega (arith, rest.low);
        high = omega (arith, rest.high);
        first = λ k p q. elim (Bool-cases (k == i)) [
          | inl same ↦ λ e. absurd (not_here k same e away)
          | inr later ↦ rest.first k (ground arith) q
        ];
        hit = elim rest.hit [ inl end ↦ inl (omega arith) | inr found ↦ inr found ];
      })
  where
    not_here : (k : ℕ) → (k == i) ≡ true → block k ≡ b → (block i == b) ≡ false → ⊥
    not_here k same e away =
        let k_is_i : k ≡ i = (==_iff k i).0 same in
        let here : (block i == b) ≡ true = (==_iff (block i) b).1 (ap block (sym k_is_i) ∙ e) in cc

-- The log names no block twice.
abbrev pub IsDistinct : Log → Type 0
IsDistinct l = (i j : ℕ) → i < j → j < l.n → l.block i ≢ l.block j

-- A `log_write` names its block, keeps what is named, names no block twice, and takes a new entry
-- exactly where the block was not named.
pub record Absorbed (b : ℕ) (l l' : Log) : Type 0 where
  pub names : (j : ℕ) × (j < l'.n) × (l'.block j ≡ b)
  pub keeps : (j : ℕ) → j < l.n → l'.block j ≡ l.block j
  pub distinct : IsDistinct l'
  pub grows :
      ((l'.n ≡ l.n) × ((j : ℕ) × (j < l.n) × (l.block j ≡ b)))
      ⊎ ((l'.n ≡ l.n + 1) × ((j : ℕ) → j < l.n → l.block j ≢ b))

put_same : (block : Cells) (i b j : ℕ) → block i ≡ b → put block i b j ≡ block j
put_same block i b j e = elim (Bool-cases (j == i)) [
  | inl same ↦ rw same (sym e ∙ ap block (sym ((==_iff j i).0 same)))
  | inr away ↦ rw away
]

module _ (b : ℕ) (l : Log) (distinct : IsDistinct l) where
  abbrev slot : ℕ
  slot = find_slot l.n 0 l.block b

  abbrev block' : Cells
  block' = put l.block slot b

  -- the block is named already
  absorb-old : (slot == l.n) ≡ false → Absorbed b l (record l { block = block'; n = l.n })
  absorb-old ne =
      let found = find_slot-Found l.n 0 l.block b in
      let inside : slot < l.n = below (found.high) ne in
      let here : l.block slot ≡ b = elim found.hit [ inl end ↦ absurd (omega arith) | inr e ↦ e ] in
      let same = λ (j : ℕ). put_same l.block slot b j here in
      record {
        names = (slot, inside, put_self l.block slot b);
        keeps = λ j p. same j;
        distinct = λ i j p q e. distinct i j p q (sym (same i) ∙ e ∙ same j);
        grows = inl (refl, (slot, inside, here));
      }
    where
      below : {i : ℕ} → i ≤ 0 + l.n → (i == l.n) ≡ false → i < l.n
      below p q = ground arith

  -- the block takes a new entry
  absorb-new : slot ≡ l.n → Absorbed b l (record l { block = block'; n = l.n + 1 })
  absorb-new end =
      let found = find_slot-Found l.n 0 l.block b in
      let kept = λ (j : ℕ) (p : j < l.n). put_ne l.block slot b j (omega arith) in
      let absent = λ (j : ℕ) (p : j < l.n). found.first j (omega arith) (omega arith) in
      record {
        names = (slot, omega arith, put_self l.block slot b);
        keeps = kept;
        distinct = λ i j p q e. elim (Bool-cases (j == slot)) [
          | inl last ↦
              absent i (new_le j last p) (sym (kept i (new_le j last p)) ∙ e ∙ rw last refl)
          | inr old ↦
              distinct i j p (old_lt j old q)
                (sym (kept i (omega (arith, old_lt j old q))) ∙ e ∙ kept j (old_lt j old q))
        ];
        grows = inr (refl, absent);
      }
    where
      new_le : (j : ℕ) {i : ℕ} → (j == slot) ≡ true → i < j → i < l.n
      new_le j last p = omega (arith, (==_iff j slot).0 last)

      old_lt : (j : ℕ) → (j == slot) ≡ false → j < l.n + 1 → j < l.n
      old_lt j old q = ground arith

  absorb-Absorbed : Absorbed b l (absorb b l)
  unfolding absorb
  absorb-Absorbed = elim (Bool-cases (slot == l.n)) [
    | inl end ↦ rw end (absorb-new ((==_iff slot l.n).0 end))
    | inr ne ↦ rw ne (absorb-old ne)
  ]

-- A `log_write` that does not panic names its block, keeps the entries that are there, names no
-- block twice if none was named twice, and takes a new entry exactly where the block was not named.
pub log_write-Absorbed :
    (b : ℕ) (l l' : Log) → IsDistinct l → log_write b l ≡ some l' → Absorbed b l l'
unfolding log_write
log_write-Absorbed b l l' distinct h =
    let result : absorb b l ≡ l' = ground arith in
    subst (Absorbed b l) result (absorb-Absorbed b l distinct)
