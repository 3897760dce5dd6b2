-- ===== src/Log/Space.antt =====
-- The log's space: what `begin_op` lets in always fits.
use os_ca.Common.{
  ℕ, suc, ◌+◌, ◌-◌, ◌*◌, ◌≤◌, ◌<◌, ◌≡◌, refl, true, false, Bool-cases, inl, inr, ◌==◌, some, sub32,
  List, [], ◌∷◌, ◌++◌, length, arith, subst, ◌∙◌,
}
use os_ca.Log.{Device, Log, max_op_blocks, log_size, commit}
use os_ca.Log.Ops.{begin_op, leave_op, finish_op, end_op, absorb, log_write}

-- The log with its running operations, each by the number of the entries that it has taken.
pub record System : Type 0 where
  pub log : Log
  pub used : List ℕ

-- What may happen: an operation begins, one of them writes a block while it has taken fewer entries
-- than MAXOPBLOCKS, or one of them ends.
pub data Step (s : System) : System → Type 0 where
  begin : {l : Log} → begin_op s.log ≡ some l → Step s (record { log = l; used = 0 ∷ s.used })
  write :
      (b u : ℕ) (xs ys : List ℕ) {l : Log}
      → s.used ≡ xs ++ (u ∷ ys)
      → u < max_op_blocks
      → log_write b s.log ≡ some l
      → Step s (record { log = l; used = xs ++ ((u + (l.n - s.log.n)) ∷ ys) })
  finish :
      (u : ℕ) (xs ys : List ℕ) (d d' : Device) {l : Log}
      → s.used ≡ xs ++ (u ∷ ys)
      → end_op s.log d ≡ some (l, d')
      → Step s (record { log = l; used = xs ++ ys })

pub data Reach (s : System) : System → Type 0 where
  here : Reach s s
  next : {t u : System} → Reach s t → Step t u → Reach s u

-- The entries that the running operations may still take.
unfoldable pub reserved : List ℕ → ℕ
reserved [] = 0
reserved (u ∷ us) = max_op_blocks - u + reserved us

reserved-append :
    (xs ys : List ℕ) (u : ℕ) → reserved (xs ++ (u ∷ ys)) ≡ max_op_blocks - u + reserved (xs ++ ys)
unfolding reserved
reserved-append [] ys u = refl
reserved-append (x ∷ xs) ys u = omega (arith, reserved-append xs ys u)

length-insert : (xs ys : List ℕ) (u : ℕ) → length (xs ++ (u ∷ ys)) ≡ suc (length (xs ++ ys))
length-insert [] ys u = refl
length-insert (x ∷ xs) ys u = omega (arith, length-insert xs ys u)

reserved-le : (us : List ℕ) → reserved us ≤ length us * max_op_blocks
unfolding reserved
reserved-le [] = omega arith
reserved-le (u ∷ us) = omega (arith, reserved-le us)

-- Every running operation is counted, none commits meanwhile, and what they may still take fits.
pub record Fits (s : System) : Type 0 where
  pub counted : s.log.outstanding ≡ length s.used
  pub few : s.log.outstanding ≤ 3
  pub idle : s.log.committing ≡ false
  pub space : s.log.n + reserved s.used ≤ log_size

n-absorb :
    (b : ℕ) (l : Log)
    → (l.n ≤ (absorb b l).n)
      × ((absorb b l).n ≤ l.n + 1)
      × ((absorb b l).outstanding ≡ l.outstanding)
      × ((absorb b l).committing ≡ l.committing)
unfolding absorb
n-absorb b l = ground arith

n-commit :
    (l : Log) (d : Device) → ((commit l d).0.n ≤ l.n) × ((commit l d).0.outstanding ≡ l.outstanding)
unfolding commit
n-commit l d = ground arith

begin_op-Fits :
    (l l' : Log) (used : List ℕ)
    → Fits (record { log = l; used = used })
    → begin_op l ≡ some l'
    → Fits (record { log = l'; used = 0 ∷ used })
unfolding begin_op reserved
begin_op-Fits l l' used f h = ground (arith, reserved-le used)

log_write-Fits :
    (b u : ℕ) (xs ys : List ℕ) (l l' : Log)
    → Fits (record { log = l; used = xs ++ (u ∷ ys) })
    → u < max_op_blocks
    → log_write b l ≡ some l'
    → Fits (record { log = l'; used = xs ++ ((u + (l'.n - l.n)) ∷ ys) })
unfolding log_write
log_write-Fits b u xs ys l l' f p h =
    let result : absorb b l ≡ l' = ground arith in
    let (at_least, at_most, same, idle) = n-absorb b l in
    let taken = (absorb b l).n - l.n in
    subst (λ k. Fits (record { log = k; used = xs ++ ((u + (k.n - l.n)) ∷ ys) })) result
      (record {
        counted = omega (arith, f.counted, length-insert xs ys u, length-insert xs ys (u + taken));
        few = omega arith;
        idle = idle ∙ f.idle;
        space = omega (arith, f.space, reserved-append xs ys u, reserved-append xs ys (u + taken));
      })

-- The state behind `end_op`, by the two results of its first critical section.
left-Fits :
    (u : ℕ) (xs ys : List ℕ) (l : Log)
    → Fits (record { log = l; used = xs ++ (u ∷ ys) })
    → (k : Log) → k.n ≤ l.n
    → k.outstanding ≡ sub32 l.outstanding 1
    → k.committing ≡ false
    → Fits (record { log = k; used = xs ++ ys })
left-Fits u xs ys l f k le same idle = record {
  counted = omega (arith, f.counted, length-insert xs ys u);
  few = omega (arith, f.few, f.counted, length-insert xs ys u);
  idle = idle;
  space = omega (arith, f.space, reserved-append xs ys u);
}

end_op-Fits :
    (u : ℕ) (xs ys : List ℕ) (d d' : Device) (l l' : Log)
    → Fits (record { log = l; used = xs ++ (u ∷ ys) })
    → end_op l d ≡ some (l', d')
    → Fits (record { log = l'; used = xs ++ ys })
unfolding end_op leave_op finish_op
end_op-Fits u xs ys d d' l l' f h =
    let left = sub32 l.outstanding 1 in
    let last : Log = record l { outstanding = left; committing = true } in
    elim (Bool-cases (left == 0)) [
      | inl none_left ↦
          let kept = n-commit last d in
          let result : record (commit last d).0 { committing = false } ≡ l' =
            committed none_left h in
          subst (λ k. Fits (record { log = k; used = xs ++ ys })) result
            (left-Fits u xs ys l f (record (commit last d).0 { committing = false }) kept.0 kept.1
              refl)
      | inr more ↦
          let result : record l { outstanding = left } ≡ l' = ground (arith, f.idle) in
          subst (λ k. Fits (record { log = k; used = xs ++ ys })) result
            (left-Fits u xs ys l f (record l { outstanding = left }) (omega arith) refl f.idle)
    ]
  where
    committed :
        (sub32 l.outstanding 1 == 0) ≡ true
        → end_op l d ≡ some (l', d')
        → record (commit
            (record l { outstanding = sub32 l.outstanding 1; committing = true })
            d).0 { committing = false }
          ≡ l'
    committed none_left h = ground (arith, f.idle)

Step-Fits : {s t : System} → Step s t → Fits s → Fits t
Step-Fits {s} (begin {l} h) f = begin_op-Fits s.log l s.used f h
Step-Fits {s} (write b u xs ys {l} e p h) f =
    log_write-Fits b u xs ys s.log l (subst (λ us. Fits (record { log = s.log; used = us })) e f) p
      h
Step-Fits {s} (finish u xs ys d d' {l} e h) f =
    end_op-Fits u xs ys d d' s.log l (subst (λ us. Fits (record { log = s.log; used = us })) e f) h

-- In every state that begins, writes and ends lead to, from one that fits, what the running
-- operations may still take fits the log, the count of them is right, and none more than three run.
pub Reach-Fits : {s t : System} → Fits s → Reach s t → Fits t
Reach-Fits f here = f
Reach-Fits f (next r st) = Step-Fits st (Reach-Fits f r)

-- In every state that begins, writes and ends lead to, from one that fits, a running operation that
-- has taken fewer than MAXOPBLOCKS entries meets no panic of `log_write`, in a log of more than
-- LOGSIZE blocks.
pub Reach-log_write :
    {s t : System} (b u : ℕ) (xs ys : List ℕ)
    → Fits s
    → log_size < t.log.size
    → Reach s t
    → t.used ≡ xs ++ (u ∷ ys)
    → u < max_op_blocks
    → log_write b t.log ≡ some (absorb b t.log)
unfolding log_write
Reach-log_write {t} b u xs ys f big r e p =
    let fits = subst (λ us. Fits (record { log = t.log; used = us })) e (Reach-Fits f r) in
    let counted = fits.counted in
    let space = fits.space in
    let some_op : 0 < t.log.outstanding = omega (arith, counted, length-insert xs ys u) in
    let free : t.log.n < log_size = omega (arith, space, reserved-append xs ys u) in ground arith
