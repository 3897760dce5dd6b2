-- ===== src/Proc/Exit.antt =====
-- `exit`: the parent hears of it, and the children go to `init`, which hears of the zombies.
use os_ca.Common.{
  ℕ, zero, suc, ◌+◌, ◌<◌, ◌≤◌, ◌≡◌, ◌≢◌, true, false, ◌==◌, if_cases, arith, ◌⊎◌, inl, inr, ◌∙◌,
  sym, some, subst,
}
use os_ca.Proc.{Slots, Ptable, nproc, zombie, proc_addr, put_proc, wake, wakeup1, hand_over, exit}
use mathlib.Core.Option.{some-injective, none-ne-some}
use os_ca.Proc.Zombies.{NotInWait, NoneOverlooked, wakeup1-Calm, Calm-NoneOverlooked}

-- While `cur` is in `exit`: the other parents of zombies, and that of `cur`, do not sleep in `wait`.
record Leaving (cur : ℕ) (t : Slots) : Type 0 where
  heard :
      (i j : ℕ)
      → ((t i).state ≡ zombie) ⊎ (i ≡ cur)
      → (t i).parent ≡ proc_addr j
      → j ≢ cur
      → NotInWait t j
  other : (t cur).parent ≢ proc_addr cur
  beyond : (i : ℕ) → nproc ≤ i → (t i).state ≢ zombie

wakeup1-Leaving :
    (cur : ℕ) (t : Slots)
    → NoneOverlooked t
    → (t cur).parent ≢ proc_addr cur
    → Leaving cur (wakeup1 (t cur).parent t)
unfolding wakeup1 wake
wakeup1-Leaving cur t h ne =
    let calm = Calm-NoneOverlooked (wakeup1-Calm (t cur).parent t) h in
    record {
      heard = λ i j z p _. elim z [ inl z' ↦ calm.heard i j z' p | inr same ↦ λ s e. ground arith ];
      other = ground arith;
      beyond = calm.beyond;
    }

module _ (i cur init : ℕ) (t : Slots) (h : Leaving cur t) (child : (t i).parent ≡ proc_addr cur)
    (diff : init ≢ cur) where
  abbrev moved : Slots
  moved = put_proc i (record (t i) { parent = proc_addr init }) t

  moved-Leaving : (t i).state ≢ zombie → Leaving cur moved
  unfolding put_proc
  moved-Leaving live =
      let other = h.other in
      let not_cur : i ≢ cur = λ e. ground arith in
      record {
        heard = λ k j z p ne s e.
            h.heard k j (elim z [ inl z' ↦ inl (ground arith) | inr q ↦ inr q ]) (ground arith) ne
              (ground arith) (ground arith);
        other = ground arith;
        beyond = λ k p z. h.beyond k p (ground arith);
      }

  woken-Leaving : (t i).state ≡ zombie → Leaving cur (wakeup1 (proc_addr init) moved)
  unfolding put_proc wakeup1 wake
  woken-Leaving dead =
      let other = h.other in
      let not_cur : i ≢ cur = λ e. ground arith in
      record {
        heard = λ k j z p ne s e.
            let not_init : j ≢ init = λ q. ground arith in
            let before : (t k).state ≡ zombie ⊎ k ≡ cur = elim z [
              | inl z' ↦ inl (ground arith)
              | inr q ↦ inr q
            ] in
            h.heard k j before (ground arith) ne (ground arith) (ground arith);
        other = ground arith;
        beyond = λ k p z. h.beyond k p (ground arith);
      }

hand_over-Leaving :
    (n i cur init : ℕ) (t : Slots)
    → Leaving cur t
    → init ≢ cur
    → Leaving cur (hand_over n i cur init t)
unfolding hand_over
hand_over-Leaving zero i cur init t h diff = h
hand_over-Leaving (suc n) i cur init t h diff =
    hand_over-Leaving n (i + 1) cur init _
      (if_cases (Leaving cur) ((t i).parent == proc_addr cur) _ _
        (λ c.
          let child : (t i).parent ≡ proc_addr cur = ground arith in
          if_cases (Leaving cur) ((t i).state == zombie) _ _
            (λ z. woken-Leaving i cur init t h child diff (ground arith))
            (λ z. moved-Leaving i cur init t h child diff (λ e. ground arith)))
        (λ c. h))
      diff

-- After the loop no slot that it has passed has `cur` as its parent.
hand_over-orphans :
    (n i cur init : ℕ) (t : Slots)
    → init ≢ cur
    → (k : ℕ) → k < i + n
    → i ≤ k ⊎ (t k).parent ≢ proc_addr cur
    → (hand_over n i cur init t k).parent ≢ proc_addr cur
unfolding hand_over put_proc wakeup1 wake
hand_over-orphans zero i cur init t diff k lt h = elim h [ inl q ↦ omega (arith, q) | inr q ↦ q ]
hand_over-orphans (suc n) i cur init t diff k lt h =
    hand_over-orphans n (i + 1) cur init _ diff k (omega arith) (
      if_cases (λ (q : Slots). i + 1 ≤ k ⊎ (q k).parent ≢ proc_addr cur)
        ((t i).parent == proc_addr cur) _ _
        (λ c.
          let child : (t i).parent ≡ proc_addr cur = ground arith in
          if_cases (λ (q : Slots). i + 1 ≤ k ⊎ (q k).parent ≢ proc_addr cur) ((t i).state == zombie)
            _ _ (λ z. ground arith) (λ z. ground arith))
        (λ c. ground arith))

module _ (cur : ℕ) (t : Ptable) where
  abbrev handed : Slots
  handed = hand_over nproc 0 cur t.initproc (wakeup1 (t.proc cur).parent t.proc)

  abbrev after : Ptable
  after = record t { proc = put_proc cur (record (handed cur) { state = zombie }) handed }

  module _ (diff : cur ≢ t.initproc) where
    exit-after : exit cur t ≡ some after
    unfolding exit
    exit-after = let no : (cur == t.initproc) ≡ false = ground arith in rw no

    after-orphans : (k : ℕ) → k < nproc → (after.proc k).parent ≢ proc_addr cur
    unfolding put_proc
    after-orphans k lt =
        let apart : t.initproc ≢ cur = λ e. diff (sym e) in
        let gone =
          hand_over-orphans nproc 0 cur t.initproc (wakeup1 (t.proc cur).parent t.proc) apart k lt
            (inl (omega arith)) in
        λ e. gone (ground arith)

    after-NoneOverlooked :
        NoneOverlooked t.proc
        → cur < nproc
        → (t.proc cur).parent ≢ proc_addr cur
        → NoneOverlooked after.proc
    unfolding put_proc
    after-NoneOverlooked h inside other =
        let apart : t.initproc ≢ cur = λ e. diff (sym e) in
        let l =
          hand_over-Leaving nproc 0 cur t.initproc _ (wakeup1-Leaving cur t.proc h other) apart in
        record {
          heard = λ i j z p s e.
              let ne : j ≢ cur = λ q. ground arith in
              let before : (handed i).state ≡ zombie ⊎ i ≡ cur = ground arith in
              l.heard i j before (ground arith) ne (ground arith) (ground arith);
          beyond = λ i p z. l.beyond i p (ground arith);
        }

-- `exit` of any process but `init` succeeds: the process is a zombie and no slot of the table has it
-- as its parent.
pub exit-orphans :
    (cur : ℕ) (t : Ptable)
    → cur ≢ t.initproc
    → (t' : Ptable) × (exit cur t ≡ some t')
      × ((t'.proc cur).state ≡ zombie)
      × ((k : ℕ) → k < nproc → (t'.proc k).parent ≢ proc_addr cur)
unfolding put_proc
exit-orphans cur t diff =
    (after cur t, exit-after cur t diff, ground arith, after-orphans cur t diff)

-- `exit` leaves no zombie overlooked, for a process that is not its own parent.
pub exit-NoneOverlooked :
    (cur : ℕ) (t t' : Ptable)
    → exit cur t ≡ some t'
    → cur < nproc
    → (t.proc cur).parent ≢ proc_addr cur
    → NoneOverlooked t.proc
    → NoneOverlooked t'.proc
unfolding exit
exit-NoneOverlooked cur t t' run inside other h =
    let diff : cur ≢ t.initproc = λ e.
      let init : (cur == t.initproc) ≡ true = ground arith in
      none-ne-some t' (sym (rw init) ∙ run) in
    subst (λ (q : Ptable). NoneOverlooked q.proc)
      (some-injective (after cur t) t' (sym (exit-after cur t diff) ∙ run))
      (after-NoneOverlooked cur t diff h inside other)
