-- ===== src/Proc/Reach.antt =====
-- Every run of the process table keeps the parents of zombies out of the sleep in `wait`.
use os_ca.Common.{ℕ, ◌≡◌, ◌<◌, ◌≢◌, refl, ◌==◌, if_cases, arith, Option, none, some, subst}
use mathlib.Core.Option.{some-injective, none-ne-some}
use os_ca.Proc.{
  Slots, Ptable, nproc, runnable, running, zombie, proc_addr, put_proc, wakeup, fall_asleep,
  tidy_up, yield, pick, kill, exit, wait, reaped, asleep, fork, fill_slot, allocproc, take_slot,
  find_unused,
}
use os_ca.Proc.Zombies.{
  NoneOverlooked, Calm, Calm-NoneOverlooked, wakeup1-Calm, put_proc-Calm, fall_asleep-Calm,
  yield-Calm, reap-Calm, kill_from-Calm,
}
use os_ca.Proc.Exit.{exit-NoneOverlooked}
use os_ca.Proc.Wait.{Waits, wait-Waits, takes, sleeps}

-- What may happen to the table, in any order. A process that sleeps elsewhere than in `wait` sleeps
-- on an address that is not its own, and no process that exits is its own parent.
pub data Step (t : Ptable) : Ptable → Type 0 where
  wakes : (chan : ℕ) → Step t (wakeup chan t)
  kills : (pid : ℕ) → Step t (record t { proc = (kill pid t.proc).1 })
  yields : (i : ℕ) → Step t (record t { proc = yield i t.proc })
  runs : (i : ℕ) {s : Slots} → pick i t.proc ≡ some s → Step t (record t { proc = s })
  rests : (i chan : ℕ) → chan ≢ proc_addr i → Step t (record t { proc = fall_asleep i chan t.proc })
  resumes : (i : ℕ) → (t.proc i).state ≡ running → Step t (record t { proc = tidy_up i t.proc })
  waits : (i : ℕ) {s : Slots} → wait i t.proc ≡ asleep s → Step t (record t { proc = s })
  collects : (i pid : ℕ) {s : Slots} → wait i t.proc ≡ reaped pid s → Step t (record t { proc = s })
  exits :
      (i : ℕ) {t' : Ptable}
      → i < nproc
      → (t.proc i).parent ≢ proc_addr i
      → exit i t ≡ some t'
      → Step t t'
  forks : (i kstack pgdir : ℕ) → Step t (fork i kstack pgdir t).1

pub data Reach (t : Ptable) : Ptable → Type 0 where
  here : Reach t t
  next : {u v : Ptable} → Reach t u → Step u v → Reach t v

asleep-NoneOverlooked :
    (i : ℕ) (t s : Slots) → Waits i t (asleep s) → NoneOverlooked t → NoneOverlooked s
unfolding fall_asleep put_proc
asleep-NoneOverlooked i t s (sleeps k p c none_dead _) h = record {
  heard = λ a j z q st e.
      let dead : (t a).state ≡ zombie = ground arith in
      let outside = h.beyond a in
      let inside : a < nproc = ground arith in
      let heard = h.heard a j dead (ground arith) in
      let other : j ≢ i = λ y. none_dead a (omega arith) (omega arith) (ground arith) dead in
      heard (ground arith) (ground arith);
  beyond = λ a l z. h.beyond a l (ground arith);
}

collects-NoneOverlooked :
    (i pid : ℕ) (t s : Slots) → Waits i t (reaped pid s) → NoneOverlooked t → NoneOverlooked s
collects-NoneOverlooked i pid t s (takes k p c z) h = Calm-NoneOverlooked (reap-Calm k t) h

pick-NoneOverlooked :
    (i : ℕ) (t s : Slots) → pick i t ≡ some s → NoneOverlooked t → NoneOverlooked s
unfolding pick
pick-NoneOverlooked i t s run h =
    if_cases (λ (o : Option Slots). o ≡ some s → NoneOverlooked s) ((t i).state == runnable) _ _
      (λ c e.
        let calm =
          put_proc-Calm i (record (t i) { state = running }) t (λ d. omega (arith, d))
            (λ d. omega (arith, d)) in
        subst NoneOverlooked (some-injective _ s e) (Calm-NoneOverlooked calm h))
      (λ c e. absurd (none-ne-some s e)) run

take_slot-Calm :
    (kstack : ℕ) (o : Option ℕ) (t : Ptable) → Calm t.proc (take_slot kstack o t).1.proc
unfolding take_slot
take_slot-Calm kstack none t = record { old = λ k z. z; kept = λ k z. refl; awake = λ j n. n }
take_slot-Calm kstack (some i) t =
    if_cases (λ (r : Option ℕ × Ptable). Calm t.proc r.1.proc) (kstack == 0) _ _
      (λ c. put_proc-Calm i _ t.proc (λ e. omega (arith, e)) (λ s. omega (arith, s)))
      (λ c. put_proc-Calm i _ t.proc (λ e. omega (arith, e)) (λ s. omega (arith, s)))

fill_slot-NoneOverlooked :
    (cur pgdir : ℕ) (o : Option ℕ) (t : Ptable)
    → NoneOverlooked t.proc
    → NoneOverlooked (fill_slot cur pgdir (o, t)).1.proc
unfolding fill_slot
fill_slot-NoneOverlooked cur pgdir none t h = h
fill_slot-NoneOverlooked cur pgdir (some i) t h =
    if_cases (λ (r : Option ℕ × Ptable). NoneOverlooked r.1.proc) (pgdir == 0) _ _
      (λ c.
        Calm-NoneOverlooked
          (put_proc-Calm i _ t.proc (λ e. omega (arith, e)) (λ s. omega (arith, s))) h)
      (λ c.
        Calm-NoneOverlooked
          (put_proc-Calm i _ t.proc (λ e. omega (arith, e)) (λ s. omega (arith, s))) h)

-- Each step keeps the parents of zombies out of the sleep in `wait`.
Step-NoneOverlooked : {t t' : Ptable} → Step t t' → NoneOverlooked t.proc → NoneOverlooked t'.proc
unfolding wakeup kill tidy_up fork allocproc
Step-NoneOverlooked {t} (wakes chan) h = Calm-NoneOverlooked (wakeup1-Calm chan t.proc) h
Step-NoneOverlooked {t} (kills pid) h = Calm-NoneOverlooked (kill_from-Calm nproc 0 pid t.proc) h
Step-NoneOverlooked {t} (yields i) h = Calm-NoneOverlooked (yield-Calm i t.proc) h
Step-NoneOverlooked {t} (runs i {s} e) h = pick-NoneOverlooked i t.proc s e h
Step-NoneOverlooked {t} (rests i chan ne) h =
    Calm-NoneOverlooked (fall_asleep-Calm i chan t.proc ne) h
Step-NoneOverlooked {t} (resumes i e) h =
    Calm-NoneOverlooked
      (put_proc-Calm i (record (t.proc i) { chan = 0 }) t.proc (λ d. omega (arith, e, d))
        (λ d. omega (arith, e, d)))
      h
Step-NoneOverlooked {t} (waits i {s} e) h =
    asleep-NoneOverlooked i t.proc s (subst (Waits i t.proc) e (wait-Waits i t.proc)) h
Step-NoneOverlooked {t} (collects i pid {s} e) h =
    collects-NoneOverlooked i pid t.proc s (subst (Waits i t.proc) e (wait-Waits i t.proc)) h
Step-NoneOverlooked {t} (exits i {t'} inside other e) h =
    exit-NoneOverlooked i t t' e inside other h
Step-NoneOverlooked {t} (forks i kstack pgdir) h =
    fill_slot-NoneOverlooked i pgdir (allocproc kstack t).0 (allocproc kstack t).1
      (Calm-NoneOverlooked (take_slot-Calm kstack (find_unused nproc 0 t.proc) t) h)

-- No order of forks, exits, waits, sleeps, wake-ups and kills leaves a parent asleep in `wait` while
-- a child of it is a zombie: in every state that they lead to, from one where that holds, it holds.
pub Reach-NoneOverlooked :
    {t t' : Ptable} → NoneOverlooked t.proc → Reach t t' → NoneOverlooked t'.proc
Reach-NoneOverlooked h here = h
Reach-NoneOverlooked h (next r s) = Step-NoneOverlooked s (Reach-NoneOverlooked h r)
