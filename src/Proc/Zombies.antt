-- ===== src/Proc/Zombies.antt =====
-- No exited child is overlooked by a parent that sleeps in `wait`.
use os_ca.Common.{
  ℕ, zero, suc, ◌+◌, ◌≤◌, ◌≡◌, ◌≢◌, refl, Bool, true, false, ◌==◌, if◌then◌else◌, if_cases, arith,
  ◌∙◌, sym,
}
use os_ca.Proc.{
  Proc, Slots, nproc, sleeping, runnable, zombie, unused, proc_addr, put_proc, wake, wakeup1,
  fall_asleep, yield, kill_from, reap,
}

-- Process `j` does not sleep in `wait`, where it sleeps on its own address.
abbrev pub NotInWait : Slots → ℕ → Type 0
NotInWait t j = (t j).state ≡ sleeping → (t j).chan ≢ proc_addr j

-- The parent of a zombie does not sleep in `wait`. The slots from NPROC on, which the table does not
-- have, hold no zombie.
pub record NoneOverlooked (t : Slots) : Type 0 where
  pub heard : (i j : ℕ) → (t i).state ≡ zombie → (t i).parent ≡ proc_addr j → NotInWait t j
  pub beyond : (i : ℕ) → nproc ≤ i → (t i).state ≢ zombie

-- A step that makes no zombie, moves none to another parent and puts no process to sleep in `wait`.
pub record Calm (t t' : Slots) : Type 0 where
  pub old : (i : ℕ) → (t' i).state ≡ zombie → (t i).state ≡ zombie
  pub kept : (i : ℕ) → (t' i).state ≡ zombie → (t' i).parent ≡ (t i).parent
  pub awake : (j : ℕ) → NotInWait t j → NotInWait t' j

pub Calm-NoneOverlooked : {t t' : Slots} → Calm t t' → NoneOverlooked t → NoneOverlooked t'
Calm-NoneOverlooked c h = record {
  heard = λ i j z p. c.awake j (h.heard i j (c.old i z) (sym (c.kept i z) ∙ p));
  beyond = λ i p z. h.beyond i p (c.old i z);
}

pub wakeup1-Calm : (chan : ℕ) (t : Slots) → Calm t (wakeup1 chan t)
unfolding wakeup1 wake
wakeup1-Calm chan t = record {
  old = λ i z. ground arith;
  kept = λ i z. ground arith;
  awake = λ j n s e. n (ground arith) (ground arith);
}

-- A process that is asleep on another channel or on none, or not asleep at all.
module _ (i : ℕ) (p : Proc) (t : Slots) (live : p.state ≢ zombie)
    (other : p.state ≡ sleeping → p.chan ≢ proc_addr i) where
  pub put_proc-Calm : Calm t (put_proc i p t)
  unfolding put_proc
  put_proc-Calm = record {
    old = λ k z. ground arith;
    kept = λ k z. ground arith;
    awake = λ j n.
        if_cases (λ q. q.state ≡ sleeping → q.chan ≢ proc_addr j) (j == i) p (t j)
          (λ h s e. other s (ground arith)) (λ h. n);
  }

pub fall_asleep-Calm : (i chan : ℕ) (t : Slots) → chan ≢ proc_addr i → Calm t (fall_asleep i chan t)
unfolding fall_asleep
fall_asleep-Calm i chan t h =
    put_proc-Calm i (record (t i) { chan = chan; state = sleeping }) t (λ e. omega (arith, e))
      (λ s. h)

pub yield-Calm : (i : ℕ) (t : Slots) → Calm t (yield i t)
unfolding yield
yield-Calm i t =
    put_proc-Calm i (record (t i) { state = runnable }) t (λ e. omega (arith, e))
      (λ s e. omega (arith, s))

pub reap-Calm : (i : ℕ) (t : Slots) → Calm t (reap i t)
unfolding reap
reap-Calm i t =
    put_proc-Calm i
      (record (t i) { kstack = 0; pid = 0; parent = 0; killed = false; state = unused }) t
      (λ e. omega (arith, e)) (λ s e. omega (arith, s))

-- `kill` leaves a zombie a zombie, and wakes a sleeper.
mark_killed-Calm :
    (i : ℕ) (t : Slots)
    → Calm t (
        put_proc i
          (record (t i) {
            killed = true;
            state = if (t i).state == sleeping then runnable else (t i).state;
          })
          t)
unfolding put_proc
mark_killed-Calm i t = record {
  old = λ k z. ground arith;
  kept = λ k z. ground arith;
  awake = λ j n s e. n (ground arith) (ground arith);
}

pub kill_from-Calm : (n i pid : ℕ) (t : Slots) → Calm t (kill_from n i pid t).1
unfolding kill_from
kill_from-Calm zero i pid t = record { old = λ k z. z; kept = λ k z. refl; awake = λ j n. n }
kill_from-Calm (suc n) i pid t =
    if_cases (λ (r : Bool × Slots). Calm t r.1) ((t i).pid == pid) _ _ (λ h. mark_killed-Calm i t)
      (λ h. kill_from-Calm n (i + 1) pid t)
