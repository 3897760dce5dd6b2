-- ===== src/Spinlock/Exclusion.antt =====
-- CPUs that call `acquire` and `release`, in steps between which any other CPU may run.
use os_ca.Common.{
  ℕ, ◌≡◌, ◌≢◌, refl, ◌∙◌, sym, ap, Bool, true, false, Bool-cases, inl, inr, ◌&&◌, Option, none,
  some, ◌>>=◌, ◌==◌, if◌then◌else◌, arith, subst, if_cases,
}
use os_ca.Spinlock.{
  Cpu, Spinlock, pushcli, popcli, holding, acquire_start, xchg, set_holder, clear_holder, unlock,
}

-- Where a CPU is: outside of the lock's section, in the loop of `acquire`, behind its `xchg`, in the
-- section, and behind the `lk->cpu = 0` of `release`.
pub data Place : Type 0 where
  outside : Place
  spinning : Place
  taken : Place
  inside : Place
  leaving : Place

pub record World : Type 0 where
  pub lock : Spinlock
  pub place : ℕ → Place
  pub cpus : ℕ → Cpu

unfoldable pub go : ℕ → Place → Cpu → Spinlock → World → World
go me p cpu lk w = record {
  lock = lk;
  place = λ c. if c == me then p else w.place c;
  cpus = λ c. if c == me then cpu else w.cpus c;
}

-- One step of one CPU, which has no step where it panics: up to the loop of `acquire`, a round of the
-- loop, the end of `acquire`, `release` up to the store that frees the lock, and the rest of it.
pub data Step (w : World) : World → Type 0 where
  starts :
      (me : ℕ) {c : Cpu}
      → w.place me ≡ outside
      → acquire_start me w.lock (w.cpus me) ≡ some c
      → Step w (go me spinning c w.lock w)
  spins :
      (me : ℕ)
      → w.place me ≡ spinning
      → (xchg w.lock).0 ≡ true
      → Step w (go me spinning (w.cpus me) (xchg w.lock).1 w)
  takes :
      (me : ℕ)
      → w.place me ≡ spinning
      → (xchg w.lock).0 ≡ false
      → Step w (go me taken (w.cpus me) (xchg w.lock).1 w)
  enters :
      (me : ℕ) → w.place me ≡ taken → Step w (go me inside (w.cpus me) (set_holder me w.lock) w)
  clears :
      (me : ℕ) {lk : Spinlock} {c : Cpu}
      → w.place me ≡ inside
      → clear_holder me w.lock (w.cpus me) ≡ some (lk, c)
      → Step w (go me leaving c lk w)
  frees :
      (me : ℕ) {c : Cpu}
      → w.place me ≡ leaving
      → popcli (w.cpus me) ≡ some c
      → Step w (go me outside c (unlock w.lock) w)

pub data Reach (w : World) : World → Type 0 where
  here : Reach w w
  then_step : {u v : World} → Reach w u → Step u v → Reach w v

-- From its `xchg` to the store that frees the lock.
abbrev pub owns : Place → Bool
owns outside = false
owns spinning = false
owns taken = true
owns inside = true
owns leaving = true

abbrev is_inside : Place → Bool
is_inside outside = false
is_inside spinning = false
is_inside taken = false
is_inside inside = true
is_inside leaving = false

-- One CPU at most owns the lock, which is locked then, and names the CPU that is inside.
pub record IsExclusive (w : World) : Type 0 where
  pub locked : (c : ℕ) → owns (w.place c) ≡ true → w.lock.locked ≡ true
  pub alone : (c d : ℕ) → owns (w.place c) ≡ true → owns (w.place d) ≡ true → c ≡ d
  pub named : (c : ℕ) → is_inside (w.place c) ≡ true → w.lock.cpu ≡ c

inside-owns : (p : Place) → is_inside p ≡ true → owns p ≡ true
inside-owns outside e = e
inside-owns spinning e = e
inside-owns taken e = refl
inside-owns inside e = refl
inside-owns leaving e = refl

-- A step of the CPU `me` to the place `p`, where the others that own the lock, if any, keep it.
go-IsExclusive :
    (w : World) (me : ℕ) (p : Place) (cpu : Cpu) (lk : Spinlock)
    → (owns p ≡ true → lk.locked ≡ true)
    → (is_inside p ≡ true → lk.cpu ≡ me)
    → ((c : ℕ)
        → c ≢ me
        → owns (w.place c) ≡ true
        → (lk.locked ≡ true) × (owns p ≡ false) × (lk.cpu ≡ w.lock.cpu))
    → IsExclusive w
    → IsExclusive (go me p cpu lk w)
unfolding go
go-IsExclusive w me p cpu lk mine name others h = record {
  locked = λ c o. elim (Bool-cases (c == me)) [
    | inl e ↦ mine (rw e at o)
    | inr e ↦ (others c (ground arith) (rw e at o)).0
  ];
  alone = λ c d o q. elim (Bool-cases (c == me)) [
    | inl e ↦ elim (Bool-cases (d == me)) [
      | inl f ↦ ground arith
      | inr f ↦
          let (l, freed, n) = others d (ground arith) (rw f at q) in
          let yes : owns p ≡ true = rw e at o in cc
    ]
    | inr e ↦ elim (Bool-cases (d == me)) [
      | inl f ↦
          let (l, freed, n) = others c (ground arith) (rw e at o) in
          let yes : owns p ≡ true = rw f at q in cc
      | inr f ↦ h.alone c d (rw e at o) (rw f at q)
    ]
  ];
  named = λ c i. elim (Bool-cases (c == me)) [
    | inl e ↦ let same : c ≡ me = ground arith in name (rw e at i) ∙ sym same
    | inr e ↦
        let old : is_inside (w.place c) ≡ true = rw e at i in
        (others c (ground arith) (inside-owns (w.place c) old)).2 ∙ h.named c old
  ];
}

-- `release` stores nothing into `locked` before its last store.
Locked : Bool → Option (Spinlock × Cpu) → Type 0
Locked b none = Unit {0}
Locked b (some (lk, c)) = lk.locked ≡ b

clear_holder-Locked : (me : ℕ) (lk : Spinlock) (c : Cpu) → Locked lk.locked (clear_holder me lk c)
unfolding clear_holder holding Locked
clear_holder-Locked me lk c = from (popcli (pushcli c))
  where
    from :
        (m : Option Cpu)
        → Locked lk.locked (
            (m >>= λ (d : Cpu). some (lk.locked && lk.cpu == me, d)) >>= λ (q : Bool × Cpu).
            if q.0 then some (record lk { cpu = 0 }, q.1) else none)
    from none = tt
    from (some d) =
        if_cases (Locked lk.locked) (lk.locked && lk.cpu == me) _ _ (λ _. refl) (λ _. tt)

Step-IsExclusive : {v w : World} → Step v w → IsExclusive v → IsExclusive w
unfolding xchg set_holder unlock Locked
Step-IsExclusive {v} (starts me {c} at e) h =
    go-IsExclusive v me spinning c v.lock (λ o. cc) (λ i. cc) (λ d ne o. (h.locked d o, refl, refl))
      h
Step-IsExclusive {v} (spins me at full) h =
    go-IsExclusive v me spinning (v.cpus me) (xchg v.lock).1 (λ o. cc) (λ i. cc)
      (λ d ne o. (refl, refl, refl)) h
Step-IsExclusive {v} (takes me at free) h =
    go-IsExclusive v me taken (v.cpus me) (xchg v.lock).1 (λ o. refl) (λ i. cc)
      (λ d ne o. let full = h.locked d o in let never : true ≡ false = sym full ∙ free in cc) h
Step-IsExclusive {v} (enters me at) h =
    let mine : owns (v.place me) ≡ true = ap owns at in
    go-IsExclusive v me inside (v.cpus me) (set_holder me v.lock) (λ _. h.locked me mine)
      (λ _. refl) (λ d ne o. absurd (ne (h.alone d me o mine))) h
Step-IsExclusive {v} (clears me {lk} {c} at e) h =
    let mine : owns (v.place me) ≡ true = ap owns at in
    let kept : lk.locked ≡ v.lock.locked =
      subst (Locked v.lock.locked) e (clear_holder-Locked me v.lock (v.cpus me)) in
    go-IsExclusive v me leaving c lk (λ _. kept ∙ h.locked me mine) (λ i. cc)
      (λ d ne o. absurd (ne (h.alone d me o mine))) h
Step-IsExclusive {v} (frees me {c} at e) h =
    let mine : owns (v.place me) ≡ true = ap owns at in
    go-IsExclusive v me outside c (unlock v.lock) (λ o. cc) (λ i. cc)
      (λ d ne o. absurd (ne (h.alone d me o mine))) h

Reach-keeps_IsExclusive : {v w : World} → IsExclusive v → Reach v w → IsExclusive w
Reach-keeps_IsExclusive h here = h
Reach-keeps_IsExclusive h (then_step r s) = Step-IsExclusive s (Reach-keeps_IsExclusive h r)

-- From a world where every CPU is outside, no run of the steps of `acquire` and `release` brings two
-- CPUs between the `xchg` that takes the lock and the store that frees it; the lock is locked where one
-- is there, and names the CPU that is inside.
pub Reach-IsExclusive : (v w : World) → ((c : ℕ) → v.place c ≡ outside) → Reach v w → IsExclusive w
Reach-IsExclusive v w out r =
    Reach-keeps_IsExclusive
      (record {
        locked = λ c o. let no : owns outside ≡ true = sym (ap owns (out c)) ∙ o in cc;
        alone = λ c d o q. let no : owns outside ≡ true = sym (ap owns (out c)) ∙ o in cc;
        named = λ c i. let no : is_inside outside ≡ true = sym (ap is_inside (out c)) ∙ i in cc;
      })
      r
