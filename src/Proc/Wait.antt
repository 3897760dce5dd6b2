-- ===== src/Proc/Wait.antt =====
-- What `wait` finds in the table, and what it does about it.
use os_ca.Common.{
  ℕ, zero, suc, ◌+◌, ◌≤◌, ◌<◌, ◌≡◌, ◌≢◌, Bool, true, false, ◌==◌, if_cases, arith, ◌⊎◌, inl, inr,
}
use os_ca.Proc.{
  Slots, nproc, zombie, proc_addr, Scan, found, no_zombie, scan, wait, Waited, reaped, failed,
  asleep, after_scan, reap, fall_asleep,
}

-- The `n` slots from `i` on hold no zombie child of `cur`.
abbrev NoZombie : ℕ → ℕ → ℕ → Slots → Type 0
NoZombie n i cur t =
    (k : ℕ) → i ≤ k → k < i + n → (t k).parent ≡ proc_addr cur → (t k).state ≢ zombie

-- What the scan of the `n` slots from `i` on may answer.
pub data Answers (n i cur : ℕ) (t : Slots) : Bool → Scan → Type 0 where
  a_zombie :
      {b : Bool} (k : ℕ)
      → i ≤ k
      → k < i + n
      → (t k).parent ≡ proc_addr cur
      → (t k).state ≡ zombie
      → Answers n i cur t b (found k)
  before : NoZombie n i cur t → Answers n i cur t true (no_zombie true)
  children :
      {b : Bool} (k : ℕ)
      → i ≤ k
      → k < i + n
      → (t k).parent ≡ proc_addr cur
      → NoZombie n i cur t
      → Answers n i cur t b (no_zombie true)
  childless :
      ((k : ℕ) → i ≤ k → k < i + n → (t k).parent ≢ proc_addr cur)
      → Answers n i cur t false (no_zombie false)

NoZombie-step :
    (n i cur : ℕ) (t : Slots)
    → NoZombie n (i + 1) cur t
    → ((t i).parent ≡ proc_addr cur → (t i).state ≢ zombie)
    → NoZombie (suc n) i cur t
NoZombie-step n i cur t rest h k p q c z =
    let ne : i ≢ k = λ e. h (ground arith) (ground arith) in
    rest k (omega (arith, ne)) (omega arith) c z

-- A slot in front that is no child changes no answer.
wider-other :
    (n i cur : ℕ) (t : Slots) (b : Bool) (r : Scan)
    → (t i).parent ≢ proc_addr cur
    → Answers n (i + 1) cur t b r
    → Answers (suc n) i cur t b r
wider-other n i cur t b r h (a_zombie k p q c z) = a_zombie k (omega arith) (omega arith) c z
wider-other n i cur t b r h (before none_dead) =
    before (NoZombie-step n i cur t none_dead (λ c. absurd (h c)))
wider-other n i cur t b r h (children k p q c none_dead) =
    children k (omega arith) (omega arith) c (NoZombie-step n i cur t none_dead (λ c. absurd (h c)))
wider-other n i cur t b r h (childless other) = childless (λ k p q c.
    let ne : i ≢ k = λ e. h (ground arith) in other k (omega (arith, ne)) (omega arith) c)

-- A living child in front makes the answer one for a process with children.
wider-child :
    (n i cur : ℕ) (t : Slots) (b : Bool) (r : Scan)
    → (t i).parent ≡ proc_addr cur
    → (t i).state ≢ zombie
    → Answers n (i + 1) cur t true r
    → Answers (suc n) i cur t b r
wider-child n i cur t b r c h (a_zombie k p q c' z) = a_zombie k (omega arith) (omega arith) c' z
wider-child n i cur t b r c h (before none_dead) =
    children i (omega arith) (omega arith) c (NoZombie-step n i cur t none_dead (λ _. h))
wider-child n i cur t b r c h (children k p q c' none_dead) =
    children k (omega arith) (omega arith) c' (NoZombie-step n i cur t none_dead (λ _. h))

scan-Answers : (n i cur : ℕ) (b : Bool) (t : Slots) → Answers n i cur t b (scan n i cur b t)
unfolding scan
scan-Answers zero i cur true t = before (λ k p q c z. omega arith)
scan-Answers zero i cur false t = childless (λ k p q c. omega arith)
scan-Answers (suc n) i cur b t =
    if_cases (Answers (suc n) i cur t b) ((t i).parent == proc_addr cur) _ _
      (λ c.
        let child : (t i).parent ≡ proc_addr cur = ground arith in
        if_cases (Answers (suc n) i cur t b) ((t i).state == zombie) _ _
          (λ z. a_zombie i (omega arith) (omega arith) child (ground arith))
          (λ z.
            wider-child n i cur t b _ child (λ e. ground arith)
              (scan-Answers n (i + 1) cur true t)))
      (λ c. wider-other n i cur t b _ (λ e. ground arith) (scan-Answers n (i + 1) cur b t))

-- The three ends of a round of `wait`, with what each says of the children.
pub data Waits (cur : ℕ) (t : Slots) : Waited → Type 0 where
  takes :
      (k : ℕ)
      → k < nproc
      → (t k).parent ≡ proc_addr cur
      → (t k).state ≡ zombie
      → Waits cur t (reaped (t k).pid (reap k t))
  gives_up :
      NoZombie nproc 0 cur t
      → ((t cur).killed ≡ true) ⊎ ((k : ℕ) → k < nproc → (t k).parent ≢ proc_addr cur)
      → Waits cur t failed
  sleeps :
      (k : ℕ)
      → k < nproc
      → (t k).parent ≡ proc_addr cur
      → NoZombie nproc 0 cur t
      → (t cur).killed ≡ false
      → Waits cur t (asleep (fall_asleep cur (proc_addr cur) t))

after_scan-Waits :
    (cur : ℕ) (t : Slots) (r : Scan)
    → Answers nproc 0 cur t false r
    → Waits cur t (after_scan r cur t)
unfolding after_scan
after_scan-Waits cur t r (a_zombie k p q c z) = takes k (omega arith) c z
after_scan-Waits cur t r (children k p q c none_dead) =
    if_cases (Waits cur t) (t cur).killed _ _ (λ h. gives_up none_dead (inl h))
      (λ h. sleeps k (omega arith) c none_dead h)
after_scan-Waits cur t r (childless other) =
    gives_up (λ k p q c. absurd (other k p q c)) (inr (λ k p. other k (omega arith) (omega arith)))

-- A round of `wait` takes the slot of a zombie child whenever there is one; otherwise it returns -1
-- exactly for a killed process or one without children, and sleeps for any other.
pub wait-Waits : (cur : ℕ) (t : Slots) → Waits cur t (wait cur t)
unfolding wait
wait-Waits cur t =
    after_scan-Waits cur t (scan nproc 0 cur false t) (scan-Answers nproc 0 cur false t)
