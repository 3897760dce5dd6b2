-- ===== src/Log/Crash.antt =====
-- A commit that a power failure cuts short is undone or done as a whole by the recovery.
use os_ca.Common.{
  ℕ, ◌+◌, ◌≤◌, ◌<◌, ◌≡◌, ◌≢◌, ◌⊎◌, inl, inr, refl, Cells, ap, sym, ◌∙◌, ltb, if_cases, arith,
}
use os_ca.Log.{Device, Log, install_trans, header, write_head, recover_from_log, write_log, commit}
use os_ca.Log.Recovery.{
  InLog, IsApart, Logged, write_log_from-Logged, Installed, install_from-Installed,
}
use os_ca.Log.Replay.{
  disk-write_head_ne, disk-write_head_dead, disk-write_head, buffer-write_head_ne, left-write_head,
  install_from-dead, find_block, rebooted, recover-empty, recover-named, recover-unnamed,
}

-- The write-ahead log: `l` names `n` blocks outside its region, the disk's header is empty, and what
-- is in the caches differs from the disk at the named blocks only.
pub record IsClean (l : Log) (d : Device) : Type 0 where
  pub apart : IsApart l
  pub empty_head : d.disk l.start 0 ≡ 0
  pub clean : (b : ℕ) → ¬ InLog l b → ((j : ℕ) → j < l.n → b ≢ l.block j) → d.buffer b ≡ d.disk b

module _ (l : Log) (d : Device) (ok : IsClean l d) where
  -- the four stages of a commit that has something to write
  abbrev logged : Device
  logged = write_log l d

  abbrev marked : Device
  marked = write_head l logged

  abbrev home : Device
  home = install_trans l marked

  abbrev after : Device
  after = write_head (record l { n = 0 }) home

  log_facts : Logged l 0 l.n d logged
  unfolding write_log
  log_facts = write_log_from-Logged l l.n 0 d ok.apart (omega arith)

  slots_marked : (j : ℕ) → j < l.n → marked.buffer (l.start + j + 1) ≡ d.buffer (l.block j)
  slots_marked j p =
      buffer-write_head_ne l logged (l.start + j + 1) (omega arith)
      ∙ log_facts.slots j (omega arith) (omega arith)

  home_facts : Installed l d.buffer 0 l.n marked home
  unfolding install_trans
  home_facts =
      install_from-Installed l d.buffer l.n 0 marked ok.apart (omega arith)
        (λ j p q. slots_marked j q)

  -- Outside the log, `home` has an unnamed block as the caches had it.
  home-unnamed :
      (b : ℕ) → ¬ InLog l b → ((j : ℕ) → j < l.n → b ≢ l.block j) → home.disk b ≡ d.buffer b
  home-unnamed b out o =
      home_facts.others b (λ j p q. o j (omega arith))
      ∙ disk-write_head_ne l logged b (λ e. out (omega arith))
      ∙ (log_facts.outside b out).0
      ∙ sym (ok.clean b out o)

  -- With the power off before the header, no later write counts.
  dead_disk : logged.writes_left ≡ 0 → (b : ℕ) → after.disk b ≡ logged.disk b
  unfolding install_trans
  dead_disk off b =
      let marked_off : marked.writes_left ≡ 0 = left-write_head l logged ∙ omega arith in
      let (same, home_off) = install_from-dead l l.n 0 marked marked_off in
      disk-write_head_dead (record l { n = 0 }) home home_off b
      ∙ same b
      ∙ disk-write_head_dead l logged off b

  cleared_word : (old : Cells) → header (record l { n = 0 }) old 0 ≡ 0
  unfolding header
  cleared_word old = refl

  -- The recovery of the disk that `e` stands for.
  abbrev recovered : Log → ℕ → Device → ℕ → Cells
  recovered k writes e = (recover_from_log k (rebooted writes e)).1.disk

  module _ (k : Log) (writes : ℕ) (same : k.start ≡ l.start) (enough : l.n ≤ writes) where
    -- the power failed before the header reached the disk
    undone : logged.writes_left ≡ 0 → (b : ℕ) → ¬ InLog l b → recovered k writes after b ≡ d.disk b
    undone off b out =
        let empty : after.disk k.start 0 ≡ 0 =
          ap (λ s. after.disk s 0) same
          ∙ ap (λ (c : Cells). c 0) (dead_disk off l.start)
          ∙ ap (λ (c : Cells). c 0) log_facts.head.0
          ∙ ok.empty_head in
        recover-empty k (rebooted writes after) empty b (λ e. out (omega arith))
        ∙ dead_disk off b
        ∙ (log_facts.outside b out).0

    -- the header is on the disk, and the second header is not
    redone :
        0 < logged.writes_left
        → home.writes_left ≡ 0
        → (b : ℕ) → ¬ InLog l b
        → recovered k writes after b ≡ d.buffer b
    redone on off b out = elim (find_block l.block l.n b) [
      | inr (j, p, e) ↦
          ap (recovered k writes after) e
          ∙ recover-named l k (logged.buffer l.start) d.buffer (rebooted writes after) same ok.apart
              head slots enough j p
          ∙ ap d.buffer (sym e)
      | inl o ↦
          recover-unnamed l k (logged.buffer l.start) d.buffer (rebooted writes after) same ok.apart
            head slots enough b (λ e. out (omega arith)) o
          ∙ still b
          ∙ home-unnamed b out o
    ]
      where
        still : (b : ℕ) → after.disk b ≡ home.disk b
        still = disk-write_head_dead (record l { n = 0 }) home off

        head : after.disk l.start ≡ header l (logged.buffer l.start)
        head =
            still l.start
            ∙ (home_facts.in_log l.start (omega arith)).0
            ∙ disk-write_head l logged on

        slots : (j : ℕ) → j < l.n → after.disk (l.start + j + 1) ≡ d.buffer (l.block j)
        slots j p =
            still (l.start + j + 1)
            ∙ (home_facts.in_log (l.start + j + 1) (omega arith)).0
            ∙ disk-write_head_ne l logged (l.start + j + 1) (omega arith)
            ∙ log_facts.written j (omega (arith, log_facts.left)) (omega arith) (omega arith)

    -- all is on the disk
    finished :
        0 < home.writes_left → (b : ℕ) → ¬ InLog l b → recovered k writes after b ≡ d.buffer b
    finished on b out =
        let empty : after.disk k.start 0 ≡ 0 =
          ap (λ s. after.disk s 0) same
          ∙ ap (λ (c : Cells). c 0) (disk-write_head (record l { n = 0 }) home on)
          ∙ cleared_word (home.buffer l.start) in
        recover-empty k (rebooted writes after) empty b (λ e. out (omega arith))
        ∙ disk-write_head_ne (record l { n = 0 }) home b (λ e. out (omega arith))
        ∙ elim (find_block l.block l.n b) [
          | inr (j, p, e) ↦
              ap home.disk e
              ∙ home_facts.installed j (omega (arith, home_facts.left)) (omega arith) (omega arith)
              ∙ ap d.buffer (sym e)
          | inl o ↦ home-unnamed b out o
        ]

-- Outside the log's region `disk` is wholly what the disk held, or wholly what the caches hold.
abbrev pub AllOrNothing : Log → Device → (ℕ → Cells) → Type 0
AllOrNothing l d disk =
    ((b : ℕ) → ¬ InLog l b → disk b ≡ d.disk b) ⊎ ((b : ℕ) → ¬ InLog l b → disk b ≡ d.buffer b)

zero_or_pos : (n : ℕ) → (n ≡ 0) ⊎ (0 < n)
zero_or_pos n = grind arith

-- Wherever the power fails during a commit, the recovery at the next start leaves every block
-- outside the log's region as the disk had it before, or every one as the caches had it: never a
-- part of the transaction. The log's header is empty before the commit, the blocks that it names lie
-- outside its region, the caches differ from the disk at those alone, and the recovery runs with as
-- many writes at least.
pub commit_atomic :
    (l k : Log) (d : Device) (writes : ℕ)
    → IsClean l d
    → k.start ≡ l.start
    → l.n ≤ writes
    → AllOrNothing l d (recover_from_log k (rebooted writes (commit l d).1)).1.disk
unfolding commit
commit_atomic l k d writes ok same enough =
    if_cases {A = Log × Device}
      (λ r. AllOrNothing l d (recover_from_log k (rebooted writes r.1)).1.disk) (ltb 0 l.n) _ _
      (λ some_block. elim (zero_or_pos (logged l d ok).writes_left) [
        | inl off ↦ inl (undone l d ok k writes same enough off)
        | inr on ↦ elim (zero_or_pos (home l d ok).writes_left) [
          | inl cut ↦ inr (redone l d ok k writes same enough on cut)
          | inr rest ↦ inr (finished l d ok k writes same enough rest)
        ]
      ])
      (λ nothing. inl (λ b out.
        recover-empty k (rebooted writes d) (ap (λ s. d.disk s 0) same ∙ ok.empty_head) b
          (λ e. out (omega arith))))

-- A commit with power for all its writes leaves every block outside the log's region on the disk
-- as the caches had it.
pub commit_durable :
    (l : Log) (d : Device)
    → IsClean l d
    → l.n + l.n + 2 ≤ d.writes_left
    → (b : ℕ) → ¬ InLog l b
    → (commit l d).1.disk b ≡ d.buffer b
unfolding commit
commit_durable l d ok power b out =
    if_cases {A = Log × Device} (λ r. r.1.disk b ≡ d.buffer b) (ltb 0 l.n) _ _
      (λ some_block.
        disk-write_head_ne (record l { n = 0 }) (home l d ok) b (λ e. out (omega arith))
        ∙ elim (find_block l.block l.n b) [
          | inr (j, p, e) ↦
              ap (home l d ok).disk e
              ∙ (home_facts l d ok).installed j enough (omega arith) (omega arith)
              ∙ ap d.buffer (sym e)
          | inl o ↦ home-unnamed l d ok b out o
        ])
      (λ nothing. sym (ok.clean b out (λ j p. absurd (ground arith))))
  where
    enough : l.n ≤ (marked l d ok).writes_left
    enough = omega (arith, left-write_head l (logged l d ok), (log_facts l d ok).left)
