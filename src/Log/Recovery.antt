-- ===== src/Log/Recovery.antt =====
-- A commit that a power failure cuts short is undone or done as a whole by the recovery.
use os_ca.Common.{
  ℕ, zero, suc, ◌+◌, ◌-◌, ◌≤◌, ◌<◌, ◌≡◌, ◌≢◌, ◌⊎◌, inl, inr, refl, true, false, ◌&&◌, Cells, ap,
  sym, ◌∙◌, ltb, ◌==◌, ==_iff, lt→ltb, if◌then◌else◌, Bool-cases, arith,
}
use os_ca.Log.{Device, Log, set_buffer, bwrite, install_from, write_log_from}

-- A block of the log's own region: the header, or one of the blocks behind it that are in use.
abbrev pub InLog : Log → ℕ → Type 0
InLog l b = (l.start ≤ b) × (b ≤ l.start + l.n)

-- The blocks that the log names lie outside its region.
abbrev pub IsApart : Log → Type 0
IsApart l = (i : ℕ) → i < l.n → ¬ InLog l (l.block i)

pub other : (a b : ℕ) → a ≢ b → (a == b) ≡ false
other a b h = ground arith

pub same_number : (a b : ℕ) → (a == b) ≡ true → a ≡ b
same_number a b h = (==_iff a b).0 h

pub number_same : (a b : ℕ) → a ≡ b → (a == b) ≡ true
number_same a b h = (==_iff a b).1 h

later_number : (a b : ℕ) → b ≤ a → (a == b) ≡ false → b + 1 ≤ a
later_number a b p h = ground arith

-- A change of a buffer, and the write behind it.
module _ (s : ℕ) (v : Cells) (d : Device) where
  abbrev pub stored : Device
  stored = bwrite s (set_buffer s v d)

  pub buffer-stored : (b : ℕ) → stored.buffer b ≡ (if b == s then v else d.buffer b)
  unfolding bwrite set_buffer
  buffer-stored b = ground arith

  pub disk-stored :
      (b : ℕ) → stored.disk b ≡ (if b == s && ltb 0 d.writes_left then v else d.disk b)
  unfolding bwrite set_buffer
  disk-stored b = ground arith

  disk_either : (b : ℕ) → (stored.disk b ≡ d.disk b) ⊎ ((b ≡ s) × (stored.disk b ≡ v))
  disk_either b = elim (Bool-cases (b == s && ltb 0 d.writes_left)) [
    | inl here ↦ inr (ground arith, disk-stored b ∙ rw here)
    | inr away ↦ inl (disk-stored b ∙ rw away)
  ]

  pub left-stored : stored.writes_left ≡ d.writes_left - 1
  unfolding bwrite set_buffer
  left-stored = ground arith

-- What the `m` rounds of `write_log` from round `t` on have done, started at `d`: the logged blocks
-- are in the log's buffers, on the disk too if the power lasted.
pub record Logged (l : Log) (t m : ℕ) (d e : Device) : Type 0 where
  pub outside : (b : ℕ) → ¬ InLog l b → (e.disk b ≡ d.disk b) × (e.buffer b ≡ d.buffer b)
  pub head : (e.disk l.start ≡ d.disk l.start) × (e.buffer l.start ≡ d.buffer l.start)
  pub earlier :
      (j : ℕ)
      → j < t
      → (e.buffer (l.start + j + 1) ≡ d.buffer (l.start + j + 1))
        × (e.disk (l.start + j + 1) ≡ d.disk (l.start + j + 1))
  pub slots : (j : ℕ) → t ≤ j → j < t + m → e.buffer (l.start + j + 1) ≡ d.buffer (l.block j)
  pub written :
      (j : ℕ)
      → m ≤ d.writes_left
      → t ≤ j
      → j < t + m
      → e.disk (l.start + j + 1) ≡ d.buffer (l.block j)
  pub left : e.writes_left ≡ d.writes_left - m

pub write_log_from-Logged :
    (l : Log) (m t : ℕ) (d : Device)
    → IsApart l
    → t + m ≡ l.n
    → Logged l t m d (write_log_from m t l d)
unfolding write_log_from
write_log_from-Logged l zero t d apart size = record {
  outside = λ b o. (refl, refl);
  head = (refl, refl);
  earlier = λ j p. (refl, refl);
  slots = λ j p q. absurd (omega arith);
  written = λ j w p q. absurd (omega arith);
  left = omega arith;
}
write_log_from-Logged l (suc m) t d apart size =
    let s = l.start + t + 1 in
    let v = d.buffer (l.block t) in
    let d' = stored s v d in
    let rest : Logged l (t + 1) m d' (write_log_from m (t + 1) l d') =
      write_log_from-Logged l m (t + 1) d' apart (omega arith) in
    let left' = left-stored s v d in
    record {
      outside = λ b o.
          let ne : (b == s) ≡ false = other b s (λ e. o (omega arith)) in
          (
            (rest.outside b o).0 ∙ disk-stored s v d b ∙ rw ne,
            (rest.outside b o).1 ∙ buffer-stored s v d b ∙ rw ne,
          );
      head =
          let ne : (l.start == s) ≡ false = other l.start s (omega arith) in
          (
            rest.head.0 ∙ disk-stored s v d l.start ∙ rw ne,
            rest.head.1 ∙ buffer-stored s v d l.start ∙ rw ne,
          );
      earlier = λ j p.
          let ne : (l.start + j + 1 == s) ≡ false = other (l.start + j + 1) s (omega arith) in
          (
            (rest.earlier j (omega arith)).0 ∙ buffer-stored s v d (l.start + j + 1) ∙ rw ne,
            (rest.earlier j (omega arith)).1 ∙ disk-stored s v d (l.start + j + 1) ∙ rw ne,
          );
      slots = λ j p q. elim (Bool-cases (j == t)) [
        | inl e ↦
            let same : j ≡ t = same_number j t e in
            let here : (l.start + j + 1 == s) ≡ true = number_same _ s (omega arith) in
            (rest.earlier j (omega arith)).0
            ∙ buffer-stored s v d (l.start + j + 1)
            ∙ rw here (ap (λ k. d.buffer (l.block k)) (sym same))
        | inr ne ↦
            let later : t + 1 ≤ j = later_number j t p ne in
            let far : (l.block j == s) ≡ false =
              other (l.block j) s (λ e. apart j (omega arith) (omega arith)) in
            rest.slots j later (omega arith) ∙ buffer-stored s v d (l.block j) ∙ rw far
      ];
      written = λ j w p q. elim (Bool-cases (j == t)) [
        | inl e ↦
            let same : j ≡ t = same_number j t e in
            let here : (l.start + j + 1 == s) ≡ true = number_same _ s (omega arith) in
            let power : ltb 0 d.writes_left ≡ true = lt→ltb _ _ (omega arith) in
            (rest.earlier j (omega arith)).1
            ∙ disk-stored s v d (l.start + j + 1)
            ∙ rw (here, power) (ap (λ k. d.buffer (l.block k)) (sym same))
        | inr ne ↦
            let later : t + 1 ≤ j = later_number j t p ne in
            let far : (l.block j == s) ≡ false =
              other (l.block j) s (λ e. apart j (omega arith) (omega arith)) in
            rest.written j (omega arith) later (omega arith)
            ∙ buffer-stored s v d (l.block j)
            ∙ rw far
      ];
      left = omega (arith, rest.left);
    }

-- What the `m` rounds of `install_trans` from round `t` on have done, started at a device whose
-- log buffers hold `image`: each named block is on the disk as it was or as `image` has it, and as
-- `image` has it if the power lasted; no other block has changed.
pub record Installed (l : Log) (image : ℕ → Cells) (t m : ℕ) (d e : Device) : Type 0 where
  pub others : (b : ℕ) → ((j : ℕ) → t ≤ j → j < t + m → b ≢ l.block j) → e.disk b ≡ d.disk b
  pub either : (b : ℕ) → (e.disk b ≡ d.disk b) ⊎ (e.disk b ≡ image b)
  pub installed :
      (j : ℕ) → m ≤ d.writes_left → t ≤ j → j < t + m → e.disk (l.block j) ≡ image (l.block j)
  pub in_log : (b : ℕ) → InLog l b → (e.disk b ≡ d.disk b) × (e.buffer b ≡ d.buffer b)
  pub left : e.writes_left ≡ d.writes_left - m

pub install_from-Installed :
    (l : Log) (image : ℕ → Cells) (m t : ℕ) (d : Device)
    → IsApart l
    → t + m ≡ l.n
    → ((j : ℕ) → t ≤ j → j < l.n → d.buffer (l.start + j + 1) ≡ image (l.block j))
    → Installed l image t m d (install_from m t l d)
unfolding install_from
install_from-Installed l image zero t d apart size slots = record {
  others = λ b o. refl;
  either = λ b. inl refl;
  installed = λ j w p q. absurd (omega arith);
  in_log = λ b i. (refl, refl);
  left = omega arith;
}
install_from-Installed l image (suc m) t d apart size slots =
    let s = l.block t in
    let v = d.buffer (l.start + t + 1) in
    let d' = stored s v d in
    let from_image : v ≡ image s = slots t (omega arith) (omega arith) in
    let far = λ (b : ℕ) (i : InLog l b). other b s (λ e. apart t (omega arith) (omega arith)) in
    let slots' = λ (j : ℕ) (p : t + 1 ≤ j) (q : j < l.n).
      buffer-stored s v d (l.start + j + 1)
      ∙ rw (far (l.start + j + 1) (omega arith)) (slots j (omega arith) q) in
    let rest : Installed l image (t + 1) m d' (install_from m (t + 1) l d') =
      install_from-Installed l image m (t + 1) d' apart (omega arith) slots' in
    let left' = left-stored s v d in
    record {
      others = λ b o.
          rest.others b (λ j p q. o j (omega arith) (omega arith))
          ∙ disk-stored s v d b
          ∙ rw (other b s (o t (omega arith) (omega arith)));
      either = λ b. elim (rest.either b) [
        | inr new ↦ inr new
        | inl old ↦ elim (disk_either s v d b) [
          | inl kept ↦ inl (old ∙ kept)
          | inr (here, put_in) ↦ inr (old ∙ put_in ∙ from_image ∙ ap image (sym here))
        ]
      ];
      installed = λ j w p q. elim (Bool-cases (j == t)) [
        | inr ne ↦ rest.installed j (omega arith) (later_number j t p ne) (omega arith)
        | inl e ↦
            let same : l.block j ≡ s = ap l.block (same_number j t e) in
            elim (rest.either (l.block j)) [
              | inr new ↦ new
              | inl old ↦
                  let power : ltb 0 d.writes_left ≡ true = lt→ltb _ _ (omega arith) in
                  old
                  ∙ disk-stored s v d (l.block j)
                  ∙ rw (number_same (l.block j) s same, power) (from_image ∙ ap image (sym same))
            ]
      ];
      in_log = λ b i. (
        (rest.in_log b i).0 ∙ disk-stored s v d b ∙ rw (far b i),
        (rest.in_log b i).1 ∙ buffer-stored s v d b ∙ rw (far b i),
      );
      left = omega (arith, rest.left);
    }
