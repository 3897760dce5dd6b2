-- ===== src/Log/Replay.antt =====
-- The header on the disk, and what the recovery does when it finds it empty or full.
use os_ca.Common.{
  ℕ, zero, suc, ◌+◌, ◌-◌, ◌≤◌, ◌<◌, ◌≡◌, ◌≢◌, ◌⊎◌, inl, inr, refl, true, false, Cells, ap, sym, ◌∙◌,
  subst, ltb, lt→ltb, ◌==◌, Bool-cases, arith,
}
use os_ca.Log.{
  Device, Log, install_from, install_trans, read_head, header, write_head, recover_from_log,
}
use os_ca.Log.Recovery.{
  IsApart, stored, buffer-stored, disk-stored, left-stored, Installed, install_from-Installed,
  other, number_same, same_number,
}

module _ (l : Log) (d : Device) where
  pub disk-write_head_ne : (b : ℕ) → b ≢ l.start → (write_head l d).disk b ≡ d.disk b
  unfolding write_head
  disk-write_head_ne b ne =
      disk-stored l.start (header l (d.buffer l.start)) d b ∙ rw (other b l.start ne)

  pub disk-write_head_dead : d.writes_left ≡ 0 → (b : ℕ) → (write_head l d).disk b ≡ d.disk b
  unfolding write_head
  disk-write_head_dead off b =
      disk-stored l.start (header l (d.buffer l.start)) d b ∙ rw off (ground arith)

  pub disk-write_head :
      0 < d.writes_left → (write_head l d).disk l.start ≡ header l (d.buffer l.start)
  unfolding write_head
  disk-write_head on =
      disk-stored l.start (header l (d.buffer l.start)) d l.start
      ∙ rw (number_same l.start l.start refl, lt→ltb _ _ on)

  pub buffer-write_head_ne : (b : ℕ) → b ≢ l.start → (write_head l d).buffer b ≡ d.buffer b
  unfolding write_head
  buffer-write_head_ne b ne =
      buffer-stored l.start (header l (d.buffer l.start)) d b ∙ rw (other b l.start ne)

  pub left-write_head : (write_head l d).writes_left ≡ d.writes_left - 1
  unfolding write_head
  left-write_head = left-stored l.start (header l (d.buffer l.start)) d

-- Without power the installation reaches nothing on the disk.
pub install_from-dead :
    (l : Log) (m t : ℕ) (d : Device)
    → d.writes_left ≡ 0
    → ((b : ℕ) → (install_from m t l d).disk b ≡ d.disk b)
      × ((install_from m t l d).writes_left ≡ 0)
unfolding install_from
install_from-dead l zero t d off = (λ b. refl, off)
install_from-dead l (suc m) t d off =
    let v = d.buffer (l.start + t + 1) in
    let (same, still_off) =
      install_from-dead l m (t + 1) (stored (l.block t) v d)
        (left-stored (l.block t) v d ∙ omega arith) in
    (λ b. same b ∙ disk-stored (l.block t) v d b ∙ rw off (ground arith), still_off)

not_here : (block : Cells) (n j b : ℕ) → j ≡ n → (b == block n) ≡ false → b ≡ block j → ⊥
not_here block n j b same away e =
    let here : (b == block n) ≡ true = number_same b (block n) (e ∙ ap block same) in cc

-- Is `b` one of the first `n` logged blocks?
pub find_block :
    (block : Cells) (n b : ℕ)
    → ((j : ℕ) → j < n → b ≢ block j) ⊎ ((j : ℕ) × (j < n) × (b ≡ block j))
find_block block zero b = inl (λ j p. absurd (omega arith))
find_block block (suc n) b = elim (find_block block n b) [
  | inr (j, p, e) ↦ inr (j, omega arith, e)
  | inl absent ↦ elim (Bool-cases (b == block n)) [
    | inl here ↦ inr (n, omega arith, same_number b (block n) here)
    | inr away ↦ inl (λ j p. elim (Bool-cases (j == n)) [
      | inl last ↦ λ e. absurd (not_here block n j b (same_number j n last) away e)
      | inr early ↦ absent j (ground arith)
    ])
  ]
]

-- The machine starts again with empty caches: `bread` gives what the disk holds.
abbrev pub rebooted : ℕ → Device → Device
rebooted writes e = record { buffer = e.disk; disk = e.disk; writes_left = writes }

-- A recovery that finds an empty header leaves the blocks outside the log alone.
pub recover-empty :
    (l : Log) (d : Device)
    → d.buffer l.start 0 ≡ 0
    → (b : ℕ) → b ≢ l.start
    → (recover_from_log l d).1.disk b ≡ d.disk b
unfolding recover_from_log read_head install_trans install_from
recover-empty l d empty b ne =
    let l' = read_head l d in
    disk-write_head_ne (record l' { n = 0 }) (install_trans l' d) b ne
    ∙ ap (λ n. (install_from n 0 l' d).disk b) empty

-- A recovery that finds the header of `l` installs the log's blocks, and changes no other block.
module _ (l k : Log) (old : Cells) (image : ℕ → Cells) (d : Device) (same : k.start ≡ l.start)
    (apart : IsApart l) (head : d.buffer l.start ≡ header l old)
    (slots : (j : ℕ) → j < l.n → d.buffer (l.start + j + 1) ≡ image (l.block j))
    (power : l.n ≤ d.writes_left) where
  abbrev pub found : Log
  found = read_head k d

  word_head : (i : ℕ) → d.buffer k.start i ≡ header l old i
  word_head i = ap (λ s. d.buffer s i) same ∙ ap (λ (h : Cells). h i) head

  n-found : found.n ≡ l.n
  unfolding read_head header
  n-found = word_head 0

  start-found : found.start ≡ l.start
  unfolding read_head
  start-found = same

  block-found : (i : ℕ) → i < l.n → found.block i ≡ l.block i
  unfolding read_head
  block-found i p =
      let in_use : ltb i (d.buffer k.start 0) ≡ true =
        lt→ltb _ _ (subst (λ n. i < n) (sym size) p) in
      rw in_use (word_head (i + 1) ∙ block_word i p)
    where
      size : d.buffer k.start 0 ≡ l.n
      size = word_head 0 ∙ head_word
        where
          head_word : header l old 0 ≡ l.n
          head_word = unfold header in refl

      block_word : (i : ℕ) → i < l.n → header l old (i + 1) ≡ l.block i
      block_word i p = unfold header in (ground arith)

  in_use : (i : ℕ) → i < found.n → i < l.n
  in_use i p = omega (arith, n-found)

  IsApart-found : IsApart found
  IsApart-found i p inside =
      let q = in_use i p in
      let blk = block-found i q in
      apart i q (
        omega (arith, n-found, start-found, blk, inside),
        omega (arith, n-found, start-found, blk, inside),
      )

  Installed-found : Installed found image 0 found.n d (install_trans found d)
  unfolding install_trans
  Installed-found =
      install_from-Installed found image found.n 0 d IsApart-found (omega arith) (λ j p q.
        ap (λ s. d.buffer (s + j + 1)) start-found
        ∙ slots j (in_use j q)
        ∙ ap image (sym (block-found j (in_use j q))))

  disk-recovered :
      (b : ℕ) → b ≢ l.start → (recover_from_log k d).1.disk b ≡ (install_trans found d).disk b
  unfolding recover_from_log
  disk-recovered b ne =
      disk-write_head_ne (record found { n = 0 }) (install_trans found d) b
        (λ e. ne (e ∙ start-found))

  pub recover-named :
      (j : ℕ) → j < l.n → (recover_from_log k d).1.disk (l.block j) ≡ image (l.block j)
  recover-named j p =
      disk-recovered (l.block j) (λ e. apart j p (omega arith))
      ∙ ap (install_trans found d).disk (sym (block-found j p))
      ∙ Installed-found.installed j (omega (arith, n-found)) (omega arith) (omega (arith, n-found))
      ∙ ap image (block-found j p)

  pub recover-unnamed :
      (b : ℕ)
      → b ≢ l.start
      → ((j : ℕ) → j < l.n → b ≢ l.block j)
      → (recover_from_log k d).1.disk b ≡ d.disk b
  recover-unnamed b ne o =
      disk-recovered b ne
      ∙ Installed-found.others b (λ j p q e.
        let r : j < found.n = omega arith in o j (in_use j r) (e ∙ block-found j (in_use j r)))
