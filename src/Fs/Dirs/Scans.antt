-- ===== src/Fs/Dirs/Scans.antt =====
-- A directory as its entries: what the two loops find, for a directory whose blocks are there.
use os_ca.Common.{
  ℕ, zero, suc, ◌+◌, ◌*◌, ◌%◌, ◌≤◌, ◌<◌, ◌≡◌, ◌≢◌, refl, inl, inr, sym, Bool, true, false,
  Bool-cases, not, ◌&&◌, ◌==◌, if◌then◌else◌, if_cases, Option, none, some, List, Cells, arith, run,
  length, length-run, subst,
}
use mathlib.Core.Option.{none-ne-some}
use os_ca.Fs.{Superblock, Disk}
use os_ca.Fs.Inodes.{Inode}
use os_ca.Fs.Content.{Io, readi, t_dev}
use os_ca.Fs.Content.View.{content, IsMapped}
use os_ca.Fs.Content.Files.{readi-content}
use os_ca.Fs.Dirs.{entry_size, entry_inum, entry_name, namecmp, whole_entry, find_from, free_from}

-- The entry at an offset of the content is in use and has the name.
abbrev pub is_match : List ℕ → List ℕ → Bool
is_match name e = not (entry_inum e == 0) && namecmp name (entry_name e) == 0

-- The first such entry among `n` from `off` on, and the first free one.
unfoldable pub find_in : Cells → ℕ → ℕ → List ℕ → Option (ℕ × ℕ)
find_in f zero off name = none
find_in f (suc n) off name =
    let rest = find_in f n (off + entry_size) name in
    if is_match name (run f off entry_size)
    then some (entry_inum (run f off entry_size), off)
    else rest

unfoldable pub free_in : Cells → ℕ → ℕ → ℕ
free_in f zero off = off
free_in f (suc n) off =
    let rest = free_in f n (off + entry_size) in
    if entry_inum (run f off entry_size) == 0 then off else rest

module _ (devsw : ℕ → Option (Io (List ℕ))) (sb : Superblock) (ip : Inode) (d : Disk) (blocks : ℕ)
    (file : IsMapped ip d blocks) (plain : ip.type ≢ t_dev) (room : ip.size ≤ blocks * 512) where
  pub read_entry :
      (off : ℕ)
      → off + 16 ≤ ip.size
      → whole_entry (readi devsw sb off entry_size ip d)
        ≡ some (run (content ip d) off entry_size, ip, d)
  unfolding whole_entry
  read_entry off h =
      let read = readi-content devsw sb ip d blocks off entry_size file plain h (omega arith) in
      let full = length-run (content ip d) entry_size off in
      let size : (length (run (content ip d) off entry_size) == entry_size) ≡ true = ground arith in
      rw (read, whole_entry, size)

  pub find_from-find_in :
      (n off : ℕ) (name : List ℕ)
      → off + 16 * n ≤ ip.size
      → find_from devsw sb n off name ip d ≡ some (find_in (content ip d) n off name, ip, d)
  unfolding find_from find_in
  find_from-find_in zero off name h = refl
  find_from-find_in (suc n) off name h =
      let e = read_entry off (omega arith) in
      let rest = find_from-find_in n (off + 16) name (omega arith) in
      elim (Bool-cases (is_match name (run (content ip d) off entry_size))) [
        | inl m ↦ rw (e, m)
        | inr m ↦ rw (e, m) rest
      ]

  pub free_from-free_in :
      (n off : ℕ)
      → off + 16 * n ≤ ip.size
      → free_from devsw sb n off ip d ≡ some (free_in (content ip d) n off, ip, d)
  unfolding free_from free_in
  free_from-free_in zero off h = refl
  free_from-free_in (suc n) off h =
      let e = read_entry off (omega arith) in
      let rest = free_from-free_in n (off + 16) (omega arith) in
      elim (Bool-cases (entry_inum (run (content ip d) off entry_size) == 0)) [
        | inl m ↦ rw (e, m)
        | inr m ↦ rw (e, m) rest
      ]

-- The free entry lies among those that were searched, or is the place behind them.
pub free_in_bounds :
    (f : Cells) (n off : ℕ)
    → (off ≤ free_in f n off) × (free_in f n off ≤ off + 16 * n) × (free_in f n off % 16 ≡ off % 16)
unfolding free_in
free_in_bounds f zero off = omega arith
free_in_bounds f (suc n) off =
    let (lo, hi, al) = free_in_bounds f n (off + 16) in
    if_cases (λ r. (off ≤ r) × (r ≤ off + 16 * suc n) × (r % 16 ≡ off % 16))
      (entry_inum (run f off entry_size) == 0) _ _ (λ _. omega arith)
      (λ _. omega (arith, lo, hi, al))

-- A search that found nothing passed only entries that do not match.
pub find_in-none :
    (f : Cells) (n off : ℕ) (name : List ℕ)
    → find_in f n off name ≡ none
    → (o : ℕ) → off ≤ o
    → o < off + 16 * n
    → o % 16 ≡ off % 16
    → is_match name (run f o entry_size) ≡ false
unfolding find_in
find_in-none f zero off name h o p q al = absurd (omega arith)
find_in-none f (suc n) off name h o p q al =
    elim (Bool-cases (is_match name (run f off entry_size))) [
      | inl m ↦ let found = rw m at h in absurd (none-ne-some _ (sym found))
      | inr m ↦
          let later : find_in f n (off + 16) name ≡ none = rw m at h in
          elim (Bool-cases (o == off)) [
            | inl e ↦
                let same : o ≡ off = ground arith in
                subst (λ i. is_match name (run f i entry_size) ≡ false) (sym same) m
            | inr e ↦
                find_in-none f n (off + 16) name later o (ground arith) (omega arith) (omega arith)
          ]
    ]

-- A search finds the first entry that matches.
pub find_in-some :
    (f : Cells) (n off : ℕ) (name : List ℕ) (r : ℕ)
    → off ≤ r
    → r < off + 16 * n
    → r % 16 ≡ off % 16
    → ((o : ℕ) → off ≤ o → o < r → o % 16 ≡ off % 16 → is_match name (run f o entry_size) ≡ false)
    → is_match name (run f r entry_size) ≡ true
    → find_in f n off name ≡ some (entry_inum (run f r entry_size), r)
unfolding find_in
find_in-some f zero off name r p q al before here = absurd (omega arith)
find_in-some f (suc n) off name r p q al before here = elim (Bool-cases (r == off)) [
  | inl e ↦
      let same : r ≡ off = ground arith in
      let m : is_match name (run f off entry_size) ≡ true =
        subst (λ i. is_match name (run f i entry_size) ≡ true) same here in
      rw (m, same)
  | inr e ↦
      let m = before off (omega arith) (ground arith) refl in
      let later =
        find_in-some f n (off + 16) name r (ground arith) (omega arith) (omega arith)
          (λ o lo hi al'. before o (omega arith) hi (omega arith)) here in
      rw m later
]
