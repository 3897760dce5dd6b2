-- ===== src/Sysfile/Links/Removal.antt =====
-- What `isdirempty` finds in a directory, and what a directory holds after an entry is cleared.
use os_ca.Common.{
  ℕ, zero, suc, ◌+◌, ◌-◌, ◌*◌, ◌/◌, ◌%◌, ◌≤◌, ◌<◌, ◌≡◌, ◌≢◌, ◌↔◌, refl, ◌∙◌, sym, ap, inl, inr,
  Bool, true, false, Bool-cases, not, ◌&&◌, ◌==◌, ltb, if◌then◌else◌, Option, none, some, List,
  Cells, arith, run, run-ext, subst,
}
use os_ca.Fs.{Superblock, Disk}
use os_ca.Fs.Inodes.{Inode, inode_block}
use os_ca.Fs.Content.{Io, t_dev}
use os_ca.Fs.Content.View.{content, IsMapped}
use os_ca.Fs.Content.Files.{IsElsewhere, writei-Stored}
use os_ca.Fs.Dirs.{t_dir, entry_size, entry_inum, find_entry, whole_write}
use os_ca.Fs.Dirs.Scans.{is_match, find_in, read_entry, find_from-find_in}
use os_ca.Sysfile.Links.{no_entry, empty_from, isdirempty, clear_entry}

-- Each of the `n` entries from `off` on is free.
unfoldable empty_in : Cells → ℕ → ℕ → Bool
empty_in f zero off = true
empty_in f (suc n) off =
    let rest = empty_in f n (off + entry_size) in
    if entry_inum (run f off entry_size) == 0 then rest else false

empty_from-empty_in :
    (devr : ℕ → Option (Io (List ℕ))) (sb : Superblock) (ip : Inode) (d : Disk) (blocks : ℕ)
    → IsMapped ip d blocks
    → ip.type ≢ t_dev
    → ip.size ≤ blocks * 512
    → (n off : ℕ) → off + 16 * n ≤ ip.size
    → empty_from devr sb n off ip d ≡ some (empty_in (content ip d) n off, ip, d)
unfolding empty_from empty_in
empty_from-empty_in devr sb ip d blocks file plain room zero off h = refl
empty_from-empty_in devr sb ip d blocks file plain room (suc n) off h =
    let e = read_entry devr sb ip d blocks file plain room off (omega arith) in
    let rest = empty_from-empty_in devr sb ip d blocks file plain room n (off + 16) (omega arith) in
    elim (Bool-cases (entry_inum (run (content ip d) off entry_size) == 0)) [
      | inl free ↦ rw (e, free) rest
      | inr used ↦ rw (e, used)
    ]

-- No entry from the `k`-th on is in use.
abbrev AllFree : Cells → ℕ → ℕ → Type 0
AllFree f k n = (j : ℕ) → k ≤ j → j < k + n → entry_inum (run f (16 * j) entry_size) ≡ 0

empty_in_iff : (f : Cells) (n k : ℕ) → (empty_in f n (16 * k) ≡ true) ↔ AllFree f k n
unfolding empty_in
empty_in_iff f zero k = (λ e j low high. absurd (omega (arith, low, high)), λ h. refl)
empty_in_iff f (suc n) k =
    let next : 16 * k + 16 ≡ 16 * (k + 1) = omega arith in
    let later : (empty_in f n (16 * k + 16) ≡ true) ↔ AllFree f (k + 1) n =
      subst (λ o. (empty_in f n o ≡ true) ↔ AllFree f (k + 1) n) (sym next)
        (empty_in_iff f n (k + 1)) in
    elim (Bool-cases (entry_inum (run f (16 * k) entry_size) == 0)) [
      | inl free ↦ rw free (
        λ e j low high. elim (Bool-cases (j == k)) [
          | inl same ↦
              let at : j ≡ k = ground arith in
              subst (λ i. entry_inum (run f (16 * i) entry_size) ≡ 0) (sym at) (ground arith)
          | inr other ↦
              let ne : j ≢ k = ground arith in
              later.0 e j (omega (arith, ne, low)) (omega (arith, high))
        ],
        λ h. later.1 (λ j low high. h j (omega (arith, low)) (omega (arith, high))),
      )
      | inr used ↦
          rw used
            (λ e. cc, λ h. let zero_here = h k (omega arith) (omega arith) in absurd (ground arith))
    ]

-- For a directory whose blocks are there and whose size is a count of entries, `isdirempty` does not
-- panic, and says that it is empty exactly where each entry behind the first two is free.
pub isdirempty_iff :
    (devr : ℕ → Option (Io (List ℕ))) (sb : Superblock) (ip : Inode) (d : Disk) (blocks : ℕ)
    → IsMapped ip d blocks
    → ip.type ≡ t_dir
    → ip.size % 16 ≡ 0
    → ip.size ≤ blocks * 512
    → (b : Bool) × (isdirempty devr sb ip d ≡ some (b, ip, d))
      × ((b ≡ true) ↔ (
          (j : ℕ)
          → 2 ≤ j
          → j < ip.size / 16
          → entry_inum (run (content ip d) (16 * j) entry_size) ≡ 0))
unfolding isdirempty empty_from
isdirempty_iff devr sb ip d blocks file kind entries room =
    let plain : ip.type ≢ t_dev = λ e. omega (arith, e, kind) in
    let n = (ip.size - 2 * entry_size + 15) / entry_size in
    let scan = empty_from-empty_in devr sb ip d blocks file plain room n 32 in
    let all = empty_in_iff (content ip d) n 2 in
    elim (Bool-cases (ltb 16 ip.size)) [
      | inl two ↦ (
        empty_in (content ip d) n 32,
        scan (ground arith),
        (
          λ e j low high. all.0 e j low (ground arith),
          λ h. all.1 (λ j low high. h j low (ground arith)),
        ),
      )
      | inr few ↦
          let none_left : n ≡ 0 = ground arith in
          (true, rw none_left refl, (λ e j low high. absurd (ground arith), λ h. refl))
    ]

-- The search of `dirlookup` in an abstract directory, without the entry at the offset `gone`.
unfoldable pub find_without : ℕ → Cells → ℕ → ℕ → List ℕ → Option (ℕ × ℕ)
find_without gone f zero off name = none
find_without gone f (suc n) off name =
    let rest = find_without gone f n (off + entry_size) name in
    if not (off == gone) && is_match name (run f off entry_size)
    then some (entry_inum (run f off entry_size), off)
    else rest

module _ (f f' : Cells) (gone size : ℕ) (al : gone % 16 ≡ 0)
    (cleared : run f' gone entry_size ≡ run no_entry 0 entry_size)
    (others : (o : ℕ)
      → o % 16 ≡ 0
      → o ≢ gone
      → o + 16 ≤ size
      → run f' o entry_size ≡ run f o entry_size) where
  gone-unmatched : (name : List ℕ) → is_match name (run f' gone entry_size) ≡ false
  unfolding entry_inum run
  gone-unmatched name = ap (is_match name) cleared ∙ refl

  find_in-find_without :
      (n off : ℕ) (name : List ℕ)
      → off % 16 ≡ 0
      → off + 16 * n ≤ size
      → find_in f' n off name ≡ find_without gone f n off name
  unfolding find_in find_without
  find_in-find_without zero off name al' le = refl
  find_in-find_without (suc n) off name al' le =
      let rest = find_in-find_without n (off + 16) name (omega arith) (omega arith) in
      elim (Bool-cases (off == gone)) [
        | inl here ↦
            let same : off ≡ gone = ground arith in
            let no =
              subst (λ o. is_match name (run f' o entry_size) ≡ false) (sym same)
                (gone-unmatched name) in
            rw (here, no) rest
        | inr there ↦
            let ne : off ≢ gone = ground arith in
            rw (there, others off al' ne (omega arith), rest) refl
      ]

-- In a directory whose blocks are there, none of them its inode's, and whose size is a count of
-- entries, clearing the entry at an offset inside, as `sys_unlink` does, succeeds and keeps the size;
-- `dirlookup`'s search for any name then finds what it would have found among the other entries alone.
pub clear_entry-find_without :
    (devr : ℕ → Option (Io (List ℕ))) (devw : ℕ → Option (Io ℕ)) (sb : Superblock) (ip : Inode)
    (d : Disk) (blocks off : ℕ)
    → IsMapped ip d blocks
    → IsElsewhere ip d blocks (inode_block sb ip.inum)
    → ip.type ≡ t_dir
    → ip.size % 16 ≡ 0
    → ip.size ≤ blocks * 512
    → off % 16 ≡ 0
    → off < ip.size
    → (ip' : Inode) × (d' : Disk) × (clear_entry devw sb off ip d ≡ some (ip', d'))
      × (ip'.size ≡ ip.size)
      × ((name : List ℕ)
          → find_entry devr sb name ip' d'
            ≡ some (find_without off (content ip d) (ip.size / 16) 0 name, ip', d'))
unfolding clear_entry whole_write find_entry
clear_entry-find_without devr devw sb ip d blocks off file away kind entries room al inside =
    let plain : ip.type ≢ t_dev = λ e. omega (arith, e, kind) in
    let w =
      writei-Stored devw sb ip d blocks off entry_size no_entry file away plain (omega arith)
        (omega arith) in
    let (ip', d', wrote, s) = w in
    let sizes = s.size in
    let more = s.no_less in
    let same_type = s.type in
    let covers = s.covers in
    let size : ip'.size ≡ ip.size = omega arith in
    let dir : (ip'.type == t_dir) ≡ true = ground arith in
    let plain' : ip'.type ≢ t_dev = λ e. omega (arith, e, same_type, kind) in
    let cleared : run (content ip' d') off entry_size ≡ run no_entry 0 entry_size =
      run-ext (content ip' d') no_entry entry_size off 0 s.inside in
    let count : (ip'.size + 15) / entry_size ≡ ip.size / 16 = omega (arith, size) in
    (
      ip',
      d',
      rw wrote refl,
      size,
      λ name.
          let search =
            find_from-find_in devr sb ip' d' blocks s.file plain' (omega (arith, size))
              (ip.size / 16) 0 name (omega (arith, size)) in
          let hit =
            find_in-find_without (content ip d) (content ip' d') off ip.size al cleared
              (λ o al' ne le.
                run-ext (content ip' d') (content ip d) entry_size o o
                  (λ k p. s.outside (o + k) (omega arith) (omega arith)))
              (ip.size / 16) 0 name (omega arith) (omega arith) in
          rw (dir, count, search, hit) refl,
    )
