-- ===== src/Fs/Dirs/Links.antt =====
-- An entry that `dirlink` adds is what `dirlookup` finds.
use os_ca.Common.{
  ℕ, zero, suc, ◌+◌, ◌*◌, ◌/◌, ◌%◌, ◌≤◌, ◌<◌, ◌≡◌, ◌≢◌, refl, ◌∙◌, sym, ap, true, false, ◌==◌,
  Option, none, some, List, [], ◌∷◌, Cells, arith, run, run-ext, length, get_or,
}
use mathlib.Core.Option.{some-injective}
use os_ca.Strings.{strncmp}
use os_ca.Fs.{Superblock, Disk}
use os_ca.Fs.Inodes.{Inode, inode_block}
use os_ca.Fs.Content.{Io, t_dev}
use os_ca.Fs.Content.View.{content, IsMapped}
use os_ca.Fs.Content.Files.{IsElsewhere, Stored, writei-Stored}
use os_ca.Fs.Names.{dir_size}
use os_ca.Fs.Dirs.{
  t_dir, entry_size, entry_inum, entry_name, c_string, namecmp, find_entry, padded, dirent,
  whole_write, add_entry,
}
use os_ca.Fs.Dirs.Scans.{
  is_match, find_in, free_in, find_from-find_in, free_from-free_in, free_in_bounds, find_in-none,
  find_in-some,
}

-- A string has no NUL among its bytes.
pub data IsString : List ℕ → Type 0 where
  ends : IsString []
  byte : {c : ℕ} {s : List ℕ} → c ≢ 0 → IsString s → IsString (c ∷ s)

strncmp_self : (n : ℕ) (s : List ℕ) → strncmp s s n ≡ 0
unfolding strncmp
strncmp_self zero s = refl
strncmp_self (suc n) [] = refl
strncmp_self (suc n) (c ∷ s) = ground (arith, strncmp_self n s)

c_string-padded : (n : ℕ) (s : List ℕ) → IsString s → length s ≤ n → c_string (padded n s) ≡ s
unfolding c_string padded
c_string-padded zero [] h fit = refl
c_string-padded zero (c ∷ s) h fit = absurd (omega arith)
c_string-padded (suc n) [] h fit = refl
c_string-padded (suc n) (c ∷ s) (byte ne h) fit =
    let other : (c == 0) ≡ false = ground arith in
    rw other (ap (λ l. c ∷ l) (c_string-padded n s h (omega arith)))

length-padded : (n : ℕ) (s : List ℕ) → length (padded n s) ≡ n
unfolding padded
length-padded zero s = refl
length-padded (suc n) [] = ap suc (length-padded n [])
length-padded (suc n) (c ∷ s) = ap suc (length-padded n s)

run-get_or : (l : List ℕ) (n : ℕ) → length l ≡ n → run (λ i. get_or l i 0) 0 n ≡ l
unfolding run
run-get_or [] n h = rw (← h)
run-get_or (c ∷ l) zero h = absurd (omega arith)
run-get_or (c ∷ l) (suc n) h =
    ap (λ q. c ∷ q)
      (run-ext (λ i. get_or (c ∷ l) i 0) (λ i. get_or l i 0) n 1 0
          (λ k p.
            let up : 1 + k ≡ suc k = omega arith in
            let same : k ≡ 0 + k = omega arith in
            ap (λ i. get_or (c ∷ l) i 0) up ∙ ap (λ i. get_or l i 0) same)
        ∙ run-get_or l n (omega arith))

length-dirent : (name : List ℕ) (inum : ℕ) → length (dirent name inum) ≡ entry_size
unfolding dirent
length-dirent name inum = omega (arith, length-padded 14 name)

dirent-match :
    (name : List ℕ) (inum : ℕ)
    → IsString name
    → length name ≤ dir_size
    → 0 < inum
    → inum < 65536
    → (entry_inum (dirent name inum) ≡ inum) × (is_match name (dirent name inum) ≡ true)
unfolding dirent entry_inum entry_name namecmp
dirent-match name inum str fit pos small =
    let back = c_string-padded 14 name str fit in
    let same = strncmp_self 14 name in
    let number : inum % 256 + 256 * (inum / 256 % 256) ≡ inum = omega arith in
    let used : (inum == 0) ≡ false = ground arith in (number, rw (number, used, back, same))

not_there :
    (devr : ℕ → Option (Io (List ℕ))) (sb : Superblock) (ip : Inode) (d : Disk) (blocks : ℕ)
    (name : List ℕ)
    → IsMapped ip d blocks
    → ip.type ≡ t_dir
    → ip.size % 16 ≡ 0
    → ip.size + 16 ≤ blocks * 512
    → find_entry devr sb name ip d ≡ some (none, ip, d)
    → find_in (content ip d) ((ip.size + 15) / entry_size) 0 name ≡ none
unfolding find_entry
not_there devr sb ip d blocks name file kind entries room absent =
    let n = (ip.size + 15) / entry_size in
    let plain : ip.type ≢ t_dev = λ e. omega (arith, e, kind) in
    let dir : (ip.type == t_dir) ≡ true = ground arith in
    let search =
      find_from-find_in devr sb ip d blocks file plain (omega arith) n 0 name (omega arith) in
    let run : find_entry devr sb name ip d ≡ some (find_in (content ip d) n 0 name, ip, d) =
      rw dir search in
    ap (λ (q : Option (ℕ × ℕ) × Inode × Disk). q.0)
      (some-injective (find_in (content ip d) n 0 name, ip, d) (none, ip, d) (sym run ∙ absent))

module _ (devr : ℕ → Option (Io (List ℕ))) (devw : ℕ → Option (Io ℕ)) (sb : Superblock) (ip : Inode)
    (d : Disk) (blocks : ℕ) (name : List ℕ) (inum : ℕ) (file : IsMapped ip d blocks)
    (away : IsElsewhere ip d blocks (inode_block sb ip.inum)) (kind : ip.type ≡ t_dir)
    (entries : ip.size % 16 ≡ 0) (room : ip.size + 16 ≤ blocks * 512) (str : IsString name)
    (fit : length name ≤ dir_size) (pos : 0 < inum) (small : inum < 65536) where
  abbrev count : ℕ
  count = (ip.size + 15) / entry_size

  abbrev place : ℕ
  place = free_in (content ip d) count 0

  abbrev bytes : Cells
  bytes i = get_or (dirent name inum) i 0

  module _ (ip' : Inode) (d' : Disk) (s : Stored ip d ip' d' blocks place entry_size bytes) where
    stored_entry : run (content ip' d') place entry_size ≡ dirent name inum
    stored_entry =
        run-ext (content ip' d') bytes entry_size place 0
          (λ k p. s.inside k p ∙ ap bytes (omega arith))
        ∙ run-get_or (dirent name inum) entry_size (length-dirent name inum)

    other_entry :
        (o : ℕ)
        → o % 16 ≡ 0
        → o < place
        → run (content ip' d') o entry_size ≡ run (content ip d) o entry_size
    other_entry o al lt =
        let (lo, hi, al') = free_in_bounds (content ip d) count 0 in
        run-ext (content ip' d') (content ip d) entry_size o o
          (λ k p. s.outside (o + k) (omega (arith, al', hi)) (omega (arith, hi)))

    found_again :
        find_in (content ip d) count 0 name ≡ none
        → find_entry devr sb name ip' d' ≡ some (some (inum, place), ip', d')
    unfolding find_entry
    found_again absent =
        let (lo, hi, al) = free_in_bounds (content ip d) count 0 in
        let (number, fits) = dirent-match name inum str fit pos small in
        let sizes = s.size in
        let covers = s.covers in
        let no_less = s.no_less in
        let n = (ip'.size + 15) / entry_size in
        let dir : (ip'.type == t_dir) ≡ true = let same = s.type in ground arith in
        let plain : ip'.type ≢ t_dev = λ e. omega (arith, e, s.type, kind) in
        let search =
          find_from-find_in devr sb ip' d' blocks s.file plain (omega arith) n 0 name
            (omega arith) in
        let hit =
          find_in-some (content ip' d') n 0 name place (omega arith) (omega arith) al
            (λ o _ lt al'.
              ap (is_match name) (other_entry o al' lt)
              ∙ find_in-none (content ip d) count 0 name absent o (omega arith) (omega (arith, hi))
                  al')
            (ap (is_match name) stored_entry ∙ fits) in
        let named : entry_inum (run (content ip' d') place entry_size) ≡ inum =
          ap entry_inum stored_entry ∙ number in
        rw (dir, search, hit, named)

-- After `dirlink` has added a name, `dirlookup`'s search finds it, with the inode's number. It is for a
-- directory whose blocks, the one of a new entry included, are there and whose size is a count of
-- entries, a name of at most DIRSIZ bytes that is not in the directory, and a number that fits.
pub find_entry-add_entry :
    (devr : ℕ → Option (Io (List ℕ))) (devw : ℕ → Option (Io ℕ)) (sb : Superblock) (ip : Inode)
    (d : Disk) (blocks : ℕ) (name : List ℕ) (inum : ℕ)
    → IsMapped ip d blocks
    → IsElsewhere ip d blocks (inode_block sb ip.inum)
    → ip.type ≡ t_dir
    → ip.size % 16 ≡ 0
    → ip.size + 16 ≤ blocks * 512
    → IsString name
    → length name ≤ dir_size
    → 0 < inum
    → inum < 65536
    → find_entry devr sb name ip d ≡ some (none, ip, d)
    → (ip' : Inode) × (d' : Disk) × (off : ℕ) × (add_entry devr devw sb name inum ip d
        ≡ some (ip', d'))
      × (find_entry devr sb name ip' d' ≡ some (some (inum, off), ip', d'))
unfolding add_entry whole_write
find_entry-add_entry devr devw sb ip d blocks name inum file away kind entries room str fit pos
      small absent =
    let n = (ip.size + 15) / entry_size in
    let plain : ip.type ≢ t_dev = λ e. omega (arith, e, kind) in
    let (lo, hi, al) = free_in_bounds (content ip d) n 0 in
    let off = free_in (content ip d) n 0 in
    let free = free_from-free_in devr sb ip d blocks file plain (omega arith) n 0 (omega arith) in
    let w =
      writei-Stored devw sb ip d blocks off entry_size (λ i. get_or (dirent name inum) i 0) file
        away plain (omega (arith, hi)) (omega (arith, hi)) in
    let wrote = w.2 in
    (
      w.0,
      w.1,
      off,
      rw (free, wrote),
      found_again devr devw sb ip d blocks name inum file away kind entries room str fit pos small
          w.0 w.1 w.3 (not_there devr sb ip d blocks name file kind entries room absent),
    )
