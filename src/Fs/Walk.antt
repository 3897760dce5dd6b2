-- ===== src/Fs/Walk.antt =====
-- `namex`: the walk along a path, from directory to directory.
use os_ca.Common.{
  ℕ, zero, suc, ◌+◌, Bool, true, false, ◌&&◌, Option, none, some, ◌>>=◌, List, [], ◌∷◌, ◌==◌,
  if◌then◌else◌, length,
}
use os_ca.Fs.{Superblock, Disk}
use os_ca.Fs.Inodes.{Inode, ilock}
use os_ca.Fs.Content.{Io}
use os_ca.Fs.Cache.{Entries, put_inode, iget, idup, iput}
use os_ca.Fs.Names.{slash, skipelem}
use os_ca.Fs.Dirs.{t_dir, dirlookup}

abbrev is_end : List ℕ → Bool
is_end [] = true
is_end (c ∷ path) = false

-- What the calls of `skipelem` give, one after the other: each name, and whether the path ends behind
-- it. A path of `k` bytes has fewer than `k + 1` names.
unfoldable pub steps_of : ℕ → List ℕ → List (List ℕ × Bool)
steps_of zero path = []
steps_of (suc k) path = elim (skipelem path) [
  | none ↦ []
  | some (name, rest) ↦ (name, is_end rest) ∷ steps_of k rest
]

-- What `namex` returns: an entry of the cache with the last name, or 0.
abbrev pub Walked : Type 0
Walked = Option (ℕ × List ℕ) × Entries × Disk

-- `*path == '/'`
abbrev starts_at : {A : Type 0} → List ℕ → A → A → A
starts_at [] root cwd = cwd
starts_at (c ∷ path) root cwd = if c == slash then root else cwd

module _ (devsw : ℕ → Option (Io (List ℕ))) (sb : Superblock) where
  -- `iunlockput`, and a return of 0
  unfoldable pub give_up : ℕ → Entries → Disk → Option Walked
  give_up i t d = iput sb i t d >>= λ (r : Entries × Disk). some (none, r.0, r.1)

  -- What follows the lookup of the name: `next` is the rest of the walk.
  unfoldable pub go_on :
      (ℕ → Entries → Disk → Option Walked) → ℕ → Option (ℕ × ℕ) × Entries × Disk → Option Walked
  go_on next i (none, t, d) = give_up i t d
  go_on next i (some (k, off), t, d) = iput sb i t d >>= λ (r : Entries × Disk). next k r.0 r.1

  -- The loop: the entry is `i`, and `last` the name of the step before.
  unfoldable pub walk : List (List ℕ × Bool) → Bool → List ℕ → ℕ → Entries → Disk → Option Walked
  walk [] parent last i t d = if parent then give_up i t d else some (some (i, last), t, d)
  walk ((name, at_end) ∷ steps) parent last i t d = ilock sb (t i) d >>= λ (ip : Inode).
      let locked = put_inode i ip t in
      let onward =
        dirlookup devsw sb name i locked d
        >>= go_on (λ k t' d'. walk steps parent name k t' d') i in
      if ip.type == t_dir
      then (if parent && at_end then some (some (i, name), locked, d) else onward)
      else give_up i locked d

  -- ROOTDEV and ROOTINO are 1; `cwd` is the entry of the process's directory.
  unfoldable pub namex : ℕ → List ℕ → Bool → Entries → Disk → Option Walked
  namex cwd path parent t d =
      let steps = steps_of (length path + 1) path in
      let from_root = iget 1 1 t >>= λ (r : ℕ × Entries). walk steps parent [] r.0 r.1 d in
      let from_cwd = walk steps parent [] cwd (idup cwd t) d in starts_at path from_root from_cwd

  unfoldable pub namei : ℕ → List ℕ → Entries → Disk → Option Walked
  namei cwd path t d = namex cwd path false t d

  unfoldable pub nameiparent : ℕ → List ℕ → Entries → Disk → Option Walked
  nameiparent cwd path t d = namex cwd path true t d
