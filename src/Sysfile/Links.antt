-- ===== src/Sysfile/Links.antt =====
-- sysfile.c: the calls that change directories and link counts. Paths and names are strings. `none` is a
-- panic; the transactions of log.c around the calls are not followed.
pub mod Removal
mod Tests
use os_ca.Common.{
  ℕ, zero, suc, ◌+◌, ◌-◌, ◌*◌, ◌%◌, ◌/◌, Bool, true, false, not, ◌&&◌, ◌||◌, Option, none, some,
  ◌>>=◌, List, [], ◌∷◌, Cells, ltb, leb, ◌==◌, if◌then◌else◌, minus_one, run,
}
use os_ca.Syscall.{Caller, argstr}
use os_ca.Fs.{Superblock, Disk}
use os_ca.Fs.Inodes.{Inode, ilock, iupdate}
use os_ca.Fs.Content.{Io, readi, writei}
use os_ca.Fs.Cache.{Entries, put_inode, iput, ialloc}
use os_ca.Fs.Dirs.{
  t_dir, entry_size, entry_inum, namecmp, whole_entry, whole_write, dirlookup, dirlink,
}
use os_ca.Fs.Walk.{Walked, namei, nameiparent}

-- T_FILE
abbrev pub t_file : ℕ
t_file = 2

-- ".", "..", and a `struct dirent` of zeros
abbrev pub dot : List ℕ
dot = 46 ∷ []

abbrev pub dot_dot : List ℕ
dot_dot = 46 ∷ 46 ∷ []

abbrev pub no_entry : Cells
no_entry i = 0

-- `nlink` is a `short`.
abbrev pub one_more : Inode → Inode
one_more ip = record ip { nlink = (ip.nlink + 1) % 65536 }

abbrev pub one_less : Inode → Inode
one_less ip = record ip { nlink = (ip.nlink + 65535) % 65536 }

-- `ip->nlink < 1`
abbrev pub no_links : Inode → Bool
no_links ip = ip.nlink == 0 || leb 32768 ip.nlink

-- The string that `argstr` finds; `none` is -1.
unfoldable pub path_arg : ℕ → Caller → Option (List ℕ)
path_arg n c = argstr n c >>= λ (q : ℕ × ℕ). some (run c.mem q.0 q.1)

module _ (sb : Superblock) where
  -- `ilock` of the entry `i`
  unfoldable pub lock : ℕ → Entries → Disk → Option Entries
  lock i t d = ilock sb (t i) d >>= λ (ip : Inode). some (put_inode i ip t)

  -- A change of the locked inode, and its `iupdate`
  unfoldable pub update : (Inode → Inode) → ℕ → Entries → Disk → Entries × Disk
  update change i t d = let ip = change (t i) in (put_inode i ip t, iupdate sb ip d)

  -- `iunlockput`, and a return of `r`
  unfoldable pub put_return : {A : Type 0} → A → ℕ → Entries → Disk → Option (A × Entries × Disk)
  put_return r i t d = iput sb i t d >>= λ (q : Entries × Disk). some (r, q.0, q.1)

  -- The label `bad` of `sys_link`
  unfoldable pub unlink_back : ℕ → Entries → Disk → Option (ℕ × Entries × Disk)
  unlink_back i t d = lock i t d >>= λ (t' : Entries).
      let q = update one_less i t' d in put_return minus_one i q.0 q.1

  -- What follows `dirlink` in the directory `dp`.
  unfoldable pub linked : ℕ → ℕ → Bool × Entries × Disk → Option (ℕ × Entries × Disk)
  linked i dp (done, t, d) = iput sb dp t d >>= λ (q : Entries × Disk).
      if done then put_return 0 i q.0 q.1 else unlink_back i q.0 q.1

module _ (devr : ℕ → Option (Io (List ℕ))) (sb : Superblock) where
  -- The loop of `isdirempty`, `n` rounds from `off` on.
  unfoldable pub empty_from : ℕ → ℕ → Inode → Disk → Option (Bool × Inode × Disk)
  empty_from zero off ip d = some (true, ip, d)
  empty_from (suc n) off ip d =
      whole_entry (readi devr sb off entry_size ip d) >>= λ (e : List ℕ × Inode × Disk).
      let rest = empty_from n (off + entry_size) e.1 e.2 in
      if entry_inum e.0 == 0 then rest else some (false, e.1, e.2)

  -- `off < dp->size` holds for that many rounds from the third entry on.
  unfoldable pub isdirempty : Inode → Disk → Option (Bool × Inode × Disk)
  isdirempty ip d = empty_from ((ip.size - 2 * entry_size + 15) / entry_size) (2 * entry_size) ip d

  -- Whether the locked inode may go: it is no directory, or an empty one.
  unfoldable pub may_go : Inode → Disk → Option (Bool × Inode × Disk)
  may_go ip d = if ip.type == t_dir then isdirempty ip d else some (true, ip, d)

-- The entry at `off` is overwritten with zeros.
unfoldable pub clear_entry :
    (ℕ → Option (Io ℕ)) → Superblock → ℕ → Inode → Disk → Option (Inode × Disk)
clear_entry devw sb off ip d = whole_write (writei devw sb no_entry off entry_size ip d)

module _ (devr : ℕ → Option (Io (List ℕ))) (devw : ℕ → Option (Io ℕ)) (sb : Superblock) where
  -- What follows `nameiparent`.
  unfoldable pub link_in : ℕ → Walked → Option (ℕ × Entries × Disk)
  link_in i (none, t, d) = unlink_back sb i t d
  link_in i (some (dp, name), t, d) = lock sb dp t d >>= λ (t' : Entries).
      if (t' dp).dev == (t' i).dev
      then dirlink devr devw sb name (t' i).inum dp t' d >>= linked sb i dp
      else linked sb i dp (false, t', d)

  -- What follows `namei`.
  unfoldable pub link_old : ℕ → List ℕ → Walked → Option (ℕ × Entries × Disk)
  link_old cwd new (none, t, d) = some (minus_one, t, d)
  link_old cwd new (some (i, last), t, d) = lock sb i t d >>= λ (t' : Entries).
      let q = update sb one_more i t' d in
      if (t' i).type == t_dir
      then put_return sb minus_one i t' d
      else nameiparent devr sb cwd new q.0 q.1 >>= link_in i

  -- `cwd` is the entry of the directory of the process.
  unfoldable pub link_args :
      ℕ → Option (List ℕ × List ℕ) → Entries → Disk → Option (ℕ × Entries × Disk)
  link_args cwd none t d = some (minus_one, t, d)
  link_args cwd (some (old, new)) t d = namei devr sb cwd old t d >>= link_old cwd new

  unfoldable pub sys_link : ℕ → Caller → Entries → Disk → Option (ℕ × Entries × Disk)
  sys_link cwd c t d =
      let paths : Option (List ℕ × List ℕ) =
        path_arg 0 c >>= λ (old : List ℕ). path_arg 1 c >>= λ (new : List ℕ). some (old, new) in
      link_args cwd paths t d

  -- The end of `sys_unlink`, with the entry cleared.
  unfoldable pub drop_link : ℕ → ℕ → Entries × Disk → Option (ℕ × Entries × Disk)
  drop_link i dp (t, d) =
      let parent = if (t i).type == t_dir then update sb one_less dp t d else (t, d) in
      iput sb dp parent.0 parent.1 >>= λ (q : Entries × Disk).
      let less = update sb one_less i q.0 q.1 in put_return sb 0 i less.0 less.1

  -- What follows the test of `isdirempty`.
  unfoldable pub unlink_tested :
      ℕ → ℕ → ℕ → Entries → Bool × Inode × Disk → Option (ℕ × Entries × Disk)
  unlink_tested i dp off t (true, ip, d) =
      let t' = put_inode i ip t in
      clear_entry devw sb off (t' dp) d >>= λ (q : Inode × Disk).
      drop_link i dp (put_inode dp q.0 t', q.1)
  unlink_tested i dp off t (false, ip, d) =
      iput sb i (put_inode i ip t) d >>= λ (q : Entries × Disk). put_return sb minus_one dp q.0 q.1

  -- What follows `dirlookup`.
  unfoldable pub unlink_found : ℕ → Option (ℕ × ℕ) × Entries × Disk → Option (ℕ × Entries × Disk)
  unlink_found dp (none, t, d) = put_return sb minus_one dp t d
  unlink_found dp (some (i, off), t, d) = lock sb i t d >>= λ (t' : Entries).
      if no_links (t' i) then none else (may_go devr sb (t' i) d >>= unlink_tested i dp off t')

  -- What follows `nameiparent`.
  unfoldable pub unlink_in : Walked → Option (ℕ × Entries × Disk)
  unlink_in (none, t, d) = some (minus_one, t, d)
  unlink_in (some (dp, name), t, d) = lock sb dp t d >>= λ (t' : Entries).
      if namecmp name dot == 0 || namecmp name dot_dot == 0
      then put_return sb minus_one dp t' d
      else dirlookup devr sb name dp t' d >>= unlink_found dp

  unfoldable pub unlink_args : ℕ → Option (List ℕ) → Entries → Disk → Option (ℕ × Entries × Disk)
  unlink_args cwd none t d = some (minus_one, t, d)
  unlink_args cwd (some path) t d = nameiparent devr sb cwd path t d >>= unlink_in

  unfoldable pub sys_unlink : ℕ → Caller → Entries → Disk → Option (ℕ × Entries × Disk)
  sys_unlink cwd c t d = unlink_args cwd (path_arg 0 c) t d
