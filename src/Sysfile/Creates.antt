-- ===== src/Sysfile/Creates.antt =====
-- sysfile.c: `create`, and the calls that make or open an inode.
-- `none` is a panic, and `none` inside is the return value 0 of `create`.
use os_ca.Common.{
  ℕ, zero, suc, ◌+◌, ◌*◌, ◌%◌, ◌/◌, Bool, true, false, not, ◌&&◌, ◌||◌, Option, none, some, ◌>>=◌,
  List, [], ◌∷◌, ◌==◌, if◌then◌else◌, minus_one, add32,
}
use os_ca.Fs.{Superblock, Disk}
use os_ca.Fs.Inodes.{Inode}
use os_ca.Fs.Content.{Io}
use os_ca.Fs.Cache.{Entries, iput, ialloc}
use os_ca.Fs.Dirs.{t_dir, dirlookup, dirlink}
use os_ca.Fs.Walk.{Walked, namei, nameiparent}
use os_ca.Fs.Content.{t_dev}
use os_ca.Syscall.{Caller, argint, fetchint, fetchstr}
use os_ca.Sysfile.{Open, open_inode}
use os_ca.Sysfile.Links.{path_arg, t_file, dot, dot_dot, one_more, lock, update, put_return}

-- A `dirlink` that does not return 0 is a panic.
unfoldable pub must_link : Option (Bool × Entries × Disk) → Option (Entries × Disk)
must_link none = none
must_link (some (false, t, d)) = none
must_link (some (true, t, d)) = some (t, d)

-- The change of a new inode.
unfoldable pub fresh_node : ℕ → ℕ → Inode → Inode
fresh_node major minor ip = record ip { major = major; minor = minor; nlink = 1 }

module _ (devr : ℕ → Option (Io (List ℕ))) (devw : ℕ → Option (Io ℕ)) (sb : Superblock) where
  -- The name exists: its inode `i` is returned, locked, if it is a file and a file is wanted.
  unfoldable pub create_found : ℕ → ℕ → ℕ → Entries × Disk → Option (Option ℕ × Entries × Disk)
  create_found type dp i (t, d) = lock sb i t d >>= λ (t' : Entries).
      if type == t_file && (t' i).type == t_file
      then some (some i, t', d)
      else put_return sb none i t' d

  -- The entries "." and ".." of a new directory `i`, with the link to its parent `dp` counted.
  unfoldable pub add_dots : ℕ → ℕ → Entries → Disk → Option (Entries × Disk)
  add_dots dp i t d =
      let up = update sb one_more dp t d in
      must_link (dirlink devr devw sb dot (up.0 i).inum i up.0 up.1) >>= λ (q : Entries × Disk).
      must_link (dirlink devr devw sb dot_dot (q.0 dp).inum i q.0 q.1)

  -- The new inode `i`, which `ialloc` gave.
  unfoldable pub create_new :
      ℕ → ℕ → ℕ → List ℕ → ℕ → ℕ × Entries × Disk → Option (Option ℕ × Entries × Disk)
  create_new type major minor name dp (i, t, d) = lock sb i t d >>= λ (t' : Entries).
      let made = update sb (fresh_node major minor) i t' d in
      (if type == t_dir then add_dots dp i made.0 made.1 else some made) >>= λ (q : Entries × Disk).
      must_link (dirlink devr devw sb name (q.0 i).inum dp q.0 q.1) >>= λ (r : Entries × Disk).
      put_return sb (some i) dp r.0 r.1

  -- What follows `dirlookup`.
  unfoldable pub create_looked :
      ℕ → ℕ → ℕ → List ℕ → ℕ → Option (ℕ × ℕ) × Entries × Disk → Option (Option ℕ × Entries × Disk)
  create_looked type major minor name dp (some (i, off), t, d) =
      iput sb dp t d >>= create_found type dp i
  create_looked type major minor name dp (none, t, d) =
      ialloc sb (t dp).dev type t d >>= create_new type major minor name dp

  -- What follows `nameiparent`.
  unfoldable pub create_in : ℕ → ℕ → ℕ → Walked → Option (Option ℕ × Entries × Disk)
  create_in type major minor (none, t, d) = some (none, t, d)
  create_in type major minor (some (dp, name), t, d) = lock sb dp t d >>= λ (t' : Entries).
      dirlookup devr sb name dp t' d >>= create_looked type major minor name dp

  unfoldable pub create :
      ℕ → List ℕ → ℕ → ℕ → ℕ → Entries → Disk → Option (Option ℕ × Entries × Disk)
  create cwd path type major minor t d =
      nameiparent devr sb cwd path t d >>= create_in type major minor

  -- The end of `sys_mkdir` and `sys_mknod`.
  unfoldable pub made_node : Option ℕ × Entries × Disk → Option (ℕ × Entries × Disk)
  made_node (none, t, d) = some (minus_one, t, d)
  made_node (some i, t, d) = put_return sb 0 i t d

  -- The inode of the type and the numbers, if the arguments were there.
  unfoldable pub node_args :
      ℕ → ℕ → Option (List ℕ × ℕ × ℕ) → Entries → Disk → Option (ℕ × Entries × Disk)
  node_args cwd type none t d = some (minus_one, t, d)
  node_args cwd type (some (path, major, minor)) t d =
      create cwd path type major minor t d >>= made_node

  unfoldable pub sys_mkdir : ℕ → Caller → Entries → Disk → Option (ℕ × Entries × Disk)
  sys_mkdir cwd c t d =
      let args : Option (List ℕ × ℕ × ℕ) = path_arg 0 c >>= λ (path : List ℕ). some (path, 0, 0) in
      node_args cwd t_dir args t d

  -- `major` and `minor` are passed on as `short`s.
  unfoldable pub sys_mknod : ℕ → Caller → Entries → Disk → Option (ℕ × Entries × Disk)
  sys_mknod cwd c t d =
      let args : Option (List ℕ × ℕ × ℕ) = path_arg 0 c >>= λ (path : List ℕ).
      argint 1 c >>= λ (major : ℕ).
      argint 2 c >>= λ (minor : ℕ). some (path, major % 65536, minor % 65536) in
      node_args cwd t_dev args t d

  -- What follows `namei`: the return value with the process's directory from then on.
  unfoldable pub chdir_to : ℕ → Walked → Option ((ℕ × ℕ) × Entries × Disk)
  chdir_to cwd (none, t, d) = some ((minus_one, cwd), t, d)
  chdir_to cwd (some (i, last), t, d) = lock sb i t d >>= λ (t' : Entries).
      if (t' i).type == t_dir
      then put_return sb (0, i) cwd t' d
      else put_return sb (minus_one, cwd) i t' d

  unfoldable pub chdir_args :
      ℕ → Option (List ℕ) → Entries → Disk → Option ((ℕ × ℕ) × Entries × Disk)
  chdir_args cwd none t d = some ((minus_one, cwd), t, d)
  chdir_args cwd (some path) t d = namei devr sb cwd path t d >>= chdir_to cwd

  unfoldable pub sys_chdir : ℕ → Caller → Entries → Disk → Option ((ℕ × ℕ) × Entries × Disk)
  sys_chdir cwd c t d = chdir_args cwd (path_arg 0 c) t d

  -- The bits of the mode: O_WRONLY, O_RDWR, O_CREATE.
  unfoldable pub wants : ℕ → ℕ → Bool
  wants bit omode = omode / bit % 2 == 1

  -- What follows `namei` where no file is to be made.
  unfoldable pub found_node : ℕ → Walked → Option (Option ℕ × Entries × Disk)
  found_node omode (none, t, d) = some (none, t, d)
  found_node omode (some (i, last), t, d) = lock sb i t d >>= λ (t' : Entries).
      if (t' i).type == t_dir && not (omode == 0)
      then put_return sb none i t' d
      else some (some i, t', d)

  -- The inode that `sys_open` opens, locked.
  unfoldable pub node_to_open : ℕ → List ℕ → ℕ → Entries → Disk → Option (Option ℕ × Entries × Disk)
  node_to_open cwd path omode t d =
      if wants 512 omode
      then create cwd path t_file 0 0 t d
      else namei devr sb cwd path t d >>= found_node omode

  unfoldable pub open_node : ℕ → Open → Option ℕ × Entries × Disk → Option (ℕ × Open)
  open_node omode o (none, t, d) =
      some (minus_one, record o { kernel = record o.kernel { inodes = t; disk = d } })
  open_node omode o (some i, t, d) =
      open_inode sb i (not (wants 1 omode)) (wants 1 omode || wants 2 omode)
        (record o { kernel = record o.kernel { inodes = t; disk = d } })

  unfoldable pub open_args : ℕ → Option (List ℕ × ℕ) → Open → Option (ℕ × Open)
  open_args cwd none o = some (minus_one, o)
  open_args cwd (some (path, omode)) o =
      node_to_open cwd path omode o.kernel.inodes o.kernel.disk >>= open_node omode o

  unfoldable pub sys_open : ℕ → Caller → Open → Option (ℕ × Open)
  sys_open cwd c o =
      let args : Option (List ℕ × ℕ) =
        path_arg 0 c >>= λ (path : List ℕ). argint 1 c >>= λ (omode : ℕ). some (path, omode) in
      open_args cwd args o

-- MAXARG
abbrev pub max_arg : ℕ
max_arg = 32

-- The loop of `sys_exec`, `n` rounds from `i` on: the arguments' addresses, or `none` for -1.
unfoldable pub fetch_args : ℕ → ℕ → ℕ → Caller → Option (List ℕ)
fetch_args zero i uargv c = none
fetch_args (suc n) i uargv c = fetchint (add32 uargv (4 * i)) c >>= λ (uarg : ℕ).
    let rest = fetchstr uarg c >>= λ (len : ℕ).
    fetch_args n (i + 1) uargv c >>= λ (args : List ℕ). some (uarg ∷ args) in
    if uarg == 0 then some [] else rest
