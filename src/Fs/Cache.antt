-- ===== src/Fs/Cache.antt =====
-- The inode cache: `iget`, `idup`, `iput` and `ialloc`. `none` is a panic.
pub mod Once
pub mod Runs
use os_ca.Common.{
  ℕ, zero, suc, ◌+◌, ◌-◌, ◌*◌, Bool, true, false, ◌&&◌, Option, none, some, ◌>>=◌, Cells, ltb, leb,
  slt, add32, sub32, ◌==◌, if◌then◌else◌,
}
use os_ca.Fs.{Superblock, Disk, write_block}
use os_ca.Fs.Inodes.{Inode, inode_block, inode_place, get16, put16, iupdate}
use os_ca.Fs.Content.{itrunc}

-- NINODE
abbrev pub n_inode : ℕ
n_inode = 50

-- The entries of `icache.inode` by number.
abbrev pub Entries : Type 0
Entries = ℕ → Inode

unfoldable pub put_inode : ℕ → Inode → Entries → Entries
put_inode i ip t j = if j == i then ip else t j

-- What the loop of `iget` comes to: the entry of the inode, or the first free one, if any.
pub data Search : Type 0 where
  cached : ℕ → Search
  absent : Option ℕ → Search

abbrev first_of : Option ℕ → ℕ → Bool → Option ℕ
first_of (some e) i free = some e
first_of none i free = if free then some i else none

-- The loop, `n` rounds from entry `i` on.
unfoldable pub search_from : ℕ → ℕ → Option ℕ → ℕ → ℕ → Entries → Search
search_from zero i empty dev inum t = absent empty
search_from (suc n) i empty dev inum t =
    let rest = search_from n (i + 1) (first_of empty i ((t i).ref == 0)) dev inum t in
    if slt 0 (t i).ref && (t i).dev == dev && (t i).inum == inum then cached i else rest

-- What follows it.
unfoldable pub take_entry : Search → ℕ → ℕ → Entries → Option (ℕ × Entries)
take_entry (cached i) dev inum t =
    some (i, put_inode i (record (t i) { ref = add32 (t i).ref 1 }) t)
take_entry (absent none) dev inum t = none
take_entry (absent (some e)) dev inum t =
    some (e, put_inode e (record (t e) { dev = dev; inum = inum; ref = 1; valid = false }) t)

unfoldable pub iget : ℕ → ℕ → Entries → Option (ℕ × Entries)
iget dev inum t = take_entry (search_from n_inode 0 none dev inum t) dev inum t

unfoldable pub idup : ℕ → Entries → Entries
idup i t = put_inode i (record (t i) { ref = add32 (t i).ref 1 }) t

-- The freeing of an inode without links and other references.
unfoldable pub free_inode : Superblock → Inode → Disk → Option (Inode × Disk)
free_inode sb ip d = itrunc sb ip d >>= λ (q : Inode × Disk).
    let freed = record q.0 { type = 0 } in
    some (record freed { valid = false }, iupdate sb freed q.1)

-- The last lines of `iput`, with the entry as the lines before left it.
unfoldable pub drop_ref : ℕ → Entries → Inode × Disk → Entries × Disk
drop_ref i t (ip, d) = (put_inode i (record ip { ref = sub32 ip.ref 1 }) t, d)

-- `iput`, in one step: the inode's lock and that of the cache are not followed.
unfoldable pub iput : Superblock → ℕ → Entries → Disk → Option (Entries × Disk)
iput sb i t d =
    if (t i).valid && (t i).nlink == 0 && (t i).ref == 1
    then (free_inode sb (t i) d >>= λ (q : Inode × Disk). some (drop_ref i t q))
    else some (drop_ref i t (t i, d))

-- `memset(dip, 0, sizeof(*dip))` at the byte `a`
unfoldable pub clear_inode : ℕ → Cells → Cells
clear_inode a c x = if leb a x && ltb x (a + 64) then 0 else c x

-- The loop of `ialloc`, `n` rounds from `inum` on.
unfoldable pub ialloc_from :
    ℕ → ℕ → Superblock → ℕ → ℕ → Entries → Disk → Option (ℕ × Entries × Disk)
ialloc_from zero inum sb dev type t d = none
ialloc_from (suc n) inum sb dev type t d =
    let b = inode_block sb inum in
    let a = inode_place inum in
    let taken = write_block b (put16 a type (clear_inode a (d.block b))) d in
    let rest = ialloc_from n (inum + 1) sb dev type t d in
    if get16 (d.block b) a == 0
    then (iget dev inum t >>= λ (r : ℕ × Entries). some (r.0, r.1, taken))
    else rest

unfoldable pub ialloc : Superblock → ℕ → ℕ → Entries → Disk → Option (ℕ × Entries × Disk)
ialloc sb dev type t d = ialloc_from (sb.ninodes - 1) 1 sb dev type t d
