-- ===== src/Fs/Content.antt =====
-- The content of an inode: `bmap`, `itrunc`, `stati`, `readi` and `writei`, with `none` for a panic
-- of theirs or of a callee.
pub mod View
pub mod RoundTrip
pub mod Files
use os_ca.Common.{
  ℕ, zero, suc, ◌+◌, ◌-◌, ◌*◌, ◌/◌, ◌%◌, Bool, ◌||◌, ◌&&◌, Option, none, some, ◌>>=◌, List, [],
  ◌++◌, Cells, put, ltb, leb, ◌==◌, if◌then◌else◌, min, run, add32, sub32,
}
use os_ca.Fs.{Superblock, Disk, write_block, block_size}
use os_ca.Fs.Blocks.{balloc, bfree}
use os_ca.Fs.Inodes.{Inode, n_direct, n_indirect, get32, put32, iupdate}

-- `if((addr = ip->addrs[i]) == 0) ip->addrs[i] = addr = balloc(ip->dev)`
unfoldable pub slot_addr : Superblock → ℕ → Inode → Disk → Option (ℕ × Inode × Disk)
slot_addr sb i ip d =
    if ip.addrs i == 0
    then (balloc sb d >>= λ (r : ℕ × Disk).
        some (r.0, record ip { addrs = put ip.addrs i r.0 }, r.1))
    else some (ip.addrs i, ip, d)

-- the same for the entry `i` of the indirect block `addr`
unfoldable pub entry_addr : Superblock → ℕ → ℕ × Inode × Disk → Option (ℕ × Inode × Disk)
entry_addr sb i (addr, ip, d) =
    if get32 (d.block addr) (4 * i) == 0
    then (balloc sb d >>= λ (r : ℕ × Disk).
        some (r.0, ip, write_block addr (put32 (4 * i) r.0 (r.1.block addr)) r.1))
    else some (get32 (d.block addr) (4 * i), ip, d)

unfoldable pub bmap : Superblock → ℕ → Inode → Disk → Option (ℕ × Inode × Disk)
bmap sb bn ip d =
    if ltb bn n_direct
    then slot_addr sb bn ip d
    else if ltb (bn - n_direct) n_indirect
    then (slot_addr sb n_direct ip d >>= entry_addr sb (bn - n_direct))
    else none

-- The first loop of `itrunc`, `n` rounds from slot `i` on.
unfoldable pub free_direct : ℕ → ℕ → Superblock → Inode → Disk → Option (Inode × Disk)
free_direct zero i sb ip d = some (ip, d)
free_direct (suc n) i sb ip d =
    let next = free_direct n (i + 1) sb (record ip { addrs = put ip.addrs i 0 }) in
    let skip = free_direct n (i + 1) sb ip d in
    if ip.addrs i == 0 then skip else bfree (ip.addrs i) sb d >>= next

-- The second loop, over the entries of the indirect block, whose content is `a`.
unfoldable pub free_entries : ℕ → ℕ → Superblock → Cells → Disk → Option Disk
free_entries zero j sb a d = some d
free_entries (suc n) j sb a d =
    let skip = free_entries n (j + 1) sb a d in
    if get32 a (4 * j) == 0
    then skip
    else bfree (get32 a (4 * j)) sb d >>= free_entries n (j + 1) sb a

unfoldable pub free_indirect : Superblock → Inode × Disk → Option (Inode × Disk)
free_indirect sb (ip, d) = if ip.addrs n_direct == 0 then some (ip, d) else do
  d' ← free_entries n_indirect 0 sb (d.block (ip.addrs n_direct)) d
  d'' ← bfree (ip.addrs n_direct) sb d'
  some (record ip { addrs = put ip.addrs n_direct 0 }, d'')

unfoldable pub itrunc : Superblock → Inode → Disk → Option (Inode × Disk)
itrunc sb ip d = do
  r ← free_direct n_direct 0 sb ip d
  q ← free_indirect sb r
  let emptied = record q.0 { size = 0 }
  some (emptied, iupdate sb emptied q.1)

-- `struct stat`
pub record Stat : Type 0 where
  pub type : ℕ
  pub dev : ℕ
  pub ino : ℕ
  pub nlink : ℕ
  pub size : ℕ

unfoldable pub stati : Inode → Stat
stati ip = record { dev = ip.dev; ino = ip.inum; type = ip.type; nlink = ip.nlink; size = ip.size }

-- T_DEV
abbrev pub t_dev : ℕ
t_dev = 3

-- NDEV
abbrev pub n_dev : ℕ
n_dev = 10

-- -1, or the bytes that were read or the count of those written, with what they leave.
pub data Io (A : Type 0) : Type 0 where
  failed : Io A
  done : A → Inode → Disk → Io A
  panics : Io A

-- `min(n - tot, BSIZE - off%BSIZE)`, for the `n` bytes that are left
abbrev pub chunk : ℕ → ℕ → ℕ
chunk n off = min n (block_size - off % block_size)

-- The loop of `readi` with `n` bytes left, with at most `k` rounds to go, each of one byte at least.
unfoldable pub read_from : Superblock → ℕ → ℕ → ℕ → Inode → Disk → Option (List ℕ × Inode × Disk)
read_from sb zero n off ip d = some ([], ip, d)
read_from sb (suc k) n off ip d =
    let m = chunk n off in
    let round = bmap sb (off / block_size) ip d >>= λ (r : ℕ × Inode × Disk).
    read_from sb k (n - m) (off + m) r.1 r.2 >>= λ (q : List ℕ × Inode × Disk).
    some (run (r.2.block r.0) (off % block_size) m ++ q.0, q.1, q.2) in
    if n == 0 then some ([], ip, d) else round

unfoldable pub read_done : Option (List ℕ × Inode × Disk) → Io (List ℕ)
read_done none = panics
read_done (some (bs, ip, d)) = done bs ip d

abbrev or_failed : {A : Type 0} → Option (Io A) → Io A
or_failed none = failed
or_failed (some r) = r

-- A driver's entry in `devsw`, by the major number; 0 there is `none`.
unfoldable pub device_io : {A : Type 0} → (ℕ → Option (Io A)) → ℕ → Io A
device_io devsw major = if ltb major n_dev then or_failed (devsw major) else failed

unfoldable pub readi : (ℕ → Option (Io (List ℕ))) → Superblock → ℕ → ℕ → Inode → Disk → Io (List ℕ)
readi devsw sb off n ip d =
    if ip.type == t_dev
    then device_io devsw ip.major
    else if ltb ip.size off || ltb (add32 off n) off
    then failed
    else let n' = if ltb ip.size (add32 off n) then sub32 ip.size off else n in
      read_done (read_from sb n' n' off ip d)

-- `memmove(bp->data + off%BSIZE, src, m)`, for the source from index `i` on
unfoldable pub overwrite : ℕ → ℕ → Cells → ℕ → Cells → Cells
overwrite o m src i c a = if leb o a && ltb a (o + m) then src (i + (a - o)) else c a

-- The loop of `writei` with `n` bytes left, those of `src` from index `i` on.
unfoldable pub write_from :
    Superblock → ℕ → ℕ → Cells → ℕ → ℕ → Inode → Disk → Option (Inode × Disk)
write_from sb zero n src i off ip d = some (ip, d)
write_from sb (suc k) n src i off ip d =
    let m = chunk n off in
    let round = bmap sb (off / block_size) ip d >>= λ (r : ℕ × Inode × Disk).
    write_from sb k (n - m) src (i + m) (off + m) r.1
      (write_block r.0 (overwrite (off % block_size) m src i (r.2.block r.0)) r.2) in
    if n == 0 then some (ip, d) else round

-- What follows the loop: `off` is now behind the last byte.
unfoldable pub write_done : Superblock → ℕ → ℕ → Option (Inode × Disk) → Io ℕ
write_done sb off n none = panics
write_done sb off n (some (ip, d)) =
    let grown = record ip { size = off } in
    if ltb 0 n && ltb ip.size off then done n grown (iupdate sb grown d) else done n ip d

-- MAXFILE*BSIZE
abbrev pub max_size : ℕ
max_size = 71680

unfoldable pub writei : (ℕ → Option (Io ℕ)) → Superblock → Cells → ℕ → ℕ → Inode → Disk → Io ℕ
writei devsw sb src off n ip d =
    if ip.type == t_dev
    then device_io devsw ip.major
    else if ltb ip.size off || ltb (add32 off n) off
    then failed
    else if ltb max_size (add32 off n)
    then failed
    else write_done sb (off + n) n (write_from sb n n src 0 off ip d)
