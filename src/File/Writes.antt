-- ===== src/File/Writes.antt =====
-- What the rounds of `filewrite` come to for a file with blocks.
use os_ca.Common.{
  ℕ, zero, suc, ◌+◌, ◌-◌, ◌*◌, ◌≤◌, ◌<◌, ◌≡◌, ◌≢◌, refl, inl, inr, ◌∙◌, sym, ap, Bool, true, false,
  slt, Bool-cases, ◌==◌, ltb, min, Option, some, List, length, get_or, Cells, arith, add32, subst,
}
use os_ca.Pipe.{Nap}
use os_ca.Fs.{Superblock, Disk}
use os_ca.Fs.Inodes.{Inode, inode_block, ilock}
use os_ca.Fs.Content.{Io, writei, done, t_dev}
use os_ca.Fs.Content.View.{content, IsMapped}
use os_ca.Fs.Content.Files.{IsElsewhere, Stored, writei-Stored}
use os_ca.Fs.Cache.Once.{put_inode_self}
use os_ca.File.{fd_inode, File}
use os_ca.File.Refs.{put_file_self}
use os_ca.File.Io.{
  Kernel, put_locked, move_on, wrote_inode, write_chunk, write_chunks, max_write, written,
  write_kind, filewrite,
}

ilock-loaded :
    (sb : Superblock) (ip : Inode) (d : Disk)
    → slt 0 ip.ref ≡ true
    → ip.valid ≡ true
    → ilock sb ip d ≡ some ip
unfolding ilock
ilock-loaded sb ip d held loaded =
    let used : slt ip.ref 1 ≡ false = ground arith in rw (used, loaded) refl

write_chunk-move_on :
    (sb : Superblock) (devsw : ℕ → Option (Io ℕ)) (src : Cells) (m i a off : ℕ) (ip ip' : Inode)
    (d' : Disk) (k : Kernel)
    → (k.files i).ip ≡ a
    → (k.files i).off ≡ off
    → ilock sb (k.inodes a) k.disk ≡ some ip
    → writei devsw sb src off m ip k.disk ≡ done m ip' d'
    → write_chunk sb devsw src m i k ≡ some (true, move_on i m (put_locked a ip' d' k))
unfolding write_chunk wrote_inode
write_chunk-move_on sb devsw src m i a off ip ip' d' k place offset lock wrote =
    let all : (m == m) ≡ true = ground arith in rw (place, offset, lock, wrote, all) refl

-- Two writes, one behind the other.
Stored-append :
    (ip : Inode) (d : Disk) (ip1 : Inode) (d1 : Disk) (ip2 : Inode) (d2 : Disk) (blocks off j m : ℕ)
    (src : Cells)
    → 0 < m
    → off + (j + m) ≤ blocks * 512
    → Stored ip d ip1 d1 blocks off j src
    → Stored ip1 d1 ip2 d2 blocks (off + j) m (λ a. src (j + a))
    → Stored ip d ip2 d2 blocks off (j + m) src
Stored-append ip d ip1 d1 ip2 d2 blocks off j m src pos fit s1 s2 =
    let size1 = s1.size in
    let size2 = s2.size in
    let covers = s2.covers in
    let (r1, v1, i1, a1) = s1.same_inode in
    let (r2, v2, i2, a2) = s2.same_inode in
    record {
      file = s2.file;
      type = s2.type ∙ s1.type;
      covers = omega arith;
      no_less = omega (arith, s1.no_less, s2.no_less);
      size = ground arith;
      inside = λ k lt. elim (Bool-cases (ltb k j)) [
        | inl e ↦
            s2.outside (off + k) (inl (ground arith)) (omega arith) ∙ s1.inside k (ground arith)
        | inr e ↦
            let later : off + j + (k - j) ≡ off + k = ground arith in
            let index : j + (k - j) ≡ k = ground arith in
            ap (content ip2 d2) (sym later) ∙ s2.inside (k - j) (ground arith) ∙ ap src index
      ];
      outside = λ o out lt. s2.outside o (omega arith) lt ∙ s1.outside o (omega arith) lt;
      same_place = λ k. s2.same_place k ∙ s1.same_place k;
      same_inode = (r2 ∙ r1, v2 ∙ v1, i2 ∙ i1, a2 ∙ a1);
    }

-- Nothing is written yet.
Stored-nothing :
    (ip : Inode) (d : Disk) (blocks off : ℕ) (src : Cells)
    → IsMapped ip d blocks
    → off ≤ ip.size
    → Stored ip d ip d blocks off 0 src
Stored-nothing ip d blocks off src file start = record {
  file = file;
  type = refl;
  covers = omega arith;
  no_less = omega arith;
  size = inl refl;
  inside = λ k lt. absurd (omega (arith, lt));
  outside = λ o out lt. refl;
  same_place = λ k. refl;
  same_inode = (refl, refl, refl, refl);
}

-- The state with `j` bytes of `src` written to file `i`, of the inode in entry `a`, which was `ip` on
-- the disk `d` with the offset `off` before.
pub record IsWritten (i a off : ℕ) (ip : Inode) (d : Disk) (blocks j : ℕ) (src : Cells) (k : Kernel)
    : Type 0 where
  pub place : (k.files i).ip ≡ a
  pub offset : (k.files i).off ≡ off + j
  pub stored : Stored ip d (k.inodes a) k.disk blocks off j src

module _ (sb : Superblock) (devsw : ℕ → Option (Io ℕ)) (i a off : ℕ) (ip : Inode) (d : Disk)
    (blocks : ℕ) (src : Cells) (file : IsMapped ip d blocks) (held : slt 0 ip.ref ≡ true)
    (loaded : ip.valid ≡ true) (plain : ip.type ≢ t_dev)
    (away : IsElsewhere ip d blocks (inode_block sb ip.inum)) where
  still_away :
      (ip' : Inode) (d' : Disk) (j : ℕ)
      → Stored ip d ip' d' blocks off j src
      → IsElsewhere ip' d' blocks (inode_block sb ip'.inum)
  still_away ip' d' j s =
      let (r, v, inum, addrs) = s.same_inode in
      subst (λ n. IsElsewhere ip' d' blocks (inode_block sb n)) (sym inum)
        (record {
          no_block = λ k lt e. away.no_block k lt (sym (s.same_place k) ∙ e);
          no_table = λ e. away.no_table (ap (λ (t : Cells). t 12) (sym addrs) ∙ e);
        })

  -- One round.
  write_chunk-IsWritten :
      (j m : ℕ) (k : Kernel)
      → 0 < m
      → off + (j + m) ≤ blocks * 512
      → IsWritten i a off ip d blocks j src k
      → (k' : Kernel) × (write_chunk sb devsw (λ b. src (j + b)) m i k ≡ some (true, k'))
        × IsWritten i a off ip d blocks (j + m) src k'
  unfolding move_on put_locked
  write_chunk-IsWritten j m k pos fit h =
      let s = h.stored in
      let bound = file.bound in
      let (r, v, inum, addrs) = s.same_inode in
      let lock = ilock-loaded sb (k.inodes a) k.disk (ap (slt 0) r ∙ held) (v ∙ loaded) in
      let (ip', d', wrote, new) =
        writei-Stored devsw sb (k.inodes a) k.disk blocks (off + j) m (λ b. src (j + b)) s.file
          (still_away (k.inodes a) k.disk j s) (λ e. plain (sym s.type ∙ e)) s.covers
          (omega arith) in
      let at = h.offset in
      let moved : File = record (k.files i) { off = add32 (k.files i).off m } in
      let self = put_file_self i moved k.files in
      (
        move_on i m (put_locked a ip' d' k),
        write_chunk-move_on sb devsw (λ b. src (j + b)) m i a (off + j) (k.inodes a) ip' d' k
            h.place h.offset lock wrote,
        record {
          place = ap (λ (f : File). f.ip) self ∙ h.place;
          offset = ap (λ (f : File). f.off) self ∙ ground arith;
          stored =
              subst (λ (q : Inode). Stored ip d q d' blocks off (j + m) src)
                (sym (put_inode_self a ip' k.inodes))
                (Stored-append ip d (k.inodes a) k.disk ip' d' blocks off j m src pos fit s new);
        },
      )

  -- The rounds, with `n` bytes left.
  write_chunks-IsWritten :
      (fuel j n : ℕ) (k : Kernel)
      → n ≤ fuel
      → off + (j + n) ≤ blocks * 512
      → IsWritten i a off ip d blocks j src k
      → (k' : Kernel) × (write_chunks sb devsw fuel src j n i k ≡ some (written k'))
        × IsWritten i a off ip d blocks (j + n) src k'
  unfolding write_chunks
  write_chunks-IsWritten zero j n k enough fit h =
      let same : j ≡ j + n = omega arith in
      (k, refl, subst (λ q. IsWritten i a off ip d blocks q src k) same h)
  write_chunks-IsWritten (suc fuel) j n k enough fit h = elim (Bool-cases (n == 0)) [
    | inl e ↦
        let same : j ≡ j + n = ground arith in
        (k, rw e refl, subst (λ q. IsWritten i a off ip d blocks q src k) same h)
    | inr e ↦
        let m = min n max_write in
        let pos : 0 < m = ground arith in
        let one = write_chunk-IsWritten j m k pos (omega arith) h in
        let rest =
          write_chunks-IsWritten fuel (j + m) (n - m) one.0 (omega arith) (omega arith) one.2 in
        let whole : j + m + (n - m) ≡ j + n = omega arith in
        let run = one.1 in
        let more = rest.1 in
        (
          rest.0,
          rw (e, run, more) refl,
          subst (λ q. IsWritten i a off ip d blocks q src rest.0) whole rest.2,
        )
  ]

-- `filewrite` of bytes to a writable file of an inode that is held, loaded and no device, with the
-- offset inside the file or at its end and blocks, none of them the inode's own, that hold all of the
-- range, writes all of them, in however many rounds: it ends with the offset behind them, and with the
-- bytes in the file at the old offset and every other byte of its blocks as before.
pub filewrite-Stored :
    (sb : Superblock) (devsw : ℕ → Option (Io ℕ)) (bytes : List ℕ) (killed : Bool) (naps : List Nap)
    (i blocks : ℕ) (k : Kernel)
    → (k.files i).writable ≡ true
    → (k.files i).type ≡ fd_inode
    → slt 0 (k.inodes (k.files i).ip).ref ≡ true
    → (k.inodes (k.files i).ip).valid ≡ true
    → (k.inodes (k.files i).ip).type ≢ t_dev
    → IsMapped (k.inodes (k.files i).ip) k.disk blocks
    → IsElsewhere
        (k.inodes (k.files i).ip)
        k.disk
        blocks
        (inode_block sb (k.inodes (k.files i).ip).inum)
    → (k.files i).off ≤ (k.inodes (k.files i).ip).size
    → (k.files i).off + length bytes ≤ blocks * 512
    → (k' : Kernel) × (filewrite sb devsw bytes killed naps i k ≡ some (written k'))
      × ((k'.files i).off ≡ (k.files i).off + length bytes)
      × Stored
          (k.inodes (k.files i).ip)
          k.disk
          (k'.inodes (k.files i).ip)
          k'.disk
          blocks
          (k.files i).off
          (length bytes)
          (λ b. get_or bytes b 0)
unfolding filewrite write_kind
filewrite-Stored sb devsw bytes killed naps i blocks k writable kind held loaded plain file away
      start fit =
    let a = (k.files i).ip in
    let off = (k.files i).off in
    let src : Cells = λ b. get_or bytes b 0 in
    let begin : IsWritten i a off (k.inodes a) k.disk blocks 0 src k = record {
      place = refl;
      offset = omega arith;
      stored = Stored-nothing (k.inodes a) k.disk blocks off src file start;
    } in
    let (k', loop, end) =
      write_chunks-IsWritten sb devsw i a off (k.inodes a) k.disk blocks src file held loaded plain
        away (length bytes) 0 (length bytes) k (omega arith) (omega (arith, fit)) begin in
    let whole : 0 + length bytes ≡ length bytes = omega arith in
    let all = subst (λ q. IsWritten i a off (k.inodes a) k.disk blocks q src k') whole end in
    (k', rw (writable, kind) loop, all.offset, all.stored)
