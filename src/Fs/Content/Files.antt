-- ===== src/Fs/Content/Files.antt =====
-- `writei` and `readi` as calls: the write, the inode that it leaves, and the read of the same range.
use os_ca.Common.{
  ℕ, ◌+◌, ◌-◌, ◌*◌, ◌/◌, ◌%◌, ◌≤◌, ◌<◌, ◌≡◌, ◌≢◌, refl, ◌⊎◌, inl, inr, ◌∙◌, sym, ap, false,
  Bool-cases, ◌==◌, ltb, ◌&&◌, ◌||◌, if◌then◌else◌, Option, List, Cells, arith, run, run-ext, add32,
}
use os_ca.Fs.{Superblock, Disk, write_block, block_size}
use os_ca.Fs.Writes.{write_block_ne}
use os_ca.Fs.Inodes.{Inode, n_direct, get32, inode_block, inode_place, store_inode, iupdate}
use os_ca.Fs.Content.{read_done, readi, write_done, writei, Io, done, t_dev, max_size}
use os_ca.Fs.Content.View.{addr_of, content, IsMapped}
use os_ca.Fs.Content.RoundTrip.{read_from-content, Written, write_from-Written}

-- A block that is neither one of the file's nor its indirect block.
pub record IsElsewhere (ip : Inode) (d : Disk) (blocks b : ℕ) : Type 0 where
  pub no_block : (k : ℕ) → k < blocks → addr_of ip d k ≢ b
  pub no_table : ip.addrs n_direct ≢ b

module _ (ip : Inode) (d : Disk) (blocks b : ℕ) (v : Cells)
    (elsewhere : IsElsewhere ip d blocks b) where
  addr_of-elsewhere : (k : ℕ) → addr_of ip (write_block b v d) k ≡ addr_of ip d k
  unfolding addr_of
  addr_of-elsewhere k =
      ap
        (λ (c : Cells).
          if ltb k n_direct
          then ip.addrs k
          else if ip.addrs n_direct == 0
          then 0
          else get32 c (4 * (k - n_direct)))
        (write_block_ne b v d (ip.addrs n_direct) elsewhere.no_table)

  IsMapped-elsewhere : IsMapped ip d blocks → IsMapped ip (write_block b v d) blocks
  IsMapped-elsewhere file = record {
    bound = file.bound;
    mapped = λ k h e. file.mapped k h (sym (addr_of-elsewhere k) ∙ e);
    apart =
        λ i j hi hj e. file.apart i j hi hj (sym (addr_of-elsewhere i) ∙ e ∙ addr_of-elsewhere j);
    table = λ k h e. file.table k h (sym (addr_of-elsewhere k) ∙ e);
  }

  content-elsewhere : (o : ℕ) → o < blocks * 512 → content ip (write_block b v d) o ≡ content ip d o
  unfolding content
  content-elsewhere o h =
      ap (λ a. (write_block b v d).block a (o % block_size)) (addr_of-elsewhere (o / block_size))
      ∙ ap (λ (c : Cells). c (o % block_size))
          (write_block_ne b v d (addr_of ip d (o / block_size))
            (elsewhere.no_block (o / block_size) (omega arith)))

-- A read inside the file, in blocks that are there, returns the content.
pub readi-content :
    (devsw : ℕ → Option (Io (List ℕ))) (sb : Superblock) (ip : Inode) (d : Disk) (blocks off n : ℕ)
    → IsMapped ip d blocks
    → ip.type ≢ t_dev
    → off + n ≤ ip.size
    → off + n ≤ blocks * 512
    → readi devsw sb off n ip d ≡ done (run (content ip d) off n) ip d
unfolding readi read_done
readi-content devsw sb ip d blocks off n file plain within fit =
    let bound = file.bound in
    let kind : (ip.type == t_dev) ≡ false = ground arith in
    let start : (ltb ip.size off || ltb (add32 off n) off) ≡ false = ground arith in
    let whole : ltb ip.size (add32 off n) ≡ false = ground arith in
    let loop = read_from-content sb ip d blocks file n n off (omega arith) fit in
    rw (kind, start, whole, loop, read_done)

module _ (ip : Inode) (d : Disk) (size : ℕ) where
  IsMapped-size :
      (blocks : ℕ) → IsMapped ip d blocks → IsMapped (record ip { size = size }) d blocks
  unfolding addr_of
  IsMapped-size blocks file = record {
    bound = file.bound;
    mapped = file.mapped;
    apart = file.apart;
    table = file.table;
  }

  addr_of-size : (k : ℕ) → addr_of (record ip { size = size }) d k ≡ addr_of ip d k
  unfolding addr_of
  addr_of-size k = refl

  content-size : (o : ℕ) → content (record ip { size = size }) d o ≡ content ip d o
  unfolding content addr_of
  content-size o = refl

-- A file after a write.
pub record Stored (ip : Inode) (d : Disk) (ip' : Inode) (d' : Disk) (blocks off n : ℕ) (src : Cells)
    : Type 0 where
  pub file : IsMapped ip' d' blocks
  pub type : ip'.type ≡ ip.type
  pub covers : off + n ≤ ip'.size
  pub no_less : ip.size ≤ ip'.size
  pub size : (ip'.size ≡ ip.size) ⊎ (ip'.size ≡ off + n)
  pub inside : (k : ℕ) → k < n → content ip' d' (off + k) ≡ src k
  pub outside :
      (o : ℕ) → o < off ⊎ off + n ≤ o → o < blocks * 512 → content ip' d' o ≡ content ip d o
  pub same_place : (k : ℕ) → addr_of ip' d' k ≡ addr_of ip d k
  pub same_inode :
      (ip'.ref ≡ ip.ref) × (ip'.valid ≡ ip.valid) × (ip'.inum ≡ ip.inum) × (ip'.addrs ≡ ip.addrs)

module _ (sb : Superblock) (ip : Inode) (blocks off n : ℕ) (src : Cells) (d d1 : Disk)
    (w : Written ip d d1 blocks off n src 0) where
  same_byte : (k : ℕ) → k < n → content ip d1 (off + k) ≡ src k
  same_byte k h = w.inside (off + k) (omega arith) (omega arith) ∙ ap src (omega arith)

  kept-Stored : off + n ≤ ip.size → Stored ip d ip d1 blocks off n src
  kept-Stored h = record {
    file = w.file;
    type = refl;
    covers = h;
    no_less = omega arith;
    size = inl refl;
    inside = same_byte;
    outside = w.outside;
    same_place = w.same_place;
    same_inode = (refl, refl, refl, refl);
  }

  grown-Stored :
      off + n ≤ blocks * 512
      → ip.size < off + n
      → IsElsewhere ip d blocks (inode_block sb ip.inum)
      → let grown = record ip { size = off + n } in
        Stored ip d grown (iupdate sb grown d1) blocks off n src
  unfolding iupdate
  grown-Stored fit longer away =
      let b = inode_block sb ip.inum in
      let v : Cells =
        store_inode (inode_place ip.inum) (record ip { size = off + n }) (d1.block b) in
      let d2 = write_block b v d1 in
      let elsewhere : IsElsewhere ip d1 blocks b = record {
        no_block = λ k h e. away.no_block k h (sym (w.same_place k) ∙ e);
        no_table = away.no_table;
      } in
      let same = λ (o : ℕ) (h : o < blocks * 512).
        content-size ip d2 (off + n) o ∙ content-elsewhere ip d1 blocks b v elsewhere o h in
      record {
        file =
            IsMapped-size ip d2 (off + n) blocks
              (IsMapped-elsewhere ip d1 blocks b v elsewhere w.file);
        type = refl;
        covers = omega arith;
        no_less = omega (arith, longer);
        size = inr refl;
        inside = λ k h. same (off + k) (omega arith) ∙ same_byte k h;
        outside = λ o p q. same o q ∙ w.outside o p q;
        same_place = λ k.
            addr_of-size ip d2 (off + n) k
            ∙ addr_of-elsewhere ip d1 blocks b v elsewhere k
            ∙ w.same_place k;
        same_inode = (refl, refl, refl, refl);
      }

-- A write that starts inside a file or at its end, into blocks that are there, stores the bytes and
-- leaves the others; it returns the count.
pub writei-Stored :
    (devsw : ℕ → Option (Io ℕ)) (sb : Superblock) (ip : Inode) (d : Disk) (blocks off n : ℕ)
    (src : Cells)
    → IsMapped ip d blocks
    → IsElsewhere ip d blocks (inode_block sb ip.inum)
    → ip.type ≢ t_dev
    → off ≤ ip.size
    → off + n ≤ blocks * 512
    → (ip' : Inode) × (d' : Disk) × (writei devsw sb src off n ip d ≡ done n ip' d')
      × Stored ip d ip' d' blocks off n src
unfolding writei write_done
writei-Stored devsw sb ip d blocks off n src file away plain start fit =
    let bound = file.bound in
    let kind : (ip.type == t_dev) ≡ false = ground arith in
    let begin : (ltb ip.size off || ltb (add32 off n) off) ≡ false = ground arith in
    let room : ltb max_size (add32 off n) ≡ false = ground arith in
    let (d1, loop, w) = write_from-Written sb ip blocks src n n 0 off d file (omega arith) fit in
    elim (Bool-cases (ltb 0 n && ltb ip.size (off + n))) [
      | inl e ↦
          let grown = record ip { size = off + n } in
          (
            grown,
            iupdate sb grown d1,
            rw (kind, begin, room, loop, e),
            grown-Stored sb ip blocks off n src d d1 w fit (ground arith) away,
          )
      | inr e ↦ (
        ip,
        d1,
        rw (kind, begin, room, loop, e),
        kept-Stored sb ip blocks off n src d d1 w (ground arith),
      )
    ]

-- A write that starts inside a file or at its end, into blocks that are there, returns the count of
-- its bytes; then a read of the range returns those bytes, and a read of any other range inside the
-- file and outside the written one returns what it returned before.
pub readi-writei :
    (devr : ℕ → Option (Io (List ℕ))) (devw : ℕ → Option (Io ℕ)) (sb : Superblock) (ip : Inode)
    (d : Disk) (blocks off n : ℕ) (src : Cells)
    → IsMapped ip d blocks
    → IsElsewhere ip d blocks (inode_block sb ip.inum)
    → ip.type ≢ t_dev
    → off ≤ ip.size
    → off + n ≤ blocks * 512
    → (ip' : Inode) × (d' : Disk) × (writei devw sb src off n ip d ≡ done n ip' d')
      × (readi devr sb off n ip' d' ≡ done (run src 0 n) ip' d')
      × ((o m : ℕ)
          → o + m ≤ off ⊎ off + n ≤ o
          → o + m ≤ ip.size
          → o + m ≤ blocks * 512
          → readi devr sb o m ip' d' ≡ done (run (content ip d) o m) ip' d')
readi-writei devr devw sb ip d blocks off n src file away plain start fit =
    let (ip', d', wrote, s) =
      writei-Stored devw sb ip d blocks off n src file away plain start fit in
    let plain' : ip'.type ≢ t_dev = λ e. plain (sym s.type ∙ e) in
    (
      ip',
      d',
      wrote,
      readi-content devr sb ip' d' blocks off n s.file plain' s.covers fit
          ∙ ap (λ l. done l ip' d')
              (run-ext (content ip' d') src n off 0 (λ k h. s.inside k h ∙ ap src (omega arith))),
      λ o m out in_file in_blocks.
          readi-content devr sb ip' d' blocks o m s.file plain' (omega (arith, s.no_less)) in_blocks
          ∙ ap (λ l. done l ip' d')
              (run-ext (content ip' d') (content ip d) m o o
                (λ k h. s.outside (o + k) (omega arith) (omega arith))),
    )
