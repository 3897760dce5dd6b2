-- ===== src/Fs/Content/RoundTrip.antt =====
-- What `writei` stores, `readi` returns.
use os_ca.Common.{
  ℕ, zero, suc, ◌+◌, ◌-◌, ◌*◌, ◌/◌, ◌%◌, ◌≤◌, ◌<◌, ◌≡◌, ◌≢◌, refl, ◌⊎◌, inl, inr, ◌∙◌, sym, ap, ap₂,
  true, false, Bool-cases, ◌==◌, ltb, leb, ◌&&◌, if◌then◌else◌, some, List, ◌++◌, Cells, arith, run,
  run-append, run-ext,
}
use os_ca.Fs.{Superblock, Disk, write_block, block_size}
use os_ca.Fs.Writes.{write_block_ne}
use os_ca.Fs.Inodes.{Inode}
use os_ca.Fs.Content.{bmap, chunk, read_from, overwrite, write_from}
use os_ca.Fs.Content.View.{
  addr_of, content, IsMapped, bmap-addr_of, addr_of-write, IsMapped-write, content-write_in,
  content-write_out,
}

module _ (sb : Superblock) (ip : Inode) (d : Disk) (blocks : ℕ) (file : IsMapped ip d blocks) where
  found :
      (off : ℕ)
      → off < blocks * 512
      → bmap sb (off / block_size) ip d ≡ some (addr_of ip d (off / block_size), ip, d)
  found off h =
      let bound = file.bound in
      bmap-addr_of sb (off / block_size) ip d (omega arith)
        (file.mapped (off / block_size) (omega arith))

  -- What one round reads.
  run-content :
      (off m : ℕ)
      → off % 512 + m ≤ 512
      → run (d.block (addr_of ip d (off / block_size))) (off % block_size) m
        ≡ run (content ip d) off m
  unfolding content
  run-content off m h =
      run-ext (d.block (addr_of ip d (off / block_size))) (content ip d) m (off % block_size) off
        (λ k p.
          let block : (off + k) / block_size ≡ off / block_size = omega arith in
          let place : (off + k) % block_size ≡ off % block_size + k = omega arith in
          ap₂ (λ b p. d.block (addr_of ip d b) p) (sym block) (sym place))

  -- The loop of `readi` returns the content of the blocks that are there.
  pub read_from-content :
      (k n off : ℕ)
      → n ≤ k
      → off + n ≤ blocks * 512
      → read_from sb k n off ip d ≡ some (run (content ip d) off n, ip, d)
  unfolding read_from run
  read_from-content zero n off h fit = let nothing : n ≡ 0 = omega arith in rw nothing
  read_from-content (suc k) n off h fit = elim (Bool-cases (n == 0)) [
    | inl e ↦ let nothing : n ≡ 0 = ground arith in rw (e, nothing)
    | inr e ↦
        let m = chunk n off in
        let some_bytes : 0 < m = ground arith in
        let first = found off (omega arith) in
        let rest = read_from-content k (n - m) (off + m) (omega arith) (omega arith) in
        let joined : run (d.block (addr_of ip d (off / block_size))) (off % block_size) m
              ++ run (content ip d) (off + m) (n - m)
            ≡ run (content ip d) off n =
          ap (λ l. l ++ run (content ip d) (off + m) (n - m)) (run-content off m (omega arith))
          ∙ sym (run-append (content ip d) m (n - m) off)
          ∙ ap (run (content ip d) off) (omega arith) in
        rw (e, first, rest) (ap (λ (l : List ℕ). some (l, ip, d)) joined)
  ]

-- What a file holds after a write of `n` bytes at `off`, those of `src` from index `i` on.
pub record Written (ip : Inode) (d d' : Disk) (blocks off n : ℕ) (src : Cells) (i : ℕ)
    : Type 0 where
  pub file : IsMapped ip d' blocks
  pub same_place : (k : ℕ) → addr_of ip d' k ≡ addr_of ip d k
  pub inside : (o : ℕ) → off ≤ o → o < off + n → content ip d' o ≡ src (i + (o - off))
  pub outside :
      (o : ℕ) → o < off ⊎ off + n ≤ o → o < blocks * 512 → content ip d' o ≡ content ip d o
  pub others : (b : ℕ) → ((k : ℕ) → k < blocks → addr_of ip d k ≢ b) → d'.block b ≡ d.block b

Written-nothing :
    (ip : Inode) (d : Disk) (blocks off n i : ℕ) (src : Cells)
    → IsMapped ip d blocks
    → n ≡ 0
    → Written ip d d blocks off n src i
Written-nothing ip d blocks off n i src file none_left = record {
  file = file;
  same_place = λ k. refl;
  inside = λ o p q. absurd (omega arith);
  outside = λ o p q. refl;
  others = λ b p. refl;
}

-- One round of the loop, and then the rest of it.
module _ (ip : Inode) (d : Disk) (blocks off n i : ℕ) (src : Cells) (file : IsMapped ip d blocks)
    (pos : 0 < n) (fit : off + n ≤ blocks * 512) where
  abbrev m : ℕ
  m = chunk n off

  abbrev target : ℕ
  target = addr_of ip d (off / block_size)

  abbrev stored : Cells
  stored = overwrite (off % block_size) m src i (d.block target)

  abbrev stepped : Disk
  stepped = write_block target stored d

  bn-lt : off / block_size < blocks
  bn-lt = omega arith

  stepped_in : (o : ℕ) → off ≤ o → o < off + m → content ip stepped o ≡ src (i + (o - off))
  unfolding overwrite
  stepped_in o p q =
      let block : o / block_size ≡ off / block_size = omega arith in
      let place : o % 512 - off % 512 ≡ o - off = omega arith in
      let low : leb (off % 512) (o % 512) ≡ true = ground arith in
      let high : ltb (o % 512) (off % 512 + m) ≡ true = ground arith in
      content-write_in ip d blocks file (off / block_size) bn-lt stored o block
      ∙ rw (low, high, place)

  kept :
      (o : ℕ)
      → o < off ⊎ off + m ≤ o
      → o / block_size ≡ off / block_size
      → stored (o % block_size) ≡ content ip d o
  unfolding overwrite content
  kept o p block =
      let outside : (leb (off % 512) (o % 512) && ltb (o % 512) (off % 512 + m)) ≡ false =
        ground arith in
      ap (λ t. if t then src (i + (o % 512 - off % 512)) else d.block target (o % 512)) outside
      ∙ ap (λ b. d.block (addr_of ip d b) (o % 512)) (sym block)

  stepped_out :
      (o : ℕ) → o < off ⊎ off + m ≤ o → o < blocks * 512 → content ip stepped o ≡ content ip d o
  stepped_out o p q = elim (Bool-cases (o / block_size == off / block_size)) [
    | inl e ↦
        let block : o / block_size ≡ off / block_size = ground arith in
        content-write_in ip d blocks file (off / block_size) bn-lt stored o block ∙ kept o p block
    | inr e ↦
        content-write_out ip d blocks file (off / block_size) bn-lt stored o (omega arith)
          (ground arith)
  ]

  Written-round :
      (d' : Disk)
      → Written ip stepped d' blocks (off + m) (n - m) src (i + m)
      → Written ip d d' blocks off n src i
  Written-round d' w = record {
    file = w.file;
    same_place =
        λ k. w.same_place k ∙ addr_of-write ip d blocks file (off / block_size) bn-lt stored k;
    inside = λ o p q. elim (Bool-cases (ltb o (off + m))) [
      | inl e ↦ w.outside o (inl (ground arith)) (omega arith) ∙ stepped_in o p (ground arith)
      | inr e ↦ w.inside o (ground arith) (omega arith) ∙ ap src (ground arith)
    ];
    outside = λ o p q. w.outside o (omega arith) q ∙ stepped_out o (omega arith) q;
    others = λ b p.
        w.others b (λ k h e.
          p k h (sym (addr_of-write ip d blocks file (off / block_size) bn-lt stored k) ∙ e))
        ∙ write_block_ne target stored d b (λ e. p (off / block_size) bn-lt (sym e));
  }

module _ (sb : Superblock) (ip : Inode) (blocks : ℕ) (src : Cells) where
  -- The loop of `writei` stores the bytes in the blocks that are there.
  pub write_from-Written :
      (k n i off : ℕ) (d : Disk)
      → IsMapped ip d blocks
      → n ≤ k
      → off + n ≤ blocks * 512
      → (d' : Disk) × (write_from sb k n src i off ip d ≡ some (ip, d'))
        × Written ip d d' blocks off n src i
  unfolding write_from
  write_from-Written zero n i off d file h fit =
      (d, refl, Written-nothing ip d blocks off n i src file (omega arith))
  write_from-Written (suc k) n i off d file h fit = elim (Bool-cases (n == 0)) [
    | inl e ↦ (d, rw e, Written-nothing ip d blocks off n i src file (ground arith))
    | inr e ↦
        let pos : 0 < n = ground arith in
        let first = found sb ip d blocks file off (omega arith) in
        let a = addr_of ip d (off / block_size) in
        let v : Cells = overwrite (off % block_size) (chunk n off) src i (d.block a) in
        let next =
          write_from-Written k (n - chunk n off) (i + chunk n off) (off + chunk n off)
            (write_block a v d) (IsMapped-write ip d blocks file (off / block_size) (omega arith) v)
            (omega arith) (omega arith) in
        let run = next.1 in
        (
          next.0,
          rw (e, first, run),
          Written-round ip d blocks off n i src file pos fit next.0 next.2,
        )
  ]
