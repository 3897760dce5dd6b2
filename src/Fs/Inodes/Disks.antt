-- ===== src/Fs/Inodes/Disks.antt =====
-- What `iupdate` writes, `ilock` reads back.
use os_ca.Common.{
  ℕ, zero, suc, ◌+◌, ◌*◌, ◌≤◌, ◌<◌, ◌≡◌, ◌≢◌, refl, ◌⊎◌, inl, inr, ◌∙◌, sym, ap, ap₂, true, false,
  Bool-cases, ◌==◌, ltb, slt, some, Cells, arith, subst, if_cases,
}
use os_ca.Fs.{Superblock, Disk}
use os_ca.Fs.Writes.{write_block_self}
use os_ca.Fs.Inodes.{
  Inode, inode_block, inode_place, get16, get32, put16, put32, store_addrs, store_inode, iupdate,
  load_inode, ilock,
}

get16-put16 : (a v : ℕ) (c : Cells) → v < 65536 → get16 (put16 a v c) a ≡ v
unfolding get16 put16
get16-put16 a v c h = ground arith

get32-put32 : (a v : ℕ) (c : Cells) → v < 4294967296 → get32 (put32 a v c) a ≡ v
unfolding get32 put32
get32-put32 a v c h = ground arith

put32-outside : (a v : ℕ) (c : Cells) (x : ℕ) → x < a ⊎ a + 4 ≤ x → put32 a v c x ≡ c x
unfolding put32
put32-outside a v c x h = ground arith

get16-same :
    (a : ℕ) (c c' : Cells) → ((x : ℕ) → a ≤ x → x < a + 2 → c x ≡ c' x) → get16 c a ≡ get16 c' a
unfolding get16
get16-same a c c' h =
    omega (arith, h a (omega arith) (omega arith), h (a + 1) (omega arith) (omega arith))

get32-same :
    (a : ℕ) (c c' : Cells) → ((x : ℕ) → a ≤ x → x < a + 4 → c x ≡ c' x) → get32 c a ≡ get32 c' a
unfolding get32
get32-same a c c' h = omega (
  arith,
  h a (omega arith) (omega arith),
  h (a + 1) (omega arith) (omega arith),
  h (a + 2) (omega arith) (omega arith),
  h (a + 3) (omega arith) (omega arith),
)

store_addrs-outside :
    (n i a : ℕ) (addrs c : Cells) (x : ℕ)
    → x < a + 4 * i ⊎ a + 4 * (i + n) ≤ x
    → store_addrs n i a addrs c x ≡ c x
unfolding store_addrs
store_addrs-outside zero i a addrs c x h = refl
store_addrs-outside (suc n) i a addrs c x h =
    store_addrs-outside n (i + 1) a addrs (put32 (a + 4 * i) (addrs i) c) x (omega arith)
    ∙ put32-outside (a + 4 * i) (addrs i) c x (omega arith)

store_addrs-word :
    (n i a : ℕ) (addrs c : Cells) (k : ℕ)
    → i ≤ k
    → k < i + n
    → addrs k < 4294967296
    → get32 (store_addrs n i a addrs c) (a + 4 * k) ≡ addrs k
unfolding store_addrs
store_addrs-word zero i a addrs c k p q h = absurd (omega arith)
store_addrs-word (suc n) i a addrs c k p q h = elim (Bool-cases (k == i)) [
  | inl e ↦
      let same : k ≡ i = ground arith in
      let step : Cells = put32 (a + 4 * i) (addrs i) c in
      get32-same (a + 4 * k) (store_addrs n (i + 1) a addrs step) step
        (λ x l u. store_addrs-outside n (i + 1) a addrs step x (omega arith))
      ∙ ap (λ j. get32 step (a + 4 * j)) same
      ∙ get32-put32 (a + 4 * i) (addrs i) c (subst (λ j. addrs j < 4294967296) same h)
      ∙ ap addrs (sym same)
  | inr e ↦
      store_addrs-word n (i + 1) a addrs (put32 (a + 4 * i) (addrs i) c) k (ground arith)
        (omega arith) h
]

-- The fields fit the types that they have on the disk.
pub record Fits (ip : Inode) : Type 0 where
  pub type : ip.type < 65536
  pub major : ip.major < 65536
  pub minor : ip.minor < 65536
  pub nlink : ip.nlink < 65536
  pub size : ip.size < 4294967296
  pub addrs : (i : ℕ) → i < 13 → ip.addrs i < 4294967296

module _ (a : ℕ) (ip : Inode) (c : Cells) (fits : Fits ip) where
  abbrev head : Cells
  head =
      put32 (a + 8) ip.size (
        put16 (a + 6) ip.nlink
          (put16 (a + 4) ip.minor (put16 (a + 2) ip.major (put16 a ip.type c))))

  behind : (x : ℕ) → x < a + 12 → store_inode a ip c x ≡ head x
  unfolding store_inode
  behind x h = store_addrs-outside 13 0 (a + 12) ip.addrs head x (omega arith)

  short_at :
      (p v : ℕ) → p + 2 ≤ 12 → get16 head (a + p) ≡ v → get16 (store_inode a ip c) (a + p) ≡ v
  short_at p v h e =
      get16-same (a + p) (store_inode a ip c) head (λ x l u. behind x (omega arith)) ∙ e

  type_in : get16 (store_inode a ip c) a ≡ ip.type
  unfolding get16 put16 put32
  type_in =
      let h = fits.type in
      let here : get16 head a ≡ ip.type = ground arith in
      get16-same a (store_inode a ip c) head (λ x l u. behind x (omega arith)) ∙ here

  major_in : get16 (store_inode a ip c) (a + 2) ≡ ip.major
  unfolding get16 put16 put32
  major_in = let h = fits.major in short_at 2 ip.major (omega arith) (ground arith)

  minor_in : get16 (store_inode a ip c) (a + 4) ≡ ip.minor
  unfolding get16 put16 put32
  minor_in = let h = fits.minor in short_at 4 ip.minor (omega arith) (ground arith)

  nlink_in : get16 (store_inode a ip c) (a + 6) ≡ ip.nlink
  unfolding get16 put16 put32
  nlink_in = let h = fits.nlink in short_at 6 ip.nlink (omega arith) (ground arith)

  size_in : get32 (store_inode a ip c) (a + 8) ≡ ip.size
  size_in =
      get32-same (a + 8) (store_inode a ip c) head (λ x l u. behind x (omega arith))
      ∙ get32-put32 (a + 8) ip.size _ fits.size

  addrs_in : (i : ℕ) → i < 13 → get32 (store_inode a ip c) (a + 12 + 4 * i) ≡ ip.addrs i
  unfolding store_inode
  addrs_in i h =
      store_addrs-word 13 0 (a + 12) ip.addrs head i (omega arith) (omega arith) (fits.addrs i h)

-- The fields that the disk keeps are the same.
pub record SameOnDisk (ip r : Inode) : Type 0 where
  pub type : r.type ≡ ip.type
  pub major : r.major ≡ ip.major
  pub minor : r.minor ≡ ip.minor
  pub nlink : r.nlink ≡ ip.nlink
  pub size : r.size ≡ ip.size
  pub addrs : (i : ℕ) → i < 13 → r.addrs i ≡ ip.addrs i

ilock-reads :
    (sb : Superblock) (ip : Inode) (d : Disk)
    → let read = load_inode (inode_place ip.inum) (d.block (inode_block sb ip.inum)) ip in
      ip.valid ≡ false → slt 0 ip.ref ≡ true → read.type ≢ 0 → ilock sb ip d ≡ some read
unfolding ilock
ilock-reads sb ip d invalid held ne =
    let free : slt ip.ref 1 ≡ false = ground arith in
    let read = load_inode (inode_place ip.inum) (d.block (inode_block sb ip.inum)) ip in
    let kind : (read.type == 0) ≡ false = ground arith in
    if_cases (λ o. o ≡ some read) (slt ip.ref 1) _ _ (λ h. cc)
      (λ _.
        if_cases (λ o. o ≡ some read) ip.valid _ _ (λ h. cc)
          (λ _. if_cases (λ o. o ≡ some read) (read.type == 0) _ _ (λ h. cc) (λ _. refl)))

-- What `iupdate` writes of an inode, `ilock` reads into any entry of the cache for the same inode
-- that is in use, with a positive count, and not valid yet: it succeeds, for an inode whose type is not zero and whose fields fit the
-- disk's types, and all six fields of the disk are those that were written.
pub ilock-iupdate :
    (sb : Superblock) (ip cached : Inode) (d : Disk)
    → Fits ip
    → ip.type ≢ 0
    → cached.inum ≡ ip.inum
    → cached.valid ≡ false
    → slt 0 cached.ref ≡ true
    → (r : Inode) × (ilock sb cached (iupdate sb ip d) ≡ some r) × SameOnDisk ip r
unfolding iupdate load_inode
ilock-iupdate sb ip cached d fits ne same invalid held =
    let b = inode_block sb ip.inum in
    let a = inode_place ip.inum in
    let c : Cells = store_inode a ip (d.block b) in
    let r = load_inode a c cached in
    let written : (iupdate sb ip d).block (inode_block sb cached.inum) ≡ c =
      ap (λ n. (iupdate sb ip d).block (inode_block sb n)) same ∙ write_block_self b c d in
    let kind : r.type ≡ ip.type = type_in a ip (d.block b) fits in
    let read =
      load_inode (inode_place cached.inum) ((iupdate sb ip d).block (inode_block sb cached.inum))
        cached in
    let e : read ≡ r = ap₂ (λ n (q : Cells). load_inode (inode_place n) q cached) same written in
    let run =
      ilock-reads sb cached (iupdate sb ip d) invalid held
        (λ z. ne (sym kind ∙ ap (λ (i : Inode). i.type) (sym e) ∙ z)) in
    (
      r,
      run ∙ ap (λ (i : Inode). some i) e,
      record {
        type = kind;
        major = major_in a ip (d.block b) fits;
        minor = minor_in a ip (d.block b) fits;
        nlink = nlink_in a ip (d.block b) fits;
        size = size_in a ip (d.block b) fits;
        addrs = λ i h.
            let low : ltb i 13 ≡ true = ground arith in rw low (addrs_in a ip (d.block b) fits i h);
      },
    )
