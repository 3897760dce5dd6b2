-- ===== src/Fs/Blocks/FreeMap.antt =====
-- The free map as a set of blocks: what allocating and freeing a block do to it.
use os_ca.Common.{
  ℕ, ◌/◌, ◌%◌, ◌<◌, ◌≡◌, ◌≢◌, refl, inl, inr, ◌∙◌, sym, ap, Bool, true, false, Bool-cases, ◌==◌,
  ◌||◌, ◌&&◌, not, some, Cells, put, put_ne, put_self, arith, subst, ap₂,
}
use os_ca.Fs.{
  Superblock, Disk, write_block, bits_per_block, bitmap_block, has_bit, set_bit, clear_bit,
}
use os_ca.Fs.Bits.{has_bit-set_bit, has_bit-clear_bit, set_bit-lt}
use os_ca.Fs.Writes.{write_block_self, write_block_ne}
use os_ca.Fs.Blocks.{mark, unmark, balloc, bfree}
use os_ca.Fs.Blocks.Alloc.{is_used, Taken, Balloc, takes, balloc-Balloc}

-- What a bit of a map is after one byte of the map has changed at one bit.
module _ (bi k : ℕ) (c : Cells) (bytes : (a : ℕ) → c a < 256) where
  at_byte :
      (v : ℕ) (f : Bool → Bool → Bool)
      → has_bit v (k % 8) ≡ f (k % 8 == bi % 8) (has_bit (c (bi / 8)) (k % 8))
      → f false (has_bit (c (k / 8)) (k % 8)) ≡ has_bit (c (k / 8)) (k % 8)
      → has_bit (put c (bi / 8) v (k / 8)) (k % 8) ≡ f (k == bi) (has_bit (c (k / 8)) (k % 8))
  at_byte v f changed kept = elim (Bool-cases (k / 8 == bi / 8)) [
    | inl e ↦
        let same : k / 8 ≡ bi / 8 = ground arith in
        let test : (k % 8 == bi % 8) ≡ (k == bi) = ground arith in
        ap (λ i. has_bit (put c (bi / 8) v i) (k % 8)) same
        ∙ ap (λ x. has_bit x (k % 8)) (put_self c (bi / 8) v)
        ∙ changed
        ∙ ap₂ (λ t i. f t (has_bit (c i) (k % 8))) test (sym same)
    | inr e ↦
        let other : (k == bi) ≡ false = ground arith in
        ap (λ x. has_bit x (k % 8)) (put_ne c (bi / 8) v (k / 8) (ground arith))
        ∙ sym kept
        ∙ ap (λ t. f t (has_bit (c (k / 8)) (k % 8))) (sym other)
  ]

  has_bit-mark : has_bit (mark bi c (k / 8)) (k % 8) ≡ ((k == bi) || has_bit (c (k / 8)) (k % 8))
  unfolding mark
  has_bit-mark =
      at_byte (set_bit (c (bi / 8)) (bi % 8)) (λ t x. t || x)
        (has_bit-set_bit (c (bi / 8)) (bi % 8) (k % 8) (bytes (bi / 8)) (omega arith) (omega arith))
        refl

  has_bit-unmark :
      has_bit (unmark bi c (k / 8)) (k % 8) ≡ (not (k == bi) && has_bit (c (k / 8)) (k % 8))
  unfolding unmark
  has_bit-unmark =
      at_byte (clear_bit (c (bi / 8)) (bi % 8)) (λ t x. not t && x)
        (has_bit-clear_bit (c (bi / 8)) (bi % 8) (k % 8) (bytes (bi / 8)) (omega arith)
          (omega arith))
        refl

-- The bit of block `k` in the block of the map that is its own.
abbrev bit_of : ℕ → Cells → Bool
bit_of k c = has_bit (c (k % bits_per_block / 8)) (k % 8)

module _ (sb : Superblock) (b k : ℕ) (c : Cells) (bytes : (a : ℕ) → c a < 256)
    (same : bitmap_block sb k ≡ bitmap_block sb b) where
  low_bit : k % 4096 % 8 ≡ k % 8
  low_bit = omega arith

  same_bit : (k % 4096 == b % 4096) ≡ (k == b)
  same_bit = ground arith

  bit_of-mark : bit_of k (mark (b % bits_per_block) c) ≡ ((k == b) || bit_of k c)
  bit_of-mark =
      subst
        (λ i.
          has_bit (mark (b % bits_per_block) c (k % 4096 / 8)) i
          ≡ ((k == b) || has_bit (c (k % 4096 / 8)) i))
        low_bit
        (has_bit-mark (b % bits_per_block) (k % bits_per_block) c bytes
          ∙ ap (λ t. t || has_bit (c (k % 4096 / 8)) (k % 4096 % 8)) same_bit)

  bit_of-unmark : bit_of k (unmark (b % bits_per_block) c) ≡ (not (k == b) && bit_of k c)
  bit_of-unmark =
      subst
        (λ i.
          has_bit (unmark (b % bits_per_block) c (k % 4096 / 8)) i
          ≡ (not (k == b) && has_bit (c (k % 4096 / 8)) i))
        low_bit
        (has_bit-unmark (b % bits_per_block) (k % bits_per_block) c bytes
          ∙ ap (λ t. not t && has_bit (c (k % 4096 / 8)) (k % 4096 % 8)) same_bit)

-- The map's own blocks are in use, and what it holds are bytes.
pub record IsMap (sb : Superblock) (d : Disk) : Type 0 where
  pub bytes : (b a : ℕ) → d.block b a < 256
  pub reserved : (k : ℕ) → k < sb.size → is_used sb d (bitmap_block sb k) ≡ true

module _ (sb : Superblock) (d d' : Disk) (b : ℕ) (map : IsMap sb d) (t : Taken sb d b d') where
  apart : (k : ℕ) → k < sb.size → bitmap_block sb k ≢ b
  apart k h e = let used = map.reserved k h in let free = t.was_free in cc (ap (is_used sb d) e)

  -- After an allocation the map has the block in use, and every other block as before.
  pub Taken-is_used : (k : ℕ) → k < sb.size → is_used sb d' k ≡ ((k == b) || is_used sb d k)
  unfolding is_used
  Taken-is_used k h = elim (Bool-cases (bitmap_block sb k == bitmap_block sb b)) [
    | inl e ↦
        let same : bitmap_block sb k ≡ bitmap_block sb b = ground arith in
        ap (λ i. bit_of k (d'.block i)) same
        ∙ ap (bit_of k) (t.marked (apart b t.inside))
        ∙ bit_of-mark sb b k (d.block (bitmap_block sb b)) (map.bytes (bitmap_block sb b)) same
        ∙ ap (λ i. (k == b) || bit_of k (d.block i)) (sym same)
    | inr e ↦
        let other : (k == b) ≡ false = ground arith in
        let kept = t.others (bitmap_block sb k) (apart k h) (ground arith) in rw (kept, other)
  ]

  abbrev bm : ℕ
  bm = bitmap_block sb b

  abbrev freed : Disk
  freed = write_block bm (unmark (b % bits_per_block) (d'.block bm)) d'

  map_bytes : (a : ℕ) → d'.block bm a < 256
  unfolding mark
  map_bytes a =
      let old = map.bytes bm a in
      let new =
        set_bit-lt (d.block bm (b % 4096 / 8)) (b % 4096 % 8) (map.bytes bm (b % 4096 / 8))
          (omega arith) in
      subst (λ (c : Cells). c a < 256) (sym (t.marked (apart b t.inside))) (ground arith)

  freed-is_used : (k : ℕ) → k < sb.size → is_used sb freed k ≡ (not (k == b) && is_used sb d' k)
  unfolding is_used
  freed-is_used k h = elim (Bool-cases (bitmap_block sb k == bm)) [
    | inl e ↦
        let same : bitmap_block sb k ≡ bm = ground arith in
        ap (λ i. bit_of k (freed.block i)) same
        ∙ ap (bit_of k) (write_block_self bm (unmark (b % bits_per_block) (d'.block bm)) d')
        ∙ bit_of-unmark sb b k (d'.block bm) map_bytes same
        ∙ ap (λ i. not (k == b) && bit_of k (d'.block i)) (sym same)
    | inr e ↦
        let other : (k == b) ≡ false = ground arith in
        let kept =
          write_block_ne bm (unmark (b % bits_per_block) (d'.block bm)) d' (bitmap_block sb k)
            (ground arith) in
        rw (kept, other)
  ]

  bfree-some : bfree b sb d' ≡ some freed
  unfolding bfree is_used
  bfree-some =
      let here : (b == b) ≡ true = ground arith in
      let low : b % 4096 % 8 ≡ b % 8 = omega arith in
      let used : bit_of b (d'.block bm) ≡ true =
        Taken-is_used b t.inside ∙ ap (λ q. q || is_used sb d b) here in
      rw (low, used)

  -- Freeing the block again takes it out of the map, and changes no other block's bit.
  pub bfree-Taken :
      (d'' : Disk) × (bfree b sb d' ≡ some d'')
      × ((k : ℕ) → k < sb.size → is_used sb d'' k ≡ is_used sb d k)
  bfree-Taken = (
    freed,
    bfree-some,
    λ k h.
        let was_free = t.was_free in
        let step = freed-is_used k h ∙ ap (λ x. not (k == b) && x) (Taken-is_used k h) in
        elim (Bool-cases (k == b)) [
          | inl e ↦
              let same : k ≡ b = ground arith in
              step
              ∙ ap (λ q. not q && (q || is_used sb d k)) e
              ∙ sym (ap (is_used sb d) same ∙ was_free)
          | inr e ↦ step ∙ rw e
        ],
  )

given-Balloc :
    (sb : Superblock) (d d' : Disk) (b : ℕ)
    → IsMap sb d
    → Balloc sb d 0 (some (b, d'))
    → ((k : ℕ) → k < sb.size → is_used sb d' k ≡ ((k == b) || is_used sb d k))
      × (d'' : Disk) × (bfree b sb d' ≡ some d'')
      × ((k : ℕ) → k < sb.size → is_used sb d'' k ≡ is_used sb d k)
given-Balloc sb d d' b map (takes _ _ _ t) =
    let (d'', e, back) = bfree-Taken sb d d' b map t in
    (Taken-is_used sb d d' b map t, d'', e, back)

-- Where the map is sound, the block that `balloc` gives becomes the only new one in use, and freeing
-- it succeeds and gives the map back.
pub bfree-balloc :
    (sb : Superblock) (d d' : Disk) (b : ℕ)
    → IsMap sb d
    → balloc sb d ≡ some (b, d')
    → ((k : ℕ) → k < sb.size → is_used sb d' k ≡ ((k == b) || is_used sb d k))
      × (d'' : Disk) × (bfree b sb d' ≡ some d'')
      × ((k : ℕ) → k < sb.size → is_used sb d'' k ≡ is_used sb d k)
bfree-balloc sb d d' b map e =
    given-Balloc sb d d' b map (subst (Balloc sb d 0) e (balloc-Balloc sb d))
