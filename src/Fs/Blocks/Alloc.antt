-- ===== src/Fs/Blocks/Alloc.antt =====
-- What `balloc` and `bfree` do to the free map, and to the other blocks.
use os_ca.Common.{
  ℕ, zero, suc, ◌+◌, ◌-◌, ◌*◌, ◌/◌, ◌%◌, ◌≤◌, ◌<◌, ◌≡◌, ◌≢◌, inl, inr, ◌∙◌, sym, ap, Bool, true,
  false, Bool-cases, ◌==◌, if◌then◌else◌, if_cases, min, ltb, Option, none, some, Cells, arith, ◌∷◌,
  subst,
}
use os_ca.Fs.{Superblock, Disk, write_block, bits_per_block, bitmap_block, has_bit, block_size}
use os_ca.Fs.Writes.{write_block_self, write_block_ne}
use os_ca.Fs.Blocks.{bzero, mark, find_clear, take_block, balloc_from, balloc}

-- The free map says that block `b` is in use.
unfoldable pub is_used : Superblock → Disk → ℕ → Bool
is_used sb d b = has_bit (d.block (bitmap_block sb b) (b % bits_per_block / 8)) (b % 8)

-- What a search of `n` bits from `bi` on gives.
data FirstClear (n bi : ℕ) (c : Cells) : Option ℕ → Type 0 where
  clear :
      (k : ℕ)
      → bi ≤ k
      → k < bi + n
      → has_bit (c (k / 8)) (k % 8) ≡ false
      → FirstClear n bi c (some k)
  all_set :
      ((k : ℕ) → bi ≤ k → k < bi + n → has_bit (c (k / 8)) (k % 8) ≡ true) → FirstClear n bi c none

wider :
    (n bi : ℕ) (c : Cells) (r : Option ℕ)
    → has_bit (c (bi / 8)) (bi % 8) ≡ true
    → FirstClear n (bi + 1) c r
    → FirstClear (suc n) bi c r
wider n bi c r h (clear k p q e) = clear k (omega arith) (omega arith) e
wider n bi c r h (all_set rest) = all_set (λ k p q. elim (Bool-cases (k == bi)) [
  | inl e ↦
      let same : k ≡ bi = ground arith in
      subst (λ i. has_bit (c (i / 8)) (i % 8) ≡ true) (sym same) h
  | inr e ↦ rest k (ground arith) (omega arith)
])

find_clear-FirstClear : (n bi : ℕ) (c : Cells) → FirstClear n bi c (find_clear n bi c)
unfolding find_clear
find_clear-FirstClear zero bi c = all_set (λ k p q. absurd (omega arith))
find_clear-FirstClear (suc n) bi c =
    if_cases (FirstClear (suc n) bi c) (has_bit (c (bi / 8)) (bi % 8)) _ _
      (λ h. wider n bi c _ h (find_clear-FirstClear n (bi + 1) c))
      (λ h. clear bi (omega arith) (omega arith) h)

-- Block `b` was free, and the disk that `balloc` leaves differs from the one before at block `b`,
-- which holds zeros, and at the bit of `b` in the free map.
pub record Taken (sb : Superblock) (d : Disk) (b : ℕ) (d' : Disk) : Type 0 where
  pub inside : b < sb.size
  pub was_free : is_used sb d b ≡ false
  pub logged : d'.logged ≡ b ∷ bitmap_block sb b ∷ d.logged
  pub zeros : (a : ℕ) → a < block_size → d'.block b a ≡ 0
  pub others : (a : ℕ) → a ≢ b → a ≢ bitmap_block sb b → d'.block a ≡ d.block a
  pub marked :
      bitmap_block sb b ≢ b
      → d'.block (bitmap_block sb b) ≡ mark (b % bits_per_block) (d.block (bitmap_block sb b))

-- What a search from `b` on gives.
pub data Balloc (sb : Superblock) (d : Disk) (b : ℕ) : Option (ℕ × Disk) → Type 0 where
  takes : (k : ℕ) (d' : Disk) → b ≤ k → Taken sb d k d' → Balloc sb d b (some (k, d'))
  full : ((k : ℕ) → b ≤ k → k < sb.size → is_used sb d k ≡ true) → Balloc sb d b none

module _ (sb : Superblock) (d : Disk) (b k : ℕ) (al : b % 4096 ≡ 0) (small : k < 4096) where
  same_block : bitmap_block sb (b + k) ≡ bitmap_block sb b
  same_block = omega arith

  is_used-add : is_used sb d (b + k) ≡ has_bit (d.block (bitmap_block sb b) (k / 8)) (k % 8)
  unfolding is_used
  is_used-add =
      let byte : (b + k) % 4096 / 8 ≡ k / 8 = omega arith in
      let bit : (b + k) % 8 ≡ k % 8 = omega arith in rw (same_block, byte, bit)

  abbrev marked_map : Cells
  marked_map = mark k (d.block (bitmap_block sb b))

  abbrev after : Disk
  after = bzero (b + k) (write_block (bitmap_block sb b) marked_map d)

  after-Taken :
      b + k < sb.size
      → has_bit (d.block (bitmap_block sb b) (k / 8)) (k % 8) ≡ false
      → Taken sb d (b + k) after
  unfolding bzero write_block
  after-Taken inside free =
      let bm = bitmap_block sb b in
      let d' = write_block bm marked_map d in
      let blank : Cells = λ a. if ltb a block_size then 0 else d'.block (b + k) a in
      let place : (b + k) % 4096 ≡ k = omega arith in
      record {
        inside = inside;
        was_free = is_used-add ∙ free;
        logged = ap (λ (i : ℕ). (b + k) ∷ i ∷ d.logged) (sym same_block);
        zeros = λ a h. ap (λ (c : Cells). c a) (write_block_self (b + k) blank d') ∙ ground arith;
        others = λ a h g.
            write_block_ne (b + k) blank d' a h
            ∙ write_block_ne bm marked_map d a (λ e. g (e ∙ sym same_block));
        marked = λ h.
            write_block_ne (b + k) blank d' (bitmap_block sb (b + k)) h
            ∙ ap (write_block bm marked_map d).block same_block
            ∙ write_block_self bm marked_map d
            ∙ rw (place, same_block);
      }

take_block-Balloc :
    (n b : ℕ) (sb : Superblock) (d : Disk)
    → b % 4096 ≡ 0
    → (r : Option ℕ)
    → FirstClear (min bits_per_block (sb.size - b)) 0 (d.block (bitmap_block sb b)) r
    → (next : Option (ℕ × Disk)) → Balloc sb d (b + 4096) next
    → Balloc sb d b (take_block r b sb d next)
unfolding take_block
take_block-Balloc n b sb d al r (clear k p q free) next rest =
    takes (b + k) (after sb d b k al (omega arith)) (omega arith)
      (after-Taken sb d b k al (omega arith) (omega arith) free)
take_block-Balloc n b sb d al r (all_set set) next (takes k d' p t) = takes k d' (omega arith) t
take_block-Balloc n b sb d al r (all_set set) next (full used) = full (λ k p q.
    elim (Bool-cases (ltb k (b + 4096))) [
      | inl e ↦
          let low : k - b < 4096 = ground arith in
          let split : b + (k - b) ≡ k = omega arith in
          subst (λ i. is_used sb d i ≡ true) split
            (is_used-add sb d b (k - b) al low ∙ set (k - b) (omega arith) (omega arith))
      | inr e ↦ used k (ground arith) q
    ])

balloc_from-Balloc :
    (n b : ℕ) (sb : Superblock) (d : Disk)
    → b % 4096 ≡ 0
    → sb.size ≤ b + n * 4096
    → Balloc sb d b (balloc_from n b sb d)
unfolding balloc_from take_block
balloc_from-Balloc zero b sb d al enough = full (λ k p q. absurd (omega arith))
balloc_from-Balloc (suc n) b sb d al enough =
    let c : Cells = d.block (bitmap_block sb b) in
    take_block-Balloc n b sb d al (find_clear (min bits_per_block (sb.size - b)) 0 c)
      (find_clear-FirstClear (min bits_per_block (sb.size - b)) 0 c) (balloc_from n (b + 4096) sb d)
      (balloc_from-Balloc n (b + 4096) sb d (omega arith) (omega arith))

-- `balloc` gives a free block of the device, filled with zeros, and panics exactly when the free map
-- has every block in use. Both blocks that it changes are logged, and no other block changes.
pub balloc-Balloc : (sb : Superblock) (d : Disk) → Balloc sb d 0 (balloc sb d)
unfolding balloc
balloc-Balloc sb d =
    balloc_from-Balloc ((sb.size + 4095) / bits_per_block) 0 sb d (omega arith) (omega arith)
