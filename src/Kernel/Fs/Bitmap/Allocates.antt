-- ===== src/Kernel/Fs/Bitmap/Allocates.antt =====
-- What balloc and bfree do to the free map and the blocks.
use Prim.Native.Nat.{min}
use listlib_and_system_calls.Common.{
  ℕ, zero, suc, ◌+◌, ◌-◌, ◌*◌, ◌/◌, ◌%◌, ◌<◌, ◌≤◌, ◌≡◌, ◌≢◌, ◌⊎◌, inl, inr, refl, Bool, true, false,
  not, ltb, ◌==◌, ◌&&◌, ◌||◌, none, some, find_from, find_from-cases, arith, ◌∙◌, sym, subst,
  Bool-cases,
}
use listlib_and_system_calls.Kernel.Fs.{Disk, SuperBlock, bpb, bblock}
use listlib_and_system_calls.Kernel.Fs.Bitmap.{
  zero_block, bzero, map_bit, mark_bit, unmark_bit, balloc_from, balloc, bfree,
}
use listlib_and_system_calls.Kernel.Fs.Bitmap.Marks.{
  AreBytes, used, used-mark_bit, used-unmark_bit, used-bzero, mark_bit-AreBytes,
  unmark_bit-AreBytes, bzero-AreBytes, bzero_ne, mark_bit_ne, unmark_bit_ne, bzero_self,
}

-- The disk holds bytes, and its boot block and the blocks of its map are marked as used.
pub record IsMapped (sb : SuperBlock) (disk : Disk) : Type 0 where
  pub bytes : AreBytes disk
  pub boot_used : used sb disk 0 ≡ true
  pub map_within : (c : ℕ) → c < sb.size → bblock c sb < sb.size
  pub map_used : (c : ℕ) → c < sb.size → used sb disk (bblock c sb) ≡ true

-- The block `b` was free and is given out, marked and empty; no other block changes but the map.
pub record Allocated (sb : SuperBlock) (disk after : Disk) (b : ℕ) : Type 0 where
  pub real : b ≢ 0
  pub within : b < sb.size
  pub was_free : used sb disk b ≡ false
  pub marked : (c : ℕ) → c < sb.size → used sb after c ≡ ((b == c) || used sb disk c)
  pub empty : after b ≡ zero_block
  pub kept : (a : ℕ) → a ≢ b → a ≢ bblock b sb → after a ≡ disk a
  pub mapped : IsMapped sb after

module _ (sb : SuperBlock) (disk : Disk) (v : IsMapped sb disk) where
  bzero-mark_bit-Allocated :
      (b : ℕ)
      → b < sb.size
      → used sb disk b ≡ false
      → Allocated sb disk (bzero b (mark_bit (bblock b sb) (b % bpb) disk)) b
  bzero-mark_bit-Allocated b within free = record {
    real = λ e. absurd (cc (v.boot_used, subst (λ a. used sb disk a ≡ false) e free));
    within = within;
    was_free = free;
    marked = marks;
    empty = emptied;
    kept = λ a ne ne'.
        bzero_ne b a marked_disk (λ e. ne (sym e))
        ∙ mark_bit_ne (bblock b sb) (b % bpb) a disk (λ e. ne' (sym e));
    mapped = record {
      bytes = bzero-AreBytes b marked_disk (mark_bit-AreBytes (bblock b sb) (b % bpb) disk v.bytes);
      boot_used = marks 0 (omega arith) ∙ rw v.boot_used (ground arith);
      map_within = v.map_within;
      map_used = λ c small.
          marks (bblock c sb) (v.map_within c small) ∙ rw (v.map_used c small) (ground arith);
    };
  }
    where
      marked_disk : Disk
      marked_disk = mark_bit (bblock b sb) (b % bpb) disk

      apart : (c : ℕ) → c < sb.size → b ≢ bblock c sb
      apart c small e = absurd (cc (v.map_used c small, subst (λ a. used sb disk a ≡ false) e free))

      marks : (c : ℕ) → c < sb.size → used sb (bzero b marked_disk) c ≡ ((b == c) || used sb disk c)
      marks c small =
          used-bzero sb marked_disk b c (apart c small) ∙ used-mark_bit sb disk b c v.bytes

      emptied : bzero b marked_disk b ≡ zero_block
      emptied = bzero_self b marked_disk

module _ (sb : SuperBlock) (rounds b : ℕ) (disk : Disk) where
  balloc_from-zero : balloc_from sb 0 b disk ≡ (disk, 0)
  unfolding balloc_from
  balloc_from-zero = refl

  abbrev free_bit : ℕ → Bool
  free_bit bi = not (map_bit disk (bblock b sb) bi)

  balloc_from-finds :
      (bi : ℕ)
      → ltb b sb.size ≡ true
      → find_from free_bit (min bpb (sb.size - b)) 0 ≡ some bi
      → balloc_from sb (suc rounds) b disk
        ≡ (bzero (b + bi) (mark_bit (bblock b sb) bi disk), b + bi)
  unfolding balloc_from
  balloc_from-finds bi e found = rw (e, found) refl

  balloc_from-passes :
      ltb b sb.size ≡ true
      → find_from free_bit (min bpb (sb.size - b)) 0 ≡ none
      → balloc_from sb (suc rounds) b disk ≡ balloc_from sb rounds (b + bpb) disk
  unfolding balloc_from
  balloc_from-passes e found = rw (e, found) refl

  balloc_from-ends : ltb b sb.size ≡ false → balloc_from sb (suc rounds) b disk ≡ (disk, 0)
  unfolding balloc_from
  balloc_from-ends e = rw e refl

-- A block is allocated, or 0 is returned, nothing changes and every block is in use.
abbrev pub Allocates : SuperBlock → Disk → Disk × ℕ → Type 0
Allocates sb disk (after, b) =
    Allocated sb disk after b
    ⊎ ((b ≡ 0) × (after ≡ disk) × ((c : ℕ) → c < sb.size → used sb disk c ≡ true))

module _ (sb : SuperBlock) (disk : Disk) (v : IsMapped sb disk) where
  balloc_from-Allocates :
      (rounds b : ℕ)
      → b % bpb ≡ 0
      → sb.size < b + rounds * bpb
      → ((c : ℕ) → c < b → c < sb.size → used sb disk c ≡ true)
      → Allocates sb disk (balloc_from sb rounds b disk)
  balloc_from-Allocates zero b aligned enough before =
      rw (balloc_from-zero sb 0 b disk) (inr (refl, refl, λ c small. before c (omega arith) small))
  balloc_from-Allocates (suc rounds) b aligned enough before = elim (Bool-cases (ltb b sb.size)) [
    | inr ends ↦
        rw (balloc_from-ends sb rounds b disk ends)
          (inr (refl, refl, λ c small. before c (ground (arith, ends)) small))
    | inl more ↦ elim (find_from-cases (free_bit sb rounds b disk) (min bpb (sb.size - b)) 0) [
      | inl (bi, found, _, small, free, _) ↦
          rw (balloc_from-finds sb rounds b disk bi more found) (inl (gives bi more small free))
      | inr (none_free, all) ↦ rw (balloc_from-passes sb rounds b disk more none_free) (
          balloc_from-Allocates rounds (b + bpb) (omega arith) (omega arith) (λ c below small.
            elim (Bool-cases (ltb c b)) [
              | inl old ↦ before c (ground (arith, old)) small
              | inr new ↦
                  in_map c (ground (arith, new)) below
                    (all (c - b) (omega arith) (ground (arith, new)))
            ]))
    ]
  ]
    where
      place : (bi : ℕ) → bi < bpb → (bblock (b + bi) sb ≡ bblock b sb) × ((b + bi) % bpb ≡ bi)
      place bi h = (omega arith, omega arith)

      gives :
          (bi : ℕ)
          → ltb b sb.size ≡ true
          → bi < 0 + min bpb (sb.size - b)
          → free_bit sb rounds b disk bi ≡ true
          → Allocated sb disk (bzero (b + bi) (mark_bit (bblock b sb) bi disk)) (b + bi)
      gives bi more small free =
          let inside : bi < bpb = ground arith in
          let (e, e') = place bi inside in
          let free' : map_bit disk (bblock b sb) bi ≡ false = ground (arith, free) in
          let there : used sb disk (b + bi) ≡ false = rw (e, e') free' in
          let a = bzero-mark_bit-Allocated sb disk v (b + bi) (ground (arith, more)) there in
          subst
            (λ (i : ℕ). Allocated sb disk (bzero (b + bi) (mark_bit (bblock b sb) i disk)) (b + bi))
            e'
            (subst
              (λ (blk : ℕ).
                Allocated sb disk (bzero (b + bi) (mark_bit blk ((b + bi) % bpb) disk)) (b + bi))
              e a)

      in_map :
          (c : ℕ)
          → b ≤ c
          → c < b + bpb
          → free_bit sb rounds b disk (c - b) ≡ false
          → used sb disk c ≡ true
      in_map c from below taken =
          let e : bblock c sb ≡ bblock b sb = omega arith in
          let e' : c % bpb ≡ c - b = omega arith in
          let taken' : map_bit disk (bblock b sb) (c - b) ≡ true = ground (arith, taken) in
          rw (e, e') taken'

  -- For a disk whose boot block and map are marked as used: `balloc` gives out a block that was free, which is then
  -- empty and marked, and changes no other mark and no other block but the map; or it returns 0 and changes
  -- nothing, and then every block is in use.
  pub balloc-Allocates : Allocates sb disk (balloc sb disk)
  unfolding balloc
  balloc-Allocates =
      balloc_from-Allocates (sb.size / bpb + 1) 0 (omega arith) (omega arith)
        (λ c below small. absurd (omega arith))

  -- `bfree` panics exactly on a free block; else it clears the mark of the block and no other, and
  -- changes no block but that of the map.
  pub bfree_lem :
      (b c : ℕ)
      → ((after : Disk) × (bfree sb b disk ≡ some after)
          × (used sb disk b ≡ true)
          × (used sb after c ≡ (not (b == c) && used sb disk c))
          × AreBytes after
          × ((a : ℕ) → a ≢ bblock b sb → after a ≡ disk a))
        ⊎ ((bfree sb b disk ≡ none) × (used sb disk b ≡ false))
  unfolding bfree
  bfree_lem b c = elim (Bool-cases (used sb disk b)) [
    | inl taken ↦ inl (
      unmark_bit (bblock b sb) (b % bpb) disk,
      rw taken refl,
      taken,
      used-unmark_bit sb disk b c v.bytes,
      unmark_bit-AreBytes (bblock b sb) (b % bpb) disk v.bytes,
      λ a ne. unmark_bit_ne (bblock b sb) (b % bpb) a disk (λ e. ne (sym e)),
    )
    | inr free ↦ inr (rw free refl, free)
  ]
