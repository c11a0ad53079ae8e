-- ===== src/Kernel/Fs/Bitmap.antt =====
-- kernel/fs.c: `bzero`, `balloc` and `bfree`, the free map of the disk.
use Prim.Native.Nat.{min}
use listlib_and_system_calls.Common.{
  ℕ, zero, suc, ◌+◌, ◌-◌, ◌/◌, ◌%◌, Bool, not, ltb, if◌then◌else◌, Option, none, some, update,
  find_from,
}
use listlib_and_system_calls.Kernel.Fs.{Block, Disk, SuperBlock, bpb, bblock}
use listlib_and_system_calls.Kernel.Fs.Bits.{bit_set, set_bit, clear_bit}
pub mod Marks
pub mod Allocates
pub mod Samples
pub mod Tests

abbrev pub zero_block : Block
zero_block i = 0

unfoldable pub bzero : ℕ → Disk → Disk
bzero bno disk = update disk bno zero_block

-- Bit `bi` of a block of the free map.
abbrev pub map_bit : Disk → ℕ → ℕ → Bool
map_bit disk blk bi = bit_set (disk blk (bi / 8)) (bi % 8)

-- `bp->data[bi/8] |= m`, and `&= ~m`
unfoldable pub mark_bit : ℕ → ℕ → Disk → Disk
mark_bit blk bi disk =
    update disk blk (update (disk blk) (bi / 8) (set_bit (disk blk (bi / 8)) (bi % 8)))

unfoldable pub unmark_bit : ℕ → ℕ → Disk → Disk
unmark_bit blk bi disk =
    update disk blk (update (disk blk) (bi / 8) (clear_bit (disk blk (bi / 8)) (bi % 8)))

module _ (sb : SuperBlock) where
  -- The loop of `balloc` over the blocks of the free map from the bit of `b` on.
  unfoldable pub balloc_from : ℕ → ℕ → Disk → Disk × ℕ
  balloc_from zero b disk = (disk, 0)
  balloc_from (suc rounds) b disk =
      let next = balloc_from rounds (b + bpb) disk in
      let free = λ (bi : ℕ). not (map_bit disk (bblock b sb) bi) in
      let found : Disk × ℕ = elim (find_from free (min bpb (sb.size - b)) 0) [
        | some bi ↦ (bzero (b + bi) (mark_bit (bblock b sb) bi disk), b + bi)
        | none ↦ next
      ] in
      if ltb b sb.size then found else (disk, 0)

  -- One round for each block of the free map.
  unfoldable pub balloc : Disk → Disk × ℕ
  balloc disk = balloc_from (sb.size / bpb + 1) 0 disk

  -- `none` is the panic "freeing free block".
  unfoldable pub bfree : ℕ → Disk → Option Disk
  bfree b disk =
      if map_bit disk (bblock b sb) (b % bpb)
      then some (unmark_bit (bblock b sb) (b % bpb) disk)
      else none
