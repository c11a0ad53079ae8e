-- ===== src/Kernel/Fs/Bitmap/Samples.antt =====
-- A disk of four blocks with its map in block 2: block 3 is free.
use listlib_and_system_calls.Common.{
  ℕ, ◌<◌, ◌≡◌, ◌==◌, ◌&&◌, if◌then◌else◌, refl, true, arith, subst, sym,
}
use listlib_and_system_calls.Kernel.Fs.{Disk, SuperBlock, bblock}
use listlib_and_system_calls.Kernel.Fs.Bits.{bit_set}
use listlib_and_system_calls.Kernel.Fs.Bitmap.Marks.{used}
use listlib_and_system_calls.Kernel.Fs.Bitmap.Allocates.{IsMapped}

abbrev pub four_blocks : SuperBlock
four_blocks = record { size = 4; ninodes = 16; inodestart = 1; bmapstart = 2 }

abbrev pub small_disk : ℕ → Disk
small_disk bits blk i = if (blk == 2) && (i == 0) then bits else 0

one_map : (c : ℕ) → c < 4 → bblock c four_blocks ≡ 2
one_map c h = omega arith

pub small_disk-IsMapped :
    (bits : ℕ)
    → bits < 256
    → used four_blocks (small_disk bits) 0 ≡ true
    → used four_blocks (small_disk bits) 2 ≡ true
    → IsMapped four_blocks (small_disk bits)
small_disk-IsMapped bits small boot map = record {
  bytes = λ blk i. ground arith;
  boot_used = boot;
  map_within = λ c h. omega arith;
  map_used =
      λ c h. subst (λ (b : ℕ). used four_blocks (small_disk bits) b ≡ true) (sym (one_map c h)) map;
}

pub free_block-IsMapped : IsMapped four_blocks (small_disk 7)
unfolding bit_set
free_block-IsMapped = small_disk-IsMapped 7 (omega arith) refl refl

pub all_used-IsMapped : IsMapped four_blocks (small_disk 15)
unfolding bit_set
all_used-IsMapped = small_disk-IsMapped 15 (omega arith) refl refl
