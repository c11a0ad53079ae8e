-- ===== src/Kernel/Fs/Bitmap/Tests.antt =====
-- A block is given out and freed.
use listlib_and_system_calls.Common.{◌≡◌, refl, find_from, update}
use listlib_and_system_calls.Kernel.Fs.Bits.{bit_set, set_bit}
use listlib_and_system_calls.Kernel.Fs.Bitmap.{balloc_from, balloc, bzero, mark_bit}
use listlib_and_system_calls.Kernel.Fs.Bitmap.Allocates.{Allocates, balloc-Allocates}
use listlib_and_system_calls.Kernel.Fs.Bitmap.Samples.{four_blocks, small_disk, free_block-IsMapped}

balloc_run : (balloc four_blocks (small_disk 7)).1 ≡ 3
unfolding balloc balloc_from find_from bit_set set_bit bzero mark_bit update
balloc_run = refl

balloc-Allocates_example : Allocates four_blocks (small_disk 7) (balloc four_blocks (small_disk 7))
balloc-Allocates_example = balloc-Allocates four_blocks (small_disk 7) free_block-IsMapped
