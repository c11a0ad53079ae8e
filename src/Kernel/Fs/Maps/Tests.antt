-- ===== src/Kernel/Fs/Maps/Tests.antt =====
-- A file without blocks gets its first one, and a file with one gives it back.
use listlib_and_system_calls.Common.{
  false, ℕ, ◌<◌, ◌≤◌, ◌≡◌, ◌≢◌, ◌==◌, ◌&&◌, not, refl, some, arith, if◌then◌else◌, subst, sym, ◌∙◌,
  Bool-cases, ==→eq, inl, inr, leb,
}
use listlib_and_system_calls.Kernel.Fs.{Disk, bblock}
use listlib_and_system_calls.Kernel.Fs.Bits.{bit_set}
use listlib_and_system_calls.Kernel.Fs.Bitmap.Marks.{used}
use listlib_and_system_calls.Kernel.Fs.Bitmap.Samples.{
  four_blocks, small_disk, free_block-IsMapped, all_used-IsMapped,
}
use listlib_and_system_calls.Kernel.Fs.Dinodes.{Dinode, iblock}
use listlib_and_system_calls.Kernel.Fs.Maps.{ndirect, Mapped, bmap, itrunc}
use listlib_and_system_calls.Kernel.Fs.Maps.Slots.{slot, Owned, IsFile}
use listlib_and_system_calls.Kernel.Fs.Maps.Frees.{in_file}
use listlib_and_system_calls.Kernel.Fs.Maps.Blocks.{Finds, bmap-Finds}
use listlib_and_system_calls.Kernel.Fs.Maps.Truncates.{itrunc-frees}

-- The first direct block, or none.
abbrev first_only : ℕ → Dinode
first_only a = record {
  type = 2;
  major = 0;
  minor = 0;
  nlink = 1;
  size = 0;
  addrs = λ i. if i == 0 then a else 0;
}

first_slot : (a : ℕ) (disk : Disk) (s : ℕ) → slot (first_only a) disk s ≡ (if s == 0 then a else 0)
unfolding slot
first_slot a disk s = elim (Bool-cases (leb s ndirect)) [
  | inl low ↦ rw low refl
  | inr high ↦ let other : (s == 0) ≡ false = ground (arith, high) in rw (high, other) refl
]

empty-IsFile : (disk : Disk) → IsFile four_blocks (first_only 0) disk
empty-IsFile disk = record {
  owned = λ s h real. absurd (real (first_slot 0 disk s ∙ (ground arith)));
  distinct = λ s t h h' real e. absurd (real (first_slot 0 disk s ∙ (ground arith)));
}

-- Only the first slot holds a block.
first_real : (a s : ℕ) (disk : Disk) → slot (first_only a) disk s ≢ 0 → s ≡ 0
first_real a s disk real = elim (Bool-cases (s == 0)) [
  | inl here ↦ ==→eq s 0 here
  | inr other ↦ absurd (real (first_slot a disk s ∙ rw other refl))
]

last_Owned : Owned four_blocks (small_disk 15) 3
unfolding bit_set
last_Owned = record { within = omega arith; marked = refl; off_map = λ c h e. absurd (omega arith) }

one_block-IsFile : IsFile four_blocks (first_only 3) (small_disk 15)
one_block-IsFile = record {
  owned = λ s h real.
      let at : s ≡ 0 = first_real 3 s (small_disk 15) real in
      let e : slot (first_only 3) (small_disk 15) s ≡ 3 =
        first_slot 3 (small_disk 15) s ∙ rw at refl in
      subst (λ (b : ℕ). Owned four_blocks (small_disk 15) b) (sym e) last_Owned;
  distinct = λ s t h h' real e.
      first_real 3 s (small_disk 15) real
      ∙ sym (first_real 3 t (small_disk 15) (λ z. real (e ∙ z)));
}

bmap-Finds_example :
    (m : Mapped) × (bmap four_blocks 0 (first_only 0) (small_disk 7) ≡ some m)
    × Finds four_blocks 0 (first_only 0) (small_disk 7) m
bmap-Finds_example =
    bmap-Finds (empty-IsFile (small_disk 7)) free_block-IsMapped (omega arith) 0 (omega arith)

itrunc-frees_example :
    (after : Disk) × (ip' : Dinode) × (itrunc four_blocks 1 (first_only 3) (small_disk 15)
      ≡ some (after, ip'))
    × ((c : ℕ)
        → c < 4
        → used four_blocks after c
          ≡ (not (in_file (first_only 3) (small_disk 15) c) && used four_blocks (small_disk 15) c))
    × ((a : ℕ)
        → ((c : ℕ) → c < 4 → a ≢ bblock c four_blocks)
        → iblock 1 four_blocks ≢ a
        → after a ≡ small_disk 15 a)
    × (ip'.size ≡ 0)
    × ((t : ℕ) → t ≤ ndirect → ip'.addrs t ≡ 0)
itrunc-frees_example =
    itrunc-frees one_block-IsFile 1 all_used-IsMapped.bytes (λ c h e. absurd (omega arith))
