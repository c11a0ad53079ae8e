-- ===== src/Kernel/Kalloc.antt =====
-- kalloc.c: the allocator of physical pages, a free list through the pages themselves.
use listlib_and_system_calls.Common.{
  ℕ, zero, suc, ◌+◌, ◌-◌, ◌*◌, ◌%◌, ◌/◌, Bool, Option, none, some, ltb, leb, ◌==◌, ◌&&◌, ◌||◌, not,
  if◌then◌else◌, update,
}
pub mod Pages
pub mod Frees
pub mod Ranges
pub mod Tests

abbrev pub page_size : ℕ
page_size = 4096

-- `PHYSTOP`, 128 megabytes above `KERNBASE`
abbrev pub phystop : ℕ
phystop = 2147483648 + 128 * 1024 * 1024

-- Physical memory as its 8-byte words, by the address of each, and the head of the list; 0 is NULL.
pub record Kmem : Type 0 where
  pub words : ℕ → ℕ
  pub freelist : ℕ

-- `memset` of a page, by words.
unfoldable pub fill_page : ℕ → ℕ → (ℕ → ℕ) → ℕ → ℕ
fill_page pa v words a = if leb pa a && ltb a (pa + page_size) then v else words a

-- Eight bytes of 1 and eight bytes of 5.
abbrev pub freed_junk : ℕ
freed_junk = 72340172838076673

abbrev pub fresh_junk : ℕ
fresh_junk = 361700864190383365

-- `end`, the first address behind the kernel, comes from the linker.
module _ (kernel_end : ℕ) where
  -- `none` is a panic.
  unfoldable pub kfree : ℕ → Kmem → Option Kmem
  kfree pa k =
      if not (pa % page_size == 0) || ltb pa kernel_end || leb phystop pa
      then none
      else some
          record { words = update (fill_page pa freed_junk k.words) pa k.freelist; freelist = pa }

  -- The loop of `freerange` from `p`, for a number of rounds.
  unfoldable pub free_from : ℕ → ℕ → ℕ → Kmem → Option Kmem
  free_from zero p pa_end k = some k
  free_from (suc rounds) p pa_end k =
      if leb (p + page_size) pa_end
      then elim (kfree p k) [
        | none ↦ none
        | some freed ↦ free_from rounds (p + page_size) pa_end freed
      ]
      else some k

  -- `PGROUNDUP(pa_start)`, and at most one round for each page below the end.
  unfoldable pub freerange : ℕ → ℕ → Kmem → Option Kmem
  freerange pa_start pa_end k =
      free_from (pa_end / page_size) ((pa_start + page_size - 1) / page_size * page_size) pa_end k

  unfoldable pub kinit : Kmem → Option Kmem
  kinit k = freerange kernel_end phystop k

unfoldable pub kalloc : Kmem → ℕ × Kmem
kalloc k =
    let r = k.freelist in
    if r == 0
    then (r, k)
    else (r, record { words = fill_page r fresh_junk k.words; freelist = k.words r })
