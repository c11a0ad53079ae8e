-- ===== src/Kernel/Kalloc/Tests.antt =====
-- Runs of the allocator, and its theorems at concrete lists.
use listlib_and_system_calls.Common.{
  if◌then◌else◌, ℕ, ◌≡◌, refl, some, List, [], ◌∷◌, arith, ◌==◌, ◌&&◌, leb, has, ◌+◌, ◌%◌,
}
use listlib_and_system_calls.Kernel.Kalloc.{Kmem, kinit, page_size, phystop}
use listlib_and_system_calls.Kernel.Kalloc.Pages.{Frees}
use listlib_and_system_calls.Kernel.Kalloc.Ranges.{kinit-Frees}

-- Nothing is free, and then two pages are.
abbrev no_pages : Kmem
no_pages = record { words = λ a. 0; freelist = 0 }

abbrev two_pages : Kmem
two_pages = record { words = λ a. if a == 8192 then 4096 else 0; freelist = 8192 }

two_pages-Frees : Frees two_pages (8192 ∷ 4096 ∷ [])
unfolding Frees
two_pages-Frees = (
  refl,
  (λ e. absurd (omega arith)),
  refl,
  refl,
  (refl, (λ e. absurd (omega arith)), refl, refl, refl),
)

kinit-Frees_example :
    (n : Kmem) × (qs : List ℕ) × (kinit 2147600000 no_pages ≡ some n)
    × Frees n qs
    × ((q : ℕ)
        → has q qs ≡ ((q % page_size == 0) && (leb 2147600000 q && leb (q + page_size) phystop)))
kinit-Frees_example = kinit-Frees 2147600000 no_pages (omega arith) refl
