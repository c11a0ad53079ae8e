-- ===== src/Kernel/Kalloc/Ranges.antt =====
-- `kinit` frees each page between the kernel and the end of the memory.
use listlib_and_system_calls.Common.{
  inl, inr, ℕ, zero, suc, ◌+◌, ◌-◌, ◌*◌, ◌/◌, ◌%◌, ◌≤◌, ◌<◌, ◌≡◌, refl, ◌∙◌, arith, false, List, [],
  ◌∷◌, has, leb, ◌==◌, ◌&&◌, ◌||◌, if◌then◌else◌, some, Bool-cases,
}
use listlib_and_system_calls.Kernel.Kalloc.{page_size, phystop, Kmem, free_from, freerange, kinit}
use listlib_and_system_calls.Kernel.Kalloc.Pages.{Frees}
use listlib_and_system_calls.Kernel.Kalloc.Frees.{kfree-pushes}

-- The pages that the loop puts in front of `qs`.
unfoldable pushed : ℕ → ℕ → ℕ → List ℕ → List ℕ
pushed zero p pa_end qs = qs
pushed (suc rounds) p pa_end qs =
    if leb (p + page_size) pa_end then pushed rounds (p + page_size) pa_end (p ∷ qs) else qs

abbrev Below : ℕ → List ℕ → Type 0
Below p [] = Unit
Below p (q ∷ qs) = (q < p) × Below p qs

Below-has : (p : ℕ) (qs : List ℕ) → Below p qs → has p qs ≡ false
Below-has p [] h = refl
Below-has p (q ∷ qs) (h, rest) = ground (arith, Below-has p qs rest)

Below-mono : (p r : ℕ) (qs : List ℕ) → p ≤ r → Below p qs → Below r qs
Below-mono p r [] le h = tt
Below-mono p r (q ∷ qs) le (h, rest) = (omega arith, Below-mono p r qs le rest)

module _ (kernel_end pa_end : ℕ) (real : 0 < kernel_end) (within : pa_end ≤ phystop) where
  free_from-pushes :
      (rounds p : ℕ) (k : Kmem) (qs : List ℕ)
      → p % page_size ≡ 0
      → kernel_end ≤ p
      → Frees k qs
      → Below p qs
      → (n : Kmem) × (free_from kernel_end rounds p pa_end k ≡ some n)
        × Frees n (pushed rounds p pa_end qs)
  unfolding free_from pushed
  free_from-pushes zero p k qs aligned above s below = (k, refl, s)
  free_from-pushes (suc rounds) p k qs aligned above s below =
      elim (Bool-cases (leb (p + page_size) pa_end)) [
        | inl fits ↦
            let (n, freed, chained) =
              kfree-pushes kernel_end p k qs real
                record { aligned = aligned; above = above; below = ground (arith, fits) } s
                (Below-has p qs below) in
            rw (fits, freed)
              (free_from-pushes rounds (p + page_size) n (p ∷ qs) (omega arith) (omega arith)
                chained (omega arith, Below-mono p (p + page_size) qs (omega arith) below))
        | inr full ↦ rw full (k, refl, s)
      ]

-- With enough rounds each aligned page of the range is among them.
pushed-has :
    (rounds p pa_end q : ℕ) (qs : List ℕ)
    → p % page_size ≡ 0
    → pa_end < p + rounds * page_size + page_size
    → has q (pushed rounds p pa_end qs)
      ≡ (((q % page_size == 0) && (leb p q && leb (q + page_size) pa_end)) || has q qs)
unfolding pushed
pushed-has zero p pa_end q qs aligned enough = (ground arith)
pushed-has (suc rounds) p pa_end q qs aligned enough =
    elim (Bool-cases (leb (p + page_size) pa_end)) [
      | inl fits ↦ rw fits (
          pushed-has rounds (p + page_size) pa_end q (p ∷ qs) (omega arith) (omega arith)
          ∙ (ground arith))
      | inr full ↦ rw full (ground arith)
    ]

-- When the kernel starts, with an empty free list and the kernel's end below the end of the memory, `kinit` does not panic, and then exactly
-- the aligned pages from the kernel's end to the end of the memory are free, each once.
pub kinit-Frees :
    (kernel_end : ℕ) (k : Kmem)
    → 0 < kernel_end
    → k.freelist ≡ 0
    → (n : Kmem) × (qs : List ℕ) × (kinit kernel_end k ≡ some n)
      × Frees n qs
      × ((q : ℕ)
          → has q qs ≡ ((q % page_size == 0) && (leb kernel_end q && leb (q + page_size) phystop)))
unfolding kinit freerange Frees
kinit-Frees kernel_end k real empty =
    let first = (kernel_end + page_size - 1) / page_size * page_size in
    let (n, done, s) =
      free_from-pushes kernel_end phystop real (omega arith) (phystop / page_size) first k []
        (omega arith) (omega arith) empty tt in
    (
      n,
      pushed (phystop / page_size) first phystop [],
      done,
      s,
      λ q.
          pushed-has (phystop / page_size) first phystop q [] (omega arith) (omega arith)
          ∙ (ground arith),
    )
