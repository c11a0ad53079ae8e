-- ===== src/Kernel/Kalloc/Frees.antt =====
-- `kfree` and `kalloc` push and pop pages.
use listlib_and_system_calls.Common.{
  ℕ, ◌%◌, ◌≤◌, ◌<◌, ◌≡◌, refl, ◌∙◌, arith, false, List, [], ◌∷◌, has, update, update_self,
  update_ne, some, ge→ltb, eq→==, ge→leb, ne→==,
}
use listlib_and_system_calls.Kernel.Kalloc.{
  page_size, phystop, fill_page, Kmem, kfree, kalloc, freed_junk, fresh_junk,
}
use listlib_and_system_calls.Kernel.Kalloc.Pages.{Frees, Chained-frame, fill_page-other, has-ne}

-- A page that `kfree` takes.
pub record IsPage (kernel_end pa : ℕ) : Type 0 where
  pub aligned : pa % page_size ≡ 0
  pub above : kernel_end ≤ pa
  pub below : pa < phystop

-- A page above the kernel that is not free: `kfree` does not panic, and the page is in front of the others that are free.
pub kfree-pushes :
    (kernel_end pa : ℕ) (k : Kmem) (qs : List ℕ)
    → 0 < kernel_end
    → IsPage kernel_end pa
    → Frees k qs
    → has pa qs ≡ false
    → (n : Kmem) × (kfree kernel_end pa k ≡ some n) × Frees n (pa ∷ qs)
unfolding kfree Frees
kfree-pushes kernel_end pa k qs real page s once =
    let linked = fill_page pa freed_junk k.words in
    let head : update linked pa k.freelist pa ≡ k.freelist = update_self linked pa k.freelist in
    let chained : Frees record { words = update linked pa k.freelist; freelist = pa } (pa ∷ qs) = (
      refl,
      (λ e. absurd (omega (arith, page.above))),
      page.aligned,
      once,
      rw head (
          Chained-frame k.words (update linked pa k.freelist) k.freelist qs
            (λ q m aligned.
              let ne = has-ne pa q qs m once in
              update_ne linked pa q k.freelist ne
              ∙ fill_page-other pa freed_junk q k.words page.aligned aligned ne)
            s),
    ) in
    rw
      (
        eq→== (pa % 4096) 0 page.aligned,
        ge→ltb pa kernel_end (λ h. absurd (omega (arith, page.above))),
        ge→leb phystop pa page.below,
      )
      (_, refl, chained)

-- The pages left by a removal at the front.
unfoldable pub pop : List ℕ → ℕ × List ℕ
pop [] = (0, [])
pop (q ∷ qs) = (q, qs)

-- `kalloc` gives the first free page, which is then not free any more and filled with fives, or 0 when none is free.
pub kalloc-pops :
    (k : Kmem) (qs : List ℕ)
    → Frees k qs
    → ((kalloc k).0 ≡ (pop qs).0)
      × Frees (kalloc k).1 (pop qs).1
      × (has (kalloc k).0 (pop qs).1 ≡ false)
unfolding kalloc Frees pop
kalloc-pops k [] s = rw s (refl, refl, refl)
kalloc-pops k (q ∷ qs) (at, real, aligned, once, rest) =
    rw (at, ne→== q 0 real)
      (
        refl,
        Chained-frame k.words (fill_page q fresh_junk k.words) (k.words q) qs
            (λ a m also. fill_page-other q fresh_junk a k.words aligned also (has-ne q a qs m once))
            rest,
        once,
      )
