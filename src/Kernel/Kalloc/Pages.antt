-- ===== src/Kernel/Kalloc/Pages.antt =====
-- The free list as a list of pages.
use listlib_and_system_calls.Common.{
  ℕ, ◌%◌, ◌≡◌, ◌≢◌, arith, subst, true, false, List, [], ◌∷◌, has,
}
use listlib_and_system_calls.Kernel.Kalloc.{page_size, fill_page, Kmem}

-- From `p` the words lead through the pages of the list, which are aligned and distinct, to NULL.
abbrev pub Chained : (ℕ → ℕ) → ℕ → List ℕ → Type 0
Chained words p [] = p ≡ 0
Chained words p (q ∷ qs) =
    (p ≡ q) × (q ≢ 0) × (q % page_size ≡ 0) × (has q qs ≡ false) × Chained words (words q) qs

-- Each of the pages is free, in this order.
unfoldable pub Frees : Kmem → List ℕ → Type 0
Frees k qs = Chained k.words k.freelist qs

-- Other words may change.
pub Chained-frame :
    (words new : ℕ → ℕ) (p : ℕ) (qs : List ℕ)
    → ((q : ℕ) → has q qs ≡ true → q % page_size ≡ 0 → new q ≡ words q)
    → Chained words p qs
    → Chained new p qs
Chained-frame words new p [] same s = s
Chained-frame words new p (q ∷ qs) same (at, real, aligned, once, rest) =
    let here : new q ≡ words q = same q (ground arith) aligned in
    (
      at,
      real,
      aligned,
      once,
      rw here (Chained-frame words new (words q) qs (λ a m. same a (ground (arith, m))) rest),
    )

-- Two pages do not share a word.
pub fill_page-other :
    (pa v q : ℕ) (words : ℕ → ℕ)
    → pa % page_size ≡ 0
    → q % page_size ≡ 0
    → pa ≢ q
    → fill_page pa v words q ≡ words q
unfolding fill_page
fill_page-other pa v q words aligned also ne = ground arith

pub has-ne : (a q : ℕ) (qs : List ℕ) → has q qs ≡ true → has a qs ≡ false → a ≢ q
has-ne a q qs m h e =
    let off : has q qs ≡ false = subst (λ b. has b qs ≡ false) e h in ground (arith, m, off)
