-- ===== src/Kernel/Bio/Searches.antt =====
-- The two searches of bget, along the ring and back.
use listlib_and_system_calls.Common.{
  ℕ, zero, suc, ◌<◌, ◌≡◌, ◌⊎◌, inl, inr, refl, Bool, true, false, ◌==◌, has, has-append, List, [],
  ◌∷◌, ◌++◌, length, length-append, Option, none, some, if◌then◌else◌, arith, ◌∙◌, Bool-cases,
  ==→eq,
}
use listlib_and_system_calls.Kernel.Bio.{head, search}
use listlib_and_system_calls.Kernel.Bio.Links.{Links}

-- The first one of a sequence that passes a test.
unfoldable pub first_of : (ℕ → Bool) → List ℕ → Option ℕ
first_of test [] = none
first_of test (x ∷ xs) = let rest = first_of test xs in if test x then some x else rest

-- What it finds passes, and stands in the sequence; if it finds none, none passes.
pub first_of_cases :
    (test : ℕ → Bool) (xs : List ℕ)
    → ((b : ℕ) × (first_of test xs ≡ some b) × (has b xs ≡ true) × (test b ≡ true))
      ⊎ ((first_of test xs ≡ none) × ((a : ℕ) → has a xs ≡ true → test a ≡ false))
unfolding first_of
first_of_cases test [] = inr (refl, λ a h. absurd (cc h))
first_of_cases test (x ∷ xs) = elim (Bool-cases (test x)) [
  | inl here ↦ inl (x, rw here refl, ground arith, here)
  | inr later ↦ elim (first_of_cases test xs) [
    | inl (b, e, m, t) ↦ inl (b, rw later e, ground (arith, m), t)
    | inr (e, all) ↦ inr (
      rw later e,
      λ a h. elim (Bool-cases (a == x)) [
        | inl same ↦ rw (==→eq a x same) later
        | inr other ↦ all a (ground (arith, h, other))
      ],
    )
  ]
]

-- The loop along the ring is the search in its sequence.
pub search-first_of :
    (next prev : ℕ → ℕ) (test : ℕ → Bool) (rounds a : ℕ) (xs : List ℕ)
    → Links next prev a xs head
    → has head xs ≡ false
    → length xs < rounds
    → search next test rounds (next a) ≡ first_of test xs
unfolding search first_of
search-first_of next prev test zero a xs links off enough = absurd (omega arith)
search-first_of next prev test (suc rounds) a [] links off enough =
    let stop : (next a == head) ≡ true = ground (arith, links.0) in rw stop refl
search-first_of next prev test (suc rounds) a (x ∷ xs) (e, e', links) off enough =
    let more : (x == head) ≡ false = ground (arith, off) in
    rw
      (
        e,
        more,
        search-first_of next prev test rounds x xs links (ground (arith, off)) (omega arith),
      )
      refl

pub reversed : List ℕ → List ℕ
reversed [] = []
reversed (x ∷ xs) = reversed xs ++ x ∷ []

Links-join :
    (next prev : ℕ → ℕ) (a : ℕ) (pre : List ℕ) (b : ℕ) (post : List ℕ) (z : ℕ)
    → Links next prev a pre b
    → Links next prev b post z
    → Links next prev a (pre ++ b ∷ post) z
Links-join next prev a [] b post z (e, e') back = (e, e', back)
Links-join next prev a (x ∷ pre) b post z (e, e', front) back =
    (e, e', Links-join next prev x pre b post z front back)

-- Back along the ring.
pub Links-reversed :
    (next prev : ℕ → ℕ) (a : ℕ) (xs : List ℕ) (z : ℕ)
    → Links next prev a xs z
    → Links prev next z (reversed xs) a
unfolding reversed
Links-reversed next prev a [] z (e, e') = (e', e)
Links-reversed next prev a (x ∷ xs) z (e, e', links) =
    Links-join prev next z (reversed xs) x [] a (Links-reversed next prev x xs z links) (e', e)

pub has-reversed : (b : ℕ) (xs : List ℕ) → has b (reversed xs) ≡ has b xs
unfolding reversed
has-reversed b [] = refl
has-reversed b (x ∷ xs) = has-append b (reversed xs) (x ∷ []) ∙ ground (arith, has-reversed b xs)

pub length-reversed : (xs : List ℕ) → length (reversed xs) ≡ length xs
unfolding reversed
length-reversed [] = refl
length-reversed (x ∷ xs) = length-append (reversed xs) (x ∷ []) ∙ omega (arith, length-reversed xs)
