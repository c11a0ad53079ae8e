-- ===== src/Common/Find.antt =====
-- The first index that passes a test, as the loops that stop at one find it.
use Prim.Native.Nat.{ℕ, zero, suc, ◌+◌, ◌≤◌, ◌<◌}
use mathlib.Core.Path.{◌≡◌, refl, subst}
use mathlib.Core.Logic.{◌⊎◌, inl, inr}
use mathlib.Core.Bool.{Bool, true, false}
use mathlib.Core.Option.{Option, none, some}
use native.Mathlib.Omega.{arith}
use native.Mathlib.Decide.{ℕ_discrete}
use listlib_and_system_calls.Common.Tests.{if◌then◌else◌, Bool-cases}

unfoldable pub find_from : (ℕ → Bool) → ℕ → ℕ → Option ℕ
find_from test zero i = none
find_from test (suc k) i = let rest = find_from test k (i + 1) in if test i then some i else rest

-- The index that is found is in range and passes the test; with none found no index passes it.
pub find_from-cases :
    (test : ℕ → Bool) (k i : ℕ)
    → ((j : ℕ) × (find_from test k i ≡ some j)
        × (i ≤ j)
        × (j < i + k)
        × (test j ≡ true)
        × ((a : ℕ) → i ≤ a → a < j → test a ≡ false))
      ⊎ ((find_from test k i ≡ none) × ((a : ℕ) → i ≤ a → a < i + k → test a ≡ false))
unfolding find_from
find_from-cases test zero i = inr (refl, λ a h h'. absurd (omega arith))
find_from-cases test (suc k) i = elim (Bool-cases (test i)) [
  | inl here ↦ inl (i, rw here, omega arith, omega arith, here, λ a h h'. absurd (omega arith))
  | inr later ↦ elim (find_from-cases test k (i + 1)) [
    | inl (j, e, from, to, passes, before) ↦ inl (
      j,
      rw later e,
      omega arith,
      omega arith,
      passes,
      λ a h h'. elim (ℕ_discrete i a) [
        | yes same ↦ subst (λ b. test b ≡ false) same later
        | no ne ↦ before a (omega (arith, ne)) h'
      ],
    )
    | inr (e, all) ↦ inr (
      rw later e,
      λ a h h'. elim (ℕ_discrete i a) [
        | yes same ↦ subst (λ b. test b ≡ false) same later
        | no ne ↦ all a (omega (arith, ne)) (omega arith)
      ],
    )
  ]
]
