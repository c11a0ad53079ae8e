-- ===== src/Common/For.antt =====
-- The loop `for(i = a; i < a + k; i++)` whose bound the body does not change.
use Prim.Native.Nat.{ℕ, zero, suc, ◌+◌, ◌≤◌, ◌<◌}
use mathlib.Core.Path.{◌≡◌, subst, sym, ap, ◌∙◌}
use native.Mathlib.Omega.{arith}
use mathlib.Core.Bool.{true, false}
use listlib_and_system_calls.Common.Tests.{ltb, if◌then◌else◌, lt→ltb, ge→ltb}
use listlib_and_system_calls.Common.Update.{update, update_self, update_ne}
use native.Mathlib.Decide.{ℕ_discrete}

unfoldable pub for_loop {ℓ} : {S : Type ℓ} → ℕ → ℕ → (ℕ → S → S) → S → S
for_loop zero i body s = s
for_loop (suc k) i body s = for_loop k (i + 1) body (body i s)

-- What holds at the start and is kept by each round holds at the end.
pub for_loop_lem {ℓ ℓ'} :
    {S : Type ℓ} (P : ℕ → S → Type ℓ') (k i : ℕ) (body : ℕ → S → S) (s : S)
    → ((j : ℕ) (t : S) → i ≤ j → j < i + k → P j t → P (j + 1) (body j t))
    → P i s
    → P (i + k) (for_loop k i body s)
unfolding for_loop
for_loop_lem P zero i body s step p = let e : i ≡ i + 0 = omega arith in subst (λ j. P j s) e p
for_loop_lem P (suc k) i body s step p =
    let e : i + 1 + k ≡ i + suc k = omega arith in
    subst (λ j. P j (for_loop k (i + 1) body (body i s))) e
      (for_loop_lem P k (i + 1) body (body i s)
        (λ j t from to. step j t (omega arith) (omega arith))
        (step i s (omega arith) (omega arith) p))

-- A loop from 0.
pub for_loop-from_0 {ℓ ℓ'} :
    {S : Type ℓ} (P : ℕ → S → Type ℓ') (k : ℕ) (body : ℕ → S → S) (s : S)
    → ((j : ℕ) (t : S) → j < k → P j t → P (j + 1) (body j t))
    → P 0 s
    → P k (for_loop k 0 body s)
for_loop-from_0 P k body s step p =
    let e : 0 + k ≡ k = omega arith in
    subst (λ j. P j (for_loop k 0 body s)) e
      (for_loop_lem P k 0 body s (λ j t from to. step j t (omega arith)) p)

-- A loop that changes each entry of an array by itself.
pub for_loop-each {ℓ} :
    {A : Type ℓ} (k : ℕ) (change : ℕ → A → A) (f : ℕ → A) (a : ℕ)
    → for_loop k 0 (λ i g. update g i (change i (g i))) f a
      ≡ (if ltb a k then change a (f a) else f a)
for_loop-each k change f a =
    let none_yet : ltb a 0 ≡ false = ground arith in
    for_loop-from_0 (λ j g. g a ≡ (if ltb a j then change a (f a) else f a)) k
      (λ i g. update g i (change i (g i))) f
      (λ j g to e. elim (ℕ_discrete j a) [
        | yes same ↦
            let off : ltb a j ≡ false = ge→ltb a j (omega arith) in
            let on : ltb a (j + 1) ≡ true = lt→ltb a (j + 1) (omega arith) in
            let old : g a ≡ f a = e ∙ rw off (λ i. f a) in
            subst
              (λ b. update g b (change b (g b)) a ≡ (if ltb a (j + 1) then change a (f a) else f a))
              (sym same)
              (update_self g a (change a (g a)) ∙ ap (change a) old ∙ rw on (λ i. change a (f a)))
        | no ne ↦
            let still : ltb a j ≡ ltb a (j + 1) = ground (arith, ne) in
            update_ne g j a (change j (g j)) ne
            ∙ e
            ∙ rw still (λ i. if ltb a (j + 1) then change a (f a) else f a)
      ])
      (rw none_yet (λ i. f a))
