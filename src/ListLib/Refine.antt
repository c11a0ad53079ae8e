-- ===== src/ListLib/Refine.antt =====
-- From the shape of the pools to the sequences that a client sees.
use native.Mathlib.Decide.{ℕ_discrete}
use listlib_and_system_calls.Common.{
  ℕ, ◌<◌, ◌≡◌, ◌≢◌, true, false, List, ◌∷◌, arith, length, sym, ◌∙◌, lt→ltb, ge→ltb, subst,
}
use listlib_and_system_calls.ListLib.Pool.{Item, Pool, max_lists, update}
use listlib_and_system_calls.ListLib.Steps.{update_self, update_ne}
use listlib_and_system_calls.ListLib.Chain.{items, length-items}
use listlib_and_system_calls.ListLib.Shape.{IsPool}
use listlib_and_system_calls.ListLib.Grow.{Grew, Grew-IsPool, Grew-items}
use listlib_and_system_calls.ListLib.Spec.{Contents, Holds, room}

module _ (own : ℕ → ℕ) (xs : ℕ → List ℕ) (fs : List ℕ) (p : Pool) (vs : Contents)
    (v : IsPool own xs fs p) (values : (l : ℕ) → l < max_lists → items p.nodes (xs l) ≡ vs l) where
  same_length : (l : ℕ) → l < max_lists → length (vs l) ≡ length (xs l)
  same_length l small = rw (← values l small) (length-items p.nodes (xs l))

  pub room-free : length fs ≢ 0 → room vs ≡ true
  room-free ne =
      lt→ltb _ 10 (omega (arith, same_length 0 (omega arith), same_length 1 (omega arith), v.total))

  pub room-full : length fs ≡ 0 → room vs ≡ false
  room-full e =
      ge→ltb _ 10
        λ h. omega (arith, same_length 0 (omega arith), same_length 1 (omega arith), v.total)

pub Grew-Holds :
    (own : ℕ → ℕ) (xs : ℕ → List ℕ) (fs : List ℕ) (i l : ℕ) (ys : List ℕ) (p q : Pool)
    (vs : Contents) (w : List Item)
    → IsPool own xs (i ∷ fs) p
    → ((m : ℕ) → m < max_lists → items p.nodes (xs m) ≡ vs m)
    → l < max_lists
    → Grew own xs i l ys p q
    → items q.nodes ys ≡ w
    → Holds (update vs l w) q
Grew-Holds own xs fs i l ys p q vs w v values here g e = record {
  own = update own i l;
  chains = update xs l ys;
  free = fs;
  shape = Grew-IsPool own xs fs i l ys p q v here g;
  values = λ m small. elim (ℕ_discrete l m) [
    | yes same ↦
        subst (λ k. items q.nodes (update xs l ys k) ≡ update vs l w k) same
          (rw (update_self xs l ys, update_self vs l w) e)
    | no ne ↦
        rw (update_ne xs l m ys ne, update_ne vs l m w ne)
          (Grew-items own xs fs i l ys p q v here g m small (λ c. ne (sym c)) ∙ values m small)
  ];
}
