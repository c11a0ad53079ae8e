-- ===== src/ListLib/Concat/Calls.antt =====
-- `ListConcat` puts the sequence of its second list behind that of the first, unless the first
-- is empty and the second is not.
use native.Mathlib.Decide.{ℕ_discrete}
use mathlib.Core.List.{append-nil}
use listlib_and_system_calls.Common.{
  ℕ, ◌<◌, ◌≡◌, ◌≢◌, ◌⊎◌, inl, inr, sym, subst, none, some, [], ◌++◌, arith, List-cases,
}
use listlib_and_system_calls.ListLib.Pool.{Pool, max_lists, update}
use listlib_and_system_calls.ListLib.Steps.{update_ne, update_self}
use listlib_and_system_calls.ListLib.Removers.{list_concat}
use listlib_and_system_calls.ListLib.Views.{nil_head, cons_view, cons_count}
use listlib_and_system_calls.ListLib.Concat.{list_concat-nothing, list_concat-fault}
use listlib_and_system_calls.ListLib.Concat.Refines.{joined-Holds, joined-eq}
use listlib_and_system_calls.ListLib.Spec
use listlib_and_system_calls.ListLib.Spec.{Contents, Holds, Holds-ext, Ensures}

-- An empty second list changes nothing.
concat_nil : (vs : Contents) (l m : ℕ) → vs m ≡ [] → (k : ℕ) → vs k ≡ Spec.concat vs l m k
unfolding Spec.concat
concat_nil vs l m e k = elim (ℕ_discrete m k) [
  | yes same ↦
      subst (λ j. vs j ≡ update (update vs l (vs l ++ vs m)) m [] j) same
        (rw (update_self (update vs l _) m) e)
  | no nm ↦ rw (update_ne (update vs l _) m k [] nm) (elim (ℕ_discrete l k) [
    | yes same ↦
        subst (λ j. vs j ≡ update vs l (vs l ++ vs m) j) same
          (rw (update_self vs l, e) (sym (append-nil (vs l))))
    | no nl ↦ rw (update_ne vs l k _ nl)
  ])
]

module _ (p : Pool) (vs : Contents) (l m : ℕ) (h : Holds vs p) (here : l < max_lists)
    (there : m < max_lists) where
  -- On pools of the right shape, and for two distinct lists of which the first holds an item or the second
  -- is empty, `ListConcat` makes no access out of bounds: the items of the second list stand behind
  -- those of the first, in order, and the second list is empty.
  pub list_concat-refines :
      l ≢ m
      → (vs l ≢ []) ⊎ (vs m ≡ [])
      → Ensures (λ _ q. Holds (Spec.concat vs l m) q) (list_concat (some l) (some m) p)
  list_concat-refines apart ok = elim (List-cases (vs m)) [
    | inl e ↦
        rw (list_concat-nothing p l m here there (nil_head p vs h m there e).0)
          (Holds-ext vs (Spec.concat vs l m) p h (λ k small. concat_nil vs l m e k))
    | inr (z, zs, e) ↦
        let ne_m : vs m ≢ [] = λ c. cc in
        let ne_l : vs l ≢ [] = ground (arith, e) in
        let (x, r, t, left, last) = cons_view p vs h l here ne_l in
        let (y, s, _, right, _) = cons_view p vs h m there ne_m in
        rw
          (joined-eq h.own h.chains h.free p l m t x y r s h.shape here there apart left right last)
          (joined-Holds h.own h.chains h.free p l m t x y r s h.shape here there apart left right
            last vs h.values)
  ]

  -- With an empty first list and items in the second, `ListConcat` reads the `tail` index -1 of the
  -- first list, and writes outside of the node pool.
  pub list_concat-faults : vs l ≡ [] → vs m ≢ [] → list_concat (some l) (some m) p ≡ none
  list_concat-faults e ne =
      list_concat-fault p l m here there (cons_count p vs h m there ne) (nil_head p vs h l here e).1
