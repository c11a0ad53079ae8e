-- ===== src/ListLib/Prepend/Refines.antt =====
-- `ListPrepend` adds an item before the sequence of its list.
use listlib_and_system_calls.Common.{
  ℕ, ◌<◌, ◌≡◌, refl, ◌≢◌, true, false, some, List, [], ◌∷◌, ◌++◌, arith, subst, ne→==, ◌==◌,
}
use listlib_and_system_calls.ListLib.Pool.{Item, Pool, max_lists}
use listlib_and_system_calls.ListLib.Adders.{list_prepend}
use listlib_and_system_calls.ListLib.Alloc.{node_allocator-none}
use listlib_and_system_calls.ListLib.Chain.{items, Owned}
use listlib_and_system_calls.ListLib.Shape.{IsPool, IsList}
use listlib_and_system_calls.ListLib.Prepend.{
  list_prepend-first, list_prepend-cons, cons-Grew, new-ne-head, head_is, cons_items,
}
use listlib_and_system_calls.ListLib.Append.{first-Grew, first_items}
use listlib_and_system_calls.ListLib.Refine.{Grew-Holds, room-free, room-full}
use listlib_and_system_calls.ListLib.Spec
use listlib_and_system_calls.ListLib.Spec.{Contents, Holds, Ensures, room}

-- The result of a call and the sequences after it are those of the specification.
abbrev Prepended : Contents → ℕ → Item → Pool → Type 0
Prepended vs l x p =
    Ensures (λ s q. (s ≡ (Spec.prepend vs l x).0) × Holds (Spec.prepend vs l x).1 q)
      (list_prepend (some l) x p)

module _ (own : ℕ → ℕ) (xs : ℕ → List ℕ) (p : Pool) (vs : Contents) (l : ℕ) (x : Item)
    (values : (m : ℕ) → m < max_lists → items p.nodes (xs m) ≡ vs m) (here : l < max_lists)
    (real : x ≢ 0) where
  prepend_full : IsPool own xs [] p → Prepended vs l x p
  unfolding list_prepend Spec.prepend
  prepend_full v = rw (ne→== x 0 real) (
      rw (node_allocator-none p v.free) (
        rw (room-full own xs [] p vs v values refl)
          (refl, record { own = own; chains = xs; free = []; shape = v; values = values })))

  module _ (i : ℕ) (fs : List ℕ) (v : IsPool own xs (i ∷ fs) p) where
    shape_here : IsList p.nodes own l (p.lists l) (xs l)
    shape_here = v.list l here

    some_room : room vs ≡ true
    some_room = room-free own xs (i ∷ fs) p vs v values (λ e. cc)

    prepend_first : xs l ≡ [] → Prepended vs l x p
    unfolding Spec.prepend items
    prepend_first e =
        let c : (p.lists l).count ≡ 0 = ground (arith, shape_here.counted, e) in
        rw (list_prepend-first p l i x here v.free_owned.1 real v.free.0 c) (
          rw some_room (
            refl,
            Grew-Holds own xs fs i l (xs l ++ i ∷ []) p _ vs _ v values here
                (first-Grew own xs fs p l i x v here e)
                (rw (← values l here) (rw e (first_items own xs fs p l i x v here))),
          ))

    prepend_cons : (y : ℕ) (ys : List ℕ) → xs l ≡ y ∷ ys → Prepended vs l x p
    unfolding Spec.prepend
    prepend_cons y ys e =
        let c : ((p.lists l).count == 0) ≡ false = ground (arith, shape_here.counted, e) in
        let w = subst (Owned own l) e shape_here.owned in
        rw
          (list_prepend-cons p l i x here v.free_owned.1 real v.free.0 y w.1
            (new-ne-head own xs fs p l i x v here y ys e) c
            (head_is own xs fs p l i x v here y ys e))
          (rw some_room (
            refl,
            Grew-Holds own xs fs i l (i ∷ xs l) p _ vs _ v values here
                (cons-Grew own xs fs p l i x v here y ys e)
                (rw (← values l here) (cons_items own xs fs p l i x v here y ys e)),
          ))

    prepend_some : Prepended vs l x p
    prepend_some = go (xs l) refl
      where
        go : (zs : List ℕ) → xs l ≡ zs → Prepended vs l x p
        go [] e = prepend_first e
        go (y ∷ ys) e = prepend_cons y ys e

prepend_any :
    (own : ℕ → ℕ) (xs : ℕ → List ℕ) (fs : List ℕ) (p : Pool) (vs : Contents) (l : ℕ) (x : Item)
    → IsPool own xs fs p
    → ((m : ℕ) → m < max_lists → items p.nodes (xs m) ≡ vs m)
    → l < max_lists
    → x ≢ 0
    → Prepended vs l x p
prepend_any own xs [] p vs l x v values here real = prepend_full own xs p vs l x values here real v
prepend_any own xs (i ∷ fs) p vs l x v values here real =
    prepend_some own xs p vs l x values here real i fs v

-- On pools of the right shape, `ListPrepend` of a real item to a list in use makes no access out
-- of bounds. If a node is free it returns 0 and the item stands before the others of its list;
-- if none is, it returns -1 and both sequences are as before. The other list is never changed.
pub list_prepend-refines :
    (p : Pool) (vs : Contents) (l : ℕ) (x : Item)
    → Holds vs p
    → l < max_lists
    → x ≢ 0
    → Ensures
        (λ s q. (s ≡ (Spec.prepend vs l x).0) × Holds (Spec.prepend vs l x).1 q)
        (list_prepend (some l) x p)
list_prepend-refines p vs l x h here real =
    prepend_any h.own h.chains h.free p vs l x h.shape h.values here real
