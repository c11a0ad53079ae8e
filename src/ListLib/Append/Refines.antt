-- ===== src/ListLib/Append/Refines.antt =====
-- `ListAppend` adds an item behind the sequence of its list.
use listlib_and_system_calls.Common.{
  ℕ, ◌<◌, ◌≡◌, refl, ◌≢◌, true, false, some, List, [], ◌∷◌, ◌++◌, arith, subst, ne→==, ◌==◌,
}
use listlib_and_system_calls.ListLib.Pool.{Item, Pool, max_lists}
use listlib_and_system_calls.ListLib.Adders.{list_append}
use listlib_and_system_calls.ListLib.Alloc.{node_allocator-none}
use listlib_and_system_calls.ListLib.Chain.{items, Linked, Linked-last}
use listlib_and_system_calls.ListLib.Shape.{IsPool, IsList}
use listlib_and_system_calls.ListLib.Append.{
  list_append-first, list_append-last, first-Grew, last-Grew, tail_small, new-ne-tail, first_items,
  last_items,
}
use listlib_and_system_calls.ListLib.Refine.{Grew-Holds, room-free, room-full}
use listlib_and_system_calls.ListLib.Spec
use listlib_and_system_calls.ListLib.Spec.{Contents, Holds, Ensures, room}

-- The result of a call and the sequences after it are those of the specification.
abbrev Appended : Contents → ℕ → Item → Pool → Type 0
Appended vs l x p =
    Ensures (λ s q. (s ≡ (Spec.append vs l x).0) × Holds (Spec.append vs l x).1 q)
      (list_append (some l) x p)

module _ (own : ℕ → ℕ) (xs : ℕ → List ℕ) (p : Pool) (vs : Contents) (l : ℕ) (x : Item)
    (values : (m : ℕ) → m < max_lists → items p.nodes (xs m) ≡ vs m) (here : l < max_lists)
    (real : x ≢ 0) where
  append_full : IsPool own xs [] p → Appended vs l x p
  unfolding list_append Spec.append
  append_full v = rw (ne→== x 0 real) (
      rw (node_allocator-none p v.free) (
        rw (room-full own xs [] p vs v values refl)
          (refl, record { own = own; chains = xs; free = []; shape = v; values = values })))

  module _ (i : ℕ) (fs : List ℕ) (v : IsPool own xs (i ∷ fs) p) where
    shape_here : IsList p.nodes own l (p.lists l) (xs l)
    shape_here = v.list l here

    some_room : room vs ≡ true
    some_room = room-free own xs (i ∷ fs) p vs v values (λ e. cc)

    append_first : xs l ≡ [] → Appended vs l x p
    unfolding Spec.append items
    append_first e =
        let c : (p.lists l).count ≡ 0 = ground (arith, shape_here.counted, e) in
        rw (list_append-first p l i x here v.free_owned.1 real v.free.0 c) (
          rw some_room (
            refl,
            Grew-Holds own xs fs i l (xs l ++ i ∷ []) p _ vs _ v values here
                (first-Grew own xs fs p l i x v here e)
                (rw (← values l here) (rw e (first_items own xs fs p l i x v here))),
          ))

    append_last : (y : ℕ) (ys : List ℕ) → xs l ≡ y ∷ ys → Appended vs l x p
    unfolding Spec.append
    append_last y ys e =
        let (t, et, _) =
          Linked-last p.nodes (p.lists l).head (p.lists l).tail y ys (
            subst (λ zs. Linked p.nodes (p.lists l).head zs (p.lists l).tail) e
              shape_here.linked) in
        let c : ((p.lists l).count == 0) ≡ false = ground (arith, shape_here.counted, e) in
        rw
          (list_append-last p l i x here v.free_owned.1 real v.free.0 t
            (tail_small own xs fs p l i x v here y t ys e et)
            (new-ne-tail own xs fs p l i x v here y t ys e et) c et)
          (rw some_room (
            refl,
            Grew-Holds own xs fs i l (xs l ++ i ∷ []) p _ vs _ v values here
                (last-Grew own xs fs p l i x v here y t ys e et)
                (rw (← values l here) (last_items own xs fs p l i x v here y t ys e et)),
          ))

    append_some : Appended vs l x p
    append_some = go (xs l) refl
      where
        go : (zs : List ℕ) → xs l ≡ zs → Appended vs l x p
        go [] e = append_first e
        go (y ∷ ys) e = append_last y ys e

append_any :
    (own : ℕ → ℕ) (xs : ℕ → List ℕ) (fs : List ℕ) (p : Pool) (vs : Contents) (l : ℕ) (x : Item)
    → IsPool own xs fs p
    → ((m : ℕ) → m < max_lists → items p.nodes (xs m) ≡ vs m)
    → l < max_lists
    → x ≢ 0
    → Appended vs l x p
append_any own xs [] p vs l x v values here real = append_full own xs p vs l x values here real v
append_any own xs (i ∷ fs) p vs l x v values here real =
    append_some own xs p vs l x values here real i fs v

-- On pools of the right shape, `ListAppend` of a real item to a list in use makes no access out
-- of bounds. If a node is free it returns 0 and the item stands behind the others of its list;
-- if none is, it returns -1 and both sequences are as before. The other list is never changed.
pub list_append-refines :
    (p : Pool) (vs : Contents) (l : ℕ) (x : Item)
    → Holds vs p
    → l < max_lists
    → x ≢ 0
    → Ensures
        (λ s q. (s ≡ (Spec.append vs l x).0) × Holds (Spec.append vs l x).1 q)
        (list_append (some l) x p)
list_append-refines p vs l x h here real =
    append_any h.own h.chains h.free p vs l x h.shape h.values here real
