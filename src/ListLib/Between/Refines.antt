-- ===== src/ListLib/Between/Refines.antt =====
-- `ListAdd` and `ListInsert` put an item at the cursor of a list.
use listlib_and_system_calls.Common.{
  inl, inr, ◌∙◌, subst, ℕ, suc, ◌+◌, ◌<◌, ◌≤◌, ◌≡◌, refl, ◌≢◌, true, false, Option, none, some,
  List, [], ◌∷◌, arith, ◌==◌, has, length, has-insert, insert, get_elem?, ap, ne→==, List-cases,
}
use listlib_and_system_calls.ListLib.Pool.{CInt, Idx, Item, Node, ListHead, Pool, max_lists, update}
use listlib_and_system_calls.ListLib.Alloc.{node_allocator-none}
use listlib_and_system_calls.ListLib.Steps.{steps}
use listlib_and_system_calls.ListLib.Adders.{list_add, list_insert, idx_eq}
use listlib_and_system_calls.ListLib.Chain.{Linked, Linked-head, Owned, own_of_has, Within}
use listlib_and_system_calls.ListLib.Shape.{IsPool}
use listlib_and_system_calls.ListLib.Refine.{Grew-Holds, room-free, room-full}
use listlib_and_system_calls.ListLib.Views.{cons_count, chain_length}
use listlib_and_system_calls.ListLib.Cursor.{At, Linked-next}
use listlib_and_system_calls.ListLib.Cursor.Walk.{at_position}
use listlib_and_system_calls.ListLib.Between.{has-get_elem?}
use listlib_and_system_calls.ListLib.Between.Calls.{
  list_add-between, list_insert-between, between-Grew, with_between, between_items, new-ne, c-ne-d,
  added_head, inserted_head,
}
use listlib_and_system_calls.ListLib.Spec
use listlib_and_system_calls.ListLib.Spec.{Contents, Holds, Ensures, room}

-- The first node of a chain is at no later position.
first-ne :
    (ns : ℕ → Node) (own : ℕ → ℕ) (o : ℕ) (h t : Idx) (xs : List ℕ) (k d : ℕ)
    → Linked ns h xs t
    → Owned own o xs
    → get_elem? xs (suc k) ≡ some d
    → idx_eq h (some d) ≡ false
first-ne ns own o h t [] k d l w e = cc
first-ne ns own o h t (x ∷ r) k d l w e =
    let ne : (x == d) ≡ false = ground (arith, has-get_elem? r k d e) in
    rw (Linked-head ns h t x r l) ne

-- The result of a call and the sequences after it are those of the specification.
abbrev Inserted : Contents → ℕ → ℕ → Item → Option (CInt × Pool) → Type 0
Inserted vs l k x r =
    Ensures (λ s q. (s ≡ (Spec.insert_at vs l k x).0) × Holds (Spec.insert_at vs l k x).1 q) r

module _ (p : Pool) (vs : Contents) (l k : ℕ) (x : Item) (h : Holds vs p) (here : l < max_lists)
    (real : x ≢ 0) (behind : (p.lists l).before ≢ 1) (more : suc k < length (vs l)) where
  not_empty : ((p.lists l).count == 0) ≡ false
  not_empty = cons_count p vs h l here (λ e. absurd (omega (arith, ap length e)))

  inside : (p.lists l).after ≡ 0 → (p.lists l).after ≢ 1
  inside e = omega arith

  -- Neither function changes anything when no node is free.
  full : h.free ≡ [] → (p.free_node_head ≡ none) × (Spec.insert_at vs l (suc k) x ≡ (none, vs))
  unfolding Spec.insert_at
  full e =
      let v = subst (λ fs. IsPool h.own h.chains fs p) e h.shape in
      (v.free, rw (room-full h.own h.chains [] p vs v h.values refl))

  module _ (i : ℕ) (fs : List ℕ) (f : h.free ≡ i ∷ fs) where
    v : IsPool h.own h.chains (i ∷ fs) p
    v = subst (λ gs. IsPool h.own h.chains gs p) f h.shape

    some_room : room vs ≡ true
    some_room = room-free h.own h.chains (i ∷ fs) p vs v h.values (λ e. cc)

    module _ (c d : ℕ) (ec : get_elem? (h.chains l) k ≡ some c)
        (ed : get_elem? (h.chains l) (suc k) ≡ some d) where
      room_in : suc k < length (h.chains l)
      room_in = omega (arith, chain_length p vs h l here)

      -- Any head with one item more and a cursor inside of the longer list will do.
      after_call :
          (g : ListHead)
          → g.head ≡ (p.lists l).head
          → g.tail ≡ (p.lists l).tail
          → g.count ≡ (p.lists l).count + 1
          → Within (insert (suc k) i (h.chains l)) g.curr
          → Holds (update vs l (insert (suc k) x (vs l))) (with_between p l i c d x g)
      after_call g eh et en w =
          Grew-Holds h.own h.chains fs i l (insert (suc k) i (h.chains l)) p _ vs _ v h.values here
            (between-Grew h.own h.chains fs p l i c d k x g v here ec ed room_in eh et en w)
            (rw (← h.values l here)
              (between_items h.own h.chains fs p l i c d k x g v here ec ed room_in))

      in_longer : (a : ℕ) → has a (h.chains l) ≡ true → has a (insert (suc k) i (h.chains l)) ≡ true
      in_longer a m =
          let le : suc k ≤ length (h.chains l) = omega (arith, room_in) in
          ground (arith, has-insert a (suc k) i (h.chains l) le)

      new_in : has i (insert (suc k) i (h.chains l)) ≡ true
      new_in =
          let le : suc k ≤ length (h.chains l) = omega (arith, room_in) in
          ground (arith, has-insert i (suc k) i (h.chains l) le)

    add_some : At p vs h l k → Inserted vs l (suc k) x (list_add (some l) x p)
    unfolding Spec.insert_at
    add_some at =
        let (c, ec, mc, sc, _) = at_position p vs h l here k at.1 in
        let (d, ed, md, sd, _) = at_position p vs h l here (suc k) more in
        let g = added_head p l i c d x in
        let ne = new-ne h.own h.chains fs p l i c d k x g v here ec ed (room_in c d ec ed) in
        let owned = (h.shape.list l here).owned in
        let nx =
          Linked-next p.nodes (p.lists l).head (p.lists l).tail (h.chains l) k c d
            (h.shape.list l here).linked ec ed in
        rw
          (list_add-between p l i c d x here v.free_owned.1 sc sd real v.free.0
            (ne c (own_of_has h.own l c (h.chains l) owned mc))
            (ne d (own_of_has h.own l d (h.chains l) owned md))
            (c-ne-d h.own h.chains fs p l i c d k x g v here ec ed (room_in c d ec ed)) not_empty
            (inside at.2) behind (at.0 ∙ ec) nx)
          (rw some_room (
            refl,
            after_call c d ec ed g refl refl refl (rw (at.0 ∙ ec) (in_longer c d ec ed c mc)),
          ))

    insert_some :
        (g : At p vs h l (suc k))
        → ((d : ℕ) → (p.lists l).curr ≡ some d → (p.nodes d).prev ≡ get_elem? (h.chains l) k)
        → Inserted vs l (suc k) x (list_insert (some l) x p)
    unfolding Spec.insert_at
    insert_some at back =
        let (c, ec, mc, sc, _) = at_position p vs h l here k (omega arith) in
        let (d, ed, md, sd, _) = at_position p vs h l here (suc k) more in
        let g = inserted_head p l i c d x in
        let ne = new-ne h.own h.chains fs p l i c d k x g v here ec ed (room_in c d ec ed) in
        let owned = (h.shape.list l here).owned in
        rw
          (list_insert-between p l i c d x here v.free_owned.1 sc sd real v.free.0
            (ne c (own_of_has h.own l c (h.chains l) owned mc))
            (ne d (own_of_has h.own l d (h.chains l) owned md))
            (c-ne-d h.own h.chains fs p l i c d k x g v here ec ed (room_in c d ec ed)) not_empty
            (inside at.2) behind (at.0 ∙ ed) (back d (at.0 ∙ ed) ∙ ec)
            (first-ne p.nodes h.own l (p.lists l).head (p.lists l).tail (h.chains l) k d
              (h.shape.list l here).linked owned ed))
          (rw some_room (refl, after_call c d ec ed g refl refl refl (new_in c d ec ed)))

  add_full : At p vs h l k → h.free ≡ [] → list_add (some l) x p ≡ some (none, p)
  unfolding list_add
  add_full at e =
      let (c, ec, _, _, _) = at_position p vs h l here k at.1 in
      let cu : (p.lists l).curr ≡ some c = at.0 ∙ ec in
      simp (
        ne→== x 0 real,
        not_empty,
        cu,
        ne→== (p.lists l).after 1 (inside at.2),
        ne→== (p.lists l).before 1 behind,
        steps,
        here,
        node_allocator-none p (full e).0,
      )

  insert_full : At p vs h l (suc k) → h.free ≡ [] → list_insert (some l) x p ≡ some (none, p)
  unfolding list_insert
  insert_full at e = simp (
    ne→== x 0 real,
    not_empty,
    ne→== (p.lists l).after 1 (inside at.2),
    ne→== (p.lists l).before 1 behind,
    steps,
    here,
    node_allocator-none p (full e).0,
  )

  -- On pools of the right shape, with the cursor at a position that is not the last of its list and neither
  -- the flag `before` nor the flag `after` set, `ListAdd` of a real item makes no access out of bounds. If a node is free it returns 0 and
  -- the item stands right behind the position; if none is, it returns -1 and both sequences are as before.
  pub list_add-refines : At p vs h l k → Inserted vs l (suc k) x (list_add (some l) x p)
  list_add-refines at = elim (List-cases h.free) [
    | inl e ↦ rw (add_full at e, (full e).1) (refl, h)
    | inr (i, fs, f) ↦ add_some i fs f at
  ]

  -- On pools of the right shape, with the cursor behind the first position, a `prev` of its node that is the
  -- node before it, and neither the flag `before` nor the flag `after` set, `ListInsert` of a real item makes no access out of bounds. If a node is
  -- free it returns 0 and the item stands right before the position; if none is, it returns -1 and
  -- both sequences are as before.
  pub list_insert-refines :
      At p vs h l (suc k)
      → ((d : ℕ) → (p.lists l).curr ≡ some d → (p.nodes d).prev ≡ get_elem? (h.chains l) k)
      → Inserted vs l (suc k) x (list_insert (some l) x p)
  list_insert-refines at back = elim (List-cases h.free) [
    | inl e ↦ rw (insert_full at e, (full e).1) (refl, h)
    | inr (i, fs, f) ↦ insert_some i fs f at back
  ]
