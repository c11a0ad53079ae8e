-- ===== src/ListLib/Append.antt =====
-- What `ListAppend` does to the pools.
pub mod Refines
use native.Mathlib.Decide.{ℕ_discrete}
use listlib_and_system_calls.Common.{
  inl, inr, ◌∙◌, subst, Bool-cases, lt→ltb, ℕ, suc, ◌+◌, ◌<◌, ◌≡◌, refl, ◌≢◌, true, false, Option,
  none, some, List, [], ◌∷◌, ◌++◌, arith, ◌==◌, has, has-append, length, if◌then◌else◌, ne→==,
  ==-refl, ap, ap₂, sym, length-append,
}
use listlib_and_system_calls.ListLib.Pool.{
  Idx, Item, Node, ListHead, Pool, max_lists, max_nodes, update,
}
use listlib_and_system_calls.ListLib.Steps.{steps, with_nodes, with_list, update_ne, update_self}
use listlib_and_system_calls.ListLib.Alloc.{taken, node_allocator-some}
use listlib_and_system_calls.ListLib.Adders.{append_node, start_list, list_append, node_allocator}
use listlib_and_system_calls.ListLib.Chain.{
  Linked, Linked-append, Linked-last, Owned, Owned-append, Owned-frame, items, items-append,
  items-frame, Within, own_of_has, lt_of_has, Within-mono, has-append_left, has-append_right,
}
use listlib_and_system_calls.ListLib.Shape.{IsList, IsPool}
use listlib_and_system_calls.ListLib.Snoc.{snoc-IsList}
use listlib_and_system_calls.ListLib.Grow.{Grew}

module _ (p : Pool) (l i : ℕ) (x : Item) where
  abbrev pub appended_head : ListHead → ListHead
  appended_head h = record h {
    tail = some i;
    curr = some i;
    count = h.count + 1;
    before = 0;
    after = 0;
  }

  abbrev pub new_node : Idx → Idx → Node
  new_node b f = record { item = x; next = f; prev = b; link = none }

  -- The pools after an append to an empty list: the node is its own neighbour.
  abbrev pub appended_first : Pool
  appended_first = record p {
    nodes = update p.nodes i (new_node (some i) (some i));
    lists = update p.lists l (record (appended_head (p.lists l)) { head = some i; count = 1 });
    free_node_head = (p.nodes i).link;
  }

  -- The pools after an append behind the last node `t`.
  abbrev pub appended_last : ℕ → Pool
  appended_last t = record p {
    nodes =
        update (update p.nodes i (new_node (p.lists l).curr none)) t
          (record (p.nodes t) { next = some i });
    lists = update p.lists l (appended_head (p.lists l));
    free_node_head = (p.nodes i).link;
  }

  module _ (here : l < max_lists) (small : i < max_nodes) (real : x ≢ 0)
      (e : p.free_node_head ≡ some i) where
    pub list_append-first :
        (p.lists l).count ≡ 0 → list_append (some l) x p ≡ some (some 0, appended_first)
    unfolding list_append append_node start_list
    list_append-first c =
        simp (ne→== x 0 real, node_allocator-some p i small e, steps, c, here, small)

    pub list_append-last :
        (t : ℕ)
        → t < max_nodes
        → i ≢ t
        → ((p.lists l).count == 0) ≡ false
        → (p.lists l).tail ≡ some t
        → list_append (some l) x p ≡ some (some 0, appended_last t)
    unfolding list_append append_node start_list
    list_append-last t st ne c et = simp (
      ne→== x 0 real,
      node_allocator-some p i small e,
      steps,
      c,
      et,
      here,
      small,
      st,
      update_ne p.nodes i t _ ne,
    )

module _ (own : ℕ → ℕ) (xs : ℕ → List ℕ) (fs : List ℕ) (p : Pool) (l i : ℕ) (x : Item)
    (v : IsPool own xs (i ∷ fs) p) (here : l < max_lists) where
  new_stranger : own i ≢ l
  new_stranger e = absurd (omega (arith, v.free_owned.0))

  first-IsList :
      IsList
        (appended_first p l i x).nodes
        (update own i l)
        l
        ((appended_first p l i x).lists l)
        (i ∷ [])
  first-IsList =
      let n = update_self p.nodes i (new_node p l i x (some i) (some i)) in
      rw (update_self p.lists l) record {
        linked = (refl, refl);
        owned = (update_self own i l, v.free_owned.1, refl, tt);
        counted = refl;
        cursor = ground arith;
        inner = λ a h.
            let e : i ≡ a = ground arith in
            subst
              (λ b.
                Within (i ∷ []) ((appended_first p l i x).nodes b).next
                × Within (i ∷ []) ((appended_first p l i x).nodes b).prev)
              e (rw n (ground arith, ground arith));
      }

  pub first-Grew : xs l ≡ [] → Grew own xs i l (xs l ++ i ∷ []) p (appended_first p l i x)
  first-Grew e = rw e record {
    others = λ m ne. update_ne p.lists l m _ (λ c. ne (sym c));
    spared = λ a no ni. update_ne p.nodes i a _ (λ c. ni (sym c));
    taken = refl;
    list = first-IsList;
    longer = rw e;
  }

  module _ (y t : ℕ) (ys : List ℕ) (nonempty : xs l ≡ y ∷ ys)
      (last : (p.lists l).tail ≡ some t) where
    shape : IsList p.nodes own l (p.lists l) (y ∷ ys)
    shape = subst (IsList p.nodes own l (p.lists l)) nonempty (v.list l here)

    tail_in : has t (y ∷ ys) ≡ true
    tail_in =
        let (a, e, m) = Linked-last p.nodes (p.lists l).head (p.lists l).tail y ys shape.linked in
        ground (arith, e, last)

    tail_own : own t ≡ l
    tail_own = own_of_has own l t (y ∷ ys) shape.owned tail_in

    tail_small : t < max_nodes
    tail_small = lt_of_has own l t (y ∷ ys) shape.owned tail_in

    new-ne-tail : i ≢ t
    new-ne-tail e = new_stranger (rw e tail_own)

    spared_nodes : (a : ℕ) → a ≢ t → a ≢ i → (appended_last p l i x t).nodes a ≡ p.nodes a
    spared_nodes a nt ni =
        update_ne (update p.nodes i _) t a _ (λ e. nt (sym e))
        ∙ update_ne p.nodes i a _ (λ e. ni (sym e))

    at_new : (appended_last p l i x t).nodes i ≡ new_node p l i x (p.lists l).curr none
    at_new =
        update_ne (update p.nodes i _) t i _ (λ e. new-ne-tail (sym e)) ∙ update_self p.nodes i _

    at_tail : (appended_last p l i x t).nodes t ≡ record (p.nodes t) { next = some i }
    at_tail = update_self (update p.nodes i _) t _

    last-Grew : Grew own xs i l (xs l ++ i ∷ []) p (appended_last p l i x t)
    last-Grew = rw nonempty record {
      others = λ m ne. update_ne p.lists l m _ (λ c. ne (sym c));
      spared = λ a no ni. spared_nodes a (λ e. no (rw e tail_own)) ni;
      taken = refl;
      list = rw (update_self p.lists l) (
          snoc-IsList p.nodes (appended_last p l i x t).nodes own l i t (p.lists l) y ys shape
            new_stranger v.free_owned.1 last (rw at_new (refl, refl)) (rw at_tail (refl, refl))
            (λ a o nt. spared_nodes a nt (λ e. new_stranger (rw (← e) o))));
      longer = ground (arith, length-append (y ∷ ys) (i ∷ []), nonempty);
    }

    old_items : items (appended_last p l i x t).nodes (y ∷ ys) ≡ items p.nodes (y ∷ ys)
    old_items = items-frame p.nodes _ (y ∷ ys) λ a m. elim (ℕ_discrete t a) [
      | yes e ↦
          subst (λ b. ((appended_last p l i x t).nodes b).item ≡ (p.nodes b).item) e (rw at_tail)
      | no ne ↦
          ap (λ (n : Node). n.item)
            (spared_nodes a (λ e. ne (sym e))
              (λ e. new_stranger (rw (← e) (own_of_has own l a (y ∷ ys) shape.owned m))))
    ]

    last_items :
        items (appended_last p l i x t).nodes (xs l ++ i ∷ []) ≡ items p.nodes (xs l) ++ x ∷ []
    unfolding items
    last_items = rw nonempty (
        items-append (appended_last p l i x t).nodes (y ∷ ys) (i ∷ [])
        ∙ ap₂ ◌++◌ old_items (ap (λ (n : Node). n.item ∷ []) at_new))

  pub first_items : items (appended_first p l i x).nodes (i ∷ []) ≡ x ∷ []
  unfolding items
  first_items = ap (λ (n : Node). n.item ∷ []) (update_self p.nodes i _)
