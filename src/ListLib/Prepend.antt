-- ===== src/ListLib/Prepend.antt =====
-- What `ListPrepend` does to the pools.
pub mod Refines
use native.Mathlib.Decide.{ℕ_discrete}
use listlib_and_system_calls.Common.{
  inl, inr, ◌∙◌, subst, Bool-cases, ℕ, suc, ◌+◌, ◌<◌, ◌≡◌, refl, ◌≢◌, true, false, none, some, List,
  [], ◌∷◌, ◌++◌, arith, ◌==◌, has, length, ne→==, ap, ap₂, sym,
}
use listlib_and_system_calls.ListLib.Pool.{
  Idx, Item, Node, ListHead, Pool, max_lists, max_nodes, update,
}
use listlib_and_system_calls.ListLib.Steps.{steps, update_ne, update_self}
use listlib_and_system_calls.ListLib.Alloc.{node_allocator-some}
use listlib_and_system_calls.ListLib.Adders.{list_prepend, prepend_node, start_list}
use listlib_and_system_calls.ListLib.Chain.{
  Linked, Linked-frame, Owned, Owned-frame, items, items-frame, Within, Within-mono, own_of_has,
  lt_of_has, not-has_of_own,
}
use listlib_and_system_calls.ListLib.Shape.{IsList, IsPool}
use listlib_and_system_calls.ListLib.Append.{appended_first, new_node}
use listlib_and_system_calls.ListLib.Grow.{Grew}

module _ (p : Pool) (l i : ℕ) (x : Item) where
  -- The pools after a prepend before the first node `y`.
  abbrev pub prepended : ℕ → Pool
  prepended y = record p {
    nodes =
        update (update p.nodes i (new_node p l i x none (p.lists l).head)) y
          (record (p.nodes y) { prev = some i });
    lists =
        update p.lists l
          (record (p.lists l) { head = some i; curr = some i; count = (p.lists l).count + 1 });
    free_node_head = (p.nodes i).link;
  }

  module _ (here : l < max_lists) (small : i < max_nodes) (real : x ≢ 0)
      (e : p.free_node_head ≡ some i) where
    -- On an empty list `ListPrepend` does what `ListAppend` does.
    pub list_prepend-first :
        (p.lists l).count ≡ 0 → list_prepend (some l) x p ≡ some (some 0, appended_first p l i x)
    unfolding list_prepend prepend_node start_list
    list_prepend-first c =
        simp (ne→== x 0 real, node_allocator-some p i small e, steps, c, here, small)

    pub list_prepend-cons :
        (y : ℕ)
        → y < max_nodes
        → i ≢ y
        → ((p.lists l).count == 0) ≡ false
        → (p.lists l).head ≡ some y
        → list_prepend (some l) x p ≡ some (some 0, prepended y)
    unfolding list_prepend prepend_node start_list
    list_prepend-cons y sy ne c ey = simp (
      ne→== x 0 real,
      node_allocator-some p i small e,
      steps,
      c,
      ey,
      here,
      small,
      sy,
      update_ne p.nodes i y _ ne,
    )

-- A node put before the first node `y` of a list.
module _ (ns ms : ℕ → Node) (own : ℕ → ℕ) (l i : ℕ) (h : ListHead) (y : ℕ) (ys : List ℕ)
    (v : IsList ns own l h (y ∷ ys)) (stranger : own i ≢ l) (small : i < max_nodes)
    (fresh : ((ms i).next ≡ h.head) × ((ms i).prev ≡ none))
    (hung : ((ms y).next ≡ (ns y).next) × ((ms y).prev ≡ some i))
    (spared : (a : ℕ) → own a ≡ l → a ≢ y → ms a ≡ ns a) where
  first_is : h.head ≡ some y
  first_is = go ys v.linked
    where
      go : (zs : List ℕ) → Linked ns h.head (y ∷ zs) h.tail → h.head ≡ some y
      go [] k = k.0
      go (z ∷ zs) k = k.0

  old_own : (a : ℕ) → has a (y ∷ ys) ≡ true → own a ≡ l
  old_own a m = own_of_has own l a (y ∷ ys) v.owned m

  wider : (c : Idx) → Within (y ∷ ys) c → Within (i ∷ y ∷ ys) c
  wider c w = Within-mono (y ∷ ys) (i ∷ y ∷ ys) c w λ a m. ground arith

  Inner : ℕ → Type 0
  Inner a = Within (i ∷ y ∷ ys) (ms a).next × Within (i ∷ y ∷ ys) (ms a).prev

  old-Inner : (a : ℕ) → has a (y ∷ ys) ≡ true → Inner a
  unfolding Inner
  old-Inner a m = elim (ℕ_discrete y a) [
    | yes e ↦
        subst Inner e
          (rw hung.0 (wider (ns y).next (v.inner y (ground arith)).0), rw hung.1 (ground arith))
    | no ne ↦
        rw (spared a (old_own a m) (λ e. ne (sym e)))
          (wider (ns a).next (v.inner a m).0, wider (ns a).prev (v.inner a m).1)
  ]

  cons-Inner : (a : ℕ) → has a (i ∷ y ∷ ys) ≡ true → Inner a
  unfolding Inner
  cons-Inner a m = elim (Bool-cases (has a (y ∷ ys))) [
    | inl old ↦ old-Inner a old
    | inr new ↦
        let e : i ≡ a = ground arith in
        subst Inner e (rw (fresh.0, first_is) (ground arith), rw fresh.1 tt)
  ]

  same_next : (a : ℕ) → has a (y ∷ ys) ≡ true → (ms a).next ≡ (ns a).next
  same_next a m = elim (ℕ_discrete y a) [
    | yes e ↦ subst (λ b. (ms b).next ≡ (ns b).next) e hung.0
    | no ne ↦ ap (λ (n : Node). n.next) (spared a (old_own a m) (λ e. ne (sym e)))
  ]

  pub cons-IsList :
      IsList ms
        (update own i l)
        l
        (record h { head = some i; curr = some i; count = h.count + 1 })
        (i ∷ y ∷ ys)
  unfolding Inner
  cons-IsList = record {
    linked = (refl, rw fresh.0 (Linked-frame ns ms h.head h.tail (y ∷ ys) v.linked same_next));
    owned = (
      update_self own i l,
      small,
      not-has_of_own own l i (y ∷ ys) v.owned stranger,
      Owned-frame own (update own i l) l (y ∷ ys) v.owned
          λ a m. update_ne own i a l (λ e. stranger (rw e (old_own a m))),
    );
    counted = ground (arith, v.counted);
    cursor = ground arith;
    inner = cons-Inner;
  }

module _ (own : ℕ → ℕ) (xs : ℕ → List ℕ) (fs : List ℕ) (p : Pool) (l i : ℕ) (x : Item)
    (v : IsPool own xs (i ∷ fs) p) (here : l < max_lists) (y : ℕ) (ys : List ℕ)
    (nonempty : xs l ≡ y ∷ ys) where
  new_stranger : own i ≢ l
  new_stranger e = absurd (omega (arith, v.free_owned.0))

  shape : IsList p.nodes own l (p.lists l) (y ∷ ys)
  shape = subst (IsList p.nodes own l (p.lists l)) nonempty (v.list l here)

  head_own : own y ≡ l
  head_own = shape.owned.0

  new-ne-head : i ≢ y
  new-ne-head e = new_stranger (rw e head_own)

  spared_nodes : (a : ℕ) → a ≢ y → a ≢ i → (prepended p l i x y).nodes a ≡ p.nodes a
  spared_nodes a nt ni =
      update_ne (update p.nodes i _) y a _ (λ e. nt (sym e))
      ∙ update_ne p.nodes i a _ (λ e. ni (sym e))

  at_new : (prepended p l i x y).nodes i ≡ new_node p l i x none (p.lists l).head
  at_new = update_ne (update p.nodes i _) y i _ (λ e. new-ne-head (sym e)) ∙ update_self p.nodes i _

  at_head : (prepended p l i x y).nodes y ≡ record (p.nodes y) { prev = some i }
  at_head = update_self (update p.nodes i _) y _

  head_is : (p.lists l).head ≡ some y
  head_is =
      first_is p.nodes (prepended p l i x y).nodes own l i (p.lists l) y ys shape new_stranger
        v.free_owned.1 (rw at_new (refl, refl)) (rw at_head (refl, refl))
        (λ a o nt. spared_nodes a nt (λ e. new_stranger (rw (← e) o)))

  cons-Grew : Grew own xs i l (i ∷ xs l) p (prepended p l i x y)
  cons-Grew = rw nonempty record {
    others = λ m ne. update_ne p.lists l m _ (λ c. ne (sym c));
    spared = λ a no ni. spared_nodes a (λ e. no (rw e head_own)) ni;
    taken = refl;
    list = rw (update_self p.lists l) (
        cons-IsList p.nodes (prepended p l i x y).nodes own l i (p.lists l) y ys shape new_stranger
          v.free_owned.1 (rw at_new (refl, refl)) (rw at_head (refl, refl))
          (λ a o nt. spared_nodes a nt (λ e. new_stranger (rw (← e) o))));
    longer = rw nonempty;
  }

  old_items : items (prepended p l i x y).nodes (y ∷ ys) ≡ items p.nodes (y ∷ ys)
  old_items = items-frame p.nodes _ (y ∷ ys) λ a m. elim (ℕ_discrete y a) [
    | yes e ↦ subst (λ b. ((prepended p l i x y).nodes b).item ≡ (p.nodes b).item) e (rw at_head)
    | no ne ↦
        ap (λ (n : Node). n.item)
          (spared_nodes a (λ e. ne (sym e))
            (λ e. new_stranger (rw (← e) (own_of_has own l a (y ∷ ys) shape.owned m))))
  ]

  cons_items : items (prepended p l i x y).nodes (i ∷ xs l) ≡ x ∷ items p.nodes (xs l)
  unfolding items
  cons_items = rw nonempty (ap₂ ◌∷◌ (ap (λ (n : Node). n.item) at_new) old_items)
