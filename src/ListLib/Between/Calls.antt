-- ===== src/ListLib/Between/Calls.antt =====
-- `ListAdd` and `ListInsert` at a cursor inside of a list.
use native.Mathlib.Decide.{ℕ_discrete}
use listlib_and_system_calls.Common.{
  ◌∙◌, subst, ℕ, suc, ◌+◌, ◌<◌, ◌≡◌, refl, ◌≢◌, true, false, none, some, List, ◌∷◌, arith, ◌==◌,
  has, length, length-insert, insert, get_elem?, ap, ap₂, sym, ne→==,
}
use listlib_and_system_calls.ListLib.Pool.{Item, Node, ListHead, Pool, max_lists, max_nodes, update}
use listlib_and_system_calls.ListLib.Steps.{steps, update_ne, update_self, update_comm}
use listlib_and_system_calls.ListLib.Alloc.{node_allocator-some}
use listlib_and_system_calls.ListLib.Adders.{list_add, list_insert, add_node, insert_node, idx_eq}
use listlib_and_system_calls.ListLib.Chain.{Within, items, items-frame, own_of_has}
use listlib_and_system_calls.ListLib.Shape.{IsList, IsPool}
use listlib_and_system_calls.ListLib.Grow.{Grew}
use listlib_and_system_calls.ListLib.Between.{
  between-IsList, has-get_elem?, neighbours_ne, items-insert,
}

-- The pools when node `i` stands between the neighbours `c` and `d`.
module _ (p : Pool) (l i c d : ℕ) (x : Item) where
  abbrev pub middle : Node
  middle = record { item = x; next = some d; prev = some c; link = none }

  abbrev pub between_nodes : ℕ → Node
  between_nodes =
      update (update (update p.nodes i middle) d (record (p.nodes d) { prev = some i })) c
        (record (p.nodes c) { next = some i })

  abbrev pub with_between : ListHead → Pool
  with_between g = record p {
    nodes = between_nodes;
    lists = update p.lists l g;
    free_node_head = (p.nodes i).link;
  }

  abbrev pub added_head : ListHead
  added_head = record (p.lists l) { count = (p.lists l).count + 1 }

  abbrev pub inserted_head : ListHead
  inserted_head = record (p.lists l) { curr = some i; count = (p.lists l).count + 1 }

  module _ (here : l < max_lists) (small : i < max_nodes) (sc : c < max_nodes) (sd : d < max_nodes)
      (real : x ≢ 0) (e : p.free_node_head ≡ some i) (ic : i ≢ c) (id : i ≢ d) (cd : c ≢ d)
      (full : ((p.lists l).count == 0) ≡ false) (inside : (p.lists l).after ≢ 1)
      (behind : (p.lists l).before ≢ 1) where
    pub list_add-between :
        (p.lists l).curr ≡ some c
        → (p.nodes c).next ≡ some d
        → list_add (some l) x p ≡ some (some 0, with_between added_head)
    unfolding list_add add_node
    list_add-between cu nx = simp (
      ne→== x 0 real,
      full,
      cu,
      nx,
      ne→== (p.lists l).after 1 inside,
      ne→== (p.lists l).before 1 behind,
      node_allocator-some p i small e,
      steps,
      here,
      small,
      sc,
      sd,
      update_ne p.nodes i c _ ic,
      update_ne p.nodes i d _ id,
      update_ne (update p.nodes i middle) d c _ (λ q. cd (sym q)),
    )

    swapped :
        update
          (update (update p.nodes i middle) c (record (p.nodes c) { next = some i }))
          d
          (record (p.nodes d) { prev = some i })
        ≡ between_nodes
    swapped = update_comm (update p.nodes i middle) c d _ _ cd

    pub list_insert-between :
        (p.lists l).curr ≡ some d
        → (p.nodes d).prev ≡ some c
        → idx_eq (p.lists l).head (some d) ≡ false
        → list_insert (some l) x p ≡ some (some 0, with_between inserted_head)
    unfolding list_insert insert_node
    list_insert-between cu pv hd =
        simp
          (
            ne→== x 0 real,
            full,
            cu,
            pv,
            hd,
            ne→== (p.lists l).after 1 inside,
            ne→== (p.lists l).before 1 behind,
            node_allocator-some p i small e,
            steps,
            here,
            small,
            sc,
            sd,
            update_ne p.nodes i c _ ic,
            update_ne p.nodes i d _ id,
            update_ne (update p.nodes i middle) c d _ cd,
          )
          (ap
            (λ (ns : ℕ → Node). some (
              some 0,
              record p {
                nodes = ns;
                lists = update p.lists l inserted_head;
                free_node_head = (p.nodes i).link;
              },
            ))
            swapped)

module _ (own : ℕ → ℕ) (xs : ℕ → List ℕ) (fs : List ℕ) (p : Pool) (l i c d k : ℕ) (x : Item)
    (g : ListHead) (v : IsPool own xs (i ∷ fs) p) (here : l < max_lists)
    (at_c : get_elem? (xs l) k ≡ some c) (at_d : get_elem? (xs l) (suc k) ≡ some d)
    (room : suc k < length (xs l)) where
  new_stranger : own i ≢ l
  new_stranger e = absurd (omega (arith, v.free_owned.0))

  shape : IsList p.nodes own l (p.lists l) (xs l)
  shape = v.list l here

  pub in_c : has c (xs l) ≡ true
  in_c = has-get_elem? (xs l) k c at_c

  pub in_d : has d (xs l) ≡ true
  in_d = has-get_elem? (xs l) (suc k) d at_d

  pub own_c : own c ≡ l
  own_c = own_of_has own l c (xs l) shape.owned in_c

  pub own_d : own d ≡ l
  own_d = own_of_has own l d (xs l) shape.owned in_d

  pub new-ne : (a : ℕ) → own a ≡ l → i ≢ a
  new-ne a o e = new_stranger (rw e o)

  pub c-ne-d : c ≢ d
  c-ne-d = neighbours_ne own l (xs l) k c d shape.owned at_c at_d

  nodes : ℕ → Node
  nodes = between_nodes p l i c d x

  at_new : nodes i ≡ middle p l i c d x
  unfolding nodes
  at_new =
      update_ne (update (update p.nodes i _) d _) c i _ (λ e. new-ne c own_c (sym e))
      ∙ update_ne (update p.nodes i _) d i _ (λ e. new-ne d own_d (sym e))
      ∙ update_self p.nodes i _

  at_left : nodes c ≡ record (p.nodes c) { next = some i }
  unfolding nodes
  at_left = update_self (update (update p.nodes i _) d _) c _

  at_right : nodes d ≡ record (p.nodes d) { prev = some i }
  unfolding nodes
  at_right =
      update_ne (update (update p.nodes i _) d _) c d _ c-ne-d
      ∙ update_self (update p.nodes i _) d _

  spared_nodes : (a : ℕ) → a ≢ i → a ≢ c → a ≢ d → nodes a ≡ p.nodes a
  unfolding nodes
  spared_nodes a ni nc nd =
      update_ne (update (update p.nodes i _) d _) c a _ (λ e. nc (sym e))
      ∙ update_ne (update p.nodes i _) d a _ (λ e. nd (sym e))
      ∙ update_ne p.nodes i a _ (λ e. ni (sym e))

  module _ (eh : g.head ≡ (p.lists l).head) (et : g.tail ≡ (p.lists l).tail)
      (ec : g.count ≡ (p.lists l).count + 1) (w : Within (insert (suc k) i (xs l)) g.curr) where
    pub between-Grew : Grew own xs i l (insert (suc k) i (xs l)) p (with_between p l i c d x g)
    unfolding nodes
    between-Grew = record {
      others = λ m ne. update_ne p.lists l m g (λ e. ne (sym e));
      spared = λ a no ni. spared_nodes a ni (λ e. no (rw e own_c)) (λ e. no (rw e own_d));
      taken = refl;
      list = rw (update_self p.lists l g) (
          between-IsList p.nodes nodes own l k i c d (p.lists l) (xs l) shape new_stranger
            v.free_owned.1 at_c at_d (omega arith) (rw at_new (refl, refl))
            (rw at_left (refl, refl)) (rw at_right (refl, refl))
            (λ a o nc nd. spared_nodes a (λ e. new-ne a o (sym e)) nc nd) g eh et ec w);
      longer = length-insert (suc k) i (xs l) (omega arith);
    }

  old_item : (a : ℕ) → has a (xs l) ≡ true → (nodes a).item ≡ (p.nodes a).item
  old_item a m = elim (ℕ_discrete c a) [
    | yes e ↦ subst (λ b. (nodes b).item ≡ (p.nodes b).item) e (rw at_left)
    | no nc ↦ elim (ℕ_discrete d a) [
      | yes e ↦ subst (λ b. (nodes b).item ≡ (p.nodes b).item) e (rw at_right)
      | no nd ↦
          ap (λ (n : Node). n.item)
            (spared_nodes a (λ e. new-ne a (own_of_has own l a (xs l) shape.owned m) (sym e))
              (λ e. nc (sym e)) (λ e. nd (sym e)))
    ]
  ]

  pub between_items :
      items (between_nodes p l i c d x) (insert (suc k) i (xs l))
      ≡ insert (suc k) x (items p.nodes (xs l))
  unfolding nodes
  between_items =
      items-insert nodes (suc k) i (xs l)
      ∙ ap₂ (insert (suc k)) (ap (λ (n : Node). n.item) at_new)
          (items-frame p.nodes nodes (xs l) old_item)
