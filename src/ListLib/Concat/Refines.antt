-- ===== src/ListLib/Concat/Refines.antt =====
-- The shape and the sequences of the pools behind `ListConcat` of two lists in use.
use native.Mathlib.Decide.{ℕ_discrete}
use listlib_and_system_calls.Common.{
  ◌∙◌, subst, ℕ, ◌+◌, ◌<◌, ◌≡◌, refl, ◌≢◌, true, some, List, [], ◌∷◌, ◌++◌, arith, ◌==◌, has,
  length, length-append, ap, ap₂, sym, if◌then◌else◌,
}
use listlib_and_system_calls.ListLib.Pool.{Node, Pool, max_lists, max_nodes, update}
use listlib_and_system_calls.ListLib.Steps.{update_ne, update_self}
use listlib_and_system_calls.ListLib.Removers.{list_concat}
use listlib_and_system_calls.ListLib.Chain.{
  Linked-last, Linked-head, FreeChain-frame, Owned-moved, items, items-frame, items-append,
  own_of_has, lt_of_has,
}
use listlib_and_system_calls.ListLib.Shape.{IsList, IsPool}
use listlib_and_system_calls.ListLib.Concat.{joined, joined-IsList, list_concat-joined}
use listlib_and_system_calls.ListLib.Spec
use listlib_and_system_calls.ListLib.Spec.{Contents, Holds, Ensures}

module _ (own : ℕ → ℕ) (xs : ℕ → List ℕ) (fs : List ℕ) (p : Pool) (l m t x y : ℕ) (r s : List ℕ)
    (v : IsPool own xs fs p) (here : l < max_lists) (there : m < max_lists) (apart : l ≢ m)
    (left : xs l ≡ x ∷ r) (right : xs m ≡ y ∷ s) (last : (p.lists l).tail ≡ some t) where
  left-IsList : IsList p.nodes own l (p.lists l) (x ∷ r)
  left-IsList = subst (IsList p.nodes own l (p.lists l)) left (v.list l here)

  right-IsList : IsList p.nodes own m (p.lists m) (y ∷ s)
  right-IsList = subst (IsList p.nodes own m (p.lists m)) right (v.list m there)

  t_in : has t (x ∷ r) ≡ true
  t_in =
      let (a, e, i) =
        Linked-last p.nodes (p.lists l).head (p.lists l).tail x r left-IsList.linked in
      ground (arith, e, last)

  t_own : own t ≡ l
  t_own = own_of_has own l t (x ∷ r) left-IsList.owned t_in

  y_own : own y ≡ m
  y_own = right-IsList.owned.0

  t-ne-y : t ≢ y
  t-ne-y e = apart (sym t_own ∙ rw e y_own)

  at_t : (joined p l m t y).nodes t ≡ record (p.nodes t) { next = some y }
  at_t = update_ne (update p.nodes t _) y t _ (λ e. t-ne-y (sym e)) ∙ update_self p.nodes t _

  at_y : (joined p l m t y).nodes y ≡ record (p.nodes y) { prev = some t }
  at_y = update_self (update p.nodes t _) y _

  spared_nodes : (a : ℕ) → a ≢ t → a ≢ y → (joined p l m t y).nodes a ≡ p.nodes a
  spared_nodes a nt ny =
      update_ne (update p.nodes t _) y a _ (λ e. ny (sym e))
      ∙ update_ne p.nodes t a _ (λ e. nt (sym e))

  -- A node of a third owner is as it was.
  third : (a : ℕ) → own a ≢ l → own a ≢ m → (joined p l m t y).nodes a ≡ p.nodes a
  third a nl nm = spared_nodes a (λ e. nl (rw e t_own)) (λ e. nm (rw e y_own))

  new_own : ℕ → ℕ
  new_own a = if own a == m then l else own a

  chains : ℕ → List ℕ
  chains = update (update xs l (xs l ++ xs m)) m []

  chains_m : chains m ≡ []
  unfolding chains
  chains_m = update_self (update xs l _) m _

  chains_l : chains l ≡ (x ∷ r) ++ (y ∷ s)
  unfolding chains
  chains_l =
      update_ne (update xs l _) m l _ (λ e. apart (sym e))
      ∙ update_self xs l _
      ∙ ap₂ ◌++◌ left right

  chains_other : (k : ℕ) → k ≢ l → k ≢ m → chains k ≡ xs k
  unfolding chains
  chains_other k nl nm =
      update_ne (update xs l _) m k _ (λ e. nm (sym e)) ∙ update_ne xs l k _ (λ e. nl (sym e))

  JoinedList : ℕ → Type 0
  JoinedList k = IsList (joined p l m t y).nodes new_own k ((joined p l m t y).lists k) (chains k)

  list_l : JoinedList l
  unfolding JoinedList new_own
  list_l =
      rw
        (chains_l, update_ne (update p.lists l _) m l _ (λ e. apart (sym e)), update_self p.lists l)
        (joined-IsList p.nodes (joined p l m t y).nodes own l m t (p.lists l) (p.lists m) x y r s
          left-IsList right-IsList apart last (rw at_t (refl, refl)) (rw at_y (refl, refl))
          spared_nodes)

  list_m : JoinedList m
  unfolding JoinedList
  list_m =
      rw (chains_m, update_self (update p.lists l _) m)
        record { linked = (refl, refl); owned = tt; counted = refl; cursor = tt; inner = λ a h. cc }

  list_other : (k : ℕ) → k < max_lists → k ≢ l → k ≢ m → JoinedList k
  unfolding JoinedList new_own
  list_other k small nl nm = absurd (omega arith)

  joined_list : (k : ℕ) → k < max_lists → JoinedList k
  joined_list k small = elim (ℕ_discrete l k) [
    | yes e ↦ subst JoinedList e list_l
    | no nl ↦ elim (ℕ_discrete m k) [
      | yes e ↦ subst JoinedList e list_m
      | no nm ↦ list_other k small (λ e. nl (sym e)) (λ e. nm (sym e))
    ]
  ]

  free_third : (a : ℕ) → own a ≡ max_lists → (joined p l m t y).nodes a ≡ p.nodes a
  free_third a e = third a (ground arith) (ground arith)

  joined_total : length (chains 0) + length (chains 1) + length fs ≡ max_nodes
  joined_total =
      ground (
        arith,
        v.total,
        left,
        right,
        length-append (x ∷ r) (y ∷ s),
        chains_l,
        chains_m,
        here,
        there,
      )

  joined-IsPool : IsPool new_own chains fs (joined p l m t y)
  unfolding JoinedList new_own
  joined-IsPool = record {
    list = joined_list;
    free = FreeChain-frame p.nodes (joined p l m t y).nodes p.free_node_head fs v.free λ a i.
        ap (λ (n : Node). n.link) (free_third a (own_of_has own max_lists a fs v.free_owned i));
    free_owned = Owned-moved own new_own max_lists max_lists fs v.free_owned (λ a e. ground arith);
    total = joined_total;
  }

  item_same : (a : ℕ) → ((joined p l m t y).nodes a).item ≡ (p.nodes a).item
  item_same a = elim (ℕ_discrete t a) [
    | yes e ↦ subst (λ b. ((joined p l m t y).nodes b).item ≡ (p.nodes b).item) e (rw at_t)
    | no nt ↦ elim (ℕ_discrete y a) [
      | yes e ↦ subst (λ b. ((joined p l m t y).nodes b).item ≡ (p.nodes b).item) e (rw at_y)
      | no ny ↦ ap (λ (n : Node). n.item) (spared_nodes a (λ e. nt (sym e)) (λ e. ny (sym e)))
    ]
  ]

  items-joined : (zs : List ℕ) → items (joined p l m t y).nodes zs ≡ items p.nodes zs
  items-joined zs = items-frame p.nodes (joined p l m t y).nodes zs (λ a i. item_same a)

  joined_values :
      (vs : Contents)
      → ((k : ℕ) → k < max_lists → items p.nodes (xs k) ≡ vs k)
      → (k : ℕ) → k < max_lists
      → items (joined p l m t y).nodes (chains k) ≡ Spec.concat vs l m k
  unfolding chains Spec.concat items
  joined_values vs values k small = elim (ℕ_discrete m k) [
    | yes e ↦
        subst
          (λ j.
            items (joined p l m t y).nodes (chains j) ≡ update (update vs l (vs l ++ vs m)) m [] j)
          e (rw (update_self (update xs l _) m, update_self (update vs l _) m) refl)
    | no nm ↦
        rw (update_ne (update xs l _) m k [] nm, update_ne (update vs l _) m k [] nm)
          (elim (ℕ_discrete l k) [
            | yes e ↦
                subst
                  (λ j.
                    items (joined p l m t y).nodes (update xs l (xs l ++ xs m) j)
                    ≡ update vs l (vs l ++ vs m) j)
                  e
                  (rw (update_self xs l, update_self vs l)
                    (items-joined (xs l ++ xs m)
                      ∙ items-append p.nodes (xs l) (xs m)
                      ∙ ap₂ ◌++◌ (values l here) (values m there)))
            | no nl ↦
                rw (update_ne xs l k _ nl, update_ne vs l k _ nl)
                  (items-joined (xs k) ∙ values k small)
          ])
  ]

  pub joined-Holds :
      (vs : Contents)
      → ((k : ℕ) → k < max_lists → items p.nodes (xs k) ≡ vs k)
      → Holds (Spec.concat vs l m) (joined p l m t y)
  joined-Holds vs values = record {
    own = new_own;
    chains = chains;
    free = fs;
    shape = joined-IsPool;
    values = joined_values vs values;
  }

  pub joined-eq : list_concat (some l) (some m) p ≡ some (tt, joined p l m t y)
  joined-eq =
      list_concat-joined p l m here there t y apart
        (lt_of_has own l t (x ∷ r) left-IsList.owned t_in) right-IsList.owned.1 t-ne-y
        (ground (arith, right-IsList.counted)) last
        (Linked-head p.nodes (p.lists m).head (p.lists m).tail y s right-IsList.linked)
