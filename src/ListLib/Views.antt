-- ===== src/ListLib/Views.antt =====
-- What the sequence of a list says of its head.
use listlib_and_system_calls.Common.{
  ℕ, ◌<◌, ◌≡◌, ◌≢◌, inl, inr, refl, sym, ◌∙◌, false, none, some, List, [], ◌∷◌, arith, ◌==◌,
  List-cases, subst, length,
}
use listlib_and_system_calls.ListLib.Pool.{Node, Pool, max_lists}
use listlib_and_system_calls.ListLib.Chain.{items, Linked-last, length-items}
use listlib_and_system_calls.ListLib.Shape.{IsList}
use listlib_and_system_calls.ListLib.Spec.{Contents, Holds}

items_nil : (ns : ℕ → Node) (zs : List ℕ) → items ns zs ≡ [] → zs ≡ []
unfolding items
items_nil ns [] e = refl
items_nil ns (z ∷ zs) e = cc

module _ (p : Pool) (vs : Contents) (h : Holds vs p) (k : ℕ) (small : k < max_lists) where
  pub chain_nil : vs k ≡ [] → h.chains k ≡ []
  chain_nil e = items_nil p.nodes (h.chains k) (h.values k small ∙ e)

  pub nil_of_chain : h.chains k ≡ [] → vs k ≡ []
  unfolding items
  nil_of_chain e = sym (h.values k small) ∙ rw e refl

  -- An empty list has no last node, and its count is 0.
  pub nil_head : vs k ≡ [] → ((p.lists k).count ≡ 0) × ((p.lists k).tail ≡ none)
  nil_head e =
      let v = subst (IsList p.nodes h.own k (p.lists k)) (chain_nil e) (h.shape.list k small) in
      (v.counted, v.linked.1)

  -- Any other list has a first and a last node.
  pub cons_view :
      vs k ≢ []
      → (y : ℕ) × (ys : List ℕ) × (t : ℕ) × (h.chains k ≡ y ∷ ys) × ((p.lists k).tail ≡ some t)
  cons_view ne = elim (List-cases (h.chains k)) [
    | inl e ↦ absurd (ne (nil_of_chain e))
    | inr (y, ys, e) ↦
        let v = subst (IsList p.nodes h.own k (p.lists k)) e (h.shape.list k small) in
        let (t, et, _) = Linked-last p.nodes (p.lists k).head (p.lists k).tail y ys v.linked in
        (y, ys, t, e, et)
  ]

  pub cons_count : vs k ≢ [] → ((p.lists k).count == 0) ≡ false
  cons_count ne =
      let (y, ys, t, e, _) = cons_view ne in
      let v = subst (IsList p.nodes h.own k (p.lists k)) e (h.shape.list k small) in
      ground (arith, v.counted)

  pub chain_length : length (vs k) ≡ length (h.chains k)
  chain_length = rw (← h.values k small) (length-items p.nodes (h.chains k))
