-- ===== src/ListLib/Grow.antt =====
-- A list takes one free node: what is left to prove of a function that adds an item.
use native.Mathlib.Decide.{ℕ_discrete}
use listlib_and_system_calls.Common.{
  ℕ, suc, ◌+◌, ◌<◌, ◌≡◌, ◌≢◌, true, List, ◌∷◌, arith, has, length, ap, sym, subst,
}
use listlib_and_system_calls.ListLib.Pool.{Node, Pool, max_lists, max_nodes, update}
use listlib_and_system_calls.ListLib.Steps.{update_self, update_ne, update-if}
use listlib_and_system_calls.ListLib.Chain.{
  items, own_of_has, FreeChain-frame, Owned-frame, items-frame,
}
use listlib_and_system_calls.ListLib.Shape.{IsList, IsPool, IsList-frame}

-- From `p` to `q` the list `l` has become `ys`, with the first free node `i`, and the rest of the pools is
-- as it was.
pub record Grew (own : ℕ → ℕ) (xs : ℕ → List ℕ) (i l : ℕ) (ys : List ℕ) (p q : Pool) : Type 0 where
  pub others : (m : ℕ) → m ≢ l → q.lists m ≡ p.lists m
  pub spared : (a : ℕ) → own a ≢ l → a ≢ i → q.nodes a ≡ p.nodes a
  pub taken : q.free_node_head ≡ (p.nodes i).link
  pub list : IsList q.nodes (update own i l) l (q.lists l) ys
  pub longer : length ys ≡ suc (length (xs l))

module _ (own : ℕ → ℕ) (xs : ℕ → List ℕ) (fs : List ℕ) (i l : ℕ) (ys : List ℕ) (p q : Pool)
    (v : IsPool own xs (i ∷ fs) p) (here : l < max_lists) (g : Grew own xs i l ys p q) where
  other-IsList :
      (m : ℕ) → m < max_lists → m ≢ l → IsList q.nodes (update own i l) m (q.lists m) (xs m)
  other-IsList m small ne = rw (g.others m ne) (
      IsList-frame p.nodes q.nodes own (update own i l) m (p.lists m) (xs m) (v.list m small) λ a e.
        let ni : a ≢ i = ground (arith, v.free_owned.0) in
        (g.spared a (ground arith) ni, update_ne own i a l (ground arith)))

  free_node : (a : ℕ) → has a fs ≡ true → (a ≢ i) × (own a ≡ max_lists)
  free_node a h =
      let e = own_of_has own max_lists a fs v.free_owned.3 h in (ground (arith, v.free_owned.2), e)

  free_same : (a : ℕ) → has a fs ≡ true → q.nodes a ≡ p.nodes a
  free_same a h = let (ne, e) = free_node a h in g.spared a (λ e'. absurd (omega (arith, e))) ne

  new_owner : (a : ℕ) → has a fs ≡ true → update own i l a ≡ own a
  new_owner a h = update_ne own i a l (λ e. (free_node a h).0 (sym e))

  new_total : length (update xs l ys 0) + length (update xs l ys 1) + length fs ≡ max_nodes
  new_total =
      rw (update-if xs l 0 ys, update-if xs l 1 ys) (ground (arith, v.total, g.longer, here))

  new-IsList :
      (m : ℕ) → m < max_lists → IsList q.nodes (update own i l) m (q.lists m) (update xs l ys m)
  new-IsList m small = elim (ℕ_discrete l m) [
    | yes e ↦
        subst (λ k. IsList q.nodes (update own i l) k (q.lists k) (update xs l ys k)) e
          (rw (update_self xs l ys) g.list)
    | no ne ↦ rw (update_ne xs l m ys ne) (other-IsList m small (λ e. ne (sym e)))
  ]

  pub Grew-IsPool : IsPool (update own i l) (update xs l ys) fs q
  Grew-IsPool = record {
    list = new-IsList;
    free = rw g.taken (
        FreeChain-frame p.nodes q.nodes (p.nodes i).link fs v.free.1
          λ a h. ap (λ (n : Node). n.link) (free_same a h));
    free_owned = Owned-frame own (update own i l) max_lists fs v.free_owned.3 new_owner;
    total = new_total;
  }

  pub Grew-items : (m : ℕ) → m < max_lists → m ≢ l → items q.nodes (xs m) ≡ items p.nodes (xs m)
  Grew-items m small ne = items-frame p.nodes q.nodes (xs m) λ a h.
      let e = own_of_has own m a (xs m) (v.list m small).owned h in
      ap (λ (n : Node). n.item) (g.spared a (ground arith) (ground (arith, v.free_owned.0)))
