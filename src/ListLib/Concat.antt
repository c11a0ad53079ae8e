-- ===== src/ListLib/Concat.antt =====
-- What `ListConcat` does to the pools.
pub mod Calls
mod Refines
use native.Mathlib.Decide.{ℕ_discrete}
use listlib_and_system_calls.Common.{
  inl, inr, ◌∙◌, subst, Bool-cases, ℕ, suc, ◌+◌, ◌<◌, ◌≡◌, refl, ◌≢◌, true, false, none, some, List,
  [], ◌∷◌, ◌++◌, arith, ◌==◌, has, has-append, length, length-append, ne→==, ap, ap₂, sym,
  if◌then◌else◌,
}
use listlib_and_system_calls.ListLib.Pool.{
  Idx, Item, Node, ListHead, Pool, max_lists, max_nodes, update,
}
use listlib_and_system_calls.ListLib.Steps.{steps, update_ne, update_self}
use listlib_and_system_calls.ListLib.Removers.{list_concat}
use listlib_and_system_calls.ListLib.Chain.{
  Linked, Linked-frame, Linked-append, Linked-last, Linked-head, FreeChain-frame, Owned,
  Owned-append, Owned-frame, Owned-moved, items, items-frame, items-append, Within, Within-mono,
  own_of_has, lt_of_has, not-has_of_own, has-append_left, has-append_right,
}
use listlib_and_system_calls.ListLib.Shape.{IsList, IsPool}

module _ (p : Pool) (l m : ℕ) where
  abbrev pub emptied : ListHead → ListHead
  emptied h = record h { head = none; tail = none; curr = none; count = 0; before = 1; after = 0 }

  -- The pools when the list `m`, from `y` on, hangs behind the node `t` of the list `l`.
  abbrev pub joined : ℕ → ℕ → Pool
  joined t y = record p {
    nodes =
        update (update p.nodes t (record (p.nodes t) { next = some y })) y
          (record (p.nodes y) { prev = some t });
    lists =
        update
          (update p.lists l (record (p.lists l) {
            tail = (p.lists m).tail;
            count = (p.lists l).count + (p.lists m).count;
          }))
          m (emptied (p.lists m));
  }

  module _ (here : l < max_lists) (there : m < max_lists) where
    pub list_concat-nothing : (p.lists m).count ≡ 0 → list_concat (some l) (some m) p ≡ some (tt, p)
    unfolding list_concat
    list_concat-nothing c = simp (steps, c, there)

    pub list_concat-joined :
        (t y : ℕ)
        → l ≢ m
        → t < max_nodes
        → y < max_nodes
        → t ≢ y
        → ((p.lists m).count == 0) ≡ false
        → (p.lists l).tail ≡ some t
        → (p.lists m).head ≡ some y
        → list_concat (some l) (some m) p ≡ some (tt, joined t y)
    unfolding list_concat
    list_concat-joined t y nl st sy ne c et ey = simp (
      steps,
      c,
      et,
      ey,
      here,
      there,
      st,
      sy,
      update_ne p.nodes t y _ ne,
      update_ne p.lists l m _ nl,
    )

    -- The first list is empty: `pool_nodes[-1]` is written.
    pub list_concat-fault :
        ((p.lists m).count == 0) ≡ false
        → (p.lists l).tail ≡ none
        → list_concat (some l) (some m) p ≡ none
    unfolding list_concat
    list_concat-fault c et = simp (steps, c, et, here, there)

-- Two lists whose chains are joined, `t` the last node of the one and `y` the first of the other.
module _ (ns ms : ℕ → Node) (own : ℕ → ℕ) (l m t : ℕ) (h g : ListHead) (x y : ℕ) (r s : List ℕ)
    (v : IsList ns own l h (x ∷ r)) (w : IsList ns own m g (y ∷ s)) (apart : l ≢ m)
    (last : h.tail ≡ some t) (hung : ((ms t).next ≡ some y) × ((ms t).prev ≡ (ns t).prev))
    (turned : ((ms y).next ≡ (ns y).next) × ((ms y).prev ≡ some t))
    (spared : (a : ℕ) → a ≢ t → a ≢ y → ms a ≡ ns a) where
  abbrev merged : ℕ → ℕ
  merged a = if own a == m then l else own a

  all : List ℕ
  all = (x ∷ r) ++ (y ∷ s)

  left_own : (a : ℕ) → has a (x ∷ r) ≡ true → own a ≡ l
  left_own a i = own_of_has own l a (x ∷ r) v.owned i

  right_own : (a : ℕ) → has a (y ∷ s) ≡ true → own a ≡ m
  right_own a i = own_of_has own m a (y ∷ s) w.owned i

  last_in : has t (x ∷ r) ≡ true
  last_in = let (a, e, i) = Linked-last ns h.head h.tail x r v.linked in ground (arith, e, last)

  first_in : has y (y ∷ s) ≡ true
  first_in = ground arith

  left : (c : Idx) → Within (x ∷ r) c → Within all c
  unfolding all
  left c k = Within-mono (x ∷ r) all c k λ a i. has-append_left a (x ∷ r) (y ∷ s) i

  right : (c : Idx) → Within (y ∷ s) c → Within all c
  unfolding all
  right c k = Within-mono (y ∷ s) all c k λ a i. has-append_right a (x ∷ r) (y ∷ s) i

  Inner : ℕ → Type 0
  Inner a = Within all (ms a).next × Within all (ms a).prev

  left-Inner : (a : ℕ) → has a (x ∷ r) ≡ true → Inner a
  unfolding Inner all
  left-Inner a i = elim (ℕ_discrete t a) [
    | yes e ↦
        subst Inner e
          (rw hung.0 (right (some y) first_in), rw hung.1 (left (ns t).prev (v.inner t last_in).1))
    | no ne ↦
        let ny : a ≢ y = λ e. apart (sym (left_own a i) ∙ rw e (right_own y first_in)) in
        rw (spared a (λ e. ne (sym e)) ny)
          (left (ns a).next (v.inner a i).0, left (ns a).prev (v.inner a i).1)
  ]

  right-Inner : (a : ℕ) → has a (y ∷ s) ≡ true → Inner a
  unfolding Inner all
  right-Inner a i = elim (ℕ_discrete y a) [
    | yes e ↦ subst Inner e (
      rw turned.0 (right (ns y).next (w.inner y first_in).0),
      rw turned.1 (left (some t) last_in),
    )
    | no ne ↦
        let nt : a ≢ t = λ e. apart (sym (left_own t last_in) ∙ rw (← e) (right_own a i)) in
        rw (spared a nt (λ e. ne (sym e)))
          (right (ns a).next (w.inner a i).0, right (ns a).prev (w.inner a i).1)
  ]

  all-Inner : (a : ℕ) → has a all ≡ true → Inner a
  unfolding Inner all
  all-Inner a i = elim (Bool-cases (has a (x ∷ r))) [
    | inl old ↦ left-Inner a old
    | inr new ↦ right-Inner a (ground (arith, has-append a (x ∷ r) (y ∷ s)))
  ]

  right_next : (a : ℕ) → has a (y ∷ s) ≡ true → (ms a).next ≡ (ns a).next
  right_next a i = elim (ℕ_discrete y a) [
    | yes e ↦ subst (λ b. (ms b).next ≡ (ns b).next) e turned.0
    | no ne ↦
        let nt : a ≢ t = λ e. apart (sym (left_own t last_in) ∙ rw (← e) (right_own a i)) in
        ap (λ (n : Node). n.next) (spared a nt (λ e. ne (sym e)))
  ]

  left_next : (a : ℕ) → has a (x ∷ r) ≡ true → h.tail ≢ some a → (ms a).next ≡ (ns a).next
  left_next a i ne =
      let ny : a ≢ y = λ e. apart (sym (left_own a i) ∙ rw e (right_own y first_in)) in
      ap (λ (n : Node). n.next) (spared a (λ e. ne (rw (e, last))) ny)

  merged-Owned : Owned merged l all
  unfolding all
  merged-Owned =
      Owned-append merged l (x ∷ r) (y ∷ s)
        (Owned-moved own merged l l (x ∷ r) v.owned (λ a e. ground arith))
        (Owned-moved own merged m l (y ∷ s) w.owned (λ a e. ground arith))
        λ a i. not-has_of_own own m a (y ∷ s) w.owned (λ e. apart (sym (left_own a i) ∙ e))

  right-Linked : Linked ms (some y) (y ∷ s) g.tail
  right-Linked =
      rw (← Linked-head ns g.head g.tail y s w.linked)
        (Linked-frame ns ms g.head g.tail (y ∷ s) w.linked right_next)

  pub joined-IsList :
      IsList ms merged l
        (record h { tail = g.tail; count = h.count + g.count })
        ((x ∷ r) ++ (y ∷ s))
  unfolding Inner all
  joined-IsList = record {
    linked =
        Linked-append own l ns ms h.head h.tail (some y) g.tail x y r s v.owned v.linked left_next
          (λ a e. ground (arith, hung.0, last)) right-Linked;
    owned = merged-Owned;
    counted = ground (arith, v.counted, w.counted, length-append (x ∷ r) (y ∷ s));
    cursor = left h.curr v.cursor;
    inner = all-Inner;
  }
