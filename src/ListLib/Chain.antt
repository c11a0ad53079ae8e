-- ===== src/ListLib/Chain.antt =====
-- The shape of the pools: chains through `next`, the free chain through `link`, and a ghost
-- owner of every node that keeps the chains apart.
use listlib_and_system_calls.Common.{
  ℕ, ◌<◌, ◌≡◌, refl, ◌≢◌, true, false, none, some, List, [], ◌∷◌, ◌++◌, arith, has, has-append,
  length,
}
use listlib_and_system_calls.ListLib.Pool.{Idx, Item, Node, max_nodes}

-- From `h` the `next` indices lead through the nodes of the list to the last, `t`. What the
-- last node holds in `next` is left open.
abbrev pub Linked : (ℕ → Node) → Idx → List ℕ → Idx → Type 0
Linked ns h [] t = (h ≡ none) × (t ≡ none)
Linked ns h (x ∷ []) t = (h ≡ some x) × (t ≡ some x)
Linked ns h (x ∷ y ∷ r) t = (h ≡ some x) × Linked ns (ns x).next (y ∷ r) t

-- The free nodes, from `h` on through `link`.
abbrev pub FreeChain : (ℕ → Node) → Idx → List ℕ → Type 0
FreeChain ns h [] = h ≡ none
FreeChain ns h (x ∷ r) = (h ≡ some x) × FreeChain ns (ns x).link r

-- The nodes are distinct, in range, and belong to `o`.
abbrev pub Owned : (ℕ → ℕ) → ℕ → List ℕ → Type 0
Owned own o [] = Unit
Owned own o (x ∷ r) = (own x ≡ o) × (x < max_nodes) × (has x r ≡ false) × Owned own o r

-- An index is -1 or one of the list's.
abbrev pub Within : List ℕ → Idx → Type 0
Within xs none = Unit
Within xs (some c) = has c xs ≡ true

unfoldable pub items : (ℕ → Node) → List ℕ → List Item
items ns [] = []
items ns (x ∷ r) = (ns x).item ∷ items ns r

pub own_of_has :
    (own : ℕ → ℕ) (o a : ℕ) (xs : List ℕ) → Owned own o xs → has a xs ≡ true → own a ≡ o
own_of_has own o a [] w h = cc
own_of_has own o a (x ∷ r) w h = ground (arith, own_of_has own o a r)

pub lt_of_has :
    (own : ℕ → ℕ) (o a : ℕ) (xs : List ℕ) → Owned own o xs → has a xs ≡ true → a < max_nodes
lt_of_has own o a [] w h = cc
lt_of_has own o a (x ∷ r) w h = ground (arith, lt_of_has own o a r)

-- A node of another owner is in no chain of this one.
pub not-has_of_own :
    (own : ℕ → ℕ) (o a : ℕ) (xs : List ℕ) → Owned own o xs → own a ≢ o → has a xs ≡ false
not-has_of_own own o a [] w h = refl
not-has_of_own own o a (x ∷ r) w h = ground (arith, not-has_of_own own o a r)

-- The last node of a chain is one of it.
pub Linked-last :
    (ns : ℕ → Node) (h t : Idx) (x : ℕ) (r : List ℕ)
    → Linked ns h (x ∷ r) t
    → (a : ℕ) × (t ≡ some a) × (has a (x ∷ r) ≡ true)
Linked-last ns h t x [] l = (x, l.1, ground arith)
Linked-last ns h t x (y ∷ r) l =
    let (a, e, i) = Linked-last ns (ns x).next t y r l.1 in (a, e, ground arith)

-- A chain survives any change that spares the `next` of its nodes.
pub Linked-frame :
    (ns ms : ℕ → Node) (h t : Idx) (xs : List ℕ)
    → Linked ns h xs t
    → ((a : ℕ) → has a xs ≡ true → (ms a).next ≡ (ns a).next)
    → Linked ms h xs t
Linked-frame ns ms h t [] l same = l
Linked-frame ns ms h t (x ∷ []) l same = l
Linked-frame ns ms h t (x ∷ y ∷ r) l same =
    ground
      (arith, same x, Linked-frame ns ms (ns x).next t (y ∷ r) l.1 (λ a i. ground (arith, same a)))

pub FreeChain-frame :
    (ns ms : ℕ → Node) (h : Idx) (xs : List ℕ)
    → FreeChain ns h xs
    → ((a : ℕ) → has a xs ≡ true → (ms a).link ≡ (ns a).link)
    → FreeChain ms h xs
FreeChain-frame ns ms h [] l same = l
FreeChain-frame ns ms h (x ∷ r) l same =
    ground (arith, same x, FreeChain-frame ns ms (ns x).link r l.1 (λ a i. ground (arith, same a)))

pub Owned-frame :
    (own own' : ℕ → ℕ) (o : ℕ) (xs : List ℕ)
    → Owned own o xs
    → ((a : ℕ) → has a xs ≡ true → own' a ≡ own a)
    → Owned own' o xs
Owned-frame own own' o [] w same = tt
Owned-frame own own' o (x ∷ r) w same =
    ground (arith, same x, Owned-frame own own' o r w.3 (λ a i. ground (arith, same a)))

pub items-frame :
    (ns ms : ℕ → Node) (xs : List ℕ)
    → ((a : ℕ) → has a xs ≡ true → (ms a).item ≡ (ns a).item)
    → items ms xs ≡ items ns xs
unfolding items
items-frame ns ms [] same = refl
items-frame ns ms (x ∷ r) same =
    ground (arith, same x, items-frame ns ms r (λ a i. ground (arith, same a)))

pub items-append :
    (ns : ℕ → Node) (xs ys : List ℕ) → items ns (xs ++ ys) ≡ items ns xs ++ items ns ys
unfolding items
items-append ns [] ys = refl
items-append ns (x ∷ r) ys = rw (items-append ns r ys)

pub length-items : (ns : ℕ → Node) (xs : List ℕ) → length (items ns xs) ≡ length xs
unfolding items
length-items ns [] = refl
length-items ns (x ∷ r) = ground (arith, length-items ns r)

-- Hanging a chain behind the last node of another.
pub Linked-append :
    (own : ℕ → ℕ) (o : ℕ) (ns ms : ℕ → Node) (h t h' t' : Idx) (x y : ℕ) (r s : List ℕ)
    → Owned own o (x ∷ r)
    → Linked ns h (x ∷ r) t
    → ((a : ℕ) → has a (x ∷ r) ≡ true → t ≢ some a → (ms a).next ≡ (ns a).next)
    → ((a : ℕ) → t ≡ some a → (ms a).next ≡ h')
    → Linked ms h' (y ∷ s) t'
    → Linked ms h ((x ∷ r) ++ (y ∷ s)) t'
Linked-append own o ns ms h t h' t' x y [] s w l same last k = ground (arith, last x)
Linked-append own o ns ms h t h' t' x y (z ∷ r) s w l same last k =
    let (a, e, i) = Linked-last ns (ns x).next t z r l.1 in
    let ne : t ≢ some x = ground (arith, e) in
    ground (
      arith,
      same x (ground arith),
      Linked-append own o ns ms (ns x).next t h' t' z y r s w.3 l.1 (λ b j. ground (arith, same b))
          last k,
    )

pub Owned-append :
    (own : ℕ → ℕ) (o : ℕ) (xs ys : List ℕ)
    → Owned own o xs
    → Owned own o ys
    → ((a : ℕ) → has a xs ≡ true → has a ys ≡ false)
    → Owned own o (xs ++ ys)
Owned-append own o [] ys w v apart = v
Owned-append own o (x ∷ r) ys w v apart = ground (
  arith,
  has-append x r ys,
  apart x,
  Owned-append own o r ys w.3 v (λ a i. ground (arith, apart a)),
)

-- A longer list has room for the same indices.
pub Within-mono :
    (xs ys : List ℕ) (c : Idx)
    → Within xs c
    → ((a : ℕ) → has a xs ≡ true → has a ys ≡ true)
    → Within ys c
Within-mono xs ys none h more = tt
Within-mono xs ys (some c) h more = more c h

pub has-append_left : (a : ℕ) (xs ys : List ℕ) → has a xs ≡ true → has a (xs ++ ys) ≡ true
has-append_left a xs ys h = rw (has-append a xs ys, h)

pub has-append_right : (a : ℕ) (xs ys : List ℕ) → has a ys ≡ true → has a (xs ++ ys) ≡ true
has-append_right a xs ys h = ground (arith, has-append a xs ys)

-- The nodes of a list go to another owner.
pub Owned-moved :
    (own own' : ℕ → ℕ) (o o' : ℕ) (xs : List ℕ)
    → Owned own o xs
    → ((a : ℕ) → own a ≡ o → own' a ≡ o')
    → Owned own' o' xs
Owned-moved own own' o o' [] w moved = tt
Owned-moved own own' o o' (x ∷ r) w moved =
    (moved x w.0, w.1, w.2, Owned-moved own own' o o' r w.3 moved)

pub Linked-head :
    (ns : ℕ → Node) (h t : Idx) (x : ℕ) (r : List ℕ) → Linked ns h (x ∷ r) t → h ≡ some x
Linked-head ns h t x [] l = l.0
Linked-head ns h t x (y ∷ r) l = l.0
