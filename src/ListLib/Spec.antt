-- ===== src/ListLib/Spec.antt =====
-- What a client sees of the library: two sequences of items that share the ten nodes.
use listlib_and_system_calls.Common.{
  ℕ, ◌+◌, ◌<◌, ◌≡◌, ◌∙◌, Bool, none, some, List, [], ◌∷◌, ◌++◌, ltb, if◌then◌else◌, length, Option,
  insert,
}
use listlib_and_system_calls.ListLib.Pool.{
  Item, CInt, Pool, Cmd, and_then, max_lists, max_nodes, update,
}
use listlib_and_system_calls.ListLib.Chain.{items}
use listlib_and_system_calls.ListLib.Shape.{IsPool}

abbrev pub Contents : Type 0
Contents = ℕ → List Item

-- A node is left.
abbrev pub room : Contents → Bool
room vs = ltb (length (vs 0) + length (vs 1)) max_nodes

unfoldable pub append : Contents → ℕ → Item → CInt × Contents
append vs l x = if room vs then (some 0, update vs l (vs l ++ (x ∷ []))) else (none, vs)

unfoldable pub prepend : Contents → ℕ → Item → CInt × Contents
prepend vs l x = if room vs then (some 0, update vs l (x ∷ vs l)) else (none, vs)

-- The second list goes behind the first, and is left empty.
unfoldable pub concat : Contents → ℕ → ℕ → Contents
concat vs l m = update (update vs l (vs l ++ vs m)) m []

-- The pools hold these sequences.
pub record Holds (vs : Contents) (p : Pool) : Type 0 where
  pub own : ℕ → ℕ
  pub chains : ℕ → List ℕ
  pub free : List ℕ
  pub shape : IsPool own chains free p
  pub values : (l : ℕ) → l < max_lists → items p.nodes (chains l) ≡ vs l

-- The command makes no access outside of the pools, and its result and the pools after it are as stated.
abbrev pub Ensures : {A : Type 0} → (A → Pool → Type 0) → Option (A × Pool) → Type 0
Ensures P none = ⊥
Ensures P (some (a, p)) = P a p

pub Ensures-mono :
    {A : Type 0} {P Q : A → Pool → Type 0} (r : Option (A × Pool))
    → Ensures P r
    → ((a : A) (q : Pool) → P a q → Q a q)
    → Ensures Q r
Ensures-mono none h weaken = h
Ensures-mono (some (a, q)) h weaken = weaken a q h

pub Holds-ext :
    (vs ws : Contents) (p : Pool)
    → Holds vs p
    → ((l : ℕ) → l < max_lists → vs l ≡ ws l)
    → Holds ws p
Holds-ext vs ws p h same = record {
  own = h.own;
  chains = h.chains;
  free = h.free;
  shape = h.shape;
  values = λ l small. h.values l small ∙ same l small;
}

-- A command after another.
pub Ensures-bind :
    {A B : Type 0} (P : A → Pool → Type 0) (Q : B → Pool → Type 0) (r : Option (A × Pool))
    (k : A → Cmd B)
    → Ensures P r
    → ((a : A) (q : Pool) → P a q → Ensures Q (k a q))
    → Ensures Q (and_then r k)
Ensures-bind P Q none k h next = h
Ensures-bind P Q (some (a, q)) k h next = next a q h

-- An item goes to a position of a list.
unfoldable pub insert_at : Contents → ℕ → ℕ → Item → CInt × Contents
insert_at vs l k x = if room vs then (some 0, update vs l (insert k x (vs l))) else (none, vs)
