-- ===== src/User/Grep/Items.antt =====
-- What an expression of grep means: a sequence of items, each of which stands for texts.
use listlib_and_system_calls.Common.{ℕ, true, ◌==◌, ◌||◌, if◌then◌else◌, List, [], ◌∷◌, ◌++◌, ◌≡◌}

-- One character, a repeated one, and the end of the text.
pub data Item : Type 0 where
  one : ℕ → Item
  many : ℕ → Item
  end_of_text : Item

-- A character of the expression fits one of the text.
abbrev pub Fits : ℕ → ℕ → Type 0
Fits c x = ((c == b'.') || (c == x)) ≡ true

abbrev pub AllFit : ℕ → List ℕ → Type 0
AllFit c [] = Unit {0}
AllFit c (x ∷ xs) = Fits c x × AllFit c xs

unfoldable pub items : List ℕ → List Item
items [] = []
items (r ∷ []) = if r == b'$' then end_of_text ∷ [] else one r ∷ []
items (r ∷ s ∷ re) = if s == b'*' then many r ∷ items re else one r ∷ items (s ∷ re)

-- The items stand for a start of the text.
abbrev pub StandFor : List Item → List ℕ → Type 0
StandFor [] text = Unit {0}
StandFor (one c ∷ is) text =
    (x : ℕ) × (rest : List ℕ) × (text ≡ x ∷ rest) × Fits c x × StandFor is rest
StandFor (many c ∷ is) text =
    (xs : List ℕ) × (rest : List ℕ) × (text ≡ xs ++ rest) × AllFit c xs × StandFor is rest
StandFor (end_of_text ∷ is) text = (text ≡ []) × StandFor is text

-- They stand for some part of the text.
abbrev pub StandIn : List Item → List ℕ → Type 0
StandIn is text = (before : List ℕ) × (rest : List ℕ) × (text ≡ before ++ rest) × StandFor is rest

-- A `^` in front ties the expression to the start of the text.
abbrev pub Means : List ℕ → List ℕ → Type 0
Means [] text = StandIn [] text
Means (r ∷ re) text = if r == b'^' then StandFor (items re) text else StandIn (items (r ∷ re)) text
