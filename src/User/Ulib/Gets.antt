-- ===== src/User/Ulib/Gets.antt =====
-- What gets stores.
use listlib_and_system_calls.Common.{
  ℕ, zero, suc, ◌+◌, ◌-◌, ◌≤◌, ◌≡◌, ◌⊎◌, inl, inr, refl, true, false, ◌==◌, ◌||◌, List, [], ◌∷◌,
  ◌++◌, length, arith, Bool-cases, ap,
}
use listlib_and_system_calls.User.Ulib.{gets_from, gets}

-- A text whose one end of line is its last character.
abbrev pub IsLine : List ℕ → Type 0
IsLine [] = ⊥
IsLine (c ∷ []) = ((c == 10) || (c == 13)) ≡ true
IsLine (c ∷ d ∷ s) = (((c == 10) || (c == 13)) ≡ false) × IsLine (d ∷ s)

-- A text without an end of line.
abbrev pub IsOpen : List ℕ → Type 0
IsOpen [] = Unit {0}
IsOpen (c ∷ s) = (((c == 10) || (c == 13)) ≡ false) × IsOpen s

-- A line that is complete, or one that is cut as the room or the input ends.
abbrev pub IsRead : ℕ → List ℕ → List ℕ → Type 0
IsRead room line rest = IsLine line ⊎ (IsOpen line × ((length line ≡ room) ⊎ (rest ≡ [])))

IsRead-next :
    (c room : ℕ) (line rest : List ℕ)
    → ((c == 10) || (c == 13)) ≡ false
    → IsRead room line rest
    → IsRead (suc room) (c ∷ line) rest
IsRead-next c room [] rest e (inl h) = absurd h
IsRead-next c room (d ∷ s) rest e (inl h) = inl (e, h)
IsRead-next c room line rest e (inr (o, inl full)) = inr ((e, o), inl (omega arith))
IsRead-next c room line rest e (inr (o, inr done)) = inr ((e, o), inr done)

gets_from_lem :
    (room : ℕ) (input : List ℕ)
    → ((gets_from room input).0 ++ (gets_from room input).1 ≡ input)
      × (length (gets_from room input).0 ≤ room)
      × IsRead room (gets_from room input).0 (gets_from room input).1
unfolding gets_from
gets_from_lem zero input = (refl, omega arith, inr (tt, inl refl))
gets_from_lem (suc room) [] = (refl, omega arith, inr (tt, inr refl))
gets_from_lem (suc room) (c ∷ input) = elim (Bool-cases ((c == 10) || (c == 13))) [
  | inl ends ↦ rw ends (refl, omega arith, inl ends)
  | inr more ↦
      let (split, within, read) = gets_from_lem room input in
      rw more (
        ap (λ s. c ∷ s) split,
        omega arith,
        IsRead-next c room (gets_from room input).0 (gets_from room input).1 more read,
      )
]

-- For a buffer of one byte or more: what `gets` stores, with its 0, fits the buffer; it is what the
-- input starts with, and the rest is left. It ends with the first end of line, or has none, and then the buffer is full or the
-- input is at its end.
pub gets_lem :
    (max : ℕ) (input : List ℕ)
    → 1 ≤ max
    → ((gets max input).0 ++ (gets max input).1 ≡ input)
      × (length (gets max input).0 + 1 ≤ max)
      × IsRead (max - 1) (gets max input).0 (gets max input).1
unfolding gets
gets_lem max input some_room =
    let (split, within, read) = gets_from_lem (max - 1) input in (split, omega arith, read)
