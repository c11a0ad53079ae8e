-- ===== src/User/Grep.antt =====
-- user/grep.c: the matcher for `^ . * $`, and the loop that reads a file in pieces and prints the
-- lines that match. A string is the list of its bytes in front of the 0 that ends it.
use listlib_and_system_calls.Common.{
  ℕ, zero, suc, ◌+◌, ◌-◌, Bool, true, false, ltb, ◌==◌, ◌&&◌, ◌||◌, if◌then◌else◌, List, [], ◌∷◌,
  ◌++◌, Option, none, some, length, take, drop,
}
use Prim.Native.Nat.{min}
use mathlib.Core.Option
pub mod Items
pub mod Matcher
pub mod Lines
pub mod Tests

-- `*text == '\0'`
abbrev pub ended : List ℕ → Bool
ended [] = true
ended (_ ∷ _) = false

-- `matchstar`, given the call of `matchhere` on the rest of the expression.
unfoldable pub matchstar : ℕ → (List ℕ → Bool) → List ℕ → Bool
matchstar c here [] = here []
matchstar c here (x ∷ text) =
    let more = matchstar c here text in
    if here (x ∷ text) then true else if (x == c) || (c == b'.') then more else false

-- The case of `matchhere` for a character, given the call on the rest of the expression.
unfoldable pub match_one : ℕ → (List ℕ → Bool) → List ℕ → Bool
match_one r here [] = false
match_one r here (x ∷ text) = if (r == b'.') || (r == x) then here text else false

unfoldable pub matchhere : List ℕ → List ℕ → Bool
matchhere [] text = true
matchhere (r ∷ []) text = if r == b'$' then ended text else match_one r (matchhere []) text
matchhere (r ∷ s ∷ re) text =
    if s == b'*' then matchstar r (matchhere re) text else match_one r (matchhere (s ∷ re)) text

-- The loop of `match`.
unfoldable pub match_from : List ℕ → List ℕ → Bool
match_from re [] = matchhere re []
match_from re (x ∷ text) =
    let rest = match_from re text in if matchhere re (x ∷ text) then true else rest

unfoldable pub match : List ℕ → List ℕ → Bool
match [] text = match_from [] text
match (r ∷ re) text = if r == b'^' then matchhere re text else match_from (r ∷ re) text

-- `strchr(s, c)`, as the number of bytes in front of what it finds.
unfoldable pub strchr : List ℕ → ℕ → Option ℕ
strchr [] c = none
strchr (x ∷ s) c =
    let rest = Option.map (λ q. q + 1) (strchr s c) in
    if x == 0 then none else if x == c then some 0 else rest

-- The inner loop of `grep`, with the lines that it writes, and what is left behind the last one. `none`
-- when the rounds run out.
unfoldable pub print_lines : ℕ → List ℕ → List ℕ → Option (List ℕ × List ℕ)
print_lines zero pattern p = none
print_lines (suc rounds) pattern p = elim (strchr p 10) [
  | none ↦ some ([], p)
  | some q ↦
      Option.map
        (λ (rest : List ℕ × List ℕ).
          ((if match pattern (take q p) then take (q + 1) p ++ rest.0 else rest.0), rest.1))
        (print_lines rounds pattern (drop (q + 1) p))
]

abbrev pub buf_size : ℕ
buf_size = 1024

-- `read` gives what is there: one byte or more, as many as fit, unless the file is at its end.
abbrev pub read_count : ℕ → ℕ → ℕ → ℕ
read_count ready room file = if ltb ready (min room file) then ready + 1 else min room file

-- The outer loop: the unfinished line is kept in front of the buffer. `pieces` says how many
-- bytes are ready at each read. `none` when the rounds run out.
unfoldable pub grep_from : ℕ → List ℕ → (ℕ → ℕ) → List ℕ → List ℕ → Option (List ℕ)
grep_from zero pattern pieces buf file = none
grep_from (suc rounds) pattern pieces buf file =
    let n = read_count (pieces rounds) (buf_size - length buf - 1) (length file) in
    let rest : Option (List ℕ) =
      elim (print_lines (length buf + n + 1) pattern (buf ++ take n file)) [
        | none ↦ none
        | some (out, left) ↦
            Option.map (λ more. out ++ more) (grep_from rounds pattern pieces left (drop n file))
      ] in
    if n == 0 then some [] else rest

unfoldable pub grep : List ℕ → (ℕ → ℕ) → List ℕ → Option (List ℕ)
grep pattern pieces file = grep_from (length file + 1) pattern pieces [] file
