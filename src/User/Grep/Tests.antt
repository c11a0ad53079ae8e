-- ===== src/User/Grep/Tests.antt =====
-- Runs of the matcher and of the loop of grep, and the theorems at inputs.
use mathlib.Core.Logic.{◌↔◌}
use listlib_and_system_calls.Common.{◌≡◌, refl, true, false, [], ◌∷◌, some, List, ℕ}
use listlib_and_system_calls.User.Grep.{
  matchhere, matchstar, match_one, match_from, match, strchr, print_lines, grep_from, grep,
}
use listlib_and_system_calls.User.Grep.Lines.{matching_lines, fits_buffer, grep_lem, grep_total}
use listlib_and_system_calls.User.Grep.Items.{Means}
use listlib_and_system_calls.User.Grep.Matcher.{match_lem}

-- "a*b" in "xaab"
match_star : match (b'a' ∷ b'*' ∷ b'b' ∷ []) (b'x' ∷ b'a' ∷ b'a' ∷ b'b' ∷ []) ≡ true
unfolding match match_from matchhere matchstar match_one
match_star = refl

match_none : match (b'^' ∷ b'.' ∷ b'$' ∷ []) (b'x' ∷ b'a' ∷ []) ≡ false
unfolding match match_from matchhere matchstar match_one
match_none = refl

abbrev three_lines : List ℕ
three_lines = b'a' ∷ b'b' ∷ 10 ∷ b'c' ∷ 10 ∷ b'a' ∷ []

-- The last line has no newline and is dropped.
grep_pieces : grep (b'a' ∷ []) (λ i. 1) three_lines ≡ some (b'a' ∷ b'b' ∷ 10 ∷ [])
unfolding grep grep_from print_lines strchr match match_from matchhere matchstar match_one
grep_pieces = refl

match_lem_example :
    (match (b'a' ∷ b'*' ∷ b'b' ∷ []) (b'x' ∷ b'a' ∷ b'b' ∷ []) ≡ true)
    ↔ Means (b'a' ∷ b'*' ∷ b'b' ∷ []) (b'x' ∷ b'a' ∷ b'b' ∷ [])
match_lem_example = match_lem (b'a' ∷ b'*' ∷ b'b' ∷ []) (b'x' ∷ b'a' ∷ b'b' ∷ [])

grep_lem_example :
    grep (b'a' ∷ []) (λ i. 1) three_lines ≡ some (matching_lines (b'a' ∷ []) [] three_lines)
unfolding fits_buffer
grep_lem_example = grep_lem (b'a' ∷ []) (λ i. 1) three_lines refl

grep_total_example : (out : List ℕ) × (grep (b'a' ∷ []) (λ i. 1) three_lines ≡ some out)
grep_total_example = grep_total (b'a' ∷ []) (λ i. 1) three_lines
