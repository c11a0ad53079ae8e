-- ===== src/User/Ulib/Tests.antt =====
-- The routines of the user library at inputs.
use listlib_and_system_calls.Common.{ℕ, ◌≡◌, List, [], ◌∷◌, some, true, arith, refl}
use listlib_and_system_calls.Kernel.Strings as Kernel
use listlib_and_system_calls.Kernel.Strings.{copy_down}
use listlib_and_system_calls.User.Printf.{printint}
use listlib_and_system_calls.User.Ulib.{atoi_from, atoi, memmove}
use listlib_and_system_calls.User.Ulib.Atoi.{atoi-printint}
use listlib_and_system_calls.User.Ulib.Moves.{memmove-same}

atoi_run : atoi (b'4' ∷ b'2' ∷ b'x' ∷ []) ≡ some 42
unfolding atoi atoi_from
atoi_run = refl

atoi-printint_example : (out : List ℕ) × (printint 1234 10 true ≡ some out) × (atoi out ≡ some 1234)
atoi-printint_example = atoi-printint 1234 (omega arith)

memmove-same_example : memmove 3 1 4 (λ i. i) ≡ Kernel.memmove 3 1 4 (λ i. i)
memmove-same_example = memmove-same 3 1 4 (λ i. i)

abbrev typed_line : List ℕ
typed_line = b'a' ∷ 10 ∷ b'b' ∷ []
