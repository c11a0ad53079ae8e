-- ===== src/User/Printf/Tests.antt =====
-- The two versions of printf at a format.
use listlib_and_system_calls.Common.{ℕ, List, [], ◌∷◌, arith}
use listlib_and_system_calls.Kernel.Printf.{Arg, number, printf}
use listlib_and_system_calls.User.Printf.{vprintf}
use listlib_and_system_calls.User.Printf.Agrees.{SameText, vprintf-printf}

abbrev hex_format : List ℕ
hex_format = b'%' ∷ b'x' ∷ b'!' ∷ []

abbrev one_number : List Arg
one_number = number 0xAB ∷ []

vprintf-printf_example : SameText (vprintf hex_format one_number) (printf hex_format one_number)
vprintf-printf_example = vprintf-printf hex_format one_number (ground arith) (ground arith)
