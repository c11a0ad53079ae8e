-- ===== src/Kernel/Printf/Tests.antt =====
-- Runs of printf, and the bound of printint at a number.
use listlib_and_system_calls.Common.{
  ℕ, List, ◌≡◌, ◌≤◌, ◌<◌, ◌^◌, refl, inl, true, length, [], ◌∷◌, some, arith,
}
use listlib_and_system_calls.Kernel.Printf.{
  digit, put_digits, put_minus, printint, consputc, conversion, number, printf_from, printf,
}
use listlib_and_system_calls.Kernel.Printf.Digits.{printint_fits}

-- printf("%d %lx", -3, 255)
printf_minus :
    printf (b'%' ∷ b'd' ∷ b' ' ∷ b'%' ∷ b'l' ∷ b'x' ∷ []) (number 0xFFFF_FFFD ∷ number 255 ∷ [])
    ≡ some (b'-' ∷ b'3' ∷ b' ' ∷ b'f' ∷ b'f' ∷ [])
unfolding printf printf_from conversion printint put_digits digit put_minus consputc
printf_minus = refl

printint_fits_example :
    (out : List ℕ) × (printint (2 ^ 63) 10 true ≡ some out) × (0 < length out) × (length out ≤ 20)
printint_fits_example = printint_fits (2 ^ 63) 10 true (inl refl) (omega arith)
