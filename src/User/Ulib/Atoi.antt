-- ===== src/User/Ulib/Atoi.antt =====
-- A number that printf puts out is read back by atoi.
use listlib_and_system_calls.Common.{
  ℕ, zero, suc, ◌+◌, ◌/◌, ◌%◌, ◌^◌, ◌<◌, ◌≡◌, refl, true, false, leb, ◌==◌, List, [], ◌∷◌, some,
  arith, Bool-cases, inl, inr, ◌∙◌,
}
use listlib_and_system_calls.Kernel.Printf.{digit, put_digits, put_minus}
use listlib_and_system_calls.Kernel.Printf.Digits.{put_digits_fit}
use listlib_and_system_calls.User.Printf.{printint}
use listlib_and_system_calls.User.Ulib.{atoi_from, atoi}

-- The last digit of a number, behind the others.
atoi_last :
    (letters x : ℕ) (buf : List ℕ)
    → x + 48 < 2 ^ 31
    → atoi_from (x / 10) (digit letters (x % 10) ∷ buf) ≡ atoi_from x buf
unfolding atoi_from digit
atoi_last letters x buf small = ground arith

put_digits-atoi :
    (letters room x : ℕ) (buf out : List ℕ)
    → x + 48 < 2 ^ 31
    → put_digits letters room 10 x buf ≡ some out
    → atoi_from 0 out ≡ atoi_from x buf
unfolding put_digits
put_digits-atoi letters zero x buf out small e = absurd (cc e)
put_digits-atoi letters (suc room) x buf out small e = elim (Bool-cases (x / 10 == 0)) [
  | inl last ↦
      let here : x / 10 ≡ 0 = ground (arith, last) in
      let same : digit letters (x % 10) ∷ buf ≡ out = cc (rw last at e) in
      rw (← same, ← here) (atoi_last letters x buf small)
  | inr more ↦
      put_digits-atoi letters room (x / 10) (digit letters (x % 10) ∷ buf) out (omega arith)
        (rw more at e)
      ∙ atoi_last letters x buf small
]

-- For every number up to 2 ^ 31 - 49: the text that `printint` puts out for it in base 10, which it
-- does, is read back by `atoi`, which does not overflow.
pub atoi-printint :
    (x : ℕ)
    → x + 48 < 2 ^ 31
    → (out : List ℕ) × (printint x 10 true ≡ some out) × (atoi out ≡ some x)
unfolding printint put_minus atoi atoi_from
atoi-printint x small =
    let natural : leb (2 ^ 63) x ≡ false = ground arith in
    let (out, e, _, _) =
      put_digits_fit b'A' 20 20 10 x [] (inl refl) (omega arith) (omega arith) (omega arith) in
    (out, rw (natural, e) refl, put_digits-atoi b'A' 20 x [] out small e)
