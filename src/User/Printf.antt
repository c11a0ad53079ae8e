-- ===== src/User/Printf.antt =====
-- user/printf.c: printf of the user programs, with the state `%` of its loop. It shares the kinds
-- of arguments with the kernel's, and its numbers have capital letters.
use mathlib.Core.Option
use listlib_and_system_calls.Common.{
  ℕ, zero, suc, ◌-◌, ◌*◌, ◌/◌, ◌%◌, ◌^◌, Bool, true, false, leb, ◌==◌, ◌&&◌, if◌then◌else◌, List,
  [], ◌∷◌, ◌++◌, Option, none, some,
}
use listlib_and_system_calls.Kernel.Printf.{
  Arg, Outcome, put_digits, put_minus, put_nibbles, put_number, put_text, as_int, byte_at, finish,
}
pub mod Agrees
pub mod Tests

unfoldable pub putc : ℕ → List ℕ
putc c = c % 256 ∷ []

unfoldable pub printint : ℕ → ℕ → Bool → Option (List ℕ)
printint xx base sgn =
    let neg = sgn && leb (2 ^ 63) xx in
    put_minus neg (put_digits b'A' 20 base (if neg then 2 ^ 64 - xx else xx) [])

unfoldable pub printptr : ℕ → List ℕ
printptr x = b'0' ∷ b'x' ∷ put_nibbles b'A' 16 x

unfoldable pub conversion : ℕ → ℕ → ℕ → List Arg → Outcome
unfolding printint putc printptr
conversion c0 c1 c2 ap =
    if c0 == b'd'
    then put_number (λ x. printint (as_int x) 10 true) 0 ap
    else if (c0 == b'l') && (c1 == b'd')
    then put_number (λ x. printint x 10 true) 1 ap
    else if (c0 == b'l') && (c1 == b'l') && (c2 == b'd')
    then put_number (λ x. printint x 10 true) 2 ap
    else if c0 == b'u'
    then put_number (λ x. printint (x % 2 ^ 32) 10 false) 0 ap
    else if (c0 == b'l') && (c1 == b'u')
    then put_number (λ x. printint x 10 false) 1 ap
    else if (c0 == b'l') && (c1 == b'l') && (c2 == b'u')
    then put_number (λ x. printint x 10 false) 2 ap
    else if c0 == b'x'
    then put_number (λ x. printint (x % 2 ^ 32) 16 false) 0 ap
    else if (c0 == b'l') && (c1 == b'x')
    then put_number (λ x. printint x 16 false) 1 ap
    else if (c0 == b'l') && (c1 == b'l') && (c2 == b'x')
    then put_number (λ x. printint x 16 false) 2 ap
    else if c0 == b'p'
    then put_number (λ x. some (printptr x)) 0 ap
    else if c0 == b'c'
    then put_number (λ x. some (putc x)) 0 ap
    else if c0 == b's'
    then put_text putc ap
    else if c0 == b'%'
    then some (putc b'%', ap, 0)
    else some (putc b'%' ++ putc c0, ap, 0)

-- The loop of `vprintf`; the first argument says whether `state` is `%`, and `i` moves over `skip`
-- characters first.
unfoldable pub vprintf_from : Bool → ℕ → List ℕ → List Arg → Option (List ℕ)
vprintf_from state skip [] ap = some []
vprintf_from state (suc skip) (c0 ∷ fmt) ap = vprintf_from state skip fmt ap
vprintf_from false zero (c0 ∷ fmt) ap =
    let directive = vprintf_from true 0 fmt ap in
    let plain = Option.map (λ more. putc c0 ++ more) (vprintf_from false 0 fmt ap) in
    if c0 == b'%' then directive else plain
vprintf_from true zero (c0 ∷ fmt) ap =
    let c1 = if c0 == 0 then 0 else byte_at 0 fmt in
    let c2 = if c1 == 0 then 0 else byte_at 1 fmt in
    finish (conversion c0 c1 c2 ap) (λ extra ap'. vprintf_from false extra fmt ap')

unfoldable pub vprintf : List ℕ → List Arg → Option (List ℕ)
vprintf fmt ap = vprintf_from false 0 fmt ap
