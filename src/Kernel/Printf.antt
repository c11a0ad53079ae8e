-- ===== src/Kernel/Printf.antt =====
-- kernel/printf.c: the conversions of printf. The characters that go out are a list; `none` stands
-- for what C leaves undefined: an argument that is missing or of the other kind, and a write
-- outside of the buffer of printint.
use mathlib.Core.Option
use listlib_and_system_calls.Common.{
  ℕ, zero, suc, ◌+◌, ◌-◌, ◌*◌, ◌/◌, ◌%◌, ◌^◌, Bool, true, false, ltb, leb, ◌==◌, ◌&&◌, not,
  if◌then◌else◌, List, [], ◌∷◌, ◌++◌, Option, none, some, length,
}
pub mod Digits
pub mod Tests

-- `digits[d]`; the letters for ten and more start at `letters`.
unfoldable pub digit : ℕ → ℕ → ℕ
digit letters d = if ltb d 10 then b'0' + d else letters + (d - 10)

-- The loop of `printint` with room for some more characters in `buf`; the last one is the first of
-- the list.
unfoldable pub put_digits : ℕ → ℕ → ℕ → ℕ → List ℕ → Option (List ℕ)
put_digits letters zero base x buf = none
put_digits letters (suc room) base x buf =
    let rest = put_digits letters room base (x / base) (digit letters (x % base) ∷ buf) in
    if x / base == 0 then some (digit letters (x % base) ∷ buf) else rest

-- `buf[i++] = '-'`
unfoldable pub put_minus : Bool → Option (List ℕ) → Option (List ℕ)
put_minus negative none = none
put_minus negative (some buf) =
    if not negative then some buf else if ltb (length buf) 20 then some (b'-' ∷ buf) else none

-- A number of 64 bits, read as a signed one if `sign` is set.
unfoldable pub printint : ℕ → ℕ → Bool → Option (List ℕ)
printint xx base sign =
    let negative = sign && leb (2 ^ 63) xx in
    put_minus negative (put_digits b'a' 20 base (if negative then 2 ^ 64 - xx else xx) [])

unfoldable pub put_nibbles : ℕ → ℕ → ℕ → List ℕ
put_nibbles letters zero x = []
put_nibbles letters (suc k) x = digit letters (x / 2 ^ 60) ∷ put_nibbles letters k (x * 16 % 2 ^ 64)

unfoldable pub printptr : ℕ → List ℕ
printptr x = b'0' ∷ b'x' ∷ put_nibbles b'a' 16 x

-- The character 0x100 stands for a backspace.
unfoldable pub consputc : ℕ → List ℕ
consputc c = if c == 0x100 then 8 ∷ b' ' ∷ 8 ∷ [] else c % 256 ∷ []

-- An argument: a number, or a text, which may be NULL.
pub data Arg : Type 0 where
  number : ℕ → Arg
  text : Option (List ℕ) → Arg

-- `va_arg(ap, int)`, widened to 64 bits.
abbrev pub as_int : ℕ → ℕ
as_int x = if leb (2 ^ 31) (x % 2 ^ 32) then x % 2 ^ 32 + (2 ^ 64 - 2 ^ 32) else x % 2 ^ 32

-- What a conversion puts out, the arguments that it leaves, and the further characters of the
-- format that it takes.
abbrev pub Outcome : Type 0
Outcome = Option (List ℕ × List Arg × ℕ)

abbrev pub put_number : (ℕ → Option (List ℕ)) → ℕ → List Arg → Outcome
put_number put extra [] = none
put_number put extra (text s ∷ ap) = none
put_number put extra (number x ∷ ap) = Option.map (λ out. (out, ap, extra)) (put x)

abbrev pub put_all : (ℕ → List ℕ) → List ℕ → List ℕ
put_all put [] = []
put_all put (c ∷ s) = put c ++ put_all put s

abbrev pub put_text : (ℕ → List ℕ) → List Arg → Outcome
put_text put [] = none
put_text put (number x ∷ ap) = none
put_text put (text none ∷ ap) =
    some (put_all put (b'(' ∷ b'n' ∷ b'u' ∷ b'l' ∷ b'l' ∷ b')' ∷ []), ap, 0)
put_text put (text (some s) ∷ ap) = some (put_all put s, ap, 0)

-- The byte of a format at an index, 0 at its end.
abbrev pub byte_at : ℕ → List ℕ → ℕ
byte_at i [] = 0
byte_at zero (c ∷ fmt) = c
byte_at (suc i) (c ∷ fmt) = byte_at i fmt

unfoldable pub conversion : ℕ → ℕ → ℕ → List Arg → Outcome
unfolding printint consputc
conversion c0 c1 c2 ap =
    if c0 == b'd'
    then put_number (λ x. printint (as_int x) 10 true) 0 ap
    else if (c0 == b'l') && (c1 == b'd')
    then put_number (λ x. printint x 10 true) 1 ap
    else if (c0 == b'l') && (c1 == b'l') && (c2 == b'd')
    then put_number (λ x. printint x 10 true) 2 ap
    else if c0 == b'u'
    then put_number (λ x. printint (x % 2 ^ 32) 10 false) 0 ap
    else if (c0 == b'l') && (c1 == b'u')
    then put_number (λ x. printint x 10 false) 1 ap
    else if (c0 == b'l') && (c1 == b'l') && (c2 == b'u')
    then put_number (λ x. printint x 10 false) 2 ap
    else if c0 == b'x'
    then put_number (λ x. printint (x % 2 ^ 32) 16 false) 0 ap
    else if (c0 == b'l') && (c1 == b'x')
    then put_number (λ x. printint x 16 false) 1 ap
    else if (c0 == b'l') && (c1 == b'l') && (c2 == b'x')
    then put_number (λ x. printint x 16 false) 2 ap
    else if c0 == b'p'
    then put_number (λ x. some (printptr x)) 0 ap
    else if c0 == b'c'
    then put_number (λ x. some (consputc (x % 2 ^ 32))) 0 ap
    else if c0 == b's'
    then put_text consputc ap
    else if c0 == b'%'
    then some (consputc b'%', ap, 0)
    else if c0 == 0
    then some ([], ap, 0)
    else some (consputc b'%' ++ consputc c0, ap, 0)

-- The conversion that stands at the start of a format.
abbrev pub conversion_at : List ℕ → List Arg → Outcome
conversion_at fmt ap =
    let c0 = byte_at 0 fmt in
    let c1 = if c0 == 0 then 0 else byte_at 1 fmt in
    let c2 = if c1 == 0 then 0 else byte_at 2 fmt in conversion c0 c1 c2 ap

-- What comes behind a conversion goes on with the arguments that it leaves.
abbrev pub finish : Outcome → (ℕ → List Arg → Option (List ℕ)) → Option (List ℕ)
finish none rest = none
finish (some (out, ap, extra)) rest = Option.map (λ more. out ++ more) (rest extra ap)

-- `i` moves over `skip` characters first.
unfoldable pub printf_from : ℕ → List ℕ → List Arg → Option (List ℕ)
printf_from skip [] ap = some []
printf_from (suc skip) (cx ∷ fmt) ap = printf_from skip fmt ap
printf_from zero (cx ∷ fmt) ap =
    if cx == b'%'
    then finish (conversion_at fmt ap) (λ extra ap'. printf_from (suc extra) fmt ap')
    else Option.map (λ more. consputc cx ++ more) (printf_from 0 fmt ap)

unfoldable pub printf : List ℕ → List Arg → Option (List ℕ)
printf fmt ap = printf_from 0 fmt ap

-- What `panic` prints in front of its endless loop.
unfoldable pub panic_message : List ℕ → Option (List ℕ)
unfolding printf
panic_message s = elim (printf (b'p' ∷ b'a' ∷ b'n' ∷ b'i' ∷ b'c' ∷ b':' ∷ b' ' ∷ []) []) [
  | none ↦ none
  | some out ↦
      Option.map (λ more. out ++ more) (printf (b'%' ∷ b's' ∷ 10 ∷ []) (text (some s) ∷ []))
]
