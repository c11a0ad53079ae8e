-- ===== src/User/Printf/Agrees.antt =====
-- The two versions of printf put out the same, but for the case of letters.
use mathlib.Core.Option
use mathlib.Core.List.{map-append}
use listlib_and_system_calls.Common.{
  ℕ, zero, suc, ◌-◌, ◌*◌, ◌/◌, ◌%◌, ◌^◌, ◌<◌, Bool, true, false, ltb, leb, ◌==◌, ◌&&◌,
  if◌then◌else◌, List, [], ◌∷◌, ◌++◌, Option, none, some, length, length-map, map, ◌≡◌, refl, ap,
  ap₂, sym, ◌∙◌, arith, inl, inr, Bool-cases,
}
use listlib_and_system_calls.Kernel.Printf as Kernel
use listlib_and_system_calls.Kernel.Printf.{
  finish, Arg, number, text, Outcome, digit, put_digits, put_minus, put_nibbles, put_number,
  put_text, put_all, as_int, byte_at, consputc, printf, printf_from,
}
use listlib_and_system_calls.User.Printf.{
  putc, printint, printptr, conversion, vprintf_from, vprintf,
}

unfoldable pub upper : ℕ → ℕ
upper c = if leb b'a' c && leb c b'z' then c - 32 else c

-- The same text, but for the case of letters, or both undefined.
abbrev pub SameText : Option (List ℕ) → Option (List ℕ) → Type 0
SameText o o' = Option.map (map upper) o ≡ Option.map (map upper) o'

upper-digit : (d : ℕ) → d < 16 → upper (digit b'A' d) ≡ upper (digit b'a' d)
unfolding digit upper
upper-digit d h = ground arith

put_digits-upper :
    (room base x : ℕ) (buf buf' : List ℕ)
    → 0 < base
    → base < 17
    → map upper buf ≡ map upper buf'
    → SameText (put_digits b'A' room base x buf) (put_digits b'a' room base x buf')
unfolding put_digits
put_digits-upper zero base x buf buf' pos small e = refl
put_digits-upper (suc room) base x buf buf' pos small e =
    let low : x % base < 16 = grind arith in
    let more : map upper (digit b'A' (x % base) ∷ buf) ≡ map upper (digit b'a' (x % base) ∷ buf') =
      ap₂ (λ a b. a ∷ b) (upper-digit (x % base) low) e in
    elim (Bool-cases (x / base == 0)) [
      | inl last ↦ rw last (ap some more)
      | inr rest ↦ rw rest (put_digits-upper room base (x / base) _ _ pos small more)
    ]

put_minus_upper :
    (neg : Bool) (o o' : Option (List ℕ))
    → SameText o o'
    → SameText (put_minus neg o) (put_minus neg o')
unfolding put_minus
put_minus_upper neg none none e = refl
put_minus_upper neg none (some buf) e = absurd (cc e)
put_minus_upper neg (some buf) none e = absurd (cc e)
put_minus_upper false (some buf) (some buf') e = e
put_minus_upper true (some buf) (some buf') e =
    let same : map upper buf ≡ map upper buf' = cc e in
    let long : length buf ≡ length buf' =
      sym (length-map upper buf) ∙ ap length same ∙ length-map upper buf' in
    elim (Bool-cases (ltb (length buf') 20)) [
      | inl room ↦ rw (long, room) (ap (λ b. some (upper b'-' ∷ b)) same)
      | inr full ↦ rw (long, full) refl
    ]

printint_upper :
    (xx base : ℕ) (sign : Bool)
    → 0 < base
    → base < 17
    → SameText (printint xx base sign) (Kernel.printint xx base sign)
unfolding printint Kernel.printint
printint_upper xx base sign pos small =
    put_minus_upper (sign && leb (2 ^ 63) xx) _ _ (put_digits-upper 20 base _ [] [] pos small refl)

put_nibbles-upper :
    (k x : ℕ) → x < 2 ^ 64 → map upper (put_nibbles b'A' k x) ≡ map upper (put_nibbles b'a' k x)
unfolding put_nibbles
put_nibbles-upper zero x h = refl
put_nibbles-upper (suc k) x h =
    ap₂ (λ a b. a ∷ b) (upper-digit (x / 2 ^ 60) (omega arith))
      (put_nibbles-upper k (x * 16 % 2 ^ 64) (omega arith))

abbrev pub AreBytes : List ℕ → Type 0
AreBytes [] = Unit {0}
AreBytes (c ∷ s) = (c < 256) × AreBytes s

printptr_upper : (x : ℕ) → x < 2 ^ 64 → SameText (some (printptr x)) (some (Kernel.printptr x))
unfolding printptr Kernel.printptr
printptr_upper x fits = ap (λ s. some (upper b'0' ∷ upper b'x' ∷ s)) (put_nibbles-upper 16 x fits)

-- The numbers among the arguments have 64 bits, and none has the low half 0x100, which the
-- kernel's `%c` takes for a backspace; the texts are bytes.
abbrev pub AreUsual : List Arg → Type 0
AreUsual [] = Unit {0}
AreUsual (number x ∷ args) = (x < 2 ^ 64) × ((x % 2 ^ 32 == 0x100) ≡ false) × AreUsual args
AreUsual (text none ∷ args) = AreUsual args
AreUsual (text (some s) ∷ args) = AreBytes s × AreUsual args

-- The same text, from and to the same arguments, which are usual.
abbrev pub SameOutcome : Outcome → Outcome → Type 0
SameOutcome none none = Unit {0}
SameOutcome none (some o) = ⊥
SameOutcome (some o) none = ⊥
SameOutcome (some (out, args, extra)) (some (out', args', extra')) =
    (map upper out ≡ map upper out') × (args ≡ args') × (extra ≡ extra') × AreUsual args

if_same :
    (b : Bool) (o o' p p' : Outcome)
    → SameOutcome o o'
    → SameOutcome p p'
    → SameOutcome (if b then o else p) (if b then o' else p')
if_same true o o' p p' h h' = h
if_same false o o' p p' h h' = h'

put_number_same :
    (f g : ℕ → Option (List ℕ)) (extra : ℕ) (args : List Arg)
    → ((x : ℕ) → x < 2 ^ 64 → (x % 2 ^ 32 == 0x100) ≡ false → SameText (f x) (g x))
    → AreUsual args
    → SameOutcome (put_number f extra args) (put_number g extra args)
put_number_same f g extra [] same usual = tt
put_number_same f g extra (text s ∷ args) same usual = tt
put_number_same f g extra (number x ∷ args) same usual = from (f x) (g x) (same x usual.0 usual.1)
  where
    from :
        (o o' : Option (List ℕ))
        → SameText o o'
        → SameOutcome
            (Option.map (λ out. (out, args, extra)) o)
            (Option.map (λ out. (out, args, extra)) o')
    from none none e = tt
    from none (some out) e = absurd (cc e)
    from (some out) none e = absurd (cc e)
    from (some out) (some out') e = (cc e, refl, refl, usual.2)

consputc-putc : (c : ℕ) → c < 256 → putc c ≡ consputc c
unfolding putc consputc
consputc-putc c h = let other : (c == 0x100) ≡ false = ground arith in rw other refl

put_all_same : (s : List ℕ) → AreBytes s → put_all putc s ≡ put_all consputc s
put_all_same [] h = refl
put_all_same (c ∷ s) h = ap₂ (λ a b. a ++ b) (consputc-putc c h.0) (put_all_same s h.1)

put_text_same :
    (args : List Arg) → AreUsual args → SameOutcome (put_text putc args) (put_text consputc args)
put_text_same [] usual = tt
put_text_same (number x ∷ args) usual = tt
put_text_same (text none ∷ args) usual = (
  ap (map upper) (put_all_same (40 ∷ 110 ∷ 117 ∷ 108 ∷ 108 ∷ 41 ∷ []) (omega arith)),
  refl,
  refl,
  usual,
)
put_text_same (text (some s) ∷ args) usual =
    (ap (map upper) (put_all_same s usual.0), refl, refl, usual.1)

else_same :
    (b : Bool) (o o' p : Outcome)
    → b ≡ false
    → SameOutcome o o'
    → SameOutcome o (if b then p else o')
else_same true o o' p e h = absurd (cc e)
else_same false o o' p e h = h

char_same :
    (x : ℕ)
    → (x % 2 ^ 32 == 0x100) ≡ false
    → SameText (some (putc x)) (some (consputc (x % 2 ^ 32)))
unfolding putc consputc
char_same x other = let low : x % 2 ^ 32 % 256 ≡ x % 256 = omega arith in rw (other, low) refl

-- One conversion.
conversion_same :
    (c0 c1 c2 : ℕ) (args : List Arg)
    → (c0 == 0) ≡ false
    → c0 < 256
    → AreUsual args
    → SameOutcome (conversion c0 c1 c2 args) (Kernel.conversion c0 c1 c2 args)
unfolding conversion Kernel.conversion
conversion_same c0 c1 c2 args some_byte byte usual =
    if_same (c0 == b'd') _ _ _ _ (number_same 0 (λ x. as_int x) 10 true (omega arith) (omega arith))
      (if_same ((c0 == b'l') && (c1 == b'd')) _ _ _ _
        (number_same 1 (λ x. x) 10 true (omega arith) (omega arith))
        (if_same ((c0 == b'l') && (c1 == b'l') && (c2 == b'd')) _ _ _ _
          (number_same 2 (λ x. x) 10 true (omega arith) (omega arith))
          (if_same (c0 == b'u') _ _ _ _
            (number_same 0 (λ x. x % 2 ^ 32) 10 false (omega arith) (omega arith))
            (if_same ((c0 == b'l') && (c1 == b'u')) _ _ _ _
              (number_same 1 (λ x. x) 10 false (omega arith) (omega arith))
              (if_same ((c0 == b'l') && (c1 == b'l') && (c2 == b'u')) _ _ _ _
                (number_same 2 (λ x. x) 10 false (omega arith) (omega arith))
                (if_same (c0 == b'x') _ _ _ _
                  (number_same 0 (λ x. x % 2 ^ 32) 16 false (omega arith) (omega arith))
                  (if_same ((c0 == b'l') && (c1 == b'x')) _ _ _ _
                    (number_same 1 (λ x. x) 16 false (omega arith) (omega arith))
                    (if_same ((c0 == b'l') && (c1 == b'l') && (c2 == b'x')) _ _ _ _
                      (number_same 2 (λ x. x) 16 false (omega arith) (omega arith))
                      (if_same (c0 == b'p') _ _ _ _ pointer (
                        if_same (c0 == b'c') _ _ _ _ char (
                          if_same (c0 == b's') _ _ _ _ (put_text_same args usual) (
                            if_same (c0 == b'%') _ _ _ _
                              (ap (map upper) (consputc-putc b'%' (omega arith)), refl, refl, usual)
                              (else_same (c0 == 0) (some (putc b'%' ++ putc c0, args, 0))
                                (some (consputc b'%' ++ consputc c0, args, 0)) (some ([], args, 0))
                                some_byte
                                (
                                  ap (map upper) (
                                      ap₂ (λ a b. a ++ b) (consputc-putc b'%' (omega arith))
                                        (consputc-putc c0 byte)),
                                  refl,
                                  refl,
                                  usual,
                                ))))))))))))))
  where
    number_same :
        (extra : ℕ) (f : ℕ → ℕ) (base : ℕ) (sign : Bool)
        → 0 < base
        → base < 17
        → SameOutcome
            (put_number (λ x. printint (f x) base sign) extra args)
            (put_number (λ x. Kernel.printint (f x) base sign) extra args)
    number_same extra f base sign pos small =
        put_number_same (λ x. printint (f x) base sign) (λ x. Kernel.printint (f x) base sign) extra
          args (λ x fits other. printint_upper (f x) base sign pos small) usual

    pointer :
        SameOutcome
          (put_number (λ x. some (printptr x)) 0 args)
          (put_number (λ x. some (Kernel.printptr x)) 0 args)
    pointer =
        put_number_same (λ x. some (printptr x)) (λ x. some (Kernel.printptr x)) 0 args
          (λ x fits other. printptr_upper x fits) usual

    char :
        SameOutcome
          (put_number (λ x. some (putc x)) 0 args)
          (put_number (λ x. some (consputc (x % 2 ^ 32))) 0 args)
    char =
        put_number_same (λ x. some (putc x)) (λ x. some (consputc (x % 2 ^ 32))) 0 args
          (λ x fits other. char_same x other) usual

-- The characters of a format: no 0 among them.
abbrev pub IsFormat : List ℕ → Type 0
IsFormat [] = Unit {0}
IsFormat (c ∷ fmt) = (c < 256) × ((c == 0) ≡ false) × IsFormat fmt

join_same :
    (out out' : List ℕ) (o o' : Option (List ℕ))
    → map upper out ≡ map upper out'
    → SameText o o'
    → SameText (Option.map (λ more. out ++ more) o) (Option.map (λ more. out' ++ more) o')
join_same out out' none none e h = refl
join_same out out' none (some x) e h = absurd (cc h)
join_same out out' (some x) none e h = absurd (cc h)
join_same out out' (some x) (some y) e h =
    ap some (map-append upper out x ∙ ap₂ (λ a b. a ++ b) e (cc h) ∙ sym (map-append upper out' y))

finish_same :
    (o o' : Outcome) (rest rest' : ℕ → List Arg → Option (List ℕ))
    → ((extra : ℕ) (args : List Arg)
        → AreUsual args
        → SameText (rest extra args) (rest' extra args))
    → SameOutcome o o'
    → SameText (finish o rest) (finish o' rest')
finish_same none none rest rest' same h = refl
finish_same none (some o) rest rest' same h = absurd h
finish_same (some o) none rest rest' same h = absurd h
finish_same (some (out, args, extra)) (some (out', args', extra')) rest rest' same
      (e, eargs, eextra, usual) =
    rw (← eargs, ← eextra)
      (join_same out out' (rest extra args) (rest' extra args) e (same extra args usual))

percent_last :
    (args : List Arg)
    → SameText (some []) (finish (Kernel.conversion 0 0 0 args) (λ extra ap. some []))
unfolding Kernel.conversion
percent_last args = refl

printf_from_same :
    (skip : ℕ) (fmt : List ℕ) (args : List Arg)
    → IsFormat fmt
    → AreUsual args
    → SameText (vprintf_from false skip fmt args) (printf_from skip fmt args)
unfolding vprintf_from printf_from
printf_from_same skip [] args format usual = refl
printf_from_same (suc skip) (c ∷ fmt) args format usual =
    printf_from_same skip fmt args format.2 usual
printf_from_same zero (c ∷ []) args format usual = elim (Bool-cases (c == b'%')) [
  | inl percent ↦ rw percent (percent_last args)
  | inr plain ↦ rw plain (ap (λ s. some (map upper (s ++ []))) (consputc-putc c format.0))
]
printf_from_same zero (c ∷ c0 ∷ fmt) args format usual = elim (Bool-cases (c == b'%')) [
  | inl percent ↦
      let c1 = if c0 == 0 then 0 else byte_at 0 fmt in
      let c2 = if c1 == 0 then 0 else byte_at 1 fmt in
      rw percent (
        finish_same (conversion c0 c1 c2 args) (Kernel.conversion c0 c1 c2 args) _ _
          (λ extra args' usual'. printf_from_same extra fmt args' format.2.2 usual')
          (conversion_same c0 c1 c2 args format.2.1 format.2.0 usual))
  | inr plain ↦ rw plain (
      join_same (putc c) (consputc c) (vprintf_from false 0 (c0 ∷ fmt) args)
        (printf_from 0 (c0 ∷ fmt) args) (ap (map upper) (consputc-putc c format.0))
        (printf_from_same 0 (c0 ∷ fmt) args format.2 usual))
]

-- For a format of bytes without 0 and usual arguments: `printf` of the kernel and `vprintf` of the
-- user programs both put out the same text, but for the case of letters, or are both undefined.
pub vprintf-printf :
    (fmt : List ℕ) (args : List Arg)
    → IsFormat fmt
    → AreUsual args
    → SameText (vprintf fmt args) (printf fmt args)
unfolding vprintf printf
vprintf-printf fmt args format usual = printf_from_same 0 fmt args format usual
