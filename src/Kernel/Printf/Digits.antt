-- ===== src/Kernel/Printf/Digits.antt =====
-- The digits that printint stores: they fit its buffer of 20 bytes.
use listlib_and_system_calls.Common.{
  ℕ, zero, suc, ◌+◌, ◌-◌, ◌*◌, ◌/◌, ◌%◌, ◌^◌, ◌<◌, ◌≤◌, Bool, true, false, ltb, leb, lt→ltb, ◌==◌,
  ◌&&◌, List, [], ◌∷◌, some, length, ◌≡◌, ◌⊎◌, refl, arith, inl, inr, Bool-cases,
}
use listlib_and_system_calls.Kernel.Printf.{digit, put_digits, put_minus, printint}

-- 10 ^ room
abbrev pub numbers_of : ℕ → ℕ
numbers_of zero = 1
numbers_of (suc room) = 10 * numbers_of room

-- The bases that printf uses.
abbrev pub IsBase : ℕ → Type 0
IsBase base = (base ≡ 10) ⊎ (base ≡ 16)

quotient_fits : (base x n : ℕ) → IsBase base → x < 10 * n → x / base < n
quotient_fits base x n (inl e) h = rw e (omega arith)
quotient_fits base x n (inr e) h = rw e (omega arith)

-- A number of at most `k` digits takes at most `k` places, if there are as many.
pub put_digits_fit :
    (letters k room base x : ℕ) (buf : List ℕ)
    → IsBase base
    → k ≤ room
    → 0 < k
    → x < numbers_of k
    → (out : List ℕ) × (put_digits letters room base x buf ≡ some out)
      × (length buf < length out)
      × (length out ≤ length buf + k)
unfolding put_digits
put_digits_fit letters zero room base x buf is_base h pos small = absurd (omega arith)
put_digits_fit letters (suc k) zero base x buf is_base h pos small = absurd (omega arith)
put_digits_fit letters (suc k) (suc room) base x buf is_base h pos small =
    elim (Bool-cases (x / base == 0)) [
      | inl last ↦ (digit letters (x % base) ∷ buf, rw last refl, omega arith, omega arith)
      | inr more ↦
          let fits : x / base < numbers_of k = quotient_fits base x (numbers_of k) is_base small in
          let (out, e, some_digits, within) =
            put_digits_fit letters k room base (x / base) (digit letters (x % base) ∷ buf) is_base
              (omega arith) (places k (x / base) fits more) fits in
          (out, rw more e, omega (arith, some_digits), omega (arith, within))
    ]
  where
    places : (k y : ℕ) → y < numbers_of k → (y == 0) ≡ false → 0 < k
    places zero y f m = ground arith
    places (suc k) y f m = omega arith

-- For every number of 64 bits, in base 10 or 16, signed or not: printint stays in its buffer, and
-- puts out between 1 and 20 characters.
pub printint_fits :
    (xx base : ℕ) (sign : Bool)
    → IsBase base
    → xx < 2 ^ 64
    → (out : List ℕ) × (printint xx base sign ≡ some out) × (0 < length out) × (length out ≤ 20)
unfolding printint put_minus
printint_fits xx base sign is_base fits = elim (Bool-cases (sign && leb (2 ^ 63) xx)) [
  | inl negative ↦
      let big : 2 ^ 63 ≤ xx = ground (arith, negative) in
      let (out, e, some_digits, within) =
        put_digits_fit b'a' 19 20 base (2 ^ 64 - xx) [] is_base (omega arith) (omega arith)
          (omega arith) in
      let room : ltb (length out) 20 ≡ true = lt→ltb (length out) 20 (omega arith) in
      (b'-' ∷ out, rw (negative, e, room) refl, omega arith, omega arith)
  | inr natural ↦
      let (out, e, some_digits, within) =
        put_digits_fit b'a' 20 20 base xx [] is_base (omega arith) (omega arith) (omega arith) in
      (out, rw (natural, e) refl, omega arith, omega arith)
]
