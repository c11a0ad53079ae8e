-- ===== src/Kernel/Console/Reads.antt =====
-- What a reader gets: the text that is handed over, a line at a time.
use listlib_and_system_calls.Common.{
  ℕ, zero, suc, ◌+◌, ◌-◌, ◌%◌, ◌^◌, ◌≡◌, refl, Bool, false, ltb, ◌==◌, not, if◌then◌else◌, List, [],
  ◌∷◌, arith, ap, ◌∙◌, Bool-cases, inl, inr,
}
use listlib_and_system_calls.Kernel.Console.{
  Cons, input_buf_size, ReadEnd, returns, fails, sleeps, read_from, consoleread,
}
use listlib_and_system_calls.Kernel.Console.Ring.{Shows, none_waits}

-- The text and the part handed over that a reader leaves, what it gets, and how it ends.
abbrev pub Taken : Type 0
Taken = List ℕ × ℕ × List ℕ × ReadEnd

-- A reader that wants `n` more of `target` bytes takes characters off the front.
unfoldable pub take_text : ℕ → ℕ → Bool → (ℕ → Bool) → List ℕ → ℕ → Taken
take_text zero target killed fits text whole = (text, whole, [], returns)
take_text (suc n) target killed fits text zero =
    (text, zero, [], (if killed then fails else sleeps (suc n)))
take_text (suc n) target killed fits [] (suc whole) = ([], suc whole, [], returns)
take_text (suc n) target killed fits (c ∷ text) (suc whole) =
    let (text', whole', line, end) = take_text n target killed fits text whole in
    if c == 4
    then (if ltb (suc n) target
        then (c ∷ text, suc whole, [], returns)
        else (text, whole, [], returns))
    else if not (fits (target - suc n))
    then (text, whole, [], returns)
    else if c == 10
    then (text, whole, c ∷ [], returns)
    else (text', whole', c ∷ line, end)

next-Shows :
    (cons : Cons) (c : ℕ) (text : List ℕ) (whole : ℕ)
    → Shows cons (c ∷ text) (suc whole)
    → Shows (record cons { r = (cons.r + 1) % 2 ^ 32 }) text whole
next-Shows cons c text whole s = record {
  bound = omega arith;
  fits = omega (arith, s.fits);
  part = omega (arith, s.part);
  read_end = omega (arith, s.bound, s.read_end);
  edit_end = omega (arith, s.bound, s.edit_end);
  ring = λ j ch e.
      let at : ((cons.r + 1) % 2 ^ 32 + j) % input_buf_size ≡ (cons.r + suc j) % input_buf_size =
        omega arith in
      ap cons.buf at ∙ s.ring (suc j) ch e;
  in_line = λ j ch from e. s.in_line (suc j) ch (omega arith) e;
}

first_char :
    (cons : Cons) (c : ℕ) (text : List ℕ) (whole : ℕ)
    → Shows cons (c ∷ text) (suc whole)
    → cons.buf (cons.r % input_buf_size) ≡ c
first_char cons c text whole s =
    let at : cons.r % input_buf_size ≡ (cons.r + 0) % input_buf_size = omega arith in
    ap cons.buf at ∙ s.ring 0 c refl

-- The states agree, and what is read and how it ends are the same.
abbrev pub Reads : Cons × List ℕ × ReadEnd → Taken → Type 0
Reads (cons, line, end) (text, whole, line', end') =
    Shows cons text whole × (line ≡ line') × (end ≡ end')

read_from-Reads :
    (n target : ℕ) (killed : Bool) (fits : ℕ → Bool) (cons : Cons) (text : List ℕ) (whole : ℕ)
    → Shows cons text whole
    → Reads (read_from n target killed fits cons) (take_text n target killed fits text whole)
unfolding read_from take_text
read_from-Reads zero target killed fits cons text whole s = (s, refl, refl)
read_from-Reads (suc n) target killed fits cons text zero s = rw (none_waits s) (s, refl, refl)
read_from-Reads (suc n) target killed fits cons [] (suc whole) s = absurd (omega (arith, s.part))
read_from-Reads (suc n) target killed fits cons (c ∷ text) (suc whole) s =
    let next = next-Shows cons c text whole s in
    let rest =
      read_from-Reads n target killed fits (record cons { r = (cons.r + 1) % 2 ^ 32 }) text whole
        next in
    let waits : (cons.r == cons.w) ≡ false = none_waits s ∙ (ground arith) in
    elim (Bool-cases (c == 4)) [
      | inl eof ↦ elim (Bool-cases (ltb (suc n) target)) [
        | inl later ↦ rw (waits, first_char cons c text whole s, eof, later) (s, refl, refl)
        | inr now ↦ rw (waits, first_char cons c text whole s, eof, now) (next, refl, refl)
      ]
      | inr e1 ↦ elim (Bool-cases (not (fits (target - suc n)))) [
        | inl fault ↦ rw (waits, first_char cons c text whole s, e1, fault) (next, refl, refl)
        | inr e2 ↦ elim (Bool-cases (c == 10)) [
          | inl newline ↦
              rw (waits, first_char cons c text whole s, e1, e2, newline) (next, refl, refl)
          | inr e3 ↦
              rw (waits, first_char cons c text whole s, e1, e2, e3)
                (rest.0, ap (λ l. c ∷ l) rest.1, rest.2)
        ]
      ]
    ]

-- A state of the console whose ring holds a text: `consoleread` is the reader that takes characters off the front of the
-- text as far as they are handed over, up to the end of a line, a control-d, a failing copy or its number of bytes: it leaves
-- the same text, gets the same characters and ends in the same way.
pub consoleread-Reads :
    (n : ℕ) (killed : Bool) (fits : ℕ → Bool) (cons : Cons) (text : List ℕ) (whole : ℕ)
    → Shows cons text whole
    → Reads (consoleread n killed fits cons) (take_text n n killed fits text whole)
unfolding consoleread
consoleread-Reads n killed fits cons text whole s =
    read_from-Reads n n killed fits cons text whole s
