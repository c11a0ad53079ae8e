-- ===== src/User/Grep/Lines.antt =====
-- What the loop of grep writes: the lines that match, however the reads cut the file.
use mathlib.Core.List.{append_assoc, append-nil}
use listlib_and_system_calls.Common.{
  Option-cases, ==→ne, ==→eq, ℕ, zero, suc, ◌+◌, ◌-◌, ◌<◌, ◌≤◌, Bool, true, false, ltb, ◌==◌, ◌&&◌,
  not, if◌then◌else◌, List, [], ◌∷◌, ◌++◌, none, some, length, take, drop, ◌≡◌, ◌≢◌, refl, inl, inr,
  ◌⊎◌, Bool-cases, arith, ap, ◌∙◌, sym, subst, take-append, drop-append, length-append,
  take-append-drop, length-drop, length-take,
}
use listlib_and_system_calls.User.Grep.{
  match, strchr, print_lines, grep_from, grep, buf_size, read_count,
}

-- The lines of a text that match, each with its newline; `line` is what the first one has so far.
unfoldable pub matching_lines : List ℕ → List ℕ → List ℕ → List ℕ
matching_lines pattern line [] = []
matching_lines pattern line (x ∷ text) =
    let rest = matching_lines pattern [] text in
    let shown = if match pattern line then line ++ 10 ∷ rest else rest in
    if x == 10 then shown else matching_lines pattern (line ++ x ∷ []) text

-- No byte is 0, and no line is longer than the buffer; `m` bytes stand in front of the text.
unfoldable pub fits_buffer : ℕ → List ℕ → Bool
fits_buffer m [] = true
fits_buffer m (x ∷ text) =
    not (x == 0)
    && (if x == 10
        then fits_buffer 0 text
        else ltb (m + 1) (buf_size - 1) && fits_buffer (m + 1) text)

-- No newline and no 0.
unfoldable pub plain : List ℕ → Bool
plain [] = true
plain (x ∷ line) = not (x == 10) && not (x == 0) && plain line

strchr_cases :
    (m : ℕ) (p more : List ℕ)
    → fits_buffer m (p ++ more) ≡ true
    → ((strchr p 10 ≡ none) × (plain p ≡ true))
      ⊎ ((line : List ℕ) × (rest : List ℕ) × (strchr p 10 ≡ some (length line))
          × (p ≡ line ++ 10 ∷ rest)
          × (plain line ≡ true)
          × (fits_buffer 0 (rest ++ more) ≡ true))
unfolding strchr fits_buffer plain
strchr_cases m [] more fits = inl (refl, refl)
strchr_cases m (x ∷ p) more fits = elim (Bool-cases (x == 10)) [
  | inl here ↦
      let e : x ≡ 10 = ground (arith, here) in
      inr ([], p, ground (arith, here), rw e, refl, ground (arith, fits, here))
  | inr later ↦ elim (strchr_cases (m + 1) p more (ground (arith, fits, later))) [
    | inl (e, pl) ↦ inl (ground (arith, fits, later, e), ground (arith, fits, later, pl))
    | inr (line, rest, e, split, pl, fits') ↦ inr (
      x ∷ line,
      rest,
      ground (arith, fits, later, e),
      ap (λ t. x ∷ t) split,
      ground (arith, fits, later, pl),
      fits',
    )
  ]
]

-- A line and its newline in front of a text.
take_line : (line rest : List ℕ) → take (length line + 1) (line ++ 10 ∷ rest) ≡ line ++ 10 ∷ []
take_line line rest =
    ap (λ n. take n (line ++ 10 ∷ rest)) (sym (length-append line (10 ∷ []) ∙ (omega arith)))
    ∙ ap (take (length (line ++ 10 ∷ []))) (sym (append_assoc line (10 ∷ []) rest))
    ∙ take-append (line ++ 10 ∷ []) rest

drop_line : (line rest : List ℕ) → drop (length line + 1) (line ++ 10 ∷ rest) ≡ rest
drop_line line rest =
    ap (λ n. drop n (line ++ 10 ∷ rest)) (sym (length-append line (10 ∷ []) ∙ (omega arith)))
    ∙ ap (drop (length (line ++ 10 ∷ []))) (sym (append_assoc line (10 ∷ []) rest))
    ∙ drop-append (line ++ 10 ∷ []) rest

write_line :
    (b : Bool) (line out rest : List ℕ)
    → (if b then line ++ 10 ∷ (out ++ rest) else out ++ rest)
      ≡ (if b then (line ++ 10 ∷ []) ++ out else out) ++ rest
write_line true line out rest =
    sym (ap (λ l. l ++ rest) (append_assoc line (10 ∷ []) out) ∙ append_assoc line (10 ∷ out) rest)
write_line false line out rest = refl

module _ (pattern : List ℕ) where
  matching_lines-plain :
      (cur line text : List ℕ)
      → plain line ≡ true
      → matching_lines pattern cur (line ++ text) ≡ matching_lines pattern (cur ++ line) text
  unfolding matching_lines plain
  matching_lines-plain cur [] text pl = rw (append-nil cur)
  matching_lines-plain cur (x ∷ line) text pl =
      let other : (x == 10) ≡ false = ground (arith, pl) in
      rw other (
        matching_lines-plain (cur ++ x ∷ []) line text (ground (arith, pl))
        ∙ ap (λ l. matching_lines pattern l text) (append_assoc cur (x ∷ []) line))

  matching_lines_newline :
      (line rest : List ℕ)
      → plain line ≡ true
      → matching_lines pattern [] (line ++ 10 ∷ rest) ≡ (
          if match pattern line
          then line ++ 10 ∷ matching_lines pattern [] rest
          else matching_lines pattern [] rest)
  matching_lines_newline line rest pl =
      matching_lines-plain [] line (10 ∷ rest) pl ∙ (unfold matching_lines in refl)

  print_lines-none :
      (rounds : ℕ) (p : List ℕ)
      → strchr p 10 ≡ none
      → print_lines (suc rounds) pattern p ≡ some ([], p)
  unfolding print_lines
  print_lines-none rounds p e = rw (e, print_lines) refl

  print_lines-some :
      (rounds : ℕ) (line rest out left : List ℕ)
      → strchr (line ++ 10 ∷ rest) 10 ≡ some (length line)
      → print_lines rounds pattern rest ≡ some (out, left)
      → print_lines (suc rounds) pattern (line ++ 10 ∷ rest)
        ≡ some ((if match pattern line then (line ++ 10 ∷ []) ++ out else out), left)
  unfolding print_lines
  print_lines-some rounds line rest out left e later =
      rw (e, print_lines)
        (rw (take-append line (10 ∷ rest), take_line line rest, drop_line line rest)
          (rw later refl))

  -- Enough rounds write the lines that are complete.
  print_lines_lem :
      (rounds : ℕ) (p more : List ℕ)
      → length p < rounds
      → fits_buffer 0 (p ++ more) ≡ true
      → (out : List ℕ) × (left : List ℕ) × (print_lines rounds pattern p ≡ some (out, left))
        × (matching_lines pattern [] (p ++ more) ≡ out ++ matching_lines pattern [] (left ++ more))
        × (fits_buffer 0 (left ++ more) ≡ true)
        × (plain left ≡ true)
  print_lines_lem zero p more enough fits = absurd (omega arith)
  print_lines_lem (suc rounds) p more enough fits = elim (strchr_cases 0 p more fits) [
    | inl (e, pl) ↦ ([], p, print_lines-none rounds p e, refl, fits, pl)
    | inr (line, rest, e, split, pl, fits') ↦
        let long : length p ≡ length line + suc (length rest) =
          ap length split ∙ length-append line (10 ∷ rest) in
        let (out, left, writes, lines, fits'', ended) =
          print_lines_lem rounds rest more (omega (arith, long)) fits' in
        let later = matching_lines pattern [] (left ++ more) in
        let found = subst (λ q. strchr q 10 ≡ some (length line)) split e in
        rw split (
          _,
          left,
          print_lines-some rounds line rest out left found writes,
          ap (matching_lines pattern []) (append_assoc line (10 ∷ rest) more)
              ∙ matching_lines_newline line (rest ++ more) pl
              ∙ ap (λ l. if match pattern line then line ++ 10 ∷ l else l) lines
              ∙ write_line (match pattern line) line out later,
          fits'',
          ended,
        )
  ]

  -- A newline that is found makes the text shorter.
  strchr-shorter : (q : ℕ) (p : List ℕ) → strchr p 10 ≡ some q → length (drop (q + 1) p) < length p
  unfolding strchr
  strchr-shorter q [] e = absurd (cc e)
  strchr-shorter q (x ∷ p) e = omega (arith, length-drop (q + 1) (x ∷ p))

  print_lines_total :
      (rounds : ℕ) (p : List ℕ)
      → length p < rounds
      → (out : List ℕ) × (left : List ℕ) × (print_lines rounds pattern p ≡ some (out, left))
  unfolding print_lines
  print_lines_total zero p enough = absurd (omega arith)
  print_lines_total (suc rounds) p enough = elim (Option-cases (strchr p 10)) [
    | inl e ↦ ([], p, print_lines-none rounds p e)
    | inr (q, e) ↦
        let (out, left, writes) =
          print_lines_total rounds (drop (q + 1) p) (omega (arith, enough, strchr-shorter q p e)) in
        (
          (if match pattern (take q p) then take (q + 1) p ++ out else out),
          left,
          rw (e, print_lines) (rw writes refl),
        )
  ]

  matching_lines_none : (left : List ℕ) → plain left ≡ true → matching_lines pattern [] left ≡ []
  matching_lines_none left pl =
      ap (matching_lines pattern []) (sym (append-nil left))
      ∙ matching_lines-plain [] left [] pl
      ∙ (unfold matching_lines in refl)

  plain-length :
      (m : ℕ) (buf file : List ℕ)
      → m < buf_size - 1
      → plain buf ≡ true
      → fits_buffer m (buf ++ file) ≡ true
      → m + length buf < buf_size - 1
  unfolding plain fits_buffer
  plain-length m [] file small pl fits = omega arith
  plain-length m (x ∷ buf) file small pl fits =
      let other : (x == 10) ≡ false = ground (arith, pl) in
      let next : m + 1 < buf_size - 1 = ground (arith, fits, other) in
      omega (
        arith,
        plain-length (m + 1) buf file next (ground (arith, pl)) (ground (arith, fits, other)),
      )

  read_count_zero : (ready room file : ℕ) → 0 < room → read_count ready room file ≡ 0 → file ≡ 0
  read_count_zero ready room file h e = ground arith

  read_count-le : (ready room file : ℕ) → read_count ready room file ≤ file
  read_count-le ready room file = ground arith

  length_zero : (file : List ℕ) → length file ≡ 0 → file ≡ []
  length_zero [] e = refl
  length_zero (x ∷ file) e = absurd (omega arith)

  -- One round, with what is read and what is left of it.
  grep_from-ends :
      (rounds : ℕ) (pieces : ℕ → ℕ) (buf file : List ℕ)
      → (read_count (pieces rounds) (buf_size - length buf - 1) (length file) == 0) ≡ true
      → grep_from (suc rounds) pattern pieces buf file ≡ some []
  unfolding grep_from
  grep_from-ends rounds pieces buf file e = rw e refl

  grep_from-reads :
      (rounds : ℕ) (pieces : ℕ → ℕ) (buf file out left more : List ℕ)
      → let n = read_count (pieces rounds) (buf_size - length buf - 1) (length file) in
        (n == 0) ≡ false
        → print_lines (length buf + n + 1) pattern (buf ++ take n file) ≡ some (out, left)
        → grep_from rounds pattern pieces left (drop n file) ≡ some more
        → grep_from (suc rounds) pattern pieces buf file ≡ some (out ++ more)
  unfolding grep_from
  grep_from-reads rounds pieces buf file out left more e writes rest = rw (e, writes, rest) refl

  grep_from_lem :
      (rounds : ℕ) (pieces : ℕ → ℕ) (buf file : List ℕ)
      → length file < rounds
      → plain buf ≡ true
      → fits_buffer 0 (buf ++ file) ≡ true
      → grep_from rounds pattern pieces buf file ≡ some (matching_lines pattern [] (buf ++ file))
  grep_from_lem zero pieces buf file enough pl fits = absurd (omega arith)
  grep_from_lem (suc rounds) pieces buf file enough pl fits =
      let room = buf_size - length buf - 1 in
      let n = read_count (pieces rounds) room (length file) in
      elim (Bool-cases (n == 0)) [
        | inl finished ↦
            let e : file ≡ [] = length_zero file (
              read_count_zero (pieces rounds) room (length file)
                (omega (arith, plain-length 0 buf file (omega arith) pl fits))
                (==→eq n 0 finished)) in
            grep_from-ends rounds pieces buf file finished
            ∙ ap some (
                sym (
                  ap (λ f. matching_lines pattern [] (buf ++ f)) e
                  ∙ ap (matching_lines pattern []) (append-nil buf)
                  ∙ matching_lines_none buf pl))
        | inr more ↦
            let some_bytes : n ≢ 0 = ==→ne n 0 more in
            let shorter : length (drop n file) < rounds =
              omega (arith, length-drop n file, read_count-le (pieces rounds) room (length file)) in
            let split : (buf ++ take n file) ++ drop n file ≡ buf ++ file =
              append_assoc buf (take n file) (drop n file)
              ∙ ap (λ f. buf ++ f) (take-append-drop n file) in
            let long : length (buf ++ take n file) < length buf + n + 1 =
              omega (arith, length-append buf (take n file), length-take n file) in
            let (out, left, writes, lines, fits', pl') =
              print_lines_lem (length buf + n + 1) (buf ++ take n file) (drop n file) long
                (rw split fits) in
            grep_from-reads rounds pieces buf file out left _ more writes
              (grep_from_lem rounds pieces left (drop n file) shorter pl' fits')
            ∙ ap some (sym lines ∙ ap (matching_lines pattern []) split)
      ]

  -- For a file without 0 whose lines are shorter than 1023 bytes, however the reads cut it: `grep`
  -- ends and writes exactly the lines that match, each with its newline, in order. What stands
  -- behind the last newline is not looked at.
  pub grep_lem :
      (pieces : ℕ → ℕ) (file : List ℕ)
      → fits_buffer 0 file ≡ true
      → grep pattern pieces file ≡ some (matching_lines pattern [] file)
  unfolding grep plain
  grep_lem pieces file fits = grep_from_lem (length file + 1) pieces [] file (omega arith) refl fits

  grep_from_total :
      (rounds : ℕ) (pieces : ℕ → ℕ) (buf file : List ℕ)
      → length file < rounds
      → (out : List ℕ) × (grep_from rounds pattern pieces buf file ≡ some out)
  grep_from_total zero pieces buf file enough = absurd (omega arith)
  grep_from_total (suc rounds) pieces buf file enough =
      let room = buf_size - length buf - 1 in
      let n = read_count (pieces rounds) room (length file) in
      elim (Bool-cases (n == 0)) [
        | inl finished ↦ ([], grep_from-ends rounds pieces buf file finished)
        | inr more ↦
            let some_bytes : n ≢ 0 = ==→ne n 0 more in
            let shorter : length (drop n file) < rounds =
              omega (arith, length-drop n file, read_count-le (pieces rounds) room (length file)) in
            let long : length (buf ++ take n file) < length buf + n + 1 =
              omega (arith, length-append buf (take n file), length-take n file) in
            let (out, left, writes) =
              print_lines_total (length buf + n + 1) (buf ++ take n file) long in
            let (rest, e) = grep_from_total rounds pieces left (drop n file) shorter in
            (out ++ rest, grep_from-reads rounds pieces buf file out left rest more writes e)
      ]

  -- Both loops of grep end for every expression, file and order of reads: one round more than the
  -- file has bytes is enough for the outer one, and one more than the buffer has for the inner one.
  pub grep_total :
      (pieces : ℕ → ℕ) (file : List ℕ) → (out : List ℕ) × (grep pattern pieces file ≡ some out)
  unfolding grep
  grep_total pieces file = grep_from_total (length file + 1) pieces [] file (omega arith)
