-- ===== src/Kernel/Console/Edits.antt =====
-- What the interrupt handler does to the text.
use listlib_and_system_calls.Common.{
  take_all, ℕ, zero, suc, ◌+◌, ◌-◌, ◌%◌, ◌≤◌, ◌<◌, ◌≡◌, ◌≢◌, inl, inr, refl, Bool, true, false, ltb,
  ◌==◌, ◌&&◌, ◌||◌, not, if◌then◌else◌, List, [], ◌∷◌, ◌++◌, length, length-append, get_elem?,
  get_elem?-snoc, take, some, arith, ◌∙◌, Bool-cases, update, update_self, update_ne, subst, ne→==,
  ==→ne,
}
use listlib_and_system_calls.Kernel.Console.{
  Cons, minus, input_buf_size, kill_line, erase_char, put_char, hand_over, consoleintr,
}
use listlib_and_system_calls.Kernel.Console.Ring.{
  init, length-init, take-init, get_elem?_last, Shows, init-Shows, ends_equal, last_typed,
  length_held,
}

-- A text, how many characters of it are handed over, and whether a reader is woken.
abbrev pub Typed : Type 0
Typed = List ℕ × ℕ × Bool

-- A character is put behind the text, and ends the line or fills the room.
abbrev pub append_char : ℕ → List ℕ → ℕ → Typed
append_char c text whole =
    let typed = text ++ c ∷ [] in
    if (c == 10) || (c == 4) || (length typed == input_buf_size)
    then (typed, length typed, true)
    else (typed, whole, false)

-- What the keys do to a text.
unfoldable pub type_char : ℕ → List ℕ → ℕ → Typed
type_char c text whole =
    if c == 16
    then (text, whole, false)
    else if c == 21
    then (take whole text, whole, false)
    else if (c == 8) || (c == 0x7f)
    then ((if length text == whole then text else init text), whole, false)
    else if not (c == 0) && ltb (length text) input_buf_size
    then append_char (if c == 13 then 10 else c) text whole
    else (text, whole, false)

kill_line-Shows :
    (rounds : ℕ) (cons : Cons) (text : List ℕ) (whole : ℕ)
    → Shows cons text whole
    → length text ≤ whole + rounds
    → Shows (kill_line rounds cons).0 (take whole text) whole
unfolding kill_line
kill_line-Shows zero cons text whole s enough = rw (take_all whole text (omega arith)) s
kill_line-Shows (suc rounds) cons text whole s enough = elim (Bool-cases (length text == whole)) [
  | inl done ↦ rw (ends_equal s, done, take_all whole text (ground (arith, done))) s
  | inr more ↦
      let longer : whole < length text = ground (arith, more, s.part) in
      let (ch, last) = get_elem?_last text (omega arith) in
      let here = last_typed s ch (omega arith) last in
      let other : (ch == 10) ≡ false =
        ne→== ch 10 (s.in_line (length text - 1) ch (omega arith) last) in
      rw (ends_equal s, more, here, other, ← take-init whole text longer)
        (kill_line-Shows rounds (record cons { e = minus cons.e 1 }) (init text) whole
          (init-Shows s longer) (omega (arith, length-init text)))
]

erase_char-Shows :
    (cons : Cons) (text : List ℕ) (whole : ℕ)
    → Shows cons text whole
    → Shows (erase_char cons).0 (if length text == whole then text else init text) whole
unfolding erase_char
erase_char-Shows cons text whole s = elim (Bool-cases (length text == whole)) [
  | inl done ↦ rw (ends_equal s, done) s
  | inr more ↦ rw (ends_equal s, more) (init-Shows s (ground (arith, more, s.part)))
]

hand_over-ends :
    (c : ℕ) (cons : Cons)
    → ((c == 10) || (c == 4) || (minus cons.e cons.r == input_buf_size)) ≡ true
    → hand_over c cons ≡ (record cons { w = cons.e }, true)
unfolding hand_over
hand_over-ends c cons e = rw e refl

hand_over-keeps :
    (c : ℕ) (cons : Cons)
    → ((c == 10) || (c == 4) || (minus cons.e cons.r == input_buf_size)) ≡ false
    → hand_over c cons ≡ (cons, false)
unfolding hand_over
hand_over-keeps c cons e = rw e refl

module _ (c : ℕ) (cons : Cons) (text : List ℕ) (whole : ℕ) (s : Shows cons text whole)
    (room : length text < input_buf_size) where
  put_ring :
      (j ch : ℕ)
      → get_elem? (text ++ c ∷ []) j ≡ some ch
      → (put_char c cons).buf ((cons.r + j) % input_buf_size) ≡ ch
  unfolding put_char
  put_ring j ch e = elim (get_elem?-snoc text c j ch e) [
    | inl (before, old) ↦
        let apart : cons.e % input_buf_size ≢ (cons.r + j) % input_buf_size =
          λ same. absurd (omega (arith, s.bound, s.edit_end, same)) in
        update_ne cons.buf (cons.e % input_buf_size) ((cons.r + j) % input_buf_size) c apart
        ∙ s.ring j ch old
    | inr (last, new) ↦
        let same : cons.e % input_buf_size ≡ (cons.r + j) % input_buf_size =
          omega (arith, s.bound, s.edit_end, last) in
        subst (λ i. update cons.buf (cons.e % input_buf_size) c i ≡ ch) same
          (update_self cons.buf (cons.e % input_buf_size) c ∙ new)
  ]

  long : length (text ++ c ∷ []) ≡ length text + 1
  long = length-append text (c ∷ []) ∙ (omega arith)

  -- The ring is full exactly when the text is as long.
  put_full :
      (minus (put_char c cons).e (put_char c cons).r == input_buf_size)
      ≡ (length (text ++ c ∷ []) == input_buf_size)
  unfolding put_char
  put_full = ground (arith, s.bound, s.fits, s.edit_end, long)

  -- The line is handed over.
  whole-Shows :
      Shows
        (record (put_char c cons) { w = (put_char c cons).e })
        (text ++ c ∷ [])
        (length (text ++ c ∷ []))
  unfolding put_char
  whole-Shows = record {
    bound = s.bound;
    fits = omega (arith, long);
    part = omega arith;
    read_end = omega (arith, s.bound, s.edit_end, long);
    edit_end = omega (arith, s.bound, s.edit_end, long);
    ring = put_ring;
    in_line = λ j ch from e. absurd (beyond (text ++ c ∷ []) j ch from e);
  }
    where
      beyond : (xs : List ℕ) (j ch : ℕ) → length xs ≤ j → get_elem? xs j ≡ some ch → ⊥
      beyond [] j ch h e = cc e
      beyond (x ∷ xs) zero ch h e = absurd (omega arith)
      beyond (x ∷ xs) (suc j) ch h e = beyond xs j ch (omega arith) e

  part-Shows : (c == 10) ≡ false → Shows (put_char c cons) (text ++ c ∷ []) whole
  unfolding put_char
  part-Shows other = record {
    bound = s.bound;
    fits = omega (arith, long);
    part = omega (arith, long, s.part);
    read_end = s.read_end;
    edit_end = omega (arith, s.bound, s.edit_end, long);
    ring = put_ring;
    in_line = λ j ch from e. elim (get_elem?-snoc text c j ch e) [
      | inl (before, old) ↦ s.in_line j ch from old
      | inr (last, new) ↦ subst (λ a. a ≢ 10) new (==→ne c 10 other)
    ];
  }

  hand_over-Shows :
      Shows
        (hand_over c (put_char c cons)).0
        (append_char c text whole).0
        (append_char c text whole).1
      × ((hand_over c (put_char c cons)).1 ≡ (append_char c text whole).2)
  hand_over-Shows =
      elim (Bool-cases ((c == 10) || (c == 4) || (length (text ++ c ∷ []) == input_buf_size))) [
        | inl ends ↦
            rw (hand_over-ends c (put_char c cons) (rw put_full ends), ends) (whole-Shows, refl)
        | inr on ↦
            rw (hand_over-keeps c (put_char c cons) (rw put_full on), on)
              (part-Shows (ground (arith, on)), refl)
      ]

-- A state of the console whose ring holds a text: behind the interrupt for a character it holds the text as
-- the keys change it, the characters handed over are those of the line discipline, and a
-- reader is woken exactly if a line is handed over.
pub consoleintr-Shows :
    (procdump : List ℕ) (c : ℕ) (cons : Cons) (text : List ℕ) (whole : ℕ)
    → Shows cons text whole
    → Shows (consoleintr procdump c cons).0 (type_char c text whole).0 (type_char c text whole).1
      × ((consoleintr procdump c cons).2 ≡ (type_char c text whole).2)
unfolding consoleintr type_char put_char
consoleintr-Shows procdump c cons text whole s = elim (Bool-cases (c == 16)) [
  | inl print ↦ rw print (s, refl)
  | inr e1 ↦ elim (Bool-cases (c == 21)) [
    | inl kill ↦
        rw (e1, kill)
          (kill_line-Shows input_buf_size cons text whole s (omega (arith, s.fits)), refl)
    | inr e2 ↦ elim (Bool-cases ((c == 8) || (c == 0x7f))) [
      | inl erase ↦ rw (e1, e2, erase) (erase_char-Shows cons text whole s, refl)
      | inr e3 ↦ elim (Bool-cases (not (c == 0) && ltb (length text) input_buf_size)) [
        | inl typed ↦
            rw (e1, e2, e3, length_held s, typed)
              (hand_over-Shows (if c == 13 then 10 else c) cons text whole s
                (ground (arith, typed)))
        | inr ignored ↦ rw (e1, e2, e3, length_held s, ignored) (s, refl)
      ]
    ]
  ]
]
