-- ===== src/Kernel/Console/Ring.antt =====
-- What the console's ring holds: the text that is typed and not yet read, of which the first
-- characters are handed over to the reader.
use listlib_and_system_calls.Common.{
  ◌∙◌, ap, ℕ, zero, suc, ◌+◌, ◌-◌, ◌%◌, ◌^◌, ◌≤◌, ◌<◌, ◌≡◌, ◌≢◌, refl, ◌==◌, List, [], ◌∷◌, length,
  get_elem?, take, some, arith,
}
use listlib_and_system_calls.Kernel.Console.{Cons, minus, input_buf_size}

-- All but the last one.
unfoldable pub init : List ℕ → List ℕ
init [] = []
init (x ∷ []) = []
init (x ∷ y ∷ xs) = x ∷ init (y ∷ xs)

pub length-init : (xs : List ℕ) → length (init xs) ≡ length xs - 1
unfolding init
length-init [] = omega arith
length-init (x ∷ []) = omega arith
length-init (x ∷ y ∷ xs) = omega (arith, length-init (y ∷ xs))

pub get_elem?-init :
    (xs : List ℕ) (j ch : ℕ) → get_elem? (init xs) j ≡ some ch → get_elem? xs j ≡ some ch
unfolding init
get_elem?-init [] j ch e = e
get_elem?-init (x ∷ []) j ch e = absurd (cc e)
get_elem?-init (x ∷ y ∷ xs) zero ch e = e
get_elem?-init (x ∷ y ∷ xs) (suc j) ch e = get_elem?-init (y ∷ xs) j ch e

pub take-init : (k : ℕ) (xs : List ℕ) → k < length xs → take k (init xs) ≡ take k xs
unfolding init
take-init zero xs h = refl
take-init (suc k) [] h = absurd (omega arith)
take-init (suc k) (x ∷ []) h = absurd (omega arith)
take-init (suc k) (x ∷ y ∷ xs) h = ap (λ s. x ∷ s) (take-init k (y ∷ xs) (omega arith))

-- There is a last one.
pub get_elem?_last :
    (xs : List ℕ) → 0 < length xs → (ch : ℕ) × (get_elem? xs (length xs - 1) ≡ some ch)
get_elem?_last [] h = absurd (omega arith)
get_elem?_last (x ∷ []) h = (x, refl)
get_elem?_last (x ∷ y ∷ xs) h =
    let (ch, e) = get_elem?_last (y ∷ xs) (omega arith) in (ch, ground (arith, e))

-- The text, and how many of its characters are handed over.
pub record Shows (cons : Cons) (text : List ℕ) (whole : ℕ) : Type 0 where
  pub bound : cons.r < 2 ^ 32
  pub fits : length text ≤ input_buf_size
  pub part : whole ≤ length text
  pub read_end : cons.w ≡ (cons.r + whole) % 2 ^ 32
  pub edit_end : cons.e ≡ (cons.r + length text) % 2 ^ 32
  pub ring : (j ch : ℕ) → get_elem? text j ≡ some ch → cons.buf ((cons.r + j) % input_buf_size) ≡ ch
  pub in_line : (j ch : ℕ) → whole ≤ j → get_elem? text j ≡ some ch → ch ≢ 10

module _ {cons : Cons} {text : List ℕ} {whole : ℕ} (s : Shows cons text whole) where
  -- The counters are equal exactly when all is handed over.
  pub ends_equal : (cons.e == cons.w) ≡ (length text == whole)
  ends_equal = ground (arith, s.bound, s.fits, s.part, s.read_end, s.edit_end)

  pub none_waits : (cons.r == cons.w) ≡ (whole == 0)
  none_waits = ground (arith, s.bound, s.fits, s.part, s.read_end)

  pub length_held : minus cons.e cons.r ≡ length text
  length_held = omega (arith, s.bound, s.fits, s.edit_end)

  -- The last character that is typed stands in front of the edit counter.
  pub last_typed :
      (ch : ℕ)
      → 0 < length text
      → get_elem? text (length text - 1) ≡ some ch
      → cons.buf (minus cons.e 1 % input_buf_size) ≡ ch
  last_typed ch h e =
      let at : minus cons.e 1 % input_buf_size ≡ (cons.r + (length text - 1)) % input_buf_size =
        omega (arith, s.bound, s.fits, s.edit_end) in
      ap cons.buf at ∙ s.ring (length text - 1) ch e

  pub init-Shows :
      whole < length text → Shows (record cons { e = minus cons.e 1 }) (init text) whole
  init-Shows more = record {
    bound = s.bound;
    fits = omega (arith, s.fits, length-init text);
    part = omega (arith, length-init text);
    read_end = s.read_end;
    edit_end = omega (arith, s.bound, s.fits, s.edit_end, length-init text);
    ring = λ j ch e. s.ring j ch (get_elem?-init text j ch e);
    in_line = λ j ch from e. s.in_line j ch from (get_elem?-init text j ch e);
  }
