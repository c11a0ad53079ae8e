-- ===== src/Kernel/Console/Tests.antt =====
-- Keys that are typed, and a read.
use listlib_and_system_calls.Common.{
  ◌≤◌, ℕ, ◌+◌, ◌%◌, ◌≡◌, true, false, [], ◌∷◌, get_elem?, some, arith, refl, update, if◌then◌else◌,
  ◌==◌, zero, suc,
}
use listlib_and_system_calls.Kernel.Printf.{consputc}
use listlib_and_system_calls.Kernel.Console.{
  Cons, consoleintr, consoleread, kill_line, erase_char, put_char, hand_over, read_from,
  input_buf_size,
}
use listlib_and_system_calls.Kernel.Console.Ring.{Shows}
use listlib_and_system_calls.Kernel.Console.Edits.{type_char, consoleintr-Shows}
use listlib_and_system_calls.Kernel.Console.Reads.{Reads, take_text, consoleread-Reads}

-- Nothing is typed.
abbrev blank : Cons
blank = record { buf = λ i. 0; r = 0; w = 0; e = 0 }

-- "hi" and a newline, handed over.
abbrev greeting : Cons
greeting = record {
  buf = λ i. if i == 0 then b'h' else if i == 1 then b'i' else 10;
  r = 0;
  w = 3;
  e = 3;
}

blank-Shows : Shows blank [] 0
blank-Shows = record {
  bound = omega arith;
  fits = omega arith;
  part = omega arith;
  read_end = refl;
  edit_end = refl;
  ring = λ j ch e. absurd (cc e);
  in_line = λ j ch from e. absurd (cc e);
}

greeting-Shows : Shows greeting (b'h' ∷ b'i' ∷ 10 ∷ []) 3
greeting-Shows = record {
  bound = omega arith;
  fits = omega arith;
  part = omega arith;
  read_end = refl;
  edit_end = refl;
  ring = λ j ch e. held j ch e;
  in_line = λ j ch from e. absurd (past j ch from e);
}
  where
    held :
        (j ch : ℕ)
        → get_elem? (b'h' ∷ b'i' ∷ 10 ∷ []) j ≡ some ch
        → greeting.buf ((0 + j) % input_buf_size) ≡ ch
    held zero ch e = cc e
    held (suc zero) ch e = cc e
    held (suc (suc zero)) ch e = cc e
    held (suc (suc (suc j))) ch e = absurd (cc e)

    past : (j ch : ℕ) → 3 ≤ j → get_elem? (b'h' ∷ b'i' ∷ 10 ∷ []) j ≡ some ch → ⊥
    past zero ch from e = absurd (omega arith)
    past (suc zero) ch from e = absurd (omega arith)
    past (suc (suc zero)) ch from e = absurd (omega arith)
    past (suc (suc (suc j))) ch from e = cc e

-- "a", a backspace, "b" and the end of the line.
typed_keys :
    (consoleread 9 false
      (λ i. true)
      (consoleintr [] 13
        (consoleintr [] b'b' (consoleintr [] 8 (consoleintr [] b'a' blank).0).0).0).0).1
    ≡ b'b' ∷ 10 ∷ []
unfolding consoleread read_from consoleintr kill_line erase_char put_char hand_over consputc update
typed_keys = refl

consoleintr-Shows_example :
    Shows (consoleintr [] b'a' blank).0 (type_char b'a' [] 0).0 (type_char b'a' [] 0).1
    × ((consoleintr [] b'a' blank).2 ≡ (type_char b'a' [] 0).2)
consoleintr-Shows_example = consoleintr-Shows [] b'a' blank [] 0 blank-Shows

consoleread-Reads_example :
    Reads
      (consoleread 9 false (λ i. true) greeting)
      (take_text 9 9 false (λ i. true) (b'h' ∷ b'i' ∷ 10 ∷ []) 3)
consoleread-Reads_example =
    consoleread-Reads 9 false (λ i. true) greeting (b'h' ∷ b'i' ∷ 10 ∷ []) 3 greeting-Shows
