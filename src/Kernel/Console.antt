-- ===== src/Kernel/Console.antt =====
-- kernel/console.c: the input ring, which the interrupt handler edits and a reader empties. The
-- three counters are 32 bits wide. A section under the lock is one step: `consoleread` stops where
-- it sleeps.
use listlib_and_system_calls.Common.{
  ℕ, zero, suc, ◌+◌, ◌-◌, ◌%◌, ◌^◌, Bool, true, false, ltb, ◌==◌, ◌&&◌, ◌||◌, not, if◌then◌else◌,
  List, [], ◌∷◌, ◌++◌, update,
}
use listlib_and_system_calls.Kernel.Printf.{consputc}
pub mod Ring
pub mod Edits
pub mod Reads
pub mod Tests

abbrev pub backspace : ℕ
backspace = 0x100

abbrev pub input_buf_size : ℕ
input_buf_size = 128

pub record Cons : Type 0 where
  pub buf : ℕ → ℕ
  pub r : ℕ
  pub w : ℕ
  pub e : ℕ

-- `x - y` on `uint`
abbrev pub minus : ℕ → ℕ → ℕ
minus x y = (x + 2 ^ 32 - y) % 2 ^ 32

-- The loop of control-u, for some rounds at most, with what it echoes.
unfoldable pub kill_line : ℕ → Cons → Cons × List ℕ
kill_line zero cons = (cons, [])
kill_line (suc rounds) cons =
    let (done, echo) = kill_line rounds (record cons { e = minus cons.e 1 }) in
    if not (cons.e == cons.w) && not (cons.buf (minus cons.e 1 % input_buf_size) == 10)
    then (done, consputc backspace ++ echo)
    else (cons, [])

unfoldable pub erase_char : Cons → Cons × List ℕ
erase_char cons =
    if not (cons.e == cons.w)
    then (record cons { e = minus cons.e 1 }, consputc backspace)
    else (cons, [])

-- The character, with a carriage return as the end of line, is put in.
unfoldable pub put_char : ℕ → Cons → Cons
put_char c cons = record cons {
  buf = update cons.buf (cons.e % input_buf_size) c;
  e = (cons.e + 1) % 2 ^ 32;
}

-- A whole line is handed to the reader, which is woken.
unfoldable pub hand_over : ℕ → Cons → Cons × Bool
hand_over c cons =
    if (c == 10) || (c == 4) || (minus cons.e cons.r == input_buf_size)
    then (record cons { w = cons.e }, true)
    else (cons, false)

-- The state, what is echoed, and whether a reader is woken; `procdump` is what control-p prints.
unfoldable pub consoleintr : List ℕ → ℕ → Cons → Cons × List ℕ × Bool
consoleintr procdump c cons =
    let (killed, echo) = kill_line input_buf_size cons in
    let (erased, echo') = erase_char cons in
    let c' = if c == 13 then 10 else c in
    let (typed, woken) = hand_over c' (put_char c' cons) in
    if c == 16
    then (cons, procdump, false)
    else if c == 21
    then (killed, echo, false)
    else if (c == 8) || (c == 0x7f)
    then (erased, echo', false)
    else if not (c == 0) && ltb (minus cons.e cons.r) input_buf_size
    then (typed, consputc c', woken)
    else (cons, [], false)

-- How a read ends: it returns, or -1 as the process is killed, or it sleeps with bytes wanted.
pub data ReadEnd : Type 0 where
  returns : ReadEnd
  fails : ReadEnd
  sleeps : ℕ → ReadEnd

-- The loop of `consoleread`, with `n` bytes wanted; `fits` says whether the copy to the address of
-- the byte with this number works. The bytes that are copied come with the state.
unfoldable pub read_from : ℕ → ℕ → Bool → (ℕ → Bool) → Cons → Cons × List ℕ × ReadEnd
read_from zero target killed fits cons = (cons, [], returns)
read_from (suc n) target killed fits cons =
    let c = cons.buf (cons.r % input_buf_size) in
    let next = record cons { r = (cons.r + 1) % 2 ^ 32 } in
    let (after, line, end) = read_from n target killed fits next in
    if cons.r == cons.w
    then (cons, [], (if killed then fails else sleeps (suc n)))
    else if c == 4
    then ((if ltb (suc n) target then cons else next), [], returns)
    else if not (fits (target - suc n))
    then (next, [], returns)
    else if c == 10
    then (next, c ∷ [], returns)
    else (after, c ∷ line, end)

unfoldable pub consoleread : ℕ → Bool → (ℕ → Bool) → Cons → Cons × List ℕ × ReadEnd
consoleread n killed fits cons = read_from n n killed fits cons
