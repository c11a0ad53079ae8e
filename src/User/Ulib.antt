-- ===== src/User/Ulib.antt =====
-- user/ulib.c: the routines that user programs link with. What the kernel has as well stands on
-- the kernel's memory of bytes.
use listlib_and_system_calls.Common.{
  ℕ, zero, suc, ◌+◌, ◌-◌, ◌*◌, ◌^◌, ltb, leb, ◌==◌, ◌&&◌, ◌||◌, if◌then◌else◌, List, [], ◌∷◌,
  Option, none, some,
}
use listlib_and_system_calls.Kernel.Strings.{Memory, copy_down, copy_up}
pub mod Atoi
pub mod Moves
pub mod Gets
pub mod Tests

-- `n*10 + *s++ - '0'` on a 32-bit `int`; `none` where it overflows.
unfoldable pub atoi_from : ℕ → List ℕ → Option ℕ
atoi_from n [] = some n
atoi_from n (c ∷ s) =
    let rest = atoi_from (n * 10 + c - b'0') s in
    if leb b'0' c && leb c b'9' then (if ltb (n * 10 + c) (2 ^ 31) then rest else none) else some n

unfoldable pub atoi : List ℕ → Option ℕ
atoi s = atoi_from 0 s

unfoldable pub memmove : ℕ → ℕ → ℕ → Memory → Memory
memmove dst src n mem = if ltb dst src then copy_up n src dst mem else copy_down n src dst mem

-- The loop of `gets` with room for some more characters: what it stores, and the input left.
unfoldable pub gets_from : ℕ → List ℕ → List ℕ × List ℕ
gets_from zero input = ([], input)
gets_from (suc room) [] = ([], [])
gets_from (suc room) (c ∷ input) =
    let (line, rest) = gets_from room input in
    if (c == 10) || (c == 13) then (c ∷ [], input) else (c ∷ line, rest)

-- The text in `buf`, in front of its 0.
unfoldable pub gets : ℕ → List ℕ → List ℕ × List ℕ
gets max input = gets_from (max - 1) input
