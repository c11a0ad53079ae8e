-- ===== src/Kernel/Strings.antt =====
-- string.c: routines on blocks of bytes, over one memory.
use listlib_and_system_calls.Common.{
  ℕ, zero, suc, ◌+◌, ◌-◌, ◌%◌, Bool, true, false, ltb, ◌==◌, ◌&&◌, not, if◌then◌else◌, update,
  for_loop, ℤ, pos, int_diff,
}
pub mod Moves
pub mod Texts
pub mod Copies
pub mod Compares
pub mod Tests

-- The bytes by address; each is less than 256.
abbrev pub Memory : Type 0
Memory = ℕ → ℕ

unfoldable pub memset : ℕ → ℕ → ℕ → Memory → Memory
memset dst c n mem = for_loop n 0 (λ i m. update m (dst + i) (c % 256)) mem

unfoldable pub memcmp : ℕ → ℕ → ℕ → Memory → ℤ
memcmp s1 s2 zero mem = pos 0
memcmp s1 s2 (suc n) mem =
    if not (mem s1 == mem s2) then int_diff (mem s1) (mem s2) else memcmp (s1 + 1) (s2 + 1) n mem

-- `while(n-- > 0) *--d = *--s`, with `s` and `d` the first bytes
unfoldable pub copy_down : ℕ → ℕ → ℕ → Memory → Memory
copy_down zero s d mem = mem
copy_down (suc n) s d mem = copy_down n s d (update mem (d + n) (mem (s + n)))

-- `while(n-- > 0) *d++ = *s++`
unfoldable pub copy_up : ℕ → ℕ → ℕ → Memory → Memory
copy_up zero s d mem = mem
copy_up (suc n) s d mem = copy_up n (s + 1) (d + 1) (update mem d (mem s))

unfoldable pub memmove : ℕ → ℕ → ℕ → Memory → Memory
memmove dst src n mem =
    if n == 0
    then mem
    else if ltb src dst && ltb dst (src + n)
    then copy_down n src dst mem
    else copy_up n src dst mem

unfoldable pub memcpy : ℕ → ℕ → ℕ → Memory → Memory
memcpy dst src n mem = memmove dst src n mem

-- The loop moves on while both strings have the same byte, not 0, and `n` lasts.
unfoldable pub strncmp : ℕ → ℕ → ℕ → Memory → ℤ
strncmp p q zero mem = pos 0
strncmp p q (suc n) mem =
    if not (mem p == 0) && (mem p == mem q)
    then strncmp (p + 1) (q + 1) n mem
    else int_diff (mem p) (mem q)

-- The two loops of `strncpy`.
unfoldable pub fill_zeros : ℕ → ℕ → Memory → Memory
fill_zeros zero s mem = mem
fill_zeros (suc n) s mem = fill_zeros n (s + 1) (update mem s 0)

unfoldable pub strncpy : ℕ → ℕ → ℕ → Memory → Memory
strncpy s t zero mem = mem
strncpy s t (suc n) mem =
    if mem t == 0
    then fill_zeros n (s + 1) (update mem s 0)
    else strncpy (s + 1) (t + 1) n (update mem s (mem t))

-- The loop of `safestrcpy` with `n` rounds left, and the 0 behind it.
unfoldable pub copy_string : ℕ → ℕ → ℕ → Memory → Memory
copy_string s t zero mem = update mem s 0
copy_string s t (suc n) mem =
    if mem t == 0
    then update (update mem s 0) (s + 1) 0
    else copy_string (s + 1) (t + 1) n (update mem s (mem t))

unfoldable pub safestrcpy : ℕ → ℕ → ℕ → Memory → Memory
safestrcpy s t zero mem = mem
safestrcpy s t (suc n) mem = copy_string s t n mem

-- `strlen`, looking at `limit` bytes at most.
unfoldable pub strlen : ℕ → ℕ → Memory → ℕ
strlen zero s mem = 0
strlen (suc limit) s mem = let rest = strlen limit (s + 1) mem in if mem s == 0 then 0 else rest + 1
