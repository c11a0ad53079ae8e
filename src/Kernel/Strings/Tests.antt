-- ===== src/Kernel/Strings/Tests.antt =====
-- Runs of the string routines, and their theorems at a concrete memory.
use listlib_and_system_calls.Common.{◌+◌, ◌≡◌, refl, update, ltb, if◌then◌else◌, [], ◌∷◌}
use listlib_and_system_calls.Kernel.Strings.{
  Memory, memmove, copy_up, copy_down, safestrcpy, copy_string,
}
use listlib_and_system_calls.Kernel.Strings.Texts.{text_at, bytes_at}

-- The bytes 1 2 3 4 5 6 0 0 ... from address 0.
abbrev counted : Memory
counted a = if ltb a 6 then a + 1 else 0

moved_up : bytes_at 6 0 (memmove 2 0 4 counted) ≡ 1 ∷ 2 ∷ 1 ∷ 2 ∷ 3 ∷ 4 ∷ []
unfolding memmove copy_up copy_down bytes_at update
moved_up = refl

moved_down : bytes_at 6 0 (memmove 0 2 4 counted) ≡ 3 ∷ 4 ∷ 5 ∷ 6 ∷ 5 ∷ 6 ∷ []
unfolding memmove copy_up copy_down bytes_at update
moved_down = refl

cut : text_at 4 20 (safestrcpy 20 0 4 counted) ≡ 1 ∷ 2 ∷ 3 ∷ []
unfolding text_at safestrcpy copy_string update
cut = refl
