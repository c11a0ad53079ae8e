-- ===== src/Common/Int.antt =====
-- The integers over the native numbers, for the differences that C code returns.
use Prim.Native.Nat.{ℕ, ◌-◌}
use mathlib.Core.Path.{◌≡◌}
use native.Mathlib.Omega.{arith}
use listlib_and_system_calls.Common.Tests.{leb, if◌then◌else◌}

pub data ℤ : Type 0 where
  pos : ℕ → ℤ
  negsuc : ℕ → ℤ

-- `(int)a - (int)b`
abbrev pub int_diff : ℕ → ℕ → ℤ
int_diff a b = if leb b a then pos (a - b) else negsuc (b - a - 1)

pub int_diff-zero : (a b : ℕ) → int_diff a b ≡ pos 0 → a ≡ b
int_diff-zero a b e = ground arith

pub int_diff_self : (a : ℕ) → int_diff a a ≡ pos 0
int_diff_self a = ground arith
