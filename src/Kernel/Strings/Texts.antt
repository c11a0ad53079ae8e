-- ===== src/Kernel/Strings/Texts.antt =====
-- The text that an address stands for, and what `strncmp`, `strlen` and `memcmp` find in it.
use listlib_and_system_calls.Common.{
  ℕ, zero, suc, ◌+◌, ◌≤◌, ◌<◌, ◌≡◌, ◌≢◌, ◌⊎◌, inl, inr, refl, ◌∙◌, arith, update, update_ne, ◌&&◌,
  Bool, true, false, Bool-cases, ◌==◌, List, [], ◌∷◌, length, if◌then◌else◌, ℤ, pos, negsuc,
  int_diff,
}
use listlib_and_system_calls.Kernel.Strings.{Memory, strncmp, strlen, memcmp}

-- The bytes from `s` in front of the first 0, `n` of them at most.
unfoldable pub text_at : ℕ → ℕ → Memory → List ℕ
text_at zero s mem = []
text_at (suc n) s mem = if mem s == 0 then [] else mem s ∷ text_at n (s + 1) mem

-- `n` bytes, whatever they are.
unfoldable pub bytes_at : ℕ → ℕ → Memory → List ℕ
bytes_at zero s mem = []
bytes_at (suc n) s mem = mem s ∷ bytes_at n (s + 1) mem

unfoldable pub same_bytes : List ℕ → List ℕ → Bool
same_bytes [] [] = true
same_bytes [] (y ∷ ys) = false
same_bytes (x ∷ xs) [] = false
same_bytes (x ∷ xs) (y ∷ ys) = (x == y) && same_bytes xs ys

abbrev pub is_zero : ℤ → Bool
is_zero (pos zero) = true
is_zero (pos (suc n)) = false
is_zero (negsuc n) = false

is_zero-int_diff : (a b : ℕ) → is_zero (int_diff a b) ≡ (a == b)
is_zero-int_diff a b = ground arith

-- A write in front of the text or behind it.
pub text_at-update :
    (n s a v : ℕ) (mem : Memory)
    → (a < s) ⊎ (s + n ≤ a)
    → text_at n s (update mem a v) ≡ text_at n s mem
unfolding text_at
text_at-update zero s a v mem h = refl
text_at-update (suc n) s a v mem h =
    rw (update_ne mem a s v (apart h), text_at-update n (s + 1) a v mem (still h))
  where
    apart : (a < s) ⊎ (s + suc n ≤ a) → a ≢ s
    apart (inl f) = λ e. absurd (omega arith)
    apart (inr f) = λ e. absurd (omega arith)

    still : (a < s) ⊎ (s + suc n ≤ a) → (a < s + 1) ⊎ (s + 1 + n ≤ a)
    still (inl f) = inl (omega arith)
    still (inr f) = inr (omega arith)

-- `strncmp` returns 0 exactly when the two texts of at most `n` bytes are the same.
pub strncmp_lem :
    (p q n : ℕ) (mem : Memory)
    → is_zero (strncmp p q n mem) ≡ same_bytes (text_at n p mem) (text_at n q mem)
unfolding strncmp text_at same_bytes
strncmp_lem p q zero mem = refl
strncmp_lem p q (suc n) mem = elim (Bool-cases (mem p == 0)) [
  | inl ends ↦ elim (Bool-cases (mem q == 0)) [
    | inl both ↦ rw (ends, both) (is_zero-int_diff (mem p) (mem q) ∙ (ground arith))
    | inr longer ↦ rw (ends, longer) (is_zero-int_diff (mem p) (mem q) ∙ (ground arith))
  ]
  | inr more ↦ elim (Bool-cases (mem p == mem q)) [
    | inl same ↦
        let also : (mem q == 0) ≡ false = ground (arith, more, same) in
        rw (more, same, also, same) (strncmp_lem (p + 1) (q + 1) n mem)
    | inr differ ↦ elim (Bool-cases (mem q == 0)) [
      | inl ends ↦ rw (more, differ, ends) (is_zero-int_diff (mem p) (mem q) ∙ differ)
      | inr long ↦ rw (more, differ, long, differ) (is_zero-int_diff (mem p) (mem q) ∙ differ)
    ]
  ]
]

-- `memcmp` returns 0 exactly when the two blocks are the same.
pub memcmp_lem :
    (s1 s2 n : ℕ) (mem : Memory)
    → is_zero (memcmp s1 s2 n mem) ≡ same_bytes (bytes_at n s1 mem) (bytes_at n s2 mem)
unfolding memcmp bytes_at same_bytes
memcmp_lem s1 s2 zero mem = refl
memcmp_lem s1 s2 (suc n) mem = elim (Bool-cases (mem s1 == mem s2)) [
  | inl same ↦ rw (same) (memcmp_lem (s1 + 1) (s2 + 1) n mem)
  | inr differ ↦ rw (differ) (is_zero-int_diff (mem s1) (mem s2) ∙ differ)
]

-- `strlen` of a text that ends within the limit.
pub strlen_lem : (limit s : ℕ) (mem : Memory) → strlen limit s mem ≡ length (text_at limit s mem)
unfolding strlen text_at
strlen_lem zero s mem = refl
strlen_lem (suc limit) s mem = elim (Bool-cases (mem s == 0)) [
  | inl ends ↦ rw ends
  | inr more ↦ rw more (omega (arith, strlen_lem limit (s + 1) mem))
]
