-- ===== src/Kernel/Strings/Copies.antt =====
-- `safestrcpy` and `strncpy`: the copy is the text, cut to fit.
use listlib_and_system_calls.Common.{
  ap, ℕ, zero, suc, ◌+◌, ◌≤◌, ◌<◌, ◌≡◌, ◌≢◌, ◌⊎◌, inl, inr, ◌∙◌, arith, update, update_ne,
  update_self, Bool-cases, ◌==◌, ◌∷◌,
}
use listlib_and_system_calls.Kernel.Strings.{Memory, copy_string, safestrcpy}
use listlib_and_system_calls.Kernel.Strings.Texts.{text_at, text_at-update}

-- An address in front of `n + 1` bytes from `s` or behind them.
abbrev pub Off : ℕ → ℕ → ℕ → Type 0
Off n s a = (a < s) ⊎ (s + n < a)

Off-here : (n s a : ℕ) → Off n s a → s ≢ a
Off-here n s a (inl h) = λ e. absurd (omega arith)
Off-here n s a (inr h) = λ e. absurd (omega arith)

Off-next : (n s a : ℕ) → Off (suc n) s a → Off n (s + 1) a
Off-next n s a (inl h) = inl (omega arith)
Off-next n s a (inr h) = inr (omega arith)

-- Nothing changes outside of the target.
copy_string-outside : (n s t a : ℕ) (mem : Memory) → Off n s a → copy_string s t n mem a ≡ mem a
unfolding copy_string
copy_string-outside zero s t a mem h = update_ne mem s a 0 (Off-here 0 s a h)
copy_string-outside (suc n) s t a mem h = elim (Bool-cases (mem t == 0)) [
  | inl ends ↦ rw ends (
      update_ne (update mem s 0) (s + 1) a 0 (Off-here n (s + 1) a (Off-next n s a h))
      ∙ update_ne mem s a 0 (Off-here (suc n) s a h))
  | inr more ↦ rw more (
      copy_string-outside n (s + 1) (t + 1) a (update mem s (mem t)) (Off-next n s a h)
      ∙ update_ne mem s a (mem t) (Off-here (suc n) s a h))
]

-- Source and target do not overlap.
abbrev pub Apart : ℕ → ℕ → ℕ → Type 0
Apart n s t = (s + n < t) ⊎ (t + n ≤ s)

Apart-next : (n s t : ℕ) → Apart (suc n) s t → Apart n (s + 1) (t + 1)
Apart-next n s t (inl h) = inl (omega arith)
Apart-next n s t (inr h) = inr (omega arith)

Apart-off : (n s t : ℕ) → Apart (suc n) s t → (s < t + 1) ⊎ (t + 1 + n ≤ s)
Apart-off n s t (inl h) = inl (omega arith)
Apart-off n s t (inr h) = inr (omega arith)

copy_string-text :
    (n s t : ℕ) (mem : Memory)
    → Apart n s t
    → text_at (suc n) s (copy_string s t n mem) ≡ text_at n t mem
unfolding copy_string text_at
copy_string-text zero s t mem apart = rw (update_self mem s 0)
copy_string-text (suc n) s t mem apart = elim (Bool-cases (mem t == 0)) [
  | inl ends ↦
      let here : update (update mem s 0) (s + 1) 0 s ≡ 0 =
        update_ne (update mem s 0) (s + 1) s 0 (λ e. absurd (omega arith)) ∙ update_self mem s 0 in
      rw (ends, here)
  | inr more ↦
      let here : copy_string (s + 1) (t + 1) n (update mem s (mem t)) s ≡ mem t =
        copy_string-outside n (s + 1) (t + 1) s (update mem s (mem t)) (inl (omega arith))
        ∙ update_self mem s (mem t) in
      rw (more, here, more)
        (ap (λ xs. mem t ∷ xs)
          (copy_string-text n (s + 1) (t + 1) (update mem s (mem t)) (Apart-next n s t apart)
            ∙ text_at-update n (t + 1) s (mem t) mem (Apart-off n s t apart)))
]

-- For a target of one byte or more apart from its source, `safestrcpy` leaves in it the source's text without what does not
-- fit in front of a 0, ended by a 0, and changes no byte off the target.
pub safestrcpy_lem :
    (n s t a : ℕ) (mem : Memory)
    → Apart n s t
    → Off n s a
    → (text_at (suc n) s (safestrcpy s t (suc n) mem) ≡ text_at n t mem)
      × (safestrcpy s t (suc n) mem a ≡ mem a)
unfolding safestrcpy
safestrcpy_lem n s t a mem apart off =
    (copy_string-text n s t mem apart, copy_string-outside n s t a mem off)
