-- ===== src/Kernel/Bio/Start.antt =====
-- The cache behind `binit`.
use listlib_and_system_calls.Common.{
  refl, ℕ, zero, suc, inr, inl, ◌==◌, Bool-cases, arith, suc, update, true, length, for_loop-from_0,
  has, ◌<◌, ℕ, ◌≡◌,
}
use listlib_and_system_calls.Kernel.Bio.{Bcache, nbuf, head, link_buf, push_front, binit}
use listlib_and_system_calls.Kernel.Bio.Ring.{downward, binit-Ordered}
use listlib_and_system_calls.Kernel.Bio.Unique.{IsCache}

in_downward : (b i : ℕ) → b < i → has b (downward i) ≡ true
in_downward b zero h = absurd (omega arith)
in_downward b (suc i) h = elim (Bool-cases (b == i)) [
  | inl same ↦ ground (arith, same)
  | inr other ↦ ground (arith, in_downward b i (ground (arith, other, h)))
]

of_downward : (b i : ℕ) → has b (downward i) ≡ true → b < i
of_downward b zero h = absurd (cc h)
of_downward b (suc i) h = elim (Bool-cases (b == i)) [
  | inl same ↦ ground (arith, same)
  | inr other ↦ ground (arith, of_downward b i (ground (arith, other, h)))
]

length-downward : (i : ℕ) → length (downward i) ≡ i
length-downward zero = refl
length-downward (suc i) = omega (arith, length-downward i)

binit_dev : (c : Bcache) → ((b : ℕ) → c.dev b ≡ 0) → (b : ℕ) → (binit c).dev b ≡ 0
unfolding binit push_front
binit_dev c zeros =
    for_loop-from_0 (λ i d. (b : ℕ) → d.dev b ≡ 0) nbuf link_buf
      (record c { next = update c.next head head; prev = update c.prev head head })
      (λ i d small z. z) zeros

-- `binit` of the memory of a kernel that starts makes a proper cache.
pub binit-IsCache : (c : Bcache) → ((b : ℕ) → c.dev b ≡ 0) → IsCache (binit c) (downward nbuf)
binit-IsCache c zeros = record {
  ordered = binit-Ordered c;
  size = length-downward nbuf;
  present = λ b small. in_downward b nbuf small;
  real = λ b h. of_downward b nbuf h;
  unique = λ a b la lb ne used. absurd (used (binit_dev c zeros a));
}
