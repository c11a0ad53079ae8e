-- ===== src/Kernel/Fs/Bits.antt =====
-- The bits of a byte, as the free map of the file system reads and writes them.
use Prim.Native.Nat.{bit_and, bit_or}
use listlib_and_system_calls.Common.{
  if◌then◌else◌, ℕ, zero, suc, ◌-◌, ◌^◌, ◌<◌, ◌≡◌, refl, Bool, true, false, not, ltb, ◌==◌, ◌&&◌,
  ◌||◌, arith,
}

-- `(byte & (1 << bit)) != 0`
unfoldable pub bit_set : ℕ → ℕ → Bool
bit_set byte bit = not (bit_and byte (2 ^ bit) == 0)

-- `byte |= m`
unfoldable pub set_bit : ℕ → ℕ → ℕ
set_bit byte bit = bit_or byte (2 ^ bit)

-- `byte &= ~m`
unfoldable pub clear_bit : ℕ → ℕ → ℕ
clear_bit byte bit = bit_and byte (255 - 2 ^ bit)

same_bool : Bool → Bool → Bool
same_bool true b = b
same_bool false b = not b

same_bool_sound : (a b : Bool) → same_bool a b ≡ true → a ≡ b
unfolding same_bool
same_bool_sound true true e = refl
same_bool_sound true false e = absurd (cc e)
same_bool_sound false true e = absurd (cc e)
same_bool_sound false false e = refl

-- Bounded quantification: the test is run at each number under the bound.
every : (bound : ℕ) (test : ℕ → Bool) → Bool
every zero test = true
every (suc k) test = let rest = every k test in if test k then rest else false

test_at :
    (bound : ℕ) (test : ℕ → Bool) → every bound test ≡ true → (i : ℕ) → i < bound → test i ≡ true
unfolding every
test_at zero test all i small = absurd (omega arith)
test_at (suc k) test all i small = ground (arith, test_at k test (ground (arith, all)) i)

-- What is checked of a byte and two bits.
good : ℕ → ℕ → ℕ → Bool
good byte i j =
    same_bool (bit_set (set_bit byte i) j) ((i == j) || bit_set byte j)
    && same_bool (bit_set (clear_bit byte i) j) (not (i == j) && bit_set byte j)
    && ltb (set_bit byte i) 256
    && ltb (clear_bit byte i) 256

all_good : every 256 (λ b. every 8 (λ i. every 8 (good b i))) ≡ true
unfolding every good bit_set set_bit clear_bit same_bool
all_good = refl

good_lem : (byte i j : ℕ) → byte < 256 → i < 8 → j < 8 → good byte i j ≡ true
good_lem byte i j hb hi hj =
    let of_byte = test_at 256 (λ b. every 8 (λ i. every 8 (good b i))) all_good byte hb in
    let of_bit = test_at 8 (λ i. every 8 (good byte i)) of_byte i hi in
    test_at 8 (good byte i) of_bit j hj

module _ (byte i j : ℕ) (hb : byte < 256) (hi : i < 8) (hj : j < 8) where
  pub bit_set-set_bit : bit_set (set_bit byte i) j ≡ ((i == j) || bit_set byte j)
  unfolding good
  bit_set-set_bit = same_bool_sound _ _ (ground (arith, good_lem byte i j hb hi hj))

  pub bit_set-clear_bit : bit_set (clear_bit byte i) j ≡ (not (i == j) && bit_set byte j)
  unfolding good
  bit_set-clear_bit = same_bool_sound _ _ (ground (arith, good_lem byte i j hb hi hj))

  pub set_bit_byte : set_bit byte i < 256
  unfolding good
  set_bit_byte = ground (arith, good_lem byte i j hb hi hj)

  pub clear_bit_byte : clear_bit byte i < 256
  unfolding good
  clear_bit_byte = ground (arith, good_lem byte i j hb hi hj)
