-- ===== src/Common/Update.antt =====
-- Arrays and memories as functions from an index, and a write to one.
use Prim.Native.Nat.{ℕ}
use mathlib.Core.Path.{◌≡◌, refl, fun_ext}
use mathlib.Core.Bool.{true, false}
use mathlib.Core.Logic.{◌≢◌}
use native.Mathlib.Omega.{arith}
use listlib_and_system_calls.Common.Tests.{◌==◌, ==-refl, if◌then◌else◌}

unfoldable pub update {ℓ} : {A : Type ℓ} → (ℕ → A) → ℕ → A → ℕ → A
update f i v j = if i == j then v else f j

pub update_self {ℓ} : {A : Type ℓ} (f : ℕ → A) (i : ℕ) (v : A) → update f i v i ≡ v
unfolding update
update_self f i v = rw (==-refl i)

pub update-update {ℓ} :
    {A : Type ℓ} (f : ℕ → A) (i : ℕ) (v w : A) → update (update f i v) i w ≡ update f i w
unfolding update
update-update f i v w = fun_ext λ j. ground arith

pub update_ne {ℓ} : {A : Type ℓ} (f : ℕ → A) (i j : ℕ) (v : A) → i ≢ j → update f i v j ≡ f j
unfolding update
update_ne f i j v h = ground arith

pub update_comm {ℓ} :
    {A : Type ℓ} (f : ℕ → A) (i j : ℕ) (v w : A)
    → i ≢ j
    → update (update f i v) j w ≡ update (update f j w) i v
unfolding update
update_comm f i j v w ne = fun_ext λ k. ground arith

-- Unlike indices, for `simp`.
pub update-if {ℓ} :
    {A : Type ℓ} (f : ℕ → A) (i j : ℕ) (v : A) → update f i v j ≡ (if i == j then v else f j)
unfolding update
update-if f i j v = refl

-- A write, read at a place that a test compares with its own.
pub update_at {ℓ} :
    {A : Type ℓ} (f : ℕ → A) (i : ℕ) (v : A) (j : ℕ) → (i == j) ≡ true → update f i v j ≡ v
unfolding update
update_at f i v j e = rw e refl

pub update_off {ℓ} :
    {A : Type ℓ} (f : ℕ → A) (i : ℕ) (v : A) (j : ℕ) → (i == j) ≡ false → update f i v j ≡ f j
unfolding update
update_off f i v j e = rw e refl
