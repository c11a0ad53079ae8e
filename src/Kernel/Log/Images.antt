-- ===== src/Kernel/Log/Images.antt =====
-- What a disk holds when the machine stops: the images that `recover_from_log` turns into given
-- contents of the blocks outside of the log.
use native.Mathlib.Decide.{ℕ_discrete}
use listlib_and_system_calls.Common.{
  ℕ, suc, ◌+◌, ◌≤◌, ◌<◌, ◌≡◌, ◌≢◌, ◌⊎◌, inl, inr, refl, ◌∙◌, arith, subst, update, update_self,
  update_ne, for_loop-from_0,
}
use listlib_and_system_calls.Kernel.Log.{
  Block, LogHeader, Machine, log_blocks, bwrite, load_blocks, store_blocks,
}

-- A block outside of the log, which is its header and log_blocks slots from `start`.
abbrev pub Home : ℕ → ℕ → Type 0
Home start b = (b < start) ⊎ (start + log_blocks < b)

pub Home-ne : (start b i : ℕ) → Home start b → i ≤ log_blocks → b ≢ start + i
Home-ne start b i (inl low) h = λ e. absurd (omega arith)
Home-ne start b i (inr high) h = λ e. absurd (omega arith)

-- The header of the image lists blocks outside of the log, their slots hold the contents `v`, and
-- each block that is not listed holds them itself.
pub record Recovers (start : ℕ) (v : ℕ → Block) (d : ℕ → Block) : Type 0 where
  pub small : d start 0 ≤ log_blocks
  pub homes : (i : ℕ) → i < d start 0 → Home start (d start (i + 1))
  pub slots : (i : ℕ) → i < d start 0 → d (start + i + 1) ≡ v (d start (i + 1))
  pub rest :
      (b : ℕ) → Home start b → (d b ≡ v b) ⊎ ((i : ℕ) × (i < d start 0) × (d start (i + 1) ≡ b))

-- An empty log, and the contents in place.
pub record Settled (start : ℕ) (v : ℕ → Block) (d : ℕ → Block) : Type 0 where
  pub empty : d start 0 ≡ 0
  pub home : (b : ℕ) → Home start b → d b ≡ v b

module _ (start : ℕ) (v : ℕ → Block) (d : ℕ → Block) where
  pub Settled-Recovers : Settled start v d → Recovers start v d
  Settled-Recovers s = record {
    small = omega (arith, s.empty);
    homes = λ i h. absurd (omega (arith, s.empty));
    slots = λ i h. absurd (omega (arith, s.empty));
    rest = λ b h. inl (s.home b h);
  }

  -- A listed block may be written with its contents.
  pub Recovers-install :
      (i : ℕ)
      → Recovers start v d
      → i < d start 0
      → (b : ℕ) → d start (i + 1) ≡ b
      → Recovers start v (update d b (v b))
  Recovers-install i s here b e =
      let at : Home start b = subst (Home start) e (s.homes i here) in
      let header : update d b (v b) start ≡ d start =
        update_ne d b start (v b)
          (λ same. Home-ne start b 0 at (omega arith) (omega (arith, same))) in
      record {
        small = rw header s.small;
        homes = rw header s.homes;
        slots = rw header λ j inside.
            update_ne d b (start + j + 1) (v b)
              (λ same. Home-ne start b (j + 1) at (omega (arith, s.small)) (omega (arith, same)))
            ∙ s.slots j inside;
        rest = rw header λ c out. elim (ℕ_discrete b c) [
          | yes e ↦ inl (subst (λ a. update d b (v b) a ≡ v a) e (update_self d b (v b)))
          | no ne ↦ elim (s.rest c out) [
            | inl old ↦ inl (update_ne d b c (v b) ne ∙ old)
            | inr todo ↦ inr todo
          ]
        ];
      }

-- The blocks that bwrite leaves on disk.
pub bwrite-off : (b : ℕ) (m : Machine) → m.power ≡ 0 → bwrite b m ≡ m
unfolding bwrite
bwrite-off b m e = rw e

pub bwrite-on :
    (b k : ℕ) (m : Machine)
    → m.power ≡ suc k
    → bwrite b m ≡ record m { disk = update m.disk b (m.cache b); power = k }
unfolding bwrite
bwrite-on b k m e = rw e

-- The header as a block, and back.
pub store_blocks_lem :
    (lh : LogHeader) (buf : Block)
    → (store_blocks lh buf 0 ≡ buf 0)
      × ((i : ℕ) → i < lh.n → store_blocks lh buf (i + 1) ≡ lh.block i)
unfolding store_blocks
store_blocks_lem lh buf =
    for_loop-from_0 (λ j b. (b 0 ≡ buf 0) × ((i : ℕ) → i < j → b (i + 1) ≡ lh.block i)) lh.n
      (λ i b. update b (i + 1) (lh.block i)) buf
      (λ j b to p. (
        update_ne b (j + 1) 0 (lh.block j) (λ e. absurd (omega arith)) ∙ p.0,
        λ i here. elim (ℕ_discrete j i) [
          | yes e ↦
              subst (λ a. update b (j + 1) (lh.block j) (a + 1) ≡ lh.block a) e
                (update_self b (j + 1) (lh.block j))
          | no ne ↦
              update_ne b (j + 1) (i + 1) (lh.block j) (λ e. ne (omega arith))
              ∙ p.1 i (omega (arith, ne))
        ],
      ))
      (refl, λ i none_yet. absurd (omega arith))

pub load_blocks_lem :
    (lh : LogHeader) (buf : Block)
    → ((load_blocks buf lh).n ≡ lh.n)
      × ((i : ℕ) → i < lh.n → (load_blocks buf lh).block i ≡ buf (i + 1))
unfolding load_blocks
load_blocks_lem lh buf =
    for_loop-from_0
      (λ j (h : LogHeader). (h.n ≡ lh.n) × ((i : ℕ) → i < j → h.block i ≡ buf (i + 1))) lh.n
      (λ i (h : LogHeader). record h { block = update h.block i (buf (i + 1)) }) lh
      (λ j h to p. (
        p.0,
        λ i here. elim (ℕ_discrete j i) [
          | yes e ↦
              subst (λ a. update h.block j (buf (j + 1)) a ≡ buf (a + 1)) e
                (update_self h.block j (buf (j + 1)))
          | no ne ↦ update_ne h.block j i (buf (j + 1)) ne ∙ p.1 i (omega (arith, ne))
        ],
      ))
      (refl, λ i none_yet. absurd (omega arith))
