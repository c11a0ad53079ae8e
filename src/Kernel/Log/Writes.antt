-- ===== src/Kernel/Log/Writes.antt =====
-- `log_write` lists the block that was changed, which is what `commit` relies on.
use native.Mathlib.Decide.{ℕ_discrete}
use listlib_and_system_calls.Common.{
  ℕ, zero, suc, ◌+◌, ◌≤◌, ◌<◌, ◌≡◌, ◌⊎◌, inl, inr, refl, sym, ◌∙◌, arith, subst, update,
  update_self, update_ne, some, ==→eq, ne→==, ◌==◌, Bool-cases, ge→ltb, ge→leb, eq→==,
}
use listlib_and_system_calls.Kernel.Log.{
  Block, LogHeader, Machine, log_blocks, set_data, set_header, log_write, find_block,
}
use listlib_and_system_calls.Kernel.Log.Images.{Home}
use listlib_and_system_calls.Kernel.Log.Commits.{IsReady}

find_block_lem :
    (k i b : ℕ) (block : ℕ → ℕ)
    → (find_block k i b block ≤ i + k)
      × (find_block k i b block < i + k → block (find_block k i b block) ≡ b)
unfolding find_block
find_block_lem zero i b block = (omega arith, λ h. absurd (omega arith))
find_block_lem (suc k) i b block =
    let (within, found) = find_block_lem k (i + 1) b block in
    elim (Bool-cases (block i == b)) [
      | inl here ↦ rw here (omega arith, λ h. ==→eq (block i) b here)
      | inr later ↦ rw later (omega arith, λ h. found (omega arith))
    ]

module _ (m : Machine) (b : ℕ) (v : Block) (ready : IsReady m) where
  -- A header that lists what the old one lists, and `b`.
  record Extends (lh : LogHeader) : Type 0 where
    small : lh.n ≤ log_blocks
    homes : (i : ℕ) → i < lh.n → Home m.log.start (lh.block i)
    old : (i : ℕ) → i < m.log.lh.n → (j : ℕ) × (j < lh.n) × (lh.block j ≡ m.log.lh.block i)
    new : (j : ℕ) × (j < lh.n) × (lh.block j ≡ b)

  Extends-IsReady :
      (lh : LogHeader) (pins : ℕ → ℕ)
      → Extends lh
      → IsReady (record (set_header lh (set_data b v m)) { pins = pins })
  Extends-IsReady lh pins e = record {
    empty = ready.empty;
    small = e.small;
    homes = e.homes;
    clean = λ c home. elim (ℕ_discrete b c) [
      | yes same ↦ inr (e.new.0, e.new.1, e.new.2 ∙ same)
      | no ne ↦ elim (ready.clean c home) [
        | inl clean ↦ inl (clean ∙ sym (update_ne m.cache b c v ne))
        | inr (i, inside, at) ↦ let (j, listed, same) = e.old i inside in inr (j, listed, same ∙ at)
      ]
    ];
  }

  abbrev slot : ℕ
  slot = find_block m.log.lh.n 0 b m.log.lh.block

  abbrev named : ℕ → LogHeader
  named n = record { n = n; block = update m.log.lh.block slot b }

  -- The slot keeps its block, unless it is a new one.
  named-at : (i : ℕ) → i < m.log.lh.n → (named 0).block i ≡ m.log.lh.block i
  named-at i inside = elim (ℕ_discrete slot i) [
    | yes same ↦
        subst (λ a. update m.log.lh.block slot b a ≡ m.log.lh.block a) same
          (update_self m.log.lh.block slot b
            ∙ sym ((find_block_lem m.log.lh.n 0 b m.log.lh.block).1 (omega (arith, same))))
    | no ne ↦ update_ne m.log.lh.block slot i b ne
  ]

  module _ (home : Home m.log.start b) where
    named-Extends :
        (n : ℕ)
        → m.log.lh.n ≤ n
        → n ≤ m.log.lh.n + 1
        → slot < n
        → n ≤ slot + 1 ⊎ n ≡ m.log.lh.n
        → n ≤ log_blocks
        → Extends (named n)
    named-Extends n more one inside last fits = record {
      small = fits;
      homes = λ i listed. elim (ℕ_discrete slot i) [
        | yes same ↦
            subst (λ a. Home m.log.start (update m.log.lh.block slot b a)) same
              (subst (Home m.log.start) (sym (update_self m.log.lh.block slot b)) home)
        | no ne ↦
            let within : i < m.log.lh.n = elim last [
              | inl end ↦ omega (arith, ne)
              | inr same ↦ omega arith
            ] in
            subst (Home m.log.start) (sym (named-at i within)) (ready.homes i within)
      ];
      old = λ i listed. (i, omega arith, named-at i listed);
      new = (slot, inside, update_self m.log.lh.block slot b);
    }

    -- A block outside of the log whose buffer is changed and then passed to `log_write`, with an operation in progress
    -- and a free slot: there is no panic, the state is again one that a commit may start from, the new content is in
    -- the cache, and the disk is as before.
    pub log_write-IsReady :
        m.log.lh.n < log_blocks
        → 0 < m.log.outstanding
        → (n : Machine) × (log_write b (set_data b v m) ≡ some n)
          × IsReady n
          × (n.cache ≡ update m.cache b v)
          × (n.disk ≡ m.disk)
    unfolding log_write
    log_write-IsReady room active =
        let found = find_block_lem m.log.lh.n 0 b m.log.lh.block in
        rw
          (
            ge→leb log_blocks m.log.lh.n room,
            ge→ltb m.log.outstanding 1 (λ h. absurd (omega arith)),
          )
          elim (ℕ_discrete slot m.log.lh.n) [
            | yes end ↦ rw (eq→== slot m.log.lh.n end) (
              _,
              refl,
              Extends-IsReady (named (m.log.lh.n + 1)) (update m.pins b (m.pins b + 1)) (
                  named-Extends (m.log.lh.n + 1) (omega arith) (omega arith) (omega arith)
                    (inl (omega arith)) (omega arith)),
              refl,
              refl,
            )
            | no ne ↦ rw (ne→== slot m.log.lh.n ne) (
              _,
              refl,
              Extends-IsReady (named m.log.lh.n) m.pins (
                  named-Extends m.log.lh.n (omega arith) (omega arith) (omega (arith, found.0, ne))
                    (inr refl) (omega arith)),
              refl,
              refl,
            )
          ]
