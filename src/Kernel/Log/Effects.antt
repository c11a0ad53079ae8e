-- ===== src/Kernel/Log/Effects.antt =====
-- What `begin_op`, `end_op`, `log_write` and `commit` leave of the log in memory.
use listlib_and_system_calls.Common.{
  ℕ, zero, suc, ◌+◌, ◌*◌, ◌≤◌, ◌<◌, ◌≡◌, ◌≢◌, ◌⊎◌, inl, inr, refl, ap, ◌∙◌, arith, Bool, false,
  none, some, for_loop-from_0, ltb, leb, ◌==◌, Bool-cases, ==→eq, leb→le,
}
use listlib_and_system_calls.Kernel.Log.{
  Log, Machine, log_blocks, max_op_blocks, bwrite, set_data, set_header, install_trans,
  install_block, write_block, write_log, write_head, commit, begin_op, end_op, log_write,
  find_block,
}

pub begin_op_lem :
    (l g : Log)
    → begin_op l ≡ some g
    → (l.committing ≡ 0)
      × (l.lh.n + (l.outstanding + 1) * max_op_blocks ≤ log_blocks)
      × (g ≡ record l { outstanding = l.outstanding + 1 })
unfolding begin_op
begin_op_lem l g e = elim (Bool-cases (l.committing == 0)) [
  | inl quiet ↦ elim (Bool-cases (leb (l.lh.n + (l.outstanding + 1) * 10) 30)) [
    | inl fits ↦ (==→eq l.committing 0 quiet, leb→le _ 30 fits, ground arith)
    | inr full ↦ ground arith
  ]
  | inr busy ↦ ground arith
]

pub end_op_lem :
    (l g : Log) (last : Bool)
    → end_op l ≡ some (g, last)
    → (left : ℕ) × (l.outstanding ≡ suc left)
      × (g.outstanding ≡ left)
      × (g.lh.n ≡ l.lh.n)
      × (((g.committing ≡ 0) × (0 < left)) ⊎ ((g.committing ≡ 1) × (left ≡ 0)))
unfolding end_op
end_op_lem l g last e = go l.outstanding refl
  where
    go :
        (o : ℕ)
        → l.outstanding ≡ o
        → (left : ℕ) × (l.outstanding ≡ suc left)
          × (g.outstanding ≡ left)
          × (g.lh.n ≡ l.lh.n)
          × (((g.committing ≡ 0) × (0 < left)) ⊎ ((g.committing ≡ 1) × (left ≡ 0)))
    go zero at = ground arith
    go (suc left) at = elim (Bool-cases (l.committing == 0)) [
      | inl quiet ↦ elim (Bool-cases (left == 0)) [
        | inl final ↦ (left, at, ground arith, ground arith, inr (ground arith, ==→eq left 0 final))
        | inr more ↦ (left, at, ground arith, ground arith, inl (ground arith, ground arith))
      ]
      | inr busy ↦ ground arith
    ]

pub log_write_lem :
    (b : ℕ) (m n : Machine)
    → log_write b m ≡ some n
    → (n.log.outstanding ≡ m.log.outstanding)
      × (n.log.committing ≡ m.log.committing)
      × (n.log.lh.n ≤ m.log.lh.n + 1)
unfolding log_write
log_write_lem b m n e = elim (Bool-cases (leb log_blocks m.log.lh.n)) [
  | inl full ↦ ground arith
  | inr room ↦ elim (Bool-cases (ltb m.log.outstanding 1)) [
    | inl idle ↦ ground arith
    | inr active ↦ elim (Bool-cases (find_block m.log.lh.n 0 b m.log.lh.block == m.log.lh.n)) [
      | inl new ↦ ground arith
      | inr old ↦ ground arith
    ]
  ]
]

pub log_write-total :
    (b : ℕ) (m : Machine) → m.log.lh.n < log_blocks → 0 < m.log.outstanding → log_write b m ≢ none
unfolding log_write
log_write-total b m room active e =
    elim (Bool-cases (find_block m.log.lh.n 0 b m.log.lh.block == m.log.lh.n)) [
      | inl new ↦ ground arith
      | inr old ↦ ground arith
    ]

pub begin_op-total :
    (l : Log)
    → l.committing ≡ 0
    → l.lh.n + (l.outstanding + 1) * max_op_blocks ≤ log_blocks
    → begin_op l ≢ none
unfolding begin_op
begin_op-total l quiet fits e = ground arith

pub end_op-total : (l : Log) → l.committing ≡ 0 → 0 < l.outstanding → end_op l ≢ none
unfolding end_op
end_op-total l quiet active e = go l.outstanding refl
  where
    go : (o : ℕ) → l.outstanding ≡ o → ⊥
    go zero at = absurd (omega arith)
    go (suc left) at = elim (Bool-cases (left == 0)) [
      | inl final ↦ ground arith
      | inr more ↦ ground arith
    ]

-- What a commit leaves of the log in memory.
pub bwrite-log : (b : ℕ) (m : Machine) → (bwrite b m).log ≡ m.log
unfolding bwrite
bwrite-log b m = go m.power refl
  where
    go : (k : ℕ) → m.power ≡ k → (bwrite b m).log ≡ m.log
    go zero e = rw e
    go (suc k) e = rw e

pub install_trans-log : (m : Machine) → (install_trans false m).log ≡ m.log
unfolding install_trans install_block
install_trans-log m =
    for_loop-from_0 (λ j (t : Machine). t.log ≡ m.log) m.log.lh.n (install_block false) m
      (λ j t to s.
        bwrite-log (t.log.lh.block j)
          (set_data (t.log.lh.block j) (t.cache (t.log.start + j + 1)) t)
        ∙ s)
      refl

pub write_log-log : (m : Machine) → (write_log m).log ≡ m.log
unfolding write_log write_block
write_log-log m =
    for_loop-from_0 (λ j (t : Machine). t.log ≡ m.log) m.log.lh.n write_block m
      (λ j t to s.
        bwrite-log (t.log.start + j + 1)
          (set_data (t.log.start + j + 1) (t.cache (t.log.lh.block j)) t)
        ∙ s)
      refl

pub write_head-log : (m : Machine) → (write_head m).log ≡ m.log
unfolding write_head
write_head-log m = bwrite-log m.log.start (set_data m.log.start _ m)

pub commit-log :
    (m : Machine) → ((commit m).log.outstanding ≡ m.log.outstanding) × ((commit m).log.lh.n ≡ 0)
unfolding commit
commit-log m = elim (Bool-cases (m.log.lh.n == 0)) [
  | inl empty ↦ rw empty (refl, ==→eq m.log.lh.n 0 empty)
  | inr some_listed ↦
      let installed = install_trans false (write_head (write_log m)) in
      let cleared = write_head-log (set_header (record installed.log.lh { n = 0 }) installed) in
      let same : installed.log ≡ m.log =
        install_trans-log (write_head (write_log m))
        ∙ write_head-log (write_log m)
        ∙ write_log-log m in
      rw some_listed (
        ap (λ (l : Log). l.outstanding) cleared ∙ ap (λ (l : Log). l.outstanding) same,
        ap (λ (l : Log). l.lh.n) cleared,
      )
]
