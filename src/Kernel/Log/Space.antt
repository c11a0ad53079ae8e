-- ===== src/Kernel/Log/Space.antt =====
-- The space of the log: operations that keep to their quota never fill it.
use listlib_and_system_calls.Common.{
  ℕ, suc, ◌+◌, ◌*◌, ◌≤◌, ◌<◌, ◌≡◌, ◌≢◌, ◌⊎◌, inl, inr, refl, ap, ◌∙◌, arith, Bool, none, some, List,
  [], ◌∷◌, ◌++◌, length,
}
use listlib_and_system_calls.Kernel.Log.{
  Block, Log, Machine, log_blocks, max_op_blocks, set_data, commit, begin_op, end_op, end_commit,
  log_write,
}
use listlib_and_system_calls.Kernel.Log.Effects.{
  begin_op_lem, end_op_lem, log_write_lem, log_write-total, begin_op-total, end_op-total,
  commit-log,
}

-- The blocks that the operations in progress may still write.
abbrev quota : List ℕ → ℕ
quota [] = 0
quota (c ∷ cs) = c + quota cs

quota-append : (xs ys : List ℕ) → quota (xs ++ ys) ≡ quota xs + quota ys
quota-append [] ys = omega arith
quota-append (x ∷ xs) ys = omega (arith, quota-append xs ys)

abbrev with_log : Log → Machine → Machine
with_log l m = record m { log = l }

-- The machine, with what is left of the quota of each operation in progress.
pub data Reachable : Machine → List ℕ → Type 0 where
  boots :
      (m : Machine) → m.log.outstanding ≡ 0 → m.log.committing ≡ 0 → m.log.lh.n ≡ 0 → Reachable m []
  begins :
      (m : Machine) (l : Log) (cs : List ℕ)
      → Reachable m cs
      → begin_op m.log ≡ some l
      → Reachable (with_log l m) (max_op_blocks ∷ cs)
  writes :
      (m n : Machine) (b c : ℕ) (xs ys : List ℕ)
      → Reachable m (xs ++ suc c ∷ ys)
      → log_write b m ≡ some n
      → Reachable n (xs ++ c ∷ ys)
  changes :
      (m : Machine) (b : ℕ) (v : Block) (cs : List ℕ)
      → Reachable m cs
      → Reachable (set_data b v m) cs
  ends :
      (m : Machine) (l : Log) (last : Bool) (c : ℕ) (xs ys : List ℕ)
      → Reachable m (xs ++ c ∷ ys)
      → end_op m.log ≡ some (l, last)
      → Reachable (with_log l m) (xs ++ ys)
  commits :
      (m : Machine) (cs : List ℕ)
      → Reachable m cs
      → m.log.committing ≢ 0
      → Reachable (with_log (end_commit (commit m).log) (commit m)) cs

abbrev Small : List ℕ → Type 0
Small [] = Unit
Small (c ∷ cs) = (c ≤ max_op_blocks) × Small cs

module _ (c : ℕ) (ys : List ℕ) where
  Small-drop : (xs : List ℕ) → Small (xs ++ c ∷ ys) → Small (xs ++ ys)
  Small-drop [] h = h.1
  Small-drop (x ∷ xs) h = (h.0, Small-drop xs h.1)

  Small-less : (xs : List ℕ) → Small (xs ++ suc c ∷ ys) → Small (xs ++ c ∷ ys)
  Small-less [] h = (omega (arith, h.0), h.1)
  Small-less (x ∷ xs) h = (h.0, Small-less xs h.1)

  length-drop : (xs : List ℕ) → length (xs ++ c ∷ ys) ≡ suc (length (xs ++ ys))
  length-drop [] = refl
  length-drop (x ∷ xs) = omega (arith, length-drop xs)

  length-less : (xs : List ℕ) → length (xs ++ suc c ∷ ys) ≡ length (xs ++ c ∷ ys)
  length-less [] = refl
  length-less (x ∷ xs) = omega (arith, length-less xs)

length-0 : (cs : List ℕ) → length cs ≡ 0 → cs ≡ []
length-0 [] e = refl
length-0 (c ∷ cs) e = absurd (omega arith)

quota-Small : (cs : List ℕ) → Small cs → quota cs ≤ length cs * max_op_blocks
quota-Small [] h = omega arith
quota-Small (c ∷ cs) h = omega (arith, quota-Small cs h.1, h.0)

record Fits (m : Machine) (cs : List ℕ) : Type 0 where
  counted : m.log.outstanding ≡ length cs
  room : m.log.lh.n + quota cs ≤ log_blocks
  small : Small cs
  alone : (m.log.committing ≡ 0) ⊎ (cs ≡ [])
  idle : m.log.committing ≡ 0 → length cs ≡ 0 → m.log.lh.n ≡ 0

Reachable-Fits : (m : Machine) (cs : List ℕ) → Reachable m cs → Fits m cs
unfolding end_commit
Reachable-Fits m _ (boots _ none_open quiet empty) = record {
  counted = none_open;
  room = omega (arith, empty);
  small = tt;
  alone = inl quiet;
  idle = λ q none_left. empty;
}
Reachable-Fits _ _ (begins m l cs r e) =
    let h = Reachable-Fits m cs r in
    let (quiet, fits, same) = begin_op_lem m.log l e in
    let out = ap (λ (g : Log). g.outstanding) same in
    let kept = ap (λ (g : Log). g.lh.n) same in
    record {
      counted = omega (arith, out, h.counted);
      room = omega (arith, kept, fits, h.counted, quota-Small cs h.small);
      small = (omega arith, h.small);
      alone = inl (ap (λ (g : Log). g.committing) same ∙ quiet);
      idle = λ q none_left. absurd (omega arith);
    }
Reachable-Fits _ _ (writes m n b c xs ys r e) =
    let h = Reachable-Fits m (xs ++ suc c ∷ ys) r in
    let (out, busy, more) = log_write_lem b m n e in
    record {
      counted = out ∙ h.counted ∙ length-less c ys xs;
      room = omega (arith, more, h.room, quota-append xs (suc c ∷ ys), quota-append xs (c ∷ ys));
      small = Small-less c ys xs h.small;
      alone = elim h.alone [
        | inl quiet ↦ inl (busy ∙ quiet)
        | inr none_left ↦ absurd (omega (arith, ap length none_left, length-drop (suc c) ys xs))
      ];
      idle = λ q none_left. absurd (omega (arith, none_left, length-drop c ys xs));
    }
Reachable-Fits _ _ (changes m b v cs r) =
    let h = Reachable-Fits m cs r in
    record { counted = h.counted; room = h.room; small = h.small; alone = h.alone; idle = h.idle }
Reachable-Fits _ _ (ends m l last c xs ys r e) =
    let h = Reachable-Fits m (xs ++ c ∷ ys) r in
    let (left, was, is, kept, quiet) = end_op_lem m.log l last e in
    record {
      counted = omega (arith, was, is, h.counted, length-drop c ys xs);
      room = omega (arith, kept, h.room, quota-append xs (c ∷ ys), quota-append xs ys);
      small = Small-drop c ys xs h.small;
      alone = elim quiet [
        | inl (q, more) ↦ inl q
        | inr (q, none_left) ↦
            inr
              (length-0 (xs ++ ys) (omega (arith, was, h.counted, none_left, length-drop c ys xs)))
      ];
      idle = λ q none_left. elim quiet [
        | inl (_, more) ↦
            absurd (omega (arith, was, h.counted, more, none_left, length-drop c ys xs))
        | inr (busy, _) ↦ absurd (omega arith)
      ];
    }
Reachable-Fits _ _ (commits m cs r busy) =
    let h = Reachable-Fits m cs r in
    let (out, empty) = commit-log m in
    let none_left : cs ≡ [] = elim h.alone [ inl quiet ↦ absurd (busy quiet) | inr e ↦ e ] in
    record {
      counted = out ∙ h.counted;
      room = omega (arith, empty, h.room);
      small = h.small;
      alone = inr none_left;
      idle = λ q e. empty;
    }

-- While an operation is in progress that has not used up its quota, in any interleaving of operations that keep to
-- their quota of ten writes, `log_write` and `end_op` do not panic, and the log has a free slot.
pub log_never_full :
    (m : Machine) (b c : ℕ) (xs ys : List ℕ)
    → Reachable m (xs ++ suc c ∷ ys)
    → (log_write b m ≢ none) × (end_op m.log ≢ none) × (m.log.lh.n < log_blocks)
log_never_full m b c xs ys r =
    let h = Reachable-Fits m (xs ++ suc c ∷ ys) r in
    let active : 0 < m.log.outstanding = omega (arith, h.counted, length-drop (suc c) ys xs) in
    let quiet : m.log.committing ≡ 0 = elim h.alone [
      | inl q ↦ q
      | inr none_left ↦ absurd (omega (arith, ap length none_left, length-drop (suc c) ys xs))
    ] in
    let room : m.log.lh.n < log_blocks = omega (arith, h.room, quota-append xs (suc c ∷ ys)) in
    (log_write-total b m room active, end_op-total m.log quiet active, room)

-- When no operation is in progress and no commit runs, in any reachable state, `begin_op` does not sleep.
pub begin_op-enters : (m : Machine) → Reachable m [] → m.log.committing ≡ 0 → begin_op m.log ≢ none
begin_op-enters m r quiet =
    let h = Reachable-Fits m [] r in
    begin_op-total m.log quiet (omega (arith, h.idle quiet refl, h.counted))
