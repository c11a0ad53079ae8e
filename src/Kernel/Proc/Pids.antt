-- ===== src/Kernel/Proc/Pids.antt =====
-- Process ids: each process in the table has one of its own.
use native.Mathlib.Decide.{ℕ_discrete}
use listlib_and_system_calls.Common.{
  Bool-cases, ℕ, suc, ◌≤◌, ◌<◌, ◌≡◌, ◌≢◌, inl, inr, refl, sym, ◌∙◌, ap, arith, Bool, true, false,
  subst, update, update_self, update_ne,
}
use listlib_and_system_calls.Kernel.Proc.{Proc, Table, is_unused, set_proc}

-- An entry that is not in use has pid 0; the pids of the others are distinct and below the next one,
-- which a bound limits.
pub record Pids (k : ℕ) (t : Table) : Type 0 where
  pub fresh : 0 < t.nextpid
  pub reached : t.nextpid ≤ k
  pub free : (i : ℕ) → is_unused (t.proc i).state ≡ true → (t.proc i).pid ≡ 0
  pub held :
      (i : ℕ)
      → is_unused (t.proc i).state ≡ false
      → (0 < (t.proc i).pid) × ((t.proc i).pid < t.nextpid)
  pub once :
      (i j : ℕ) → is_unused (t.proc i).state ≡ false → (t.proc i).pid ≡ (t.proc j).pid → i ≡ j

-- The entries and pids of `n` are those of `t`.
pub record Same (t n : Table) : Type 0 where
  pub nextpid : n.nextpid ≡ t.nextpid
  pub pid : (i : ℕ) → (n.proc i).pid ≡ (t.proc i).pid
  pub in_use : (i : ℕ) → is_unused (n.proc i).state ≡ is_unused (t.proc i).state

pub Same-refl : (t : Table) → Same t t
Same-refl t = record { nextpid = refl; pid = λ i. refl; in_use = λ i. refl }

pub Same-trans : (t n u : Table) → Same t n → Same n u → Same t u
Same-trans t n u a b = record {
  nextpid = b.nextpid ∙ a.nextpid;
  pid = λ i. b.pid i ∙ a.pid i;
  in_use = λ i. b.in_use i ∙ a.in_use i;
}

pub Same-set :
    (i : ℕ) (q : Proc) (t : Table)
    → q.pid ≡ (t.proc i).pid
    → is_unused q.state ≡ is_unused (t.proc i).state
    → Same t (set_proc i q t)
Same-set i q t e f = record {
  nextpid = refl;
  pid = λ j. elim (ℕ_discrete i j) [
    | yes same ↦
        subst (λ a. (update t.proc i q a).pid ≡ (t.proc a).pid) same
          (ap (λ (p : Proc). p.pid) (update_self t.proc i q) ∙ e)
    | no ne ↦ ap (λ (p : Proc). p.pid) (update_ne t.proc i j q ne)
  ];
  in_use = λ j. elim (ℕ_discrete i j) [
    | yes same ↦
        subst (λ a. is_unused (update t.proc i q a).state ≡ is_unused (t.proc a).state) same
          (ap (λ (p : Proc). is_unused p.state) (update_self t.proc i q) ∙ f)
    | no ne ↦ ap (λ (p : Proc). is_unused p.state) (update_ne t.proc i j q ne)
  ];
}

pub Same-Pids : {k : ℕ} (t n : Table) → Same t n → Pids k t → Pids k n
Same-Pids t n s p = record {
  reached = omega (arith, s.nextpid, p.reached);
  fresh = omega (arith, s.nextpid, p.fresh);
  free = λ i u. s.pid i ∙ p.free i (sym (s.in_use i) ∙ u);
  held = λ i u.
      let h = p.held i (sym (s.in_use i) ∙ u) in
      (omega (arith, s.pid i, h.0), omega (arith, s.pid i, s.nextpid, h.1));
  once = λ i j u e. p.once i j (sym (s.in_use i) ∙ u) (sym (s.pid i) ∙ e ∙ s.pid j);
}

-- An entry is changed, and the next pid may be taken.
module _ {k : ℕ} (i : ℕ) (t n : Table) (off : (j : ℕ) → i ≢ j → n.proc j ≡ t.proc j)
    (p : Pids k t) where
  off-pid : (j : ℕ) → i ≢ j → (n.proc j).pid ≡ (t.proc j).pid
  off-pid j ne = ap (λ (q : Proc). q.pid) (off j ne)

  off-use :
      (j : ℕ) (b : Bool) → i ≢ j → is_unused (n.proc j).state ≡ b → is_unused (t.proc j).state ≡ b
  off-use j b ne u = ap (λ (q : Proc). is_unused q.state) (sym (off j ne)) ∙ u

  -- The pid of any other entry is below the next one.
  off-below : (j : ℕ) → i ≢ j → (n.proc j).pid < t.nextpid
  off-below j ne = elim (Bool-cases (is_unused (t.proc j).state)) [
    | inl u ↦ omega (arith, off-pid j ne, p.free j u, p.fresh)
    | inr u ↦ omega (arith, off-pid j ne, (p.held j u).1)
  ]

  -- It is given up.
  pub Pids-frees :
      {m : ℕ}
      → t.nextpid ≤ n.nextpid
      → n.nextpid ≤ m
      → (n.proc i).pid ≡ 0
      → is_unused (n.proc i).state ≡ true
      → Pids m n
  Pids-frees more to gone unused = record {
    reached = to;
    fresh = omega (arith, more, p.fresh);
    free = λ j u. elim (ℕ_discrete i j) [
      | yes e ↦ subst (λ a. (n.proc a).pid ≡ 0) e gone
      | no ne ↦ off-pid j ne ∙ p.free j (off-use j true ne u)
    ];
    held = λ j u. elim (ℕ_discrete i j) [
      | yes e ↦ absurd (kept j u e)
      | no ne ↦
          let h = p.held j (off-use j false ne u) in
          (omega (arith, h.0, off-pid j ne), omega (arith, h.1, off-pid j ne, more))
    ];
    once = λ j l u e. elim (ℕ_discrete i j) [
      | yes same ↦ absurd (kept j u same)
      | no ne ↦ elim (ℕ_discrete i l) [
        | yes same ↦
            let zero_pid : (n.proc l).pid ≡ 0 = subst (λ a. (n.proc a).pid ≡ 0) same gone in
            absurd (omega (arith, (p.held j (off-use j false ne u)).0, off-pid j ne, e, zero_pid))
        | no other ↦ p.once j l (off-use j false ne u) (sym (off-pid j ne) ∙ e ∙ off-pid l other)
      ]
    ];
  }
    where
      kept : (j : ℕ) → is_unused (n.proc j).state ≡ false → i ≡ j → ⊥
      kept j u e =
          let f : is_unused (n.proc i).state ≡ false =
            subst (λ a. is_unused (n.proc a).state ≡ false) (sym e) u in
          ground (arith, unused, f)

  -- It gets the next pid.
  pub Pids-takes :
      n.nextpid ≡ suc t.nextpid
      → (n.proc i).pid ≡ t.nextpid
      → is_unused (n.proc i).state ≡ false
      → Pids (suc k) n
  Pids-takes more new busy = record {
    reached = omega (arith, more, p.reached);
    fresh = omega (arith, more);
    free = λ j u. elim (ℕ_discrete i j) [
      | yes e ↦
          let f : is_unused (n.proc j).state ≡ false =
            subst (λ a. is_unused (n.proc a).state ≡ false) e busy in
          absurd (ground (arith, u, f))
      | no ne ↦ off-pid j ne ∙ p.free j (off-use j true ne u)
    ];
    held = λ j u. elim (ℕ_discrete i j) [
      | yes e ↦
          let at : (n.proc j).pid ≡ t.nextpid = subst (λ a. (n.proc a).pid ≡ t.nextpid) e new in
          (omega (arith, at, p.fresh), omega (arith, at, more))
      | no ne ↦
          let h = p.held j (off-use j false ne u) in
          (omega (arith, h.0, off-pid j ne), omega (arith, h.1, off-pid j ne, more))
    ];
    once = λ j l u e. elim (ℕ_discrete i j) [
      | yes same ↦ elim (ℕ_discrete i l) [
        | yes also ↦ sym same ∙ also
        | no other ↦
            let at : (n.proc j).pid ≡ t.nextpid =
              subst (λ a. (n.proc a).pid ≡ t.nextpid) same new in
            absurd (omega (arith, at, e, off-below l other))
      ]
      | no ne ↦ elim (ℕ_discrete i l) [
        | yes also ↦
            let at : (n.proc l).pid ≡ t.nextpid =
              subst (λ a. (n.proc a).pid ≡ t.nextpid) also new in
            absurd (omega (arith, at, e, off-below j ne))
        | no other ↦ p.once j l (off-use j false ne u) (sym (off-pid j ne) ∙ e ∙ off-pid l other)
      ]
    ];
  }
