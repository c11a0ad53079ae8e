-- ===== src/Kernel/Proc/Forks.antt =====
-- `allocproc` and `kfork`: who gets an entry, and what a child inherits.
use listlib_and_system_calls.Common.{
  if◌then◌else◌, ◌==◌, Option, ◌+◌, ◌^◌, fun_ext, ◌%◌, Option, ◌<◌, ◌+◌, ℕ, suc, ◌≡◌, ◌≢◌, ◌⊎◌, inl,
  inr, refl, ◌∙◌, ap, arith, true, false, none, some, update, update_self, update_ne, for_loop,
  for_loop-from_0, find_from, Bool-cases, Option-cases,
}
use listlib_and_system_calls.Kernel.Proc.{
  runnable, runnable, nproc, nofile, Proc, Table, Memory, is_unused, set_proc, found_proc,
  allocproc, allocpid, freeproc,
}
use listlib_and_system_calls.Kernel.Proc.Calls.{
  fork_child, dup_file, fill_child, kfork, child_frame,
}
use listlib_and_system_calls.Kernel.Proc.Pids.{Pids, Pids-frees, Pids-takes}

-- `found_proc` touches its entry only, and gives it a new pid or leaves it unused.
module _ (mem : Memory) (i : ℕ) (t : Table) where
  found_proc-off : (j : ℕ) → i ≢ j → (found_proc mem i t).1.proc j ≡ t.proc j
  unfolding found_proc freeproc allocpid
  found_proc-off j ne = elim (Bool-cases mem.has_page) [
    | inl page ↦ elim (Option-cases mem.root) [
      | inl no_root ↦ rw (page, no_root) (simp (update_ne, ne))
      | inr (root, e) ↦ rw (page, e) (simp (update_ne, ne))
    ]
    | inr no_page ↦ rw no_page (simp (update_ne, ne))
  ]

  pub found_proc-nextpid : (found_proc mem i t).1.nextpid ≡ (t.nextpid + 1) % 2 ^ 32
  unfolding found_proc freeproc allocpid
  found_proc-nextpid = elim (Bool-cases mem.has_page) [
    | inl page ↦ elim (Option-cases mem.root) [
      | inl no_root ↦ rw (page, no_root) refl
      | inr (root, e) ↦ rw (page, e) refl
    ]
    | inr no_page ↦ rw no_page refl
  ]

  -- Which of the two.
  pub found_proc-cases :
      (((found_proc mem i t).0 ≡ none)
        × (((found_proc mem i t).1.proc i).pid ≡ 0)
        × (is_unused ((found_proc mem i t).1.proc i).state ≡ true))
      ⊎ (((found_proc mem i t).0 ≡ some i)
          × (((found_proc mem i t).1.proc i).pid ≡ t.nextpid)
          × (is_unused ((found_proc mem i t).1.proc i).state ≡ false)
          × (((found_proc mem i t).1.proc i).killed ≡ (t.proc i).killed))
  unfolding found_proc freeproc allocpid
  found_proc-cases = elim (Bool-cases mem.has_page) [
    | inl page ↦ elim (Option-cases mem.root) [
      | inl no_root ↦ inl (
        rw (page, no_root),
        rw (page, no_root) (simp (update_self)),
        rw (page, no_root) (simp (update_self)),
      )
      | inr (root, e) ↦ inr (
        rw (page, e),
        rw (page, e) (simp (update_self)),
        rw (page, e) (simp (update_self)),
        rw (page, e) (simp (update_self)),
      )
    ]
    | inr no_page ↦
        inl (rw no_page, rw no_page (simp (update_self)), rw no_page (simp (update_self)))
  ]

  pub found_proc-Pids : {k : ℕ} → suc k < 2 ^ 31 → Pids k t → Pids (suc k) (found_proc mem i t).1
  found_proc-Pids small p = elim found_proc-cases [
    | inl (_, gone, unused) ↦
        Pids-frees i t (found_proc mem i t).1 found_proc-off p
          (omega (arith, found_proc-nextpid, small, p.reached))
          (omega (arith, found_proc-nextpid, small, p.reached)) gone unused
    | inr (_, new, busy, _) ↦
        Pids-takes i t (found_proc mem i t).1 found_proc-off p
          (omega (arith, found_proc-nextpid, small, p.reached)) new busy
  ]

-- What the loop over the open files keeps.
record Dups (me np : ℕ) (t n : Table) : Type 0 where
  nextpid : n.nextpid ≡ t.nextpid
  others : (a : ℕ) → np ≢ a → n.proc a ≡ t.proc a
  child : n.proc np ≡ record (t.proc np) { ofile = (n.proc np).ofile }

dup_file-Dups : (me np fd : ℕ) (t n : Table) → Dups me np t n → Dups me np t (dup_file me np fd n)
unfolding dup_file
dup_file-Dups me np fd t n d = elim (Option-cases ((n.proc me).ofile fd)) [
  | inl closed ↦ rw (dup_file, closed) d
  | inr (f, e) ↦
      rw (dup_file, e)
        record {
          nextpid = d.nextpid;
          others = λ a ne. update_ne n.proc np a _ ne ∙ d.others a ne;
          child =
              update_self n.proc np _
              ∙ ap (λ (q : Proc). record q { ofile = update (n.proc np).ofile fd (some f) }) d.child
              ∙ rw (
                  update_self n.proc np
                    (record (n.proc np) { ofile = update (n.proc np).ofile fd (some f) }));
        }
]

module _ (me np : ℕ) (t : Table) (apart : np ≢ me) where
  abbrev started : Table
  started =
      set_proc np
        (record (t.proc np) { sz = (t.proc me).sz; trapframe = child_frame (t.proc me).trapframe })
        t

  abbrev duped : Table
  duped = for_loop nofile 0 (dup_file me np) started

  duped-Dups : Dups me np started duped
  duped-Dups =
      for_loop-from_0 (λ j n. Dups me np started n) nofile (dup_file me np) started
        (λ j n to d. dup_file-Dups me np j started n d)
        record { nextpid = refl; others = λ a ne. refl; child = refl }

  pub fill_child-others : (a : ℕ) → np ≢ a → (fill_child me np t).proc a ≡ t.proc a
  unfolding fill_child
  fill_child-others a ne =
      let d = duped-Dups in simp (update_ne, ne) (d.others a ne ∙ update_ne t.proc np a _ ne)

  pub fill_child-nextpid : (fill_child me np t).nextpid ≡ t.nextpid
  unfolding fill_child
  fill_child-nextpid = let d = duped-Dups in d.nextpid

  -- The child, field by field.
  pub fill_child-child :
      let c = (fill_child me np t).proc np in
      (c.pid ≡ (t.proc np).pid)
      × (c.state ≡ runnable)
      × (c.parent ≡ some me)
      × (c.sz ≡ (t.proc me).sz)
      × (c.trapframe ≡ child_frame (t.proc me).trapframe)
      × (c.cwd ≡ (t.proc me).cwd)
      × (c.trace_mask ≡ (t.proc me).trace_mask)
      × (c.killed ≡ (t.proc np).killed)
  unfolding fill_child
  fill_child-child =
      let d = duped-Dups in
      let parent : duped.proc me ≡ t.proc me = d.others me apart ∙ update_ne t.proc np me _ apart in
      let at = update_self t.proc np (record (t.proc np) {
        sz = (t.proc me).sz;
        trapframe = child_frame (t.proc me).trapframe;
      }) in
      simp (update_self, update_ne, apart)
        (
          ap (λ (q : Proc). q.pid) d.child ∙ ap (λ (q : Proc). q.pid) at,
          refl,
          refl,
          ap (λ (q : Proc). q.sz) d.child ∙ ap (λ (q : Proc). q.sz) at,
          ap (λ (q : Proc). q.trapframe) d.child ∙ ap (λ (q : Proc). q.trapframe) at,
          ap (λ (q : Proc). q.cwd) parent,
          ap (λ (q : Proc). q.trace_mask) parent,
          ap (λ (q : Proc). q.killed) d.child ∙ ap (λ (q : Proc). q.killed) at,
        )

-- The memory is there.
abbrev pub enough_memory : ℕ → Memory
enough_memory root = record { has_page = true; root = some root; copied = true }

found_proc-enough :
    (root i : ℕ) (t : Table)
    → ((found_proc (enough_memory root) i t).0 ≡ some i)
      × (((found_proc (enough_memory root) i t).1.proc i).pid ≡ t.nextpid)
      × (((found_proc (enough_memory root) i t).1.proc i).killed ≡ (t.proc i).killed)
unfolding found_proc allocpid
found_proc-enough root i t = (refl, simp (update_self), simp (update_self))

pub allocproc-none :
    (mem : Memory) (t : Table)
    → find_from (λ i. is_unused (t.proc i).state) nproc 0 ≡ none
    → allocproc mem t ≡ (none, t)
unfolding allocproc
allocproc-none mem t e = rw (allocproc, e)

pub allocproc-found :
    (mem : Memory) (i : ℕ) (t : Table)
    → find_from (λ i. is_unused (t.proc i).state) nproc 0 ≡ some i
    → allocproc mem t ≡ found_proc mem i t
unfolding allocproc
allocproc-found mem i t e = rw (allocproc, e)

kfork-found :
    (me root i : ℕ) (t : Table)
    → find_from (λ i. is_unused (t.proc i).state) nproc 0 ≡ some i
    → let t1 = (found_proc (enough_memory root) i t).1 in
      kfork me (enough_memory root) t ≡ (some ((fill_child me i t1).proc i).pid, fill_child me i t1)
unfolding kfork fork_child
kfork-found me root i t e =
    let a = allocproc-found (enough_memory root) i t e in
    rw (kfork, a, (found_proc-enough root i t).0, a)

-- The registers of the caller with 0 in the first, a0.
abbrev pub child_registers : Option (ℕ → ℕ) → Option (ℕ → ℕ)
child_registers none = none
child_registers (some regs) = some (λ r. if r == 0 then 0 else regs r)

child_frame_lem : (frame : Option (ℕ → ℕ)) → child_frame frame ≡ child_registers frame
unfolding child_frame update
child_frame_lem none = refl
child_frame_lem (some regs) = ap some (fun_ext λ r. ground arith)

-- With enough memory and a first unused entry `i` that is not the caller's, `kfork` returns the next pid, and the child at `i` has this
-- pid, is runnable, has the caller as its parent, its size, its registers with 0 in a0, its directory and its trace mask; its
-- killed flag is what stood in the entry. No other entry changes.
pub kfork_lem :
    (me root i a : ℕ) (t : Table)
    → find_from (λ i. is_unused (t.proc i).state) nproc 0 ≡ some i
    → i ≢ me
    → i ≢ a
    → let r = kfork me (enough_memory root) t in
      let c = r.1.proc i in
      (r.0 ≡ some t.nextpid)
      × (c.pid ≡ t.nextpid)
      × (c.state ≡ runnable)
      × (c.parent ≡ some me)
      × (c.sz ≡ (t.proc me).sz)
      × (c.trapframe ≡ child_registers (t.proc me).trapframe)
      × (c.cwd ≡ (t.proc me).cwd)
      × (c.trace_mask ≡ (t.proc me).trace_mask)
      × (c.killed ≡ (t.proc i).killed)
      × (r.1.proc a ≡ t.proc a)
kfork_lem me root i a t e apart other =
    let t1 = (found_proc (enough_memory root) i t).1 in
    let f = found_proc-enough root i t in
    let (pid, state, parent, sz, frame, cwd, mask, killed) = fill_child-child me i t1 apart in
    let old = found_proc-off (enough_memory root) i t me apart in
    rw (kfork-found me root i t e) (
      ap some (pid ∙ f.1),
      pid ∙ f.1,
      state,
      parent,
      sz ∙ ap (λ (q : Proc). q.sz) old,
      frame ∙ child_frame_lem _ ∙ ap (λ (q : Proc). child_registers q.trapframe) old,
      cwd ∙ ap (λ (q : Proc). q.cwd) old,
      mask ∙ ap (λ (q : Proc). q.trace_mask) old,
      killed ∙ f.2,
      fill_child-others me i t1 apart a other ∙ found_proc-off (enough_memory root) i t a other,
    )
