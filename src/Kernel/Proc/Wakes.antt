-- ===== src/Kernel/Proc/Wakes.antt =====
-- `wakeup` and `kkill`: who runs again.
use native.Mathlib.Decide.{ℕ_discrete}
use listlib_and_system_calls.Common.{
  ltb→lt, ==-refl, ne→==, ℕ, ◌<◌, ◌≡◌, ◌≢◌, ◌⊎◌, inl, inr, refl, ◌∙◌, ap, arith, true, false, none,
  some, ltb, ◌==◌, ◌&&◌, not, if◌then◌else◌, update_self, update_ne, find_from, find_from-cases,
  for_loop-each, ==→eq, Bool-cases, lt→ltb,
}
use listlib_and_system_calls.Kernel.Proc.{
  no_chan, on_proc, on_addr, kill_proc, nproc, runnable, sleeping, Chan, Proc, Table, is_sleeping,
  same_chan, wake, wakeup, kkill, sleep,
}

-- `wakeup` makes runnable exactly the other processes that sleep on the channel, and changes nothing else of any process.
pub wakeup_lem :
    (me a : ℕ) (chan : Chan) (t : Table)
    → (wakeup me chan t).proc a ≡ (
        if ltb a nproc
          && (not (a == me) && (is_sleeping (t.proc a).state && same_chan (t.proc a).chan chan))
        then record (t.proc a) { state = runnable }
        else t.proc a)
unfolding wakeup wake
wakeup_lem me a chan t =
    for_loop-each nproc (wake me chan) t.proc a
    ∙ elim (Bool-cases (ltb a nproc)) [ inl within ↦ rw within | inr off ↦ rw off ]

same_chan_refl : (chan : Chan) → same_chan chan chan ≡ true
unfolding same_chan
same_chan_refl no_chan = refl
same_chan_refl (on_proc i) = ==-refl i
same_chan_refl (on_addr a) = ==-refl a

-- A process of the table that goes to sleep on a channel is made runnable by the next `wakeup` of the channel
-- that another process calls.
pub sleep-wakeup :
    (me a : ℕ) (chan : Chan) (t : Table)
    → a < nproc
    → a ≢ me
    → ((wakeup me chan (sleep a chan t)).proc a).state ≡ runnable
unfolding sleep
sleep-wakeup me a chan t here other =
    ap (λ (q : Proc). q.state) (wakeup_lem me a chan (sleep a chan t))
    ∙ rw (
      update_self t.proc a (record (t.proc a) { chan = chan; state = sleeping }),
      lt→ltb a 64 here,
      ne→== a me other,
      same_chan_refl chan,
    )

pub kill_proc_lem :
    (i : ℕ) (t : Table)
    → (((kill_proc i t).proc i).killed ≡ 1)
      × (is_sleeping ((kill_proc i t).proc i).state ≡ false)
      × ((a : ℕ) → i ≢ a → (kill_proc i t).proc a ≡ t.proc a)
unfolding kill_proc
kill_proc_lem i t =
    let at = update_self t.proc i (record (t.proc i) { killed = 1 }) in
    rw at elim (Bool-cases (is_sleeping (t.proc i).state)) [
      | inl asleep ↦ rw asleep (
        simp (update_self),
        simp (update_self),
        λ a ne. update_ne _ i a _ ne ∙ update_ne _ i a _ ne,
      )
      | inr awake ↦
          rw awake (simp (update_self), simp (update_self, awake), λ a ne. update_ne _ i a _ ne)
    ]

pub kkill-some :
    (pid i : ℕ) (t : Table)
    → find_from (λ i. (t.proc i).pid == pid) nproc 0 ≡ some i
    → kkill pid t ≡ (some 0, kill_proc i t)
unfolding kkill
kkill-some pid i t e = rw (kkill, e)

-- `kkill` returns -1 and changes nothing when no process of the table has the pid; else it returns 0, the first entry with the pid is
-- killed and does not sleep, and no other entry changes.
pub kkill_lem :
    (pid a : ℕ) (t : Table)
    → ((kkill pid t ≡ (none, t)) × ((ltb a nproc && ((t.proc a).pid == pid)) ≡ false))
      ⊎ ((i : ℕ) × ((kkill pid t).0 ≡ some 0)
          × ((t.proc i).pid ≡ pid)
          × (((kkill pid t).1.proc i).killed ≡ 1)
          × (is_sleeping ((kkill pid t).1.proc i).state ≡ false)
          × ((i ≡ a) ⊎ ((kkill pid t).1.proc a ≡ t.proc a)))
unfolding kkill
kkill_lem pid a t = elim (find_from-cases (λ i. (t.proc i).pid == pid) nproc 0) [
  | inr (e, all) ↦ inl (
    rw (kkill, e),
    elim (Bool-cases (ltb a nproc)) [
      | inl within ↦ rw within (all a (omega arith) (ltb→lt a 64 within))
      | inr off ↦ rw off
    ],
  )
  | inl (i, e, from, to, match, before) ↦
      let (killed, awake, others) = kill_proc_lem i t in
      let found = kkill-some pid i t e in
      inr (
        i,
        rw found,
        ==→eq (t.proc i).pid pid match,
        rw found killed,
        rw found awake,
        elim (ℕ_discrete i a) [ yes same ↦ inl same | no ne ↦ inr (rw found (others a ne)) ],
      )
]
