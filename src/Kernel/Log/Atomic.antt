-- ===== src/Kernel/Log/Atomic.antt =====
-- `commit` is atomic: wherever the machine stops, recovery gives the old contents or the new ones.
use listlib_and_system_calls.Common.{
  ℕ, suc, ◌+◌, ◌<◌, ◌≡◌, ◌⊎◌, inl, inr, ◌*◌, refl, sym, ap, ◌∙◌, arith, subst, update, false,
  update_self, update_ne, for_loop-from_0, List, Bool-cases, ◌==◌, ltb, ◌||◌, if◌then◌else◌,
  fun_ext, ltb→lt, ==→eq,
}
use listlib_and_system_calls.Kernel.Log.{
  Block, Log, Machine, log_blocks, bwrite, set_data, write_log, write_head, store_blocks,
  install_block, install_trans, commit, set_header,
}
use listlib_and_system_calls.Kernel.Log.Images.{
  Home, Home-ne, Recovers, Settled, Settled-Recovers, bwrite-off, bwrite-on, store_blocks_lem,
}
use listlib_and_system_calls.Kernel.Log.Installs.{Installing, Installing-trans, power-cases}
use listlib_and_system_calls.Kernel.Log.Restart.{erase, erase_lem, recovered, restarts-Settled}
use listlib_and_system_calls.Kernel.Log.Commits.{IsReady, Writing, Writing-log}

-- The power has gone, and `d` is on disk.
record Stopped (d : ℕ → Block) (m : Machine) : Type 0 where
  power : m.power ≡ 0
  disk : m.disk ≡ d

Stopped-write :
    (d : ℕ → Block) (b : ℕ) (v : Block) (m : Machine)
    → Stopped d m
    → Stopped d (bwrite b (set_data b v m))
Stopped-write d b v m s =
    rw (bwrite-off b (set_data b v m) s.power) record { power = s.power; disk = s.disk }

Stopped-trans : (d : ℕ → Block) (m : Machine) → Stopped d m → Stopped d (install_trans false m)
unfolding install_trans install_block
Stopped-trans d m s =
    for_loop-from_0 (λ j t. Stopped d t) m.log.lh.n (install_block false) m
      (λ j t to h.
        let copied = Stopped-write d (t.log.lh.block j) (t.cache (t.log.start + j + 1)) t h in
        record { power = copied.power; disk = copied.disk })
      s

Stopped-erase : (d : ℕ → Block) (m : Machine) → Stopped d m → Stopped d (erase m)
unfolding write_head
Stopped-erase d m s =
    Stopped-write d m.log.start _ (set_header (record m.log.lh { n = 0 }) m)
      record { power = s.power; disk = s.disk }

-- The disk as the file system sees it: the blocks of the log are blank.
unfoldable pub outside : ℕ → (ℕ → Block) → ℕ → Block
outside start d b = if ltb b start || ltb (start + log_blocks) b then d b else λ i. 0

outside-eq :
    (start : ℕ) (d v : ℕ → Block)
    → ((b : ℕ) → Home start b → d b ≡ v b)
    → outside start d ≡ outside start v
unfolding outside
outside-eq start d v same = fun_ext λ b. elim (Bool-cases (ltb b start)) [
  | inl low ↦ rw low (same b (inl (ltb→lt b start low)))
  | inr at ↦ elim (Bool-cases (ltb (start + 30) b)) [
    | inl high ↦ rw (at, high) (same b (inr (ltb→lt (start + 30) b high)))
    | inr within ↦ rw (at, within)
  ]
]

module _ (m : Machine) (ready : IsReady m) where
  abbrev logged : Machine
  logged = write_log m

  abbrev s : Writing m ready m.log.lh.n logged
  s = Writing-log m ready

  old_Settled : Settled m.log.start m.disk logged.disk
  old_Settled = record { empty = ap (λ (b : Block). b 0) s.header ∙ ready.empty; home = s.home }

  abbrev header : Block
  header = store_blocks m.log.lh (update (logged.cache m.log.start) 0 m.log.lh.n)

  header-n : header 0 ≡ m.log.lh.n
  header-n =
      (store_blocks_lem m.log.lh (update (logged.cache m.log.start) 0 m.log.lh.n)).0
      ∙ update_self (logged.cache m.log.start) 0 m.log.lh.n

  header-block : (i : ℕ) → i < m.log.lh.n → header (i + 1) ≡ m.log.lh.block i
  header-block = (store_blocks_lem m.log.lh (update (logged.cache m.log.start) 0 m.log.lh.n)).1

  -- The header reaches the disk.
  module _ (k : ℕ) (left : logged.power ≡ suc k) where
    written :
        (i : ℕ) → i < m.log.lh.n → logged.disk (m.log.start + i + 1) ≡ m.cache (m.log.lh.block i)
    written = elim s.slots [ inl gone ↦ absurd (omega arith) | inr all ↦ all ]

    abbrev headed : Machine
    headed = record {
      disk = update logged.disk m.log.start header;
      cache = update logged.cache m.log.start header;
      pins = logged.pins;
      power = k;
      log = logged.log;
    }

    headed-Installing : Installing m.cache m.log k 0 headed
    headed-Installing =
        let at = update_self logged.disk m.log.start header in
        let off : (b : ℕ) → Home m.log.start b → headed.disk b ≡ logged.disk b = λ b home.
          update_ne logged.disk m.log.start b header
            (λ e. Home-ne m.log.start b 0 home (omega arith) (omega (arith, e))) in
        record {
          log = s.log;
          image = record {
            small = rw at (omega (arith, header-n, ready.small));
            homes = rw at λ i inside.
                subst (Home m.log.start) (sym (header-block i (omega (arith, header-n))))
                  (ready.homes i (omega (arith, header-n)));
            slots = rw at λ i inside.
                update_ne logged.disk m.log.start (m.log.start + i + 1) header
                  (λ e. absurd (omega (arith, e)))
                ∙ written i (omega (arith, header-n))
                ∙ ap m.cache (sym (header-block i (omega (arith, header-n))));
            rest = rw at λ b home. elim (ready.clean b home) [
              | inl clean ↦ inl (off b home ∙ s.home b home ∙ clean)
              | inr (i, inside, e) ↦ inr (i, omega (arith, header-n), header-block i inside ∙ e)
            ];
          };
          count = rw at header-n;
          names = rw at header-block;
          cached = λ i inside.
              update_ne logged.cache m.log.start (m.log.start + i + 1) header
                (λ e. absurd (omega (arith, e)))
              ∙ s.cached i inside;
          power = omega arith;
          done = inr λ b home. elim (ready.clean b home) [
            | inl clean ↦ inl (off b home ∙ s.home b home ∙ clean)
            | inr (i, inside, e) ↦ inr (i, omega arith, inside, e)
          ];
        }

  -- The second half of `commit`.
  abbrev second : Machine → Machine
  second t = erase (install_trans false t)

  Outcome : (ℕ → Block) → Type 0
  Outcome d =
      (Recovers m.log.start m.disk d ⊎ Recovers m.log.start m.cache d)
      × (2 * log_blocks + 1 < m.power → Settled m.log.start m.cache d)

  stopped-Outcome : logged.power ≡ 0 → (d : ℕ → Block) → d ≡ logged.disk → Outcome d
  unfolding Outcome
  stopped-Outcome gone d e = (
    inl (rw e (Settled-Recovers m.log.start m.disk logged.disk old_Settled)),
    λ enough. absurd (omega (arith, s.power, gone, ready.small)),
  )

  -- `write_head` with the log spelt out.
  abbrev headed_by : Log → Machine
  headed_by g =
      bwrite g.start
        (set_data g.start (store_blocks g.lh (update (logged.cache g.start) 0 g.lh.n)) logged)

  on-Outcome : (k : ℕ) (left : logged.power ≡ suc k) → Outcome (second (headed k left)).disk
  unfolding Outcome
  on-Outcome k left =
      let ended =
        erase_lem m.cache m.log k (install_trans false (headed k left))
          (Installing-trans m.cache m.log k (headed k left) false (headed-Installing k left)) in
      (inr ended.0, λ enough. ended.1 (omega (arith, s.power, left, ready.small)))

  headed-Outcome : Outcome (second (headed_by m.log)).disk
  headed-Outcome = elim (power-cases logged.power) [
    | inl gone ↦
        let stopped =
          Stopped-write logged.disk m.log.start header logged
            record { power = gone; disk = refl } in
        stopped-Outcome gone (second (headed_by m.log)).disk
          (Stopped-erase logged.disk (install_trans false (headed_by m.log))
            (Stopped-trans logged.disk (headed_by m.log) stopped)).disk
    | inr (k, left) ↦
        let on : headed_by m.log ≡ headed k left =
          bwrite-on m.log.start k (set_data m.log.start header logged) left
          ∙ rw (update_self logged.cache m.log.start header) in
        subst (λ t. Outcome (second t).disk) (sym on) (on-Outcome k left)
  ]

  commit-Outcome : Outcome (commit m).disk
  unfolding Outcome commit write_head
  commit-Outcome = elim (Bool-cases (m.log.lh.n == 0)) [
    | inl none_listed ↦
        let empty = ==→eq m.log.lh.n 0 none_listed in
        rw none_listed (
          inl (
              Settled-Recovers m.log.start m.disk m.disk
                record { empty = ready.empty; home = λ b home. refl }),
          λ enough. record {
            empty = ready.empty;
            home = λ b home. elim (ready.clean b home) [
              | inl clean ↦ clean
              | inr (i, inside, e) ↦ absurd (omega (arith, empty))
            ];
          },
        )
    | inr some_listed ↦
        rw some_listed (subst (λ g. Outcome (second (headed_by g)).disk) (sym s.log) headed-Outcome)
  ]

module _ (m : Machine) (ks : List ℕ) (k : ℕ) (ready : IsReady m) (enough : log_blocks < k) where
  settled :
      (v : ℕ → Block)
      → Recovers m.log.start v (commit m).disk
      → outside m.log.start (recovered m.log.start (commit m).disk ks k) ≡ outside m.log.start v
  settled v image =
      outside-eq m.log.start _ v
        (restarts-Settled m.log.start v (commit m).disk ks k enough image).home

  -- With an empty log on disk and the blocks that differ from the disk listed in the header, the contents
  -- outside of the log when `commit` stops at any point, any number of recoveries are cut short, and one
  -- recovery has the power for 31 blocks: those from before the commit, or those of the cache.
  pub commit_atomic :
      (outside m.log.start (recovered m.log.start (commit m).disk ks k)
        ≡ outside m.log.start m.disk)
      ⊎ (outside m.log.start (recovered m.log.start (commit m).disk ks k)
          ≡ outside m.log.start m.cache)
  unfolding Outcome
  commit_atomic = elim (commit-Outcome m ready).0 [
    | inl old ↦ inl (settled m.disk old)
    | inr new ↦ inr (settled m.cache new)
  ]

  -- When moreover `commit` has the power for its writes, 62 blocks, then behind it the log on disk is empty,
  -- the contents outside of the log are those of the cache, and they still are after recoveries.
  pub commit_durable :
      2 * log_blocks + 1 < m.power
      → ((commit m).disk m.log.start 0 ≡ 0)
        × (outside m.log.start (commit m).disk ≡ outside m.log.start m.cache)
        × (outside m.log.start (recovered m.log.start (commit m).disk ks k)
            ≡ outside m.log.start m.cache)
  unfolding Outcome
  commit_durable powered =
      let done = (commit-Outcome m ready).1 powered in
      (
        done.empty,
        outside-eq m.log.start (commit m).disk m.cache done.home,
        settled m.cache (Settled-Recovers m.log.start m.cache (commit m).disk done),
      )
