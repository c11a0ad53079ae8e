-- ===== src/Kernel/Log/Restart.antt =====
-- Recovery after a restart, which may itself be cut short.
use listlib_and_system_calls.Common.{
  ℕ, suc, ◌<◌, ◌≡◌, inl, inr, refl, sym, ap, ◌∙◌, arith, subst, update, update_self, update_ne,
  List, [], ◌∷◌, true,
}
use listlib_and_system_calls.Kernel.Log.{
  Block, LogHeader, Log, Machine, log_blocks, set_header, set_data, bwrite, read_head, write_head,
  load_blocks, store_blocks, recover_from_log, initlog, install_trans,
}
use listlib_and_system_calls.Kernel.Log.Images.{
  Home-ne, Recovers, Settled, Settled-Recovers, bwrite-off, bwrite-on, load_blocks_lem,
  store_blocks_lem,
}
use listlib_and_system_calls.Kernel.Log.Installs.{Installing, Installing-trans, power-cases}

-- The header of length 0 that ends a commit and a recovery.
abbrev pub erase : Machine → Machine
erase m = write_head (set_header (record m.log.lh { n = 0 }) m)

module _ (v : ℕ → Block) (l : Log) (spare : ℕ) (m : Machine)
    (s : Installing v l spare l.lh.n m) where
  abbrev empty_header : Block
  empty_header = store_blocks (record l.lh { n = 0 }) (update (m.cache l.start) 0 0)

  empty_header-0 : empty_header 0 ≡ 0
  empty_header-0 =
      (store_blocks_lem (record l.lh { n = 0 }) (update (m.cache l.start) 0 0)).0
      ∙ update_self (m.cache l.start) 0 0

  -- With the power still on the image is settled.
  erased-Settled :
      (k : ℕ) → m.power ≡ suc k → Settled l.start v (update m.disk l.start empty_header)
  erased-Settled k left = record {
    empty = ap (λ (b : Block). b 0) (update_self m.disk l.start empty_header) ∙ empty_header-0;
    home = λ b home. elim s.done [
      | inl gone ↦ absurd (omega arith)
      | inr todo ↦ elim (todo b home) [
        | inl there ↦
            update_ne m.disk l.start b empty_header
              (λ e. Home-ne l.start b 0 home (omega arith) (omega (arith, e)))
            ∙ there
        | inr (i, from, to, at) ↦ absurd (omega arith)
      ]
    ];
  }

  -- `erase` with the log spelt out.
  unfoldable erased : Log → Machine
  erased g = bwrite g.start (
      set_data g.start (store_blocks (record g.lh { n = 0 }) (update (m.cache g.start) 0 0))
        (record m { log = record g { lh = record g.lh { n = 0 } } }))

  erased_lem :
      Recovers l.start v (erased l).disk × (l.lh.n < spare → Settled l.start v (erased l).disk)
  unfolding erased
  erased_lem = elim (power-cases m.power) [
    | inl gone ↦
        rw (bwrite-off l.start (set_data l.start empty_header cleared) gone)
          (s.image, λ enough. absurd (omega (arith, s.power)))
    | inr (k, left) ↦ rw (bwrite-on l.start k (set_data l.start empty_header cleared) left) (
        rw (update_self m.cache l.start empty_header)
          (Settled-Recovers l.start v _ (erased-Settled k left), λ enough. erased-Settled k left))
  ]
    where
      cleared : Machine
      cleared = record m { log = record l { lh = record l.lh { n = 0 } } }

  pub erase_lem :
      Recovers l.start v (erase m).disk × (l.lh.n < spare → Settled l.start v (erase m).disk)
  unfolding write_head erased
  erase_lem =
      subst
        (λ g.
          Recovers l.start v (erased g).disk × (l.lh.n < spare → Settled l.start v (erased g).disk))
        (sym s.log) erased_lem

-- The machine after a restart: nothing in memory, power for `k` blocks.
abbrev pub boot : ℕ → (ℕ → Block) → Machine
boot k d = record {
  disk = d;
  cache = d;
  pins = λ b. 0;
  power = k;
  log = record {
    start = 0;
    outstanding = 0;
    committing = 0;
    lh = record { n = 0; block = λ i. 0 };
  };
}

-- The disk after a restart that had power for `k` blocks.
abbrev pub restart : ℕ → (ℕ → Block) → ℕ → ℕ → Block
restart start d k = (initlog start (boot k d)).disk

-- The disk after restarts that were cut short one after the other.
abbrev pub restarts : ℕ → (ℕ → Block) → List ℕ → ℕ → Block
restarts start d [] = d
restarts start d (k ∷ ks) = restarts start (restart start d k) ks

-- Recoveries that are cut short, and a last one with power for `k` blocks.
abbrev pub recovered : ℕ → (ℕ → Block) → List ℕ → ℕ → ℕ → Block
recovered start d ks k = restart start (restarts start d ks) k

module _ (start : ℕ) (v : ℕ → Block) (d : ℕ → Block) (k : ℕ) where
  abbrev on_disk : LogHeader
  on_disk = record { n = d start 0; block = λ i. 0 }

  abbrev loaded : LogHeader
  loaded = load_blocks (d start) on_disk

  abbrev booted : Machine
  booted = set_header loaded (record (boot k d) {
    log = record { start = start; outstanding = 0; committing = 0; lh = on_disk };
  })

  booted-Installing : Recovers start v d → Installing v booted.log k 0 booted
  booted-Installing s =
      let same = load_blocks_lem on_disk (d start) in
      record {
        log = refl;
        image = s;
        count = sym same.0;
        names = λ i inside. sym (same.1 i (omega (arith, same.0)));
        cached = λ i inside.
            s.slots i (omega (arith, same.0)) ∙ ap v (sym (same.1 i (omega (arith, same.0))));
        power = omega arith;
        done = inr λ b home. elim (s.rest b home) [
          | inl there ↦ inl there
          | inr (i, inside, at) ↦ inr (i, omega arith, omega (arith, same.0), same.1 i inside ∙ at)
        ];
      }

  pub restart_lem :
      Recovers start v d
      → Recovers start v (restart start d k)
        × (log_blocks < k → Settled start v (restart start d k))
  unfolding initlog recover_from_log read_head
  restart_lem s =
      let done =
        erase_lem v booted.log k (install_trans true booted)
          (Installing-trans v booted.log k booted true (booted-Installing s)) in
      let same = load_blocks_lem on_disk (d start) in
      (done.0, λ enough. done.1 (omega (arith, same.0, s.small)))

pub restarts-Recovers :
    (start : ℕ) (v d : ℕ → Block) (ks : List ℕ)
    → Recovers start v d
    → Recovers start v (restarts start d ks)
restarts-Recovers start v d [] s = s
restarts-Recovers start v d (k ∷ ks) s =
    restarts-Recovers start v (restart start d k) ks (restart_lem start v d k s).0

-- However often the recovery is cut short, one that has the power ends with the contents in place.
pub restarts-Settled :
    (start : ℕ) (v d : ℕ → Block) (ks : List ℕ) (k : ℕ)
    → log_blocks < k
    → Recovers start v d
    → Settled start v (recovered start d ks k)
restarts-Settled start v d ks k enough s =
    (restart_lem start v (restarts start d ks) k (restarts-Recovers start v d ks s)).1 enough
