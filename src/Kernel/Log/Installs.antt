-- ===== src/Kernel/Log/Installs.antt =====
-- `install_trans` keeps the image of the disk, wherever the machine stops, and settles it.
use native.Mathlib.Decide.{ℕ_discrete}
use listlib_and_system_calls.Common.{
  ℕ, zero, suc, ◌+◌, ◌≤◌, ◌<◌, ◌≡◌, ◌≢◌, ◌⊎◌, inl, inr, refl, sym, ◌∙◌, arith, subst, update, Bool,
  update_self, update_ne, for_loop-from_0, for_loop, ◌-◌, Bool-cases,
}
use listlib_and_system_calls.Kernel.Log.{
  Block, Log, Machine, bwrite, set_data, install_block, install_trans,
}
use listlib_and_system_calls.Kernel.Log.Images.{
  Home, Home-ne, Recovers, Recovers-install, bwrite-off, bwrite-on,
}

-- To split on a number and keep the equation.
pub power-cases : (n : ℕ) → (n ≡ 0) ⊎ ((k : ℕ) × (n ≡ suc k))
power-cases zero = inl refl
power-cases (suc k) = inr (k, refl)

-- In front of round `j`, when the log in memory is `l` and agrees with the header on disk: the image
-- recovers to `v`, and if the power lasts the blocks in front of `j` are in place. `spare` is a bound
-- on the power at the start.
pub record Installing (v : ℕ → Block) (l : Log) (spare j : ℕ) (m : Machine) : Type 0 where
  pub log : m.log ≡ l
  pub image : Recovers l.start v m.disk
  pub count : m.disk l.start 0 ≡ l.lh.n
  pub names : (i : ℕ) → i < l.lh.n → m.disk l.start (i + 1) ≡ l.lh.block i
  pub cached : (i : ℕ) → i < l.lh.n → m.cache (l.start + i + 1) ≡ v (l.lh.block i)
  pub power : spare ≤ m.power + j
  pub done :
      (m.power ≡ 0)
      ⊎ ((b : ℕ)
          → Home l.start b
          → (m.disk b ≡ v b) ⊎ ((i : ℕ) × (j ≤ i) × (i < l.lh.n) × (l.lh.block i ≡ b)))

module _ (v : ℕ → Block) (l : Log) (spare j : ℕ) (m : Machine) where
  Installing-pins :
      (pins : ℕ → ℕ) → Installing v l spare j m → Installing v l spare j (record m { pins = pins })
  Installing-pins pins s = record {
    log = s.log;
    image = s.image;
    count = s.count;
    names = s.names;
    cached = s.cached;
    power = s.power;
    done = s.done;
  }

  module _ (s : Installing v l spare j m) (here : j < l.lh.n) where
    dbuf-Home : Home l.start (l.lh.block j)
    dbuf-Home = subst (Home l.start) (s.names j here) (s.image.homes j (omega (arith, s.count)))

    dbuf-ne : (i : ℕ) → i < l.lh.n → l.lh.block j ≢ l.start + i + 1
    dbuf-ne i inside e =
        Home-ne l.start (l.lh.block j) (i + 1) dbuf-Home (omega (arith, s.count, s.image.small))
          (omega (arith, e))

    start-ne : l.lh.block j ≢ l.start
    start-ne e = Home-ne l.start (l.lh.block j) 0 dbuf-Home (omega arith) (omega (arith, e))

    -- The round, when the power has gone and when it has not.
    off : m.power ≡ 0 → Installing v l spare (j + 1) (set_data (l.lh.block j) (v (l.lh.block j)) m)
    off none_left = record {
      log = s.log;
      image = s.image;
      count = s.count;
      names = s.names;
      cached = λ i inside.
          update_ne m.cache (l.lh.block j) (l.start + i + 1) (v (l.lh.block j)) (dbuf-ne i inside)
          ∙ s.cached i inside;
      power = omega (arith, s.power);
      done = inl none_left;
    }

    on :
        (k : ℕ)
        → m.power ≡ suc k
        → Installing v l spare (j + 1) record {
          disk = update m.disk (l.lh.block j) (v (l.lh.block j));
          cache = update m.cache (l.lh.block j) (v (l.lh.block j));
          pins = m.pins;
          power = k;
          log = m.log;
        }
    on k left =
        let header : update m.disk (l.lh.block j) (v (l.lh.block j)) l.start ≡ m.disk l.start =
          update_ne m.disk (l.lh.block j) l.start (v (l.lh.block j)) start-ne in
        record {
          log = s.log;
          image =
              Recovers-install l.start v m.disk j s.image (omega (arith, s.count)) (l.lh.block j)
                (s.names j here);
          count = rw header s.count;
          names = rw header s.names;
          cached = λ i inside.
              update_ne m.cache (l.lh.block j) (l.start + i + 1) (v (l.lh.block j))
                (dbuf-ne i inside)
              ∙ s.cached i inside;
          power = omega (arith, s.power);
          done = inr λ b home. elim (ℕ_discrete (l.lh.block j) b) [
            | yes e ↦ inl (
                subst (λ a. update m.disk (l.lh.block j) (v (l.lh.block j)) a ≡ v a) e
                  (update_self m.disk (l.lh.block j) (v (l.lh.block j))))
            | no ne ↦ elim s.done [
              | inl gone ↦ absurd (omega arith)
              | inr todo ↦ elim (todo b home) [
                | inl old ↦ inl (update_ne m.disk (l.lh.block j) b (v (l.lh.block j)) ne ∙ old)
                | inr (i, from, to, at) ↦ elim (ℕ_discrete j i) [
                  | yes e ↦ absurd (ne (subst (λ a. l.lh.block a ≡ b) (sym e) at))
                  | no later ↦ inr (i, omega (arith, later), to, at)
                ]
              ]
            ]
          ];
        }

    -- Whatever the power.
    Installing-write :
        Installing v l spare
          (j + 1)
          (bwrite (l.lh.block j) (set_data (l.lh.block j) (m.cache (l.start + j + 1)) m))
    Installing-write = rw (s.cached j here) elim (power-cases m.power) [
      | inl none_left ↦
          rw (bwrite-off (l.lh.block j) (set_data (l.lh.block j) (v (l.lh.block j)) m) none_left)
            (off none_left)
      | inr (k, left) ↦
          rw
            (
              bwrite-on (l.lh.block j) k (set_data (l.lh.block j) (v (l.lh.block j)) m) left,
              update_self m.cache (l.lh.block j) (v (l.lh.block j)),
            )
            (on k left)
    ]

pub Installing-block :
    (v : ℕ → Block) (l : Log) (spare j : ℕ) (m : Machine) (recovering : Bool)
    → j < l.lh.n
    → Installing v l spare j m
    → Installing v l spare (j + 1) (install_block recovering j m)
unfolding install_block
Installing-block v l spare j m recovering here s =
    let round : (g : Log) → Machine =
      λ g. bwrite (g.lh.block j) (set_data (g.lh.block j) (m.cache (g.start + j + 1)) m) in
    let copied : Installing v l spare (j + 1) (round m.log) =
      subst (λ g. Installing v l spare (j + 1) (round g)) (sym s.log)
        (Installing-write v l spare j m s here) in
    let freed =
      Installing-pins v l spare (j + 1) (round m.log)
        (update (round m.log).pins (m.log.lh.block j) ((round m.log).pins (m.log.lh.block j) - 1))
        copied in
    elim (Bool-cases recovering) [ inl e ↦ rw e copied | inr e ↦ rw e freed ]

pub Installing-trans :
    (v : ℕ → Block) (l : Log) (spare : ℕ) (m : Machine) (recovering : Bool)
    → Installing v l spare 0 m
    → Installing v l spare l.lh.n (install_trans recovering m)
unfolding install_trans
Installing-trans v l spare m recovering s =
    subst
      (λ (g : Log). Installing v l spare l.lh.n (for_loop g.lh.n 0 (install_block recovering) m))
      (sym s.log)
      (for_loop-from_0 (Installing v l spare) l.lh.n (install_block recovering) m
        (λ j t to. Installing-block v l spare j t recovering to) s)
