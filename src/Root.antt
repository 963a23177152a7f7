-- ===== src/Root.antt =====
-- src/root.c: the simulation loop, which ticks the clock domain that is furthest behind.
pub mod Delayed
pub mod Sync
pub mod Run
use gran.Prelude.{
  ℕ, zero, suc, Bool, true, false, Option, none, some, List, [], ◌∷◌, ◌++◌, ◌==◌, if◌then◌else◌,
  ◌>>=◌, length, set,
}
use gran.Component.{Stat, ok, done, esize, is_ok}
use gran.Vec.{VecOps}
use gran.Clock.{Clocked, ClockDomain, lt_time, clock_domain_tick}

abbrev pub max_domains : ℕ
max_domains = 512

-- What `root_run` makes of the answer that ended its loop.
abbrev pub exit_code : Stat → Stat
exit_code done = ok
exit_code r = r

module _ (V : VecOps ℕ) where
  -- `domains[0..num_domains)`
  pub record Root : Type 0 where
    pub domains : List (ClockDomain V)

  unfoldable pub create_root : Root
  create_root = record { domains = [] }

  unfoldable pub root_add_clock : Root → ClockDomain V → Stat × Root
  root_add_clock root clk =
      if length root.domains == max_domains
      then (esize, root)
      else (ok, record { domains = root.domains ++ clk ∷ [] })

  -- A clock domain, and its place in the array.
  abbrev pub Place : Type 0
  Place = ℕ × ClockDomain V

  -- One round of the loop of `most_delayed_domain`, at the domain `cur` in place `i`.
  unfoldable pub earlier : Place → ℕ → ClockDomain V → Place
  earlier (j, min) i cur = if lt_time cur.time min.time then (i, cur) else (j, min)

  unfoldable pub delayed_from : Place → ℕ → List (ClockDomain V) → Place
  delayed_from min i [] = min
  delayed_from min i (cur ∷ ds) = delayed_from (earlier min i cur) (suc i) ds

  -- Without a domain the time of NULL would be asked for.
  unfoldable pub most_delayed_domain : Root → Option Place
  most_delayed_domain root = elim root.domains [
    | [] ↦ none
    | d ∷ ds ↦ some (delayed_from (0, d) 1 ds)
  ]

  module _ (k : Clocked) where
    open k use {World}

    -- `clock_domain_tick(most_delayed_domain(root))`
    unfoldable pub root_step : Root → World → Option (Stat × Root × World)
    root_step root w = do
      (i, clk) ← most_delayed_domain root
      (ret, clk', w') ← clock_domain_tick V k clk w
      some (ret, record { domains = set root.domains i clk' }, w')

    -- How far a run got: it is still going when the fuel is spent, or it has returned.
    pub data Progress : Type 0 where
      going : Root → World → Progress
      returned : Stat → Root → World → Progress

    -- The `while` of `root_run`. It need not end, so it takes fuel.
    unfoldable pub run_loop : ℕ → Root → World → Option Progress
    run_loop zero root w = some (going root w)
    run_loop (suc fuel) root w = do
      (ret, root', w') ← root_step root w
      let rest = run_loop fuel root' w'
      if is_ok ret then rest else some (returned (exit_code ret) root' w')

    unfoldable pub root_run : ℕ → Root → World → Option Progress
    root_run fuel root w =
        if length root.domains == 0 then some (returned ok root w) else run_loop fuel root w
