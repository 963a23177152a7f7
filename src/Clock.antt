-- ===== src/Clock.antt =====
-- src/clock_domain.c and include/gran/clock_domain.h: the time of a clock domain, and one tick.
pub mod Time
pub mod Order
pub mod Tick
use gran.Prelude.{
  ℕ, zero, suc, ◌+◌, ◌-◌, ◌*◌, ◌/◌, ◌^◌, Bool, true, false, ◌&&◌, ◌||◌, Option, none, some, List,
  [], ◌∷◌, ltb, leb, ◌==◌, if◌then◌else◌, u64, ◌>>=◌,
}
use gran.Component.{Stat, ok, is_ok}
use gran.Vec.{VecOps}

pub record ClockTime : Type 0 where
  pub s : ℕ
  pub fs : ℕ

-- `SEC(1)`, in femtoseconds
abbrev pub sec : ℕ
sec = 1_000_000_000_000_000

-- The loop of `advance_clock` makes at most `2 ^ 64 / SEC(1)` rounds; `none` is fuel that ran out.
unfoldable pub carry : ℕ → ℕ → ℕ → Option ClockTime
carry zero s fs = none
carry (suc fuel) s fs = elim (leb sec fs) [
  | true ↦ carry fuel (u64 (s + 1)) (fs - sec)
  | false ↦ some (record { s = s; fs = fs })
]

abbrev pub carry_fuel : ℕ
carry_fuel = 2 ^ 64 / sec + 1

unfoldable pub advance_clock : ClockTime → ℕ → Option ClockTime
advance_clock time period = carry carry_fuel time.s (u64 (time.fs + period))

unfoldable pub eq_time : ClockTime → ClockTime → Bool
eq_time a b = a.s == b.s && a.fs == b.fs

unfoldable pub lt_time : ClockTime → ClockTime → Bool
lt_time a b = if a.s == b.s then ltb a.fs b.fs else ltb a.s b.s

unfoldable pub le_time : ClockTime → ClockTime → Bool
le_time a b = if a.s == b.s then a.fs == b.fs || ltb a.fs b.fs else ltb a.s b.s

unfoldable pub max_time : ClockTime → ClockTime → ClockTime
max_time a b = if lt_time a b then b else a

-- The components that a domain drives: their joint state, and the `clock` callback of each.
pub record Clocked : Type 1 where
  pub World : Type 0
  pub clock : ℕ → World → Option (Stat × World)

module _ (k : Clocked) where
  open k use {World, clock}

  -- `clocked_component_tick`, on the field `ret` that it writes.
  unfoldable pub clocked_component_tick : Stat → ℕ → World → Option (Stat × World)
  clocked_component_tick ret c w = do (r, w') ← clock c w; some (if is_ok r then ret else r, w')

  unfoldable pub tick_all : Stat → List ℕ → World → Option (Stat × World)
  tick_all ret [] w = some (ret, w)
  tick_all ret (c ∷ cs) w = do (ret', w') ← clocked_component_tick ret c w; tick_all ret' cs w'

module _ (V : VecOps ℕ) where
  pub record ClockDomain : Type 0 where
    pub components : V.Vec
    pub time : ClockTime
    pub period : ℕ
    pub ret : Stat

  unfoldable pub create_clock_domain : ℕ → ClockDomain
  create_clock_domain period = record {
    components = V.create 0;
    time = record { s = 0; fs = 0 };
    period = period;
    ret = ok;
  }

  unfoldable pub clock_domain_add : ClockDomain → ℕ → Stat × ClockDomain
  clock_domain_add clk component =
      (ok, record clk { components = V.append clk.components component })

  module _ (k : Clocked) where
    open k use {World}

    unfoldable pub clock_domain_tick : ClockDomain → World → Option (Stat × ClockDomain × World)
    clock_domain_tick clk w = do
      (ret, w') ← tick_all k clk.ret (V.items clk.components) w
      time ← advance_clock clk.time clk.period
      some (ret, record clk { time = time; ret = ret }, w')
