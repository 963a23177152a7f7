-- ===== src/Tests/Times.antt =====
-- Time, clock domains and the simulation at concrete inputs.
use gran.Prelude.{
  ℕ, ◌≡◌, ◌+◌, ◌-◌, ◌≤◌, ◌<◌, ◌↔◌, max, true, some, [], ◌∷◌, arith, refl, get_elem?, some_inj,
  none≢some, zero, suc, ◌==◌, if◌then◌else◌,
}
use gran.Component.{Stat, ok, done}
use gran.Vec.{list_vec}
use gran.Clock.{
  tick_all, clocked_component_tick, carry, ClockTime, sec, advance_clock, eq_time, lt_time, le_time,
  max_time, Clocked, ClockDomain, clock_domain_tick,
}
use gran.Clock.Time.{IsNormal, total_fs, advance_clock-exact}
use gran.Clock.Order.{time_order}
use gran.Clock.Tick.{
  Ticked, stop, next, last_failure, IsTick, clock_domain_tick-IsTick, clock_domain_tick-total,
}
use gran.Root.{delayed_from, Root, Place, most_delayed_domain, root_step, root_run, returned}
use gran.Root.Delayed.{AllNormal, NoneBehind, most_delayed_domain-NoneBehind}
use gran.Root.Sync.{InStep, HasRoom, root_step-InStep}
use gran.Root.Run.{Steps, here, step, finished, Ended, root_run-Ended_iff}

abbrev late : ClockTime
late = record { s = 2; fs = sec - 1 }

abbrev early : ClockTime
early = record { s = 2; fs = 5 }

advance_clock-exact_example :
    (t' : ClockTime) × (advance_clock late 3 ≡ some t')
    × IsNormal t'
    × (total_fs t' ≡ total_fs late + 3)
advance_clock-exact_example = advance_clock-exact late 3 (omega arith) (omega arith) (omega arith)

time_order_example :
    ((lt_time early late ≡ true) ↔ (total_fs early < total_fs late))
    × ((le_time early late ≡ true) ↔ (total_fs early ≤ total_fs late))
    × ((eq_time early late ≡ true) ↔ (total_fs early ≡ total_fs late))
    × (total_fs (max_time early late) ≡ max (total_fs early) (total_fs late))
time_order_example = time_order early late (omega arith) (omega arith)

-- Components that count their clocks, and are done at the third.
abbrev counters : Clocked
counters = record { World = ℕ; clock = λ c w. some ((if w == 2 then done else ok), suc w) }

abbrev domain : ClockDomain (list_vec ℕ)
domain = record { components = 7 ∷ []; time = record { s = 0; fs = 0 }; period = 10; ret = ok }

ticked : Ticked counters (7 ∷ []) 0 (ok ∷ []) 1
ticked = next refl stop

abbrev one_domain : Root (list_vec ℕ)
one_domain = record { domains = domain ∷ [] }

most_delayed_domain-NoneBehind_example :
    (p : Place (list_vec ℕ)) × (most_delayed_domain (list_vec ℕ) one_domain ≡ some p)
    × (get_elem? one_domain.domains p.0 ≡ some p.1)
    × NoneBehind (list_vec ℕ) p.1.time one_domain.domains
most_delayed_domain-NoneBehind_example =
    most_delayed_domain-NoneBehind (list_vec ℕ) one_domain (λ e. cc) (omega arith, tt)

-- The tick of the domain.
domain_tick :
    (clk' : ClockDomain (list_vec ℕ)) × (clock_domain_tick (list_vec ℕ) counters domain 0
      ≡ some (last_failure ok (ok ∷ []), clk', 1))
domain_tick = clock_domain_tick-total counters (list_vec ℕ) domain (omega arith) ticked

clock_domain_tick-IsTick_example :
    IsTick counters (list_vec ℕ) domain 0 (last_failure ok (ok ∷ []), domain_tick.0, 1)
clock_domain_tick-IsTick_example =
    clock_domain_tick-IsTick counters (list_vec ℕ) domain 0
      (last_failure ok (ok ∷ []), domain_tick.0, 1) domain_tick.1

-- The only domain after some steps.
abbrev after : ℕ → Stat → Root (list_vec ℕ)
after fs answer = record {
  domains =
      record { components = 7 ∷ []; time = record { s = 0; fs = fs }; period = 10; ret = answer }
      ∷ [];
}

first_step : root_step (list_vec ℕ) counters one_domain 0 ≡ some (ok, after 10 ok, 1)
unfolding root_step most_delayed_domain delayed_from clock_domain_tick tick_all
    clocked_component_tick advance_clock carry
first_step = refl

second_step : root_step (list_vec ℕ) counters (after 10 ok) 1 ≡ some (ok, after 20 ok, 2)
unfolding root_step most_delayed_domain delayed_from clock_domain_tick tick_all
    clocked_component_tick advance_clock carry
second_step = refl

third_step : root_step (list_vec ℕ) counters (after 20 ok) 2 ≡ some (done, after 30 done, 3)
unfolding root_step most_delayed_domain delayed_from clock_domain_tick tick_all
    clocked_component_tick advance_clock carry
third_step = refl

two-Steps : Steps (list_vec ℕ) counters 2 one_domain 0 (after 20 ok) 2
two-Steps = step first_step (step second_step here)

root_run-Ended_iff_example :
    (root_run (list_vec ℕ) counters 3 one_domain 0 ≡ some (returned ok (after 30 done) 3))
    ↔ Ended (list_vec ℕ) counters 3 one_domain 0 ok (after 30 done) 3
root_run-Ended_iff_example =
    root_run-Ended_iff (list_vec ℕ) counters 3 one_domain (after 30 done) 0 3 ok (λ e. cc)

-- The run ends in its third step.
one_run-Ended : Ended (list_vec ℕ) counters 3 one_domain 0 ok (after 30 done) 3
one_run-Ended = record {
  n = 2;
  before = after 20 ok;
  at = 2;
  answer = done;
  in_fuel = omega arith;
  steps = two-Steps;
  ends = third_step;
  reported = finished;
}

three_steps : root_run (list_vec ℕ) counters 3 one_domain 0 ≡ some (returned ok (after 30 done) 3)
three_steps =
    (root_run-Ended_iff (list_vec ℕ) counters 3 one_domain (after 30 done) 0 3 ok (λ e. cc)).1
      one_run-Ended

room_of_one :
    (i : ℕ) (d : ClockDomain (list_vec ℕ))
    → get_elem? one_domain.domains i ≡ some d
    → HasRoom (list_vec ℕ) d
room_of_one zero d e = rw (← some_inj e) (omega arith, omega arith)
room_of_one (suc i) d e = absurd (none≢some e)

one-InStep : InStep (list_vec ℕ) one_domain.domains
one-InStep zero zero d c e f = rw (← some_inj e, ← some_inj f) (omega arith)
one-InStep zero (suc j) d c e f = absurd (none≢some f)
one-InStep (suc i) j d c e f = absurd (none≢some e)

root_step-InStep_example :
    InStep (list_vec ℕ) (after 10 ok).domains × AllNormal (list_vec ℕ) (after 10 ok).domains
root_step-InStep_example =
    root_step-InStep (list_vec ℕ) counters one_domain 0 (ok, after 10 ok, 1) (omega arith, tt)
      room_of_one one-InStep first_step
