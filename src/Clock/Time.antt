-- ===== src/Clock/Time.antt =====
-- src/clock_domain.c: `advance_clock`, its loop and its fuel.
use gran.Prelude.{
  ℕ, zero, suc, ◌≡◌, ◌+◌, ◌-◌, ◌*◌, ◌/◌, ◌%◌, ◌^◌, ◌≤◌, ◌<◌, some, arith, ap, ◌∙◌, leb, u64,
  Bool-cases, inl, inr,
}
use gran.Clock.{ClockTime, sec, carry, carry_fuel, advance_clock}

abbrev pub IsNormal : ClockTime → Type 0
IsNormal t = t.fs < sec

-- The time as one number of femtoseconds.
abbrev pub total_fs : ClockTime → ℕ
total_fs t = t.s * sec + t.fs

ClockTime-ext :
    {s s' fs fs' : ℕ}
    → s ≡ s'
    → fs ≡ fs'
    → ◌≡◌ {A = ClockTime} (record { s = s; fs = fs }) (record { s = s'; fs = fs' })
ClockTime-ext p q = λ i. record { s = p i; fs = q i }

carry_lem :
    (fuel s fs : ℕ)
    → fs < fuel * sec
    → s < 2 ^ 64
    → carry fuel s fs ≡ some (record { s = u64 (s + fs / sec); fs = fs % sec })
unfolding carry
carry_lem zero s fs h k = absurd (omega arith)
carry_lem (suc fuel) s fs h k = elim (Bool-cases (leb sec fs)) [
  | inl more ↦
      let big : sec ≤ fs = ground arith in
      rw (more, carry)
        (carry_lem fuel (u64 (s + 1)) (fs - sec) (omega arith) (omega arith)
          ∙ ap some (again s fs big))
  | inr stop ↦ let small : fs < sec = ground arith in rw (stop, carry) (ap some (last s fs small k))
]
  where
    again :
        (s fs : ℕ)
        → sec ≤ fs
        → ◌≡◌ {A = ClockTime}
            (record { s = u64 (u64 (s + 1) + (fs - sec) / sec); fs = (fs - sec) % sec })
            (record { s = u64 (s + fs / sec); fs = fs % sec })
    again s fs h = ClockTime-ext (omega arith) (omega arith)

    last :
        (s fs : ℕ)
        → fs < sec
        → s < 2 ^ 64
        → ◌≡◌ {A = ClockTime}
            (record { s = s; fs = fs })
            (record { s = u64 (s + fs / sec); fs = fs % sec })
    last s fs h k = ClockTime-ext (omega arith) (omega arith)

-- The loop of `advance_clock` ends whatever the time and the period are, and carries every whole
-- second over: the seconds wrap at 64 bits, the femtoseconds stay below one second. The sum of
-- the femtoseconds and the period wraps at 64 bits first.
pub advance_clock-total :
    (t : ClockTime) (period : ℕ)
    → t.s < 2 ^ 64
    → advance_clock t period
      ≡ some (record { s = u64 (t.s + u64 (t.fs + period) / sec); fs = u64 (t.fs + period) % sec })
unfolding advance_clock
advance_clock-total t period h = carry_lem carry_fuel t.s (u64 (t.fs + period)) (omega arith) h

-- From a normal time, with a period that leaves room for the sum and seconds that do not wrap, the
-- new time is normal and is exactly one period later.
pub advance_clock-exact :
    (t : ClockTime) (period : ℕ)
    → IsNormal t
    → period < 2 ^ 64 - sec
    → t.s + (t.fs + period) / sec < 2 ^ 64
    → (t' : ClockTime) × (advance_clock t period ≡ some t')
      × IsNormal t'
      × (total_fs t' ≡ total_fs t + period)
advance_clock-exact t period h p k = (
  record { s = u64 (t.s + u64 (t.fs + period) / sec); fs = u64 (t.fs + period) % sec },
  advance_clock-total t period (omega arith),
  omega arith,
  omega arith,
)
