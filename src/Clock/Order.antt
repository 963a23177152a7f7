-- ===== src/Clock/Order.antt =====
-- src/clock_domain.c: the comparisons of clock times.
use gran.Prelude.{◌≡◌, ◌≤◌, ◌<◌, ◌↔◌, true, arith, max}
use gran.Clock.{ClockTime, eq_time, lt_time, le_time, max_time}
use gran.Clock.Time.{IsNormal, total_fs}

-- `lt_time` of normal times is the order of their femtoseconds.
pub lt_time_iff :
    (a b : ClockTime) → IsNormal a → IsNormal b → (lt_time a b ≡ true) ↔ (total_fs a < total_fs b)
unfolding lt_time
lt_time_iff a b ha hb = ground arith

pub le_time_iff :
    (a b : ClockTime) → IsNormal a → IsNormal b → (le_time a b ≡ true) ↔ (total_fs a ≤ total_fs b)
unfolding le_time
le_time_iff a b ha hb = ground arith

pub eq_time_iff :
    (a b : ClockTime) → IsNormal a → IsNormal b → (eq_time a b ≡ true) ↔ (total_fs a ≡ total_fs b)
unfolding eq_time
eq_time_iff a b ha hb = ground arith

-- `lt_time`, `le_time`, `eq_time` and `max_time` of normal times are the comparisons and the maximum
-- of their numbers of femtoseconds.
pub time_order :
    (a b : ClockTime)
    → IsNormal a
    → IsNormal b
    → ((lt_time a b ≡ true) ↔ (total_fs a < total_fs b))
      × ((le_time a b ≡ true) ↔ (total_fs a ≤ total_fs b))
      × ((eq_time a b ≡ true) ↔ (total_fs a ≡ total_fs b))
      × (total_fs (max_time a b) ≡ max (total_fs a) (total_fs b))
unfolding max_time
time_order a b ha hb = (
  lt_time_iff a b ha hb,
  le_time_iff a b ha hb,
  eq_time_iff a b ha hb,
  ground (arith, (lt_time_iff a b ha hb).0, (lt_time_iff a b ha hb).1),
)
