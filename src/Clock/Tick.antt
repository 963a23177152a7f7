-- ===== src/Clock/Tick.antt =====
-- src/clock_domain.c: one tick of a clock domain, and the answers of its components.
use gran.Prelude.{
  ℕ, ◌≡◌, ◌<◌, ◌^◌, some, List, [], ◌∷◌, refl, sym, ap, subst, if◌then◌else◌, >>=-eq-some, some_inj,
  Option-cases, inl, inr, none≢some, u64, ◌+◌, ◌/◌, ◌%◌,
}
use gran.Component.{Stat, is_ok}
use gran.Vec.{VecOps}
use gran.Clock.{
  sec, Clocked, ClockDomain, advance_clock, clocked_component_tick, tick_all, clock_domain_tick,
}
use gran.Clock.Time.{advance_clock-total}

-- The answer that a tick leaves in `ret`: the last one that is not `OK`, or else the old one.
abbrev pub last_failure : Stat → List Stat → Stat
last_failure ret [] = ret
last_failure ret (r ∷ rs) = last_failure (if is_ok r then ret else r) rs

module _ (k : Clocked) where
  open k use {World, clock}

  -- The components are clocked one after the other, with these answers.
  pub data Ticked : List ℕ → World → List Stat → World → Type 0 where
    stop : {w : World} → Ticked [] w [] w
    next :
        {c : ℕ} {cs : List ℕ} {w w' w'' : World} {r : Stat} {rs : List Stat}
        → clock c w ≡ some (r, w')
        → Ticked cs w' rs w''
        → Ticked (c ∷ cs) w (r ∷ rs) w''

  tick_all-cons :
      (c : ℕ) (cs : List ℕ) (ret : Stat) (w : World) {out : Stat × World}
      → tick_all k ret (c ∷ cs) w ≡ some out
      → (a : Stat × World) × (clock c w ≡ some a)
        × (tick_all k (if is_ok a.0 then ret else a.0) cs a.1 ≡ some out)
  unfolding tick_all clocked_component_tick
  tick_all-cons c cs ret w e = elim (Option-cases (clock c w)) [
    | inl stuck ↦ absurd (none≢some (rw stuck at e))
    | inr (a, call) ↦ (a, call, rw call at e)
  ]

  tick_all-Ticked :
      (cs : List ℕ) (ret : Stat) (w : World) {out : Stat × World}
      → tick_all k ret cs w ≡ some out
      → (rs : List Stat) × Ticked cs w rs out.1 × (out.0 ≡ last_failure ret rs)
  tick_all-Ticked [] ret w e =
      unfold tick_all in
      (
        [],
        subst (λ (p : Stat × World). Ticked [] w [] p.1) (some_inj e) stop,
        sym (ap (λ (p : Stat × World). p.0) (some_inj e)),
      )
  tick_all-Ticked (c ∷ cs) ret w e =
      let (a, call, rest) = tick_all-cons c cs ret w e in
      let (rs, t, last) = tick_all-Ticked cs (if is_ok a.0 then ret else a.0) a.1 rest in
      (a.0 ∷ rs, next call t, last)

  Ticked-tick_all :
      {cs : List ℕ} {w w' : World} {rs : List Stat} (ret : Stat)
      → Ticked cs w rs w'
      → tick_all k ret cs w ≡ some (last_failure ret rs, w')
  unfolding tick_all clocked_component_tick
  Ticked-tick_all ret stop = refl
  Ticked-tick_all ret (next {r} e t) = rw e (Ticked-tick_all (if is_ok r then ret else r) t)

  module _ (V : VecOps ℕ) where
    -- What a tick of `clk` from `w` may answer, with the domain and the world after it.
    pub record IsTick (clk : ClockDomain V) (w : World) (out : Stat × ClockDomain V × World)
        : Type 0 where
      pub answers : List Stat
      pub called : Ticked (V.items clk.components) w answers out.2
      pub answer : out.0 ≡ last_failure clk.ret answers
      pub kept : out.1.ret ≡ out.0
      pub later : advance_clock clk.time clk.period ≡ some out.1.time
      pub same_components : out.1.components ≡ clk.components
      pub same_period : out.1.period ≡ clk.period

    -- A tick that returns has clocked every component of the domain once, in the order in which they
    -- were added; it answers, and keeps, the last answer that was not `OK`, or else the answer
    -- that an earlier tick kept; and it advances the time by the period.
    pub clock_domain_tick-IsTick :
        (clk : ClockDomain V) (w : World) (out : Stat × ClockDomain V × World)
        → clock_domain_tick V k clk w ≡ some out
        → IsTick clk w out
    unfolding clock_domain_tick
    clock_domain_tick-IsTick clk w out e =
        let (p, ticks, rest) = >>=-eq-some (tick_all k clk.ret (V.items clk.components) w) _ e in
        let (time, later, end) = >>=-eq-some (advance_clock clk.time clk.period) _ rest in
        let (rs, called, answer) = tick_all-Ticked (V.items clk.components) clk.ret w ticks in
        subst (IsTick clk w) (some_inj end) (record {
          answers = rs;
          called = called;
          answer = answer;
          kept = refl;
          later = later;
          same_components = refl;
          same_period = refl;
        })

    -- A tick returns whenever the callbacks of the components do, and then answers the last of their
    -- answers that was not `OK`, or else the answer that an earlier tick kept.
    pub clock_domain_tick-total :
        (clk : ClockDomain V) {w w' : World} {rs : List Stat}
        → clk.time.s < 2 ^ 64
        → Ticked (V.items clk.components) w rs w'
        → (clk' : ClockDomain V) × (clock_domain_tick V k clk w
            ≡ some (last_failure clk.ret rs, clk', w'))
    unfolding clock_domain_tick
    clock_domain_tick-total clk {rs} h t = (
      record clk {
        time = record {
          s = u64 (clk.time.s + u64 (clk.time.fs + clk.period) / sec);
          fs = u64 (clk.time.fs + clk.period) % sec;
        };
        ret = last_failure clk.ret rs;
      },
      rw (Ticked-tick_all clk.ret t, advance_clock-total clk.time clk.period h),
    )
