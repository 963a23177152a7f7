-- ===== src/Root/Run.antt =====
-- src/root.c: the loop of `root_run`, and its fuel.
use gran.Prelude.{
  ℕ, zero, suc, ◌≡◌, ◌<◌, ◌≢◌, ◌↔◌, true, false, some, List, [], ◌∷◌, arith, refl, ap, sym, ◌∙◌,
  length, ◌==◌,
}
use gran.Prelude.Outcome.{Holds, bind-Holds, if-Holds, Holds-some, Holds-weaken}
use gran.Component.{Stat, ok, done, ebus, ebusy, emem, enomem, eexists, enosuch, esize, is_ok}
use gran.Vec.{VecOps}
use gran.Clock.{Clocked, ClockDomain}
use gran.Root.{Root, root_step, Progress, going, returned, exit_code, run_loop, root_run}

-- What the caller of `root_run` is told: the end of the simulation is a success, and any other answer but
-- `OK` is passed on.
pub data Reported : Stat → Stat → Type 0 where
  finished : Reported done ok
  failed : {r : Stat} → r ≢ ok → r ≢ done → Reported r r

reported_as : (r : Stat) → is_ok r ≡ false → Reported r (exit_code r)
reported_as ok h = cc
reported_as done h = finished
reported_as ebus h = failed (λ e. cc) (λ e. cc)
reported_as ebusy h = failed (λ e. cc) (λ e. cc)
reported_as emem h = failed (λ e. cc) (λ e. cc)
reported_as enomem h = failed (λ e. cc) (λ e. cc)
reported_as eexists h = failed (λ e. cc) (λ e. cc)
reported_as enosuch h = failed (λ e. cc) (λ e. cc)
reported_as esize h = failed (λ e. cc) (λ e. cc)

other_answer : (r : Stat) → r ≢ ok → r ≢ done → (is_ok r ≡ false) × (exit_code r ≡ r)
other_answer ok p q = absurd (p refl)
other_answer done p q = absurd (q refl)
other_answer ebus p q = (refl, refl)
other_answer ebusy p q = (refl, refl)
other_answer emem p q = (refl, refl)
other_answer enomem p q = (refl, refl)
other_answer eexists p q = (refl, refl)
other_answer enosuch p q = (refl, refl)
other_answer esize p q = (refl, refl)

reported-is_ok : {r result : Stat} → Reported r result → is_ok r ≡ false
reported-is_ok finished = refl
reported-is_ok {r} (failed p q) = (other_answer r p q).0

reported-exit_code : {r result : Stat} → Reported r result → exit_code r ≡ result
reported-exit_code finished = refl
reported-exit_code {r} (failed p q) = (other_answer r p q).1

only_ok : (r : Stat) → is_ok r ≡ true → r ≡ ok
only_ok ok h = refl
only_ok done h = cc
only_ok ebus h = cc
only_ok ebusy h = cc
only_ok emem h = cc
only_ok enomem h = cc
only_ok eexists h = cc
only_ok enosuch h = cc
only_ok esize h = cc

module _ (V : VecOps ℕ) (k : Clocked) where
  open k use {World}

  -- `n` steps of the loop in a row that answer `OK`.
  pub data Steps : ℕ → Root V → World → Root V → World → Type 0 where
    here : {root : Root V} {w : World} → Steps zero root w root w
    step :
        {n : ℕ} {root root' root'' : Root V} {w w' w'' : World}
        → root_step V k root w ≡ some (ok, root', w')
        → Steps n root' w' root'' w''
        → Steps (suc n) root w root'' w''

  positive : (ds : List (ClockDomain V)) → ds ≢ [] → (length ds == 0) ≡ false
  positive [] ne = absurd (ne refl)
  positive (d ∷ ds) ne = ground arith

  -- The run that a caller sees end: some steps that answer `OK`, fewer than the fuel, and then one that
  -- does not.
  pub record Ended (fuel : ℕ) (root : Root V) (w : World) (result : Stat) (last : Root V)
      (end : World) : Type 0 where
    pub n : ℕ
    pub before : Root V
    pub at : World
    pub answer : Stat
    pub in_fuel : n < fuel
    pub steps : Steps n root w before at
    pub ends : root_step V k before at ≡ some (answer, last, end)
    pub reported : Reported answer result

  run_loop-Steps :
      (fuel : ℕ) {n : ℕ} {root root' : Root V} {w w' : World} (ret result : Stat) (last : Root V)
      (end : World)
      → Steps n root w root' w'
      → root_step V k root' w' ≡ some (ret, last, end)
      → Reported ret result
      → n < fuel
      → run_loop V k fuel root w ≡ some (returned result last end)
  unfolding run_loop
  run_loop-Steps zero ret result last end s e stop h = absurd (omega arith)
  run_loop-Steps (suc fuel) ret result last end here e stop h =
      rw (e, reported-is_ok stop, reported-exit_code stop) refl
  run_loop-Steps (suc fuel) ret result last end (step one s) e stop h =
      rw one (run_loop-Steps fuel ret result last end s e stop (omega arith))

  -- If the loop returns, its run ended.
  WellEnded : ℕ → Root V → World → Progress V k → Type 0
  WellEnded fuel root w (going root' w') = Unit {0}
  WellEnded fuel root w (returned result last end) = Ended fuel root w result last end

  one_more :
      (fuel : ℕ) (root root' : Root V) (w w' : World) (p : Progress V k)
      → root_step V k root w ≡ some (ok, root', w')
      → WellEnded fuel root' w' p
      → WellEnded (suc fuel) root w p
  unfolding WellEnded
  one_more fuel root root' w w' (going _ _) one h = tt
  one_more fuel root root' w w' (returned result last end) one h = record {
    n = suc h.n;
    before = h.before;
    at = h.at;
    answer = h.answer;
    in_fuel = omega (arith, h.in_fuel);
    steps = step one h.steps;
    ends = h.ends;
    reported = h.reported;
  }

  run_loop-WellEnded :
      (fuel : ℕ) (root : Root V) (w : World)
      → Holds (WellEnded fuel root w) (run_loop V k fuel root w)
  unfolding run_loop WellEnded
  run_loop-WellEnded zero root w = tt
  run_loop-WellEnded (suc fuel) root w =
      bind-Holds (WellEnded (suc fuel) root w) (root_step V k root w) _ (λ (ret, root', w') one.
        if-Holds (WellEnded (suc fuel) root w) (is_ok ret) (run_loop V k fuel root' w') _
          (λ went.
            Holds-weaken (WellEnded fuel root' w') (WellEnded (suc fuel) root w)
              (run_loop V k fuel root' w')
              (λ p.
                one_more fuel root root' w w' p
                  (one ∙ ap (λ (r : Stat). some (r, root', w')) (only_ok ret went)))
              (run_loop-WellEnded fuel root' w'))
          (λ stop. record {
            n = 0;
            before = root;
            at = w;
            answer = ret;
            in_fuel = omega arith;
            steps = here;
            ends = one;
            reported = reported_as ret stop;
          }))

  loop_of_run :
      (fuel : ℕ) (root : Root V) (w : World)
      → root.domains ≢ []
      → root_run V k fuel root w ≡ run_loop V k fuel root w
  unfolding root_run
  loop_of_run fuel root w ne = rw (positive root.domains ne)

  -- `root_run` of a root with a domain returns exactly if its loop answers `OK` for fewer steps than the
  -- fuel and anything else at the next: right after that step, with the answer of the step, where
  -- `DONE` is reported as `OK` and every other answer as it is.
  pub root_run-Ended_iff :
      (fuel : ℕ) (root last : Root V) (w end : World) (result : Stat)
      → root.domains ≢ []
      → (root_run V k fuel root w ≡ some (returned result last end))
        ↔ Ended fuel root w result last end
  unfolding WellEnded
  root_run-Ended_iff fuel root last w end result ne =
      let same = loop_of_run fuel root w ne in
      (
        λ runs.
            Holds-some (WellEnded fuel root w) (run_loop V k fuel root w) (returned result last end)
              (run_loop-WellEnded fuel root w) (sym same ∙ runs),
        λ h.
            same ∙ run_loop-Steps fuel h.answer result last end h.steps h.ends h.reported h.in_fuel,
      )
