-- ===== src/Webasto/Laws/Waiting.antt =====
-- `wait` ends, given a clock that goes on and enough fuel.
use freaky_camper_arduino.Base.{
  ℕ, zero, suc, ◌+◌, ◌-◌, ◌*◌, ◌/◌, ◌%◌, ◌^◌, ◌≤◌, ◌<◌, ◌≡◌, refl, leb, if◌then◌else◌, Bool, true,
  false, not, ◌&&◌, ◌||◌, Bool-cases, inl, inr, List, ◌∷◌, arith,
}
use freaky_camper_arduino.Base.Int.{pos}
use freaky_camper_arduino.Board.{Env, Call, millis}
use freaky_camper_arduino.Machine.{
  Machine, done, ◌>>=◌, ◌>>◌, return, Returns, Returns-bind, Returns-mono, SystemState,
}
use freaky_camper_arduino.Webasto.{
  same_state, is_critical, measure_temp, serve_interrupts, interrupted, wait_loop, wait,
}
use freaky_camper_arduino.Webasto.Laws.Idle.{
  Idles, Idles-trans, IsClock, Reads, read_clock-Idles, serve_interrupts-Reads,
}

-- What `interrupted` answers; it changes nothing.
abbrev hit : Env → Bool → Bool → SystemState → Machine → Bool
hit env si true current m =
    is_critical (unfold measure_temp in elim (measure_temp env 3 m) [ done t _ ↦ t | _ ↦ pos 1 ])
    || si && not (same_state m.webasto.system_state current)
hit env si false current m = si && not (same_state m.webasto.system_state current)

interrupted-hit :
    (env : Env) (si ti : Bool) (current : SystemState) (m : Machine)
    → interrupted env si ti current m ≡ done (hit env si ti current m) m
unfolding interrupted
interrupted-hit env si true current m = refl
interrupted-hit env si false current m = refl

hit_flags :
    (env : Env) (si ti : Bool) (current : SystemState) (m : Machine)
    → hit env si ti current m ≡ true
    → (si || ti) ≡ true
hit_flags env true ti current m h = refl
hit_flags env false true current m h = refl
hit_flags env false false current m h = h

module _ (env : Env) (elapsed : List Call → ℕ) where
  -- With `true` one of the interrupts was asked for; with `false` the time has passed.
  abbrev pub Verdict : ℕ → Bool → Bool → ℕ → Bool → Machine → Type 0
  Verdict ms si ti from true m' = (si || ti) ≡ true
  Verdict ms si ti from false m' = from + 1000 * ms ≤ elapsed m'.trace

module _ (env : Env) (elapsed : List Call → ℕ) (clock : IsClock env elapsed) where
  Reads-elapsed :
      (m m' : Machine)
      → Reads m m'
      → (elapsed m.trace ≤ elapsed m'.trace) × (elapsed m'.trace ≤ elapsed m.trace + 1000000)
  Reads-elapsed m m' (_, inl e) = rw e (omega arith)
  Reads-elapsed m m' (_, inr e) = rw e (omega (arith, clock.ticks m.trace, clock.steps m.trace))

  -- What the clock shows at a trace, less what it showed at `from`, is the time between them.
  pub clock_diff :
      (t : List Call) (from start : ℕ)
      → start ≡ from / 1000 % 2 ^ 32
      → from ≤ elapsed t
      → elapsed t < from + 4000000000000
      → (env.clock t + 2 ^ 32 - start) % 2 ^ 32 ≡ elapsed t / 1000 - from / 1000
  clock_diff t from start e h k = rw (clock.reads t, e) (omega arith)

  -- The answer of the loop, in the machine `m'` where it ends.
  abbrev Ends : ℕ → Bool → Bool → ℕ → Machine → Bool → Machine → Type 0
  Ends ms si ti from m stop m' = Idles m m' × Verdict env elapsed ms si ti from stop m'

  module _ (ms : ℕ) (si ti : Bool) (current : SystemState) (from start : ℕ)
      (shown : start ≡ from / 1000 % 2 ^ 32) (short : ms < 2 ^ 31) where
    -- The rest of a round, after the reading of the clock.
    round-Ends :
        (fuel : ℕ) (m : Machine)
        → ((m' : Machine)
            → Reads (record m { trace = millis ∷ m.trace }) m'
            → Returns (Ends ms si ti from m') (wait_loop env ms si ti current start fuel m'))
        → Returns (Ends ms si ti from m) (
            (do
              serve_interrupts env
              stop ← interrupted env si ti current
              if stop then return true else wait_loop env ms si ti current start fuel)
              (record m { trace = millis ∷ m.trace }))
    unfolding interrupted
    round-Ends fuel m rest =
        Returns-bind (λ _ m'. Reads (record m { trace = millis ∷ m.trace }) m')
          (Ends ms si ti from m) (serve_interrupts env) _ (record m { trace = millis ∷ m.trace })
          (serve_interrupts-Reads env (record m { trace = millis ∷ m.trace }))
          λ _ m' r.
            rw (interrupted-hit env si ti current m')
              (elim (Bool-cases (hit env si ti current m')) [
                | inl h ↦
                    rw h (Idles-trans (read_clock-Idles m) r.0, hit_flags env si ti current m' h)
                | inr h ↦ rw h (
                    Returns-mono (Ends ms si ti from m') (Ends ms si ti from m) _ (rest m' r)
                      λ stop m'' e. (Idles-trans (Idles-trans (read_clock-Idles m) r.0) e.0, e.1))
              ])

    wait_loop-Ends :
        (fuel : ℕ) (m : Machine)
        → from ≤ elapsed m.trace
        → elapsed m.trace ≤ from + 1000 * ms + 2001000
        → from + 1000 * ms + 1000 < elapsed m.trace + fuel
        → 0 < fuel
        → Returns (Ends ms si ti from m) (wait_loop env ms si ti current start fuel m)
    unfolding wait_loop
    wait_loop-Ends zero m h k l left = absurd (omega arith)
    wait_loop-Ends (suc fuel) m h k l left =
        rw (clock_diff m.trace from start shown h (omega arith))
          (elim (Bool-cases (leb (elapsed m.trace / 1000 - from / 1000) ms)) [
            | inl more ↦ rw more (
                round-Ends fuel m λ m' r.
                  let t = Reads-elapsed (record m { trace = millis ∷ m.trace }) m' r in
                  let e : elapsed m.trace < from + 1000 * ms + 1000 = ground arith in
                  wait_loop-Ends fuel m' (omega (arith, clock.ticks m.trace))
                    (omega (arith, clock.steps m.trace)) (omega (arith, clock.ticks m.trace))
                    (omega (arith, clock.ticks m.trace)))
            | inr over ↦ rw over (
              read_clock-Idles m,
              (let e : from + 1000 * ms ≤ elapsed m.trace = ground arith in
                  omega (arith, clock.ticks m.trace)),
            )
          ])

  -- With a clock that goes on, a pause of less than 2^31 milliseconds and more fuel than 1000 polls for
  -- each of them and 1000, `wait` comes back: with `true` only if one of its two interrupts was asked
  -- for, and with `false` only once the time has passed. It leaves the level of every pin, the states
  -- of the burner's modules and the other modules' variables as they were, the count of attempts is
  -- not raised, and the system state changes only as presses of the on/off switch change it.
  pub wait-Ends :
      (ms : ℕ) (si ti : Bool) (m : Machine)
      → ms < 2 ^ 31
      → 1000 * ms + 1000 < env.fuel
      → Returns (Ends ms si ti (elapsed m.trace) m) (wait env ms si ti m)
  unfolding wait
  wait-Ends ms si ti m short enough =
      Returns-mono (Ends ms si ti (elapsed m.trace) (record m { trace = millis ∷ m.trace }))
        (Ends ms si ti (elapsed m.trace) m) _
        (wait_loop-Ends ms si ti m.webasto.system_state (elapsed m.trace) (env.clock m.trace)
          (clock.reads m.trace) short env.fuel (record m { trace = millis ∷ m.trace })
          (omega (arith, clock.ticks m.trace)) (omega (arith, clock.steps m.trace))
          (omega (arith, clock.ticks m.trace)) (omega arith))
        λ stop m' e. (Idles-trans (read_clock-Idles m) e.0, e.1)
