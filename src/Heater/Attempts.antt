-- ===== src/Heater/Attempts.antt =====
-- The burner's attempts while heat is asked for, with the burner as committed.
use freaky_camper_arduino.Base.{
  ℕ, zero, suc, ◌+◌, ◌≤◌, ◌<◌, ◌≡◌, refl, ◌∙◌, ap, sym, subst, inl, inr, ltb, if◌then◌else◌, Bool,
  true, false, Bool-cases, List, arith,
}
use freaky_camper_arduino.Board.{Env, Call, level}
use freaky_camper_arduino.Machine.{
  Machine, Heater, Webasto, heater_off, M, modify, for_range, system_stopping, Returns,
  Returns-bind, Returns-mono, Returns-first, get, skip, ◌>>=◌, ◌>>◌,
}
use freaky_camper_arduino.Webasto.{
  fuel_pump, stop_webasto, wait, is_webasto_on, start_webasto, attempt,
}
use freaky_camper_arduino.Webasto.Laws.Shipped.{shipped, shipped-wait}
use freaky_camper_arduino.Webasto.Laws.Idle.{IsClock}
use freaky_camper_arduino.Heater.{
  handle_heater, drive_fans, same_heater_state, switch_to_hot_air, switch_to_fresh_air,
}

-- After a call of `handle_heater`: the attempts are counted up to three, and then the burner is given up. The fuel
-- pump's pin and the heater's variables stay.
record IsTried (m m' : Machine) : Type 0 where
  counted : m'.webasto.starting_attempts ≡ (
      if ltb m.webasto.starting_attempts 3
      then m.webasto.starting_attempts + 1
      else m.webasto.starting_attempts)
  state :
      m'.webasto.system_state
      ≡ (if ltb m.webasto.starting_attempts 3 then m.webasto.system_state else system_stopping)
  same_fuel : level fuel_pump m'.trace ≡ level fuel_pump m.trace
  same_heater : m'.heater ≡ m.heater

-- After calls that have used the attempts up.
abbrev pub GivesUp : Machine → Machine → Type 0
GivesUp m m' =
    (m'.webasto.system_state ≡ system_stopping)
    × (3 ≤ m'.webasto.starting_attempts)
    × (level fuel_pump m'.trace ≡ level fuel_pump m.trace)
    × (m'.heater ≡ m.heater)

-- The choice of `handle_heater`.
abbrev turn : Env → Bool → M (Unit {0})
turn env need = if need then (do start_webasto env; switch_to_hot_air) else (do
  switch_to_fresh_air
  hot ← get λ m. m.water.use_hot_water
  if hot then skip else stop_webasto env)

-- What happens between two calls of `handle_heater` leaves the variables of the burner and of the
-- heater and the fuel pump's pin as they are.
pub record IsApart (m m' : Machine) : Type 0 where
  pub same_webasto : m'.webasto ≡ m.webasto
  pub same_heater : m'.heater ≡ m.heater
  pub same_fuel : level fuel_pump m'.trace ≡ level fuel_pump m.trace

module _ (env : Env) (elapsed : List Call → ℕ) (clock : IsClock env elapsed)
    (enough : 1 ≤ env.fuel) where
  drive_fans-IsTried :
      (m m' : Machine)
      → IsTried m m'
      → Returns (λ _ n. IsTried m n) (drive_fans (shipped env) heater_off m')
  unfolding drive_fans is_webasto_on level
  drive_fans-IsTried m m' s =
      elim (Bool-cases (same_heater_state m'.heater.asked_state heater_off)) [
        | inl e ↦ rw e s
        | inr e ↦ rw e (record {
          counted = s.counted;
          state = s.state;
          same_fuel = s.same_fuel;
          same_heater = s.same_heater;
        })
      ]

  start_webasto-IsTried :
      (m : Machine) → Returns (λ _ m'. IsTried m m') (start_webasto (shipped env) m)
  unfolding start_webasto attempt level
  start_webasto-IsTried m = elim (Bool-cases (ltb m.webasto.starting_attempts 3)) [
    | inl e ↦ rw e (
        Returns-first (λ _ m'. IsTried m m') (wait (shipped env) 15000 true true) _ _ true _
          (shipped-wait env elapsed clock enough 15000 true _ (omega arith))
          (record { counted = rw e refl; state = rw e refl; same_fuel = refl; same_heater = refl }))
    | inr e ↦
        rw e
          (record { counted = rw e refl; state = rw e refl; same_fuel = refl; same_heater = refl })
  ]

  handle_heater-IsTried :
      (m : Machine)
      → m.heater.need_heater_on ≡ true
      → m.heater.actual_state ≡ heater_off
      → Returns (λ _ m'. IsTried m m') (handle_heater (shipped env) m)
  unfolding handle_heater switch_to_hot_air switch_to_fresh_air
  handle_heater-IsTried m e d =
      Returns-bind (λ _ m'. IsTried m m') (λ _ m'. IsTried m m')
        (turn (shipped env) m.heater.need_heater_on)
        (λ _. do actual ← get λ m. m.heater.actual_state; drive_fans (shipped env) actual) m
        (subst (λ b. Returns (λ _ m'. IsTried m m') (turn (shipped env) b m)) (sym e)
          (Returns-bind (λ _ m'. IsTried m m') (λ _ m'. IsTried m m') (start_webasto (shipped env))
            (λ _. switch_to_hot_air) m (start_webasto-IsTried m) λ _ m' g. g))
        λ _ m' g.
          subst (λ a. Returns (λ _ n. IsTried m n) (drive_fans (shipped env) a m'))
            (sym (ap (λ (h : Heater). h.actual_state) g.same_heater ∙ d))
            (drive_fans-IsTried m m' g)

  module _ (between : ℕ → Machine → Machine)
      (apart : (i : ℕ) (m : Machine) → IsApart m (between i m)) where
    -- A call, and what comes before the next.
    turn_over : ℕ → M (Unit {0})
    turn_over i = do handle_heater (shipped env); modify (between i)

    turn_over-IsTried :
        (i : ℕ) (m : Machine)
        → m.heater.need_heater_on ≡ true
        → m.heater.actual_state ≡ heater_off
        → Returns (λ _ m'. IsTried m m') (turn_over i m)
    unfolding turn_over
    turn_over-IsTried i m e d =
        Returns-bind (λ _ m'. IsTried m m') (λ _ m'. IsTried m m') (handle_heater (shipped env)) _ m
          (handle_heater-IsTried m e d)
          λ _ m' g.
            let a = apart i m' in
            record {
              counted = ap (λ (w : Webasto). w.starting_attempts) a.same_webasto ∙ g.counted;
              state = ap (λ (w : Webasto). w.system_state) a.same_webasto ∙ g.state;
              same_fuel = a.same_fuel ∙ g.same_fuel;
              same_heater = a.same_heater ∙ g.same_heater;
            }

    turns :
        (n i : ℕ) (m : Machine)
        → 0 < n
        → 3 < n + m.webasto.starting_attempts
        → m.heater.need_heater_on ≡ true
        → m.heater.actual_state ≡ heater_off
        → Returns (λ _ m'. GivesUp m m') (for_range n i turn_over m)
    turns zero i m k l e d = absurd (omega (arith, k))
    turns (suc zero) i m k l e d =
        let gone : ltb m.webasto.starting_attempts 3 ≡ false = ground arith in
        Returns-bind (λ _ m'. IsTried m m') _ (turn_over i) _ m (turn_over-IsTried i m e d)
          λ _ m' g.
            (g.state ∙ rw gone refl, ground (arith, l, g.counted), g.same_fuel, g.same_heater)
    turns (suc (suc n)) i m k l e d =
        Returns-bind (λ _ m'. IsTried m m') _ (turn_over i) _ m (turn_over-IsTried i m e d)
          λ _ m' g.
            Returns-mono (λ _ n. GivesUp m' n) (λ _ n. GivesUp m n) _
              (turns (suc n) (suc i) m' (omega arith) (ground (arith, l, g.counted))
                (ap (λ (h : Heater). h.need_heater_on) g.same_heater ∙ e)
                (ap (λ (h : Heater). h.actual_state) g.same_heater ∙ d))
              λ _ m'' r. (r.0, r.1, r.2 ∙ g.same_fuel, r.3 ∙ g.same_heater)

-- With a clock that goes on, heat asked for and the heater in HEATER_OFF, calls of `handleHeater` that
-- would take the count of attempts past three give the burner as committed up, whatever happens between
-- them, if it leaves the variables of the burner and of the heater and the fuel pump's pin as they are:
-- each call comes back, the system is left in SYSTEM_STOPPING with at least three attempts counted, the
-- fuel pump's pin is as before, and so are the heater's variables, so that heat is still asked for.
pub handle_heater-GivesUp :
    (env : Env) (elapsed : List Call → ℕ) (n : ℕ) (between : ℕ → Machine → Machine) (m : Machine)
    → IsClock env elapsed
    → 1 ≤ env.fuel
    → ((i : ℕ) (m : Machine) → IsApart m (between i m))
    → 0 < n
    → 3 < n + m.webasto.starting_attempts
    → m.heater.need_heater_on ≡ true
    → m.heater.actual_state ≡ heater_off
    → Returns
        (λ _ m'. GivesUp m m')
        (for_range n 0 (λ i. do handle_heater (shipped env); modify (between i)) m)
unfolding turn_over
handle_heater-GivesUp env elapsed n between m clock enough apart k l e d =
    turns env elapsed clock enough between apart n 0 m k l e d
