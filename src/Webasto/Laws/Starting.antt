-- ===== src/Webasto/Laws/Starting.antt =====
-- `startWebasto` comes back, whatever the interrupts and the thermocouple do, with the module states
-- in step with their pins.
use freaky_camper_arduino.Base.{
  ℕ, zero, suc, ◌+◌, ◌≤◌, ◌<◌, ◌≡◌, refl, ltb, Bool, true, Bool-cases, inl, inr, List, ◌∷◌, arith,
}
use freaky_camper_arduino.Base.Int.{ℤ}
use freaky_camper_arduino.Board.{Env, Call, digital_write, level}
use freaky_camper_arduino.Machine.{Machine, Returns, Returns-if, Returns-mono}
use freaky_camper_arduino.Webasto.{
  fuel_pump, wait, pulse_fuel_pump, max_start_attempts, check_threshold, check_flame,
  check_temperature, burn_step, combustion, ignite, attempt, start_webasto, pump_water,
  first_reading, or_zero,
}
use freaky_camper_arduino.Webasto.Laws.Idle.{IsClock}
use freaky_camper_arduino.Webasto.Laws.Waiting.{wait-Ends}
use freaky_camper_arduino.Webasto.Laws.Driven.{IsDriven, IsWarm, IsGood, Idles-IsGood}

module _ (m₀ : Machine) where
  check_threshold-IsGood :
      (t : ℤ) (m : Machine) → IsGood m₀ m → Returns (λ _ m'. IsGood m₀ m') (check_threshold t m)
  unfolding check_threshold level
  check_threshold-IsGood t m g = ground arith

  check_flame-IsGood :
      (t : ℤ) (m : Machine) → IsGood m₀ m → Returns (λ _ m'. IsGood m₀ m') (check_flame t m)
  unfolding check_flame
  check_flame-IsGood t m g = ground arith

  check_temperature-IsGood :
      (env : Env) (i : ℕ) (m : Machine)
      → IsGood m₀ m
      → Returns (λ _ m'. IsGood m₀ m') (check_temperature env i m)
  unfolding check_temperature
  check_temperature-IsGood env i m g =
      checked (or_zero (first_reading 3 (env.thermocouple m.trace) 0)) refl
    where
      checked :
          (t : ℤ)
          → or_zero (first_reading 3 (env.thermocouple m.trace) 0) ≡ t
          → Returns (λ _ m'. IsGood m₀ m') (check_temperature env i m)
      checked t e = rw e (ground (arith, check_threshold-IsGood t m g, check_flame-IsGood t m g))

  burn_step-IsGood :
      (env : Env) (i : ℕ) (m : Machine)
      → IsGood m₀ m
      → Returns (λ _ m'. IsGood m₀ m') (burn_step env i m)
  unfolding burn_step level
  burn_step-IsGood env i m g = ground (arith, check_temperature-IsGood env i m g)

module _ (env : Env) (elapsed : List Call → ℕ) (clock : IsClock env elapsed)
    (enough : 60001000 < env.fuel) (m₀ : Machine) where
  wait-IsGood :
      (ms : ℕ) (si ti : Bool) (m : Machine)
      → ms ≤ 60000
      → IsGood m₀ m
      → Returns (λ _ m'. IsGood m₀ m') (wait env ms si ti m)
  wait-IsGood ms si ti m h g =
      Returns-mono _ (λ _ m'. IsGood m₀ m') (wait env ms si ti m)
        (wait-Ends env elapsed clock ms si ti m (omega arith) (omega arith))
        λ stop m' e. Idles-IsGood e.0 g

  pulse_fuel_pump-IsGood :
      (m : Machine) → IsGood m₀ m → Returns (λ _ m'. IsGood m₀ m') (pulse_fuel_pump env true true m)
  unfolding pulse_fuel_pump level
  pulse_fuel_pump-IsGood m g =
      Returns-if (IsGood m₀) (λ _ m'. IsGood m₀ m') (wait env 100 true true) _ _
        (record m { trace = digital_write fuel_pump true ∷ m.trace })
        (wait-IsGood 100 true true _ (omega arith) (ground arith)) (λ m' g'. g')
        (λ m' g'. ground arith)

  combustion-IsGood :
      (n i : ℕ) (m : Machine) → IsGood m₀ m → Returns (λ _ m'. IsGood m₀ m') (combustion env n i m)
  unfolding combustion
  combustion-IsGood zero i m g = ground arith
  combustion-IsGood (suc n) i m g =
      Returns-if (IsGood m₀) _ (pulse_fuel_pump env true true) _ _ m (pulse_fuel_pump-IsGood m g)
        (λ a ga. ga)
        λ a ga.
          Returns-if (IsGood m₀) _ (burn_step env i) _ _ a (burn_step-IsGood m₀ env i a ga)
            (λ b gb.
              Returns-if (IsGood m₀) _ (wait env 700 true true) _ _ b
                (wait-IsGood 700 true true b (omega arith) gb) (λ c gc. gc)
                (combustion-IsGood n (i + 1)))
            (λ b gb. gb)

  ignite-IsGood : (m : Machine) → IsGood m₀ m → Returns (λ _ m'. IsGood m₀ m') (ignite env m)
  unfolding ignite level
  ignite-IsGood m g =
      Returns-if (IsGood m₀) (λ _ m'. IsGood m₀ m') (wait env 5000 true true) _ _ _
        (wait-IsGood 5000 true true _ (omega arith) (ground arith)) (λ m' g'. g')
        (combustion-IsGood 1001 0)

  go_on-IsGood : (m : Machine) → IsGood m₀ m → Returns (λ _ m'. IsGood m₀ m') (pump_water env m)
  unfolding pump_water level
  go_on-IsGood m g =
      Returns-if (IsGood m₀) (λ _ m'. IsGood m₀ m') (wait env 15000 true true) _ _ _
        (wait-IsGood 15000 true true _ (omega arith) (ground arith)) (λ a ga. ga) ignite-IsGood

module _ (env : Env) (elapsed : List Call → ℕ) (clock : IsClock env elapsed)
    (enough : 60001000 < env.fuel) where
  attempt-IsGood :
      (m : Machine)
      → m.webasto.starting_attempts < max_start_attempts
      → Returns (λ _ m'. IsGood m m') (attempt env m)
  unfolding attempt level
  attempt-IsGood m h =
      Returns-if (IsGood m) (λ _ m'. IsGood m m') (wait env 15000 true true) _ _ _
        (wait-IsGood env elapsed clock enough m 15000 true true _ (omega arith) (ground arith))
        (λ a ga. ga) (go_on-IsGood env elapsed clock enough m)

  -- With a clock that goes on and enough fuel, `startWebasto` comes back from every state in which at
  -- most three attempts are counted, the module states agree with their pins and the cabin heater is
  -- off or follows a rise of ten degrees. Then these three hold again, whatever the thermometer shows
  -- and whenever the switch is pressed, and no other module's variables have changed.
  pub start_webasto-IsGood :
      (m : Machine)
      → m.webasto.starting_attempts ≤ max_start_attempts
      → IsDriven m
      → IsWarm m
      → Returns (λ _ m'. IsGood m m') (start_webasto env m)
  unfolding start_webasto
  start_webasto-IsGood m few d w =
      elim (Bool-cases (ltb m.webasto.starting_attempts max_start_attempts)) [
        | inl more ↦ rw more (attempt-IsGood m (ground arith))
        | inr over ↦ rw over (record { driven = ground arith; warm = w; few = few; alone = refl })
      ]
