-- ===== src/Webasto/Laws/Apart.antt =====
-- The burner's services keep every invariant of the frame receiver's variables and the watchdog.
use freaky_camper_arduino.Base.{
  ℕ, zero, suc, ◌+◌, ◌-◌, ◌%◌, ◌^◌, leb, if◌then◌else◌, Bool, true, false,
}
use freaky_camper_arduino.Base.Int.{ℤ}
use freaky_camper_arduino.Board.{Env, millis}
use freaky_camper_arduino.Machine.{
  View, M, ◌>>=◌, ◌>>◌, return, skip, ask, SystemState, remote_starting, Keeps, Over, flow_rules,
  board_rules,
}
use freaky_camper_arduino.Webasto.{
  press, turn_on_off_system, reset_all_modules, measure_temp, serve_interrupts, interrupted,
  wait_loop, wait, pulse_fuel_pump, check_threshold, check_flame, check_temperature, burn_step,
  combustion, ignite, pump_water, attempt, start_webasto, stop_webasto,
}

ruleset rules = (flow_rules, board_rules)

module _ {F : Type 0} {L : View → Type 0} where
  press-Keeps : (s : SystemState) → Keeps F (Over L) (press s)
  unfolding press
  press-Keeps remote_starting = search rules
  press-Keeps _ = search rules

  pub turn_on_off_system-Keeps : (env : Env) → Keeps F (Over L) (turn_on_off_system env)
  unfolding turn_on_off_system
  turn_on_off_system-Keeps env = search (rules, press-Keeps) depth 20

  reset_all_modules-Keeps : Keeps F (Over L) reset_all_modules
  unfolding reset_all_modules
  reset_all_modules-Keeps = search rules

  measure_temp-Keeps : (env : Env) (n : ℕ) → Keeps F (Over L) (measure_temp env n)
  unfolding measure_temp
  measure_temp-Keeps env n = search rules

  serve_interrupts-Keeps : (env : Env) → Keeps F (Over L) (serve_interrupts env)
  unfolding serve_interrupts
  serve_interrupts-Keeps env = search (rules, turn_on_off_system-Keeps)

  interrupted-Keeps :
      (env : Env) (a b : Bool) (s : SystemState) → Keeps F (Over L) (interrupted env a b s)
  unfolding interrupted
  interrupted-Keeps env a b s = search (rules)

  wait_loop-Keeps :
      (env : Env) (ms : ℕ) (a b : Bool) (s : SystemState) (start fuel : ℕ)
      → Keeps F (Over L) (wait_loop env ms a b s start fuel)
  unfolding wait_loop
  wait_loop-Keeps env ms a b s start zero = record { at = λ m h. tt }
  wait_loop-Keeps env ms a b s start (suc fuel) = record {
    at = (body _ (wait_loop-Keeps env ms a b s start fuel)).at;
  }
    where
      body :
          (rest : M Bool)
          → Keeps F (Over L) rest
          → Keeps F (Over L) (do
            now ← ask millis env.clock
            if leb ((now + 2 ^ 32 - start) % 2 ^ 32) ms
                then (do
                  serve_interrupts env
                  stop ← interrupted env a b s
                  if stop then return true else rest)
                else return false)
      body rest keep = search (rules, serve_interrupts-Keeps, interrupted-Keeps) depth 20

  wait-Keeps : (env : Env) (ms : ℕ) (a b : Bool) → Keeps F (Over L) (wait env ms a b)
  unfolding wait
  wait-Keeps env ms a b = search (rules, wait_loop-Keeps)

  pulse_fuel_pump-Keeps : (env : Env) (a b : Bool) → Keeps F (Over L) (pulse_fuel_pump env a b)
  unfolding pulse_fuel_pump
  pulse_fuel_pump-Keeps env a b = search (rules, wait-Keeps)

  check_threshold-Keeps : (t : ℤ) → Keeps F (Over L) (check_threshold t)
  unfolding check_threshold
  check_threshold-Keeps t = search rules depth 10

  check_flame-Keeps : (t : ℤ) → Keeps F (Over L) (check_flame t)
  unfolding check_flame
  check_flame-Keeps t = search rules

  check_temperature-Keeps : (env : Env) (i : ℕ) → Keeps F (Over L) (check_temperature env i)
  unfolding check_temperature
  check_temperature-Keeps env i = search (rules, check_threshold-Keeps, check_flame-Keeps)

  burn_step-Keeps : (env : Env) (i : ℕ) → Keeps F (Over L) (burn_step env i)
  unfolding burn_step
  burn_step-Keeps env i = search (rules, check_temperature-Keeps)

  combustion-Keeps : (env : Env) (n i : ℕ) → Keeps F (Over L) (combustion env n i)
  unfolding combustion
  combustion-Keeps env zero i = record { at = λ m h. record { holds = h.holds } }
  combustion-Keeps env (suc n) i = record { at = (body _ (combustion-Keeps env n (i + 1))).at }
    where
      body :
          (rest : M (Unit {0}))
          → Keeps F (Over L) rest
          → Keeps F (Over L) (do
            stop ← pulse_fuel_pump env true true
            if stop then skip else (do
              go_on ← burn_step env i
              if go_on
                  then (do stop' ← wait env 700 true true; if stop' then skip else rest)
                  else skip))
      body rest keep = search (rules, pulse_fuel_pump-Keeps, burn_step-Keeps, wait-Keeps) depth 20

  ignite-Keeps : (env : Env) → Keeps F (Over L) (ignite env)
  unfolding ignite
  ignite-Keeps env = search (rules, wait-Keeps, combustion-Keeps)

  pump_water-Keeps : (env : Env) → Keeps F (Over L) (pump_water env)
  unfolding pump_water
  pump_water-Keeps env = search (rules, wait-Keeps, ignite-Keeps)

  attempt-Keeps : (env : Env) → Keeps F (Over L) (attempt env)
  unfolding attempt
  attempt-Keeps env = search (rules, wait-Keeps, reset_all_modules-Keeps, pump_water-Keeps) depth 20

  pub start_webasto-Keeps : (env : Env) → Keeps F (Over L) (start_webasto env)
  unfolding start_webasto
  start_webasto-Keeps env = search (rules, attempt-Keeps)

  pub stop_webasto-Keeps : (env : Env) → Keeps F (Over L) (stop_webasto env)
  unfolding stop_webasto
  stop_webasto-Keeps env = search (rules, wait-Keeps, reset_all_modules-Keeps) depth 20
