-- ===== src/Webasto/Burner.antt =====
-- webasto.cpp: `poolWebasto`, `startWebasto`, `stopWebasto` and `isWebastoOn`.
use freaky_camper_arduino.Base.{
  ℕ, zero, suc, ◌+◌, ltb, leb, ◌==◌, if◌then◌else◌, Bool, true, false, ◌&&◌,
}
use freaky_camper_arduino.Base.Int.{ℤ, pos, ◌+ℤ◌, ◌-ℤ◌, leb_ℤ, ltb_ℤ}
use freaky_camper_arduino.Board.{Env}
use freaky_camper_arduino.Machine.{
  M, ◌>>=◌, ◌>>◌, return, skip, get, set_webasto, SystemState, on, off, remote_starting,
  remote_shutdown, system_stopping, system_shutdown,
}
use freaky_camper_arduino.Webasto.Modules.{
  set_state, start_air_fan, stop_air_fan, start_water_pump, start_glow_plug, stop_glow_plug,
  start_cabin_heater, stop_cabin_heater, reset_all_modules,
}
use freaky_camper_arduino.Webasto.Wait.{is_zero, is_critical, measure_temp, wait, pulse_fuel_pump}

abbrev pub max_start_attempts : ℕ
max_start_attempts = 3

-- The checks of the burning process answer whether it goes on; `false` is the source's `return`.
-- At the 60th second the temperature must have risen by 10 degrees.
unfoldable pub check_threshold : ℤ → M Bool
unfolding start_cabin_heater
check_threshold t = do
  initial ← get λ m. m.webasto.initial_temperature
  if ltb_ℤ t (initial +ℤ pos 40) then return false else (do
    set_webasto λ w. record w { previous_temperature = t }
    start_cabin_heater
    return true)

-- Above the 60th second.
unfoldable pub check_flame : ℤ → M Bool
check_flame t = do
  previous ← get λ m. m.webasto.previous_temperature
  if leb_ℤ previous t && leb_ℤ t (previous +ℤ pos 8)
      then (do set_webasto λ w. record w { previous_temperature = t }; return true)
      else if leb_ℤ t previous && leb_ℤ (previous -ℤ pos 8) t
      then return false
      else return true

-- From the 60th second on.
unfoldable pub check_temperature : Env → ℕ → M Bool
unfolding measure_temp
check_temperature env i = do
  t ← measure_temp env 3
  if is_zero t
      then (do set_state system_stopping; return false)
      else if i == 60
      then check_threshold t
      else check_flame t

-- What round `i` does between the pulse of fuel and the pause.
unfoldable pub burn_step : Env → ℕ → M Bool
unfolding start_air_fan stop_glow_plug
burn_step env i =
    if i == 15
    then (do start_air_fan; return true)
    else if i == 20
    then (do stop_glow_plug; return true)
    else if leb 60 i
    then check_temperature env i
    else return true

-- The combustion loop, with `n` rounds left and round number `i`, and the shutdown after it.
unfoldable pub combustion : Env → ℕ → ℕ → M (Unit {0})
combustion env zero i m = set_state system_stopping m
combustion env (suc n) i m =
    let rest = combustion env n (i + 1) in
    (do
      stop ← pulse_fuel_pump env true true
      if stop then skip else (do
        go_on ← burn_step env i
        if go_on then (do stop' ← wait env 700 true true; if stop' then skip else rest) else skip))
      m

-- The part of `startWebasto` from the glow plug on.
unfoldable pub ignite : Env → M (Unit {0})
unfolding start_glow_plug
ignite env = do
  set_state on
  start_glow_plug
  stop ← wait env 5000 true true
  if stop then skip else combustion env 1001 0

-- The part of an attempt after the air fan has blown the carbon out.
unfoldable pub pump_water : Env → M (Unit {0})
unfolding stop_air_fan start_water_pump
pump_water env = do
  stop_air_fan
  start_water_pump
  stop ← wait env 15000 true true
  if stop then skip else ignite env

-- One attempt.
unfoldable pub attempt : Env → M (Unit {0})
unfolding reset_all_modules start_air_fan
attempt env = do
  set_webasto λ w. record w { starting_attempts = w.starting_attempts + 1 }
  reset_all_modules
  start_air_fan
  stop ← wait env 15000 true true
  if stop then skip else pump_water env

unfoldable pub start_webasto : Env → M (Unit {0})
start_webasto env = do
  attempts ← get λ m. m.webasto.starting_attempts
  if ltb attempts max_start_attempts then attempt env else set_state system_stopping

unfoldable pub stop_webasto : Env → M (Unit {0})
unfolding stop_glow_plug stop_cabin_heater start_water_pump start_air_fan reset_all_modules
stop_webasto env = do
  stop_glow_plug
  stop_cabin_heater
  start_water_pump
  start_air_fan
  _ ← wait env 60000 false false
  set_state off
  reset_all_modules

-- `poolWebasto` in the states REMOTE_STARTING and ON; `stopped` is the state if it gives up.
unfoldable pub pool_running : Env → SystemState → M (Unit {0})
unfolding measure_temp
pool_running env stopped = do
  t ← measure_temp env 3
  set_webasto λ w. record w { initial_temperature = t }
  if is_critical t then set_state stopped else start_webasto env

unfoldable pub pool_state : Env → SystemState → M (Unit {0})
unfolding reset_all_modules
pool_state env remote_starting = pool_running env system_shutdown
pool_state env on = pool_running env system_stopping
pool_state env remote_shutdown = do reset_all_modules; set_state off
pool_state env system_shutdown = do reset_all_modules; set_state off
pool_state env _ = skip

unfoldable pub pool_webasto : Env → M (Unit {0})
pool_webasto env = do s ← get λ m. m.webasto.system_state; pool_state env s

unfoldable pub is_webasto_on : Bool
is_webasto_on = false
