-- ===== src/Manager/Apart.antt =====
-- The start and the service of the timer keep every invariant over the view, if an access outside an
-- array is allowed for, and for the service if a tick of the watchdog does.
use freaky_camper_arduino.Base.{ℕ}
use freaky_camper_arduino.Board.{Env}
use freaky_camper_arduino.Machine.{
  Machine, View, ◌>>=◌, get, modify, store, Keeps, Keeps-any_call, Blind, Over, flow_rules,
  board_rules, Keeps-store_current, Keeps-store_tension,
}
use freaky_camper_arduino.Sensors.{
  pool_current_sensor, pool_tension_sensor, pool_current_sensors, pool_tension_sensors,
}
use freaky_camper_arduino.Heater.Apart.{handle_heater-Keeps}
use freaky_camper_arduino.Protocol.Apart.{
  send_tm-Keeps, tm_builder_temperature-Keeps, tm_builder_switch-Keeps, tm_builder_tension-Keeps,
  tm_builder_water-Keeps,
}
use freaky_camper_arduino.Manager.{
  halt, freaky_camp_manager_start, send_all_telemetry, tick_watchdog, get_currents, get_tensions,
  timer_isr,
}

halt-Keeps : {F : Type 0} {P : Machine → Type 0} → Keeps F P halt
halt-Keeps = record { at = λ m h. tt }

module _ {F : Type 0} {L : View → Type 0} (allowed : F) where
  pub freaky_camp_manager_start-Keeps :
      (env : Env) → Blind L → Keeps F (Over L) (freaky_camp_manager_start env)
  unfolding freaky_camp_manager_start
  freaky_camp_manager_start-Keeps env blind =
      search (flow_rules, board_rules, Keeps-any_call, halt-Keeps) depth 60 fits 4000

  store_current-Keeps :
      (i v : ℕ)
      → Keeps F (Over L) (do
        currents ← get λ m. m.currents
        store currents i v λ cs. modify λ m. record m { currents = cs })
  store_current-Keeps i v = Keeps-store_current allowed i v

  store_tension-Keeps :
      (i v : ℕ)
      → Keeps F (Over L) (do
        tensions ← get λ m. m.tensions
        store tensions i v λ ts. modify λ m. record m { tensions = ts })
  store_tension-Keeps i v = Keeps-store_tension allowed i v

  pool_current_sensor-Keeps : (env : Env) (i : ℕ) → Keeps F (Over L) (pool_current_sensor env i)
  unfolding pool_current_sensor
  pool_current_sensor-Keeps env i = search (flow_rules, board_rules, store_current-Keeps) depth 20

  pool_tension_sensor-Keeps : (env : Env) (i : ℕ) → Keeps F (Over L) (pool_tension_sensor env i)
  unfolding pool_tension_sensor
  pool_tension_sensor-Keeps env i = search (flow_rules, board_rules, store_tension-Keeps) depth 20

  pool_current_sensors-Keeps : (env : Env) → Keeps F (Over L) (pool_current_sensors env)
  unfolding pool_current_sensors
  pool_current_sensors-Keeps env = search (flow_rules, pool_current_sensor-Keeps)

  pool_tension_sensors-Keeps : (env : Env) → Keeps F (Over L) (pool_tension_sensors env)
  unfolding pool_tension_sensors
  pool_tension_sensors-Keeps env = search (flow_rules, pool_tension_sensor-Keeps)

  send_all_telemetry-Keeps : (env : Env) → Keeps F (Over L) (send_all_telemetry env)
  unfolding send_all_telemetry
  send_all_telemetry-Keeps env =
      search
        (
          flow_rules, send_tm-Keeps, tm_builder_temperature-Keeps, tm_builder_switch-Keeps,
          tm_builder_tension-Keeps, tm_builder_water-Keeps,
        )
        depth 30

  pub timer_isr-Keeps :
      (env : Env) → Keeps F (Over L) tick_watchdog → Keeps F (Over L) (timer_isr env)
  unfolding timer_isr get_currents get_tensions
  timer_isr-Keeps env tick =
      search
        (
          flow_rules, board_rules, pool_current_sensors-Keeps, pool_tension_sensors-Keeps,
          send_all_telemetry-Keeps, handle_heater-Keeps,
        )
        depth 30
