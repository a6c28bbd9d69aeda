-- ===== src/Webasto/Modules.antt =====
-- webasto.cpp: the burner's pins, the services that switch one module, `initWebasto`, and the
-- interrupt service `turnOnOffSystem`. `debug` only prints; printing is left out.
use freaky_camper_arduino.Base.{
  ℕ, ◌+◌, ◌-◌, ◌%◌, ◌^◌, ltb, ◌==◌, if◌then◌else◌, Bool, true, false, ◌&&◌,
}
use freaky_camper_arduino.Board.{
  Env, Pin, digital, output, pin_mode, digital_write, millis, serial_begin,
}
use freaky_camper_arduino.Machine.{
  M, ◌>>=◌, ◌>>◌, skip, call, ask, get, set_webasto, SystemState, on, off, remote_starting,
  remote_stopping, remote_shutdown, system_stopping, system_shutdown,
}

abbrev pub on_off_switch : Pin
on_off_switch = digital 2

abbrev pub air_fan : Pin
air_fan = digital 3

abbrev pub fuel_pump : Pin
fuel_pump = digital 4

abbrev pub water_pump : Pin
water_pump = digital 5

abbrev pub glow_plug : Pin
glow_plug = digital 6

abbrev pub cabin_heater : Pin
cabin_heater = digital 8

abbrev pub remote_control : Pin
remote_control = digital 9

abbrev pub car_blinkers : Pin
car_blinkers = digital 10

-- The number that stands for a state in the source.
abbrev pub state_code : SystemState → ℕ
state_code off = 0
state_code on = 1
state_code remote_starting = 2
state_code remote_stopping = 3
state_code remote_shutdown = 4
state_code system_stopping = 5
state_code system_shutdown = 6

abbrev pub same_state : SystemState → SystemState → Bool
same_state a b = state_code a == state_code b

abbrev pub set_state : SystemState → M (Unit {0})
set_state s = set_webasto λ w. record w { system_state = s }

unfoldable pub start_air_fan : M (Unit {0})
start_air_fan = do
  call (digital_write air_fan true)
  set_webasto λ w. record w { air_fan_state = true }

unfoldable pub stop_air_fan : M (Unit {0})
stop_air_fan = do
  call (digital_write air_fan false)
  set_webasto λ w. record w { air_fan_state = false }

unfoldable pub start_water_pump : M (Unit {0})
start_water_pump = do
  call (digital_write water_pump true)
  set_webasto λ w. record w { water_pump_state = true }

unfoldable pub stop_water_pump : M (Unit {0})
stop_water_pump = do
  call (digital_write water_pump false)
  set_webasto λ w. record w { water_pump_state = false }

unfoldable pub start_glow_plug : M (Unit {0})
start_glow_plug = do
  call (digital_write glow_plug true)
  set_webasto λ w. record w { glow_plug_state = true }

unfoldable pub stop_glow_plug : M (Unit {0})
stop_glow_plug = do
  call (digital_write glow_plug false)
  set_webasto λ w. record w { glow_plug_state = false }

unfoldable pub start_cabin_heater : M (Unit {0})
start_cabin_heater = do
  call (digital_write cabin_heater true)
  set_webasto λ w. record w { cabin_heater_state = true }

unfoldable pub stop_cabin_heater : M (Unit {0})
stop_cabin_heater = do
  call (digital_write cabin_heater false)
  set_webasto λ w. record w { cabin_heater_state = false }

unfoldable pub reset_all_modules : M (Unit {0})
unfolding stop_water_pump stop_glow_plug stop_air_fan stop_cabin_heater
reset_all_modules = do stop_water_pump; stop_glow_plug; stop_air_fan; stop_cabin_heater

unfoldable pub init_webasto : M (Unit {0})
unfolding reset_all_modules
init_webasto = do
  call (serial_begin 9600)
  call (pin_mode fuel_pump output)
  call (pin_mode water_pump output)
  call (pin_mode glow_plug output)
  call (pin_mode air_fan output)
  call (pin_mode cabin_heater output)
  call (pin_mode car_blinkers output)
  call (pin_mode remote_control output)
  call (digital_write on_off_switch true)
  reset_all_modules

-- a - b > 100 on `long`, which wraps at 32 bits as the compiler for the board makes it.
abbrev pub longer_than_debounce : ℕ → ℕ → Bool
longer_than_debounce a b = let d = (a + 2 ^ 32 - b) % 2 ^ 32 in ltb 100 d && ltb d (2 ^ 31)

unfoldable pub press : SystemState → M (Unit {0})
press remote_starting = set_state remote_shutdown
press on = set_state remote_stopping
press off = set_webasto λ w. record w { system_state = remote_starting; starting_attempts = 0 }
press _ = skip

unfoldable pub turn_on_off_system : Env → M (Unit {0})
unfolding press
turn_on_off_system env = do
  now ← ask millis env.clock
  last ← get λ m. m.webasto.last_debounce_time
  if longer_than_debounce now last
      then (do
        set_webasto λ w. record w { last_debounce_time = now }
        s ← get λ m. m.webasto.system_state
        press s)
      else skip
