-- ===== src/Heater.antt =====
-- FreakyCampManager/heater.cpp: the cabin's heater over the burner and its two fans.
pub mod Telecommands
pub mod Apart
pub mod Attempts
use freaky_camper_arduino.Base.{ℕ, zero, suc, ◌/◌, ◌==◌, if◌then◌else◌, Bool, true, false}
use freaky_camper_arduino.Base.Int.{pos}
use freaky_camper_arduino.Board.{Env, output, pin_mode, analog_write}
use freaky_camper_arduino.Machine.{
  M, ◌>>=◌, ◌>>◌, skip, call, get, set_heater, HeaterState, heater_off, heater_manual, heater_auto,
  heater_hot_manual, heater_hot_auto, other,
}
use freaky_camper_arduino.Config.{pout_webasto_fan_1, pout_webasto_fan_2}
use freaky_camper_arduino.Webasto.{start_webasto, stop_webasto, is_webasto_on}

-- The conversion of a byte to `eHeaterState`.
abbrev pub heater_state_of : ℕ → HeaterState
heater_state_of zero = heater_off
heater_state_of (suc zero) = heater_manual
heater_state_of (suc (suc zero)) = heater_auto
heater_state_of (suc (suc (suc zero))) = heater_hot_manual
heater_state_of (suc (suc (suc (suc zero)))) = heater_hot_auto
heater_state_of n = other n

abbrev pub heater_code : HeaterState → ℕ
heater_code heater_off = 0
heater_code heater_manual = 1
heater_code heater_auto = 2
heater_code heater_hot_manual = 3
heater_code heater_hot_auto = 4
heater_code (other n) = n

abbrev pub same_heater_state : HeaterState → HeaterState → Bool
same_heater_state a b = heater_code a == heater_code b

unfoldable pub heater_module_init : M (Unit {0})
heater_module_init = do
  set_heater λ h. record h {
    target_temp = 20;
    transient_state = false;
    actual_state = heater_off;
    asked_state = heater_off;
  }
  call (pin_mode pout_webasto_fan_1 output)
  call (pin_mode pout_webasto_fan_2 output)

unfoldable pub switch_to_fresh_air : M (Unit {0})
switch_to_fresh_air = skip

unfoldable pub switch_to_hot_air : M (Unit {0})
switch_to_hot_air = skip

-- The two analogWrite calls.
abbrev pub write_fans : ℕ × ℕ → M (Unit {0})
write_fans f = do
  call (analog_write pout_webasto_fan_1 (pos f.0))
  call (analog_write pout_webasto_fan_2 (pos f.1))

-- It points its own parameters at a local variable, so the caller's fan values stay.
abbrev pub compute_fan_speeds_auto : ℕ × ℕ → ℕ × ℕ
compute_fan_speeds_auto f = f

-- The switch of `handleHeater`. `f1` and `f2` are read without having been set, and the comparison
-- that stands where the asked state should be reset does nothing.
unfoldable pub drive_fans : Env → HeaterState → M (Unit {0})
drive_fans env heater_off = do
  asked ← get λ m. m.heater.asked_state
  if same_heater_state asked heater_off
      then skip
      else (do if is_webasto_on then stop_webasto env else skip; write_fans (0, 0))
drive_fans env heater_hot_auto = do
  f ← get λ m. env.uninit m.trace
  write_fans (compute_fan_speeds_auto f)
drive_fans env heater_auto = do
  f ← get λ m. env.uninit m.trace
  write_fans (compute_fan_speeds_auto f)
drive_fans env heater_hot_manual = do f ← get λ m. env.uninit m.trace; write_fans f
drive_fans env heater_manual = do f ← get λ m. env.uninit m.trace; write_fans f
drive_fans env (other n) = skip

unfoldable pub handle_heater : Env → M (Unit {0})
unfolding switch_to_hot_air switch_to_fresh_air
handle_heater env = do
  need ← get λ m. m.heater.need_heater_on
  if need then (do start_webasto env; switch_to_hot_air) else (do
    switch_to_fresh_air
    hot ← get λ m. m.water.use_hot_water
    if hot then skip else stop_webasto env)
  actual ← get λ m. m.heater.actual_state
  drive_fans env actual

-- The common part of the cases of `heaterGotTC` but HEATER_OFF.
unfoldable pub ask_state : HeaterState → ℕ × ℕ → Bool → M (Unit {0})
ask_state status fans need = do
  set_heater λ h. record h { need_heater_on = need }
  actual ← get λ m. m.heater.actual_state
  if same_heater_state actual status
      then write_fans fans
      else set_heater λ h. record h { asked_state = status }

unfoldable pub heater_switch : HeaterState → ℕ × ℕ → M (Unit {0})
unfolding ask_state
heater_switch heater_off fans = do
  set_heater λ h. record h { need_heater_on = false }
  write_fans (0, 0)
heater_switch heater_auto fans = ask_state heater_auto (compute_fan_speeds_auto fans) false
heater_switch heater_manual fans = ask_state heater_manual fans false
heater_switch heater_hot_auto fans = ask_state heater_hot_auto (compute_fan_speeds_auto fans) true
heater_switch heater_hot_manual fans = ask_state heater_hot_manual fans true
heater_switch (other n) fans = skip

unfoldable pub heater_got_tc : HeaterState → ℕ → ℕ → ℕ → M (Unit {0})
unfolding heater_switch
heater_got_tc status fan1val fan2val new_temp = do
  set_heater λ h. record h { target_temp = new_temp / 2 }
  heater_switch status (fan1val, fan2val)
