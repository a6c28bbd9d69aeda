-- ===== src/Tests/Burner.antt =====
-- The theorems on the burner and the heater at concrete boards.
use freaky_camper_arduino.Base.{ℕ, ◌+◌, ◌≤◌, ◌≡◌, refl, inl, true, false, some, [], ◌∷◌, arith}
use freaky_camper_arduino.Board.{Env, level, digital_write, delay}
use freaky_camper_arduino.Machine.{
  Machine, ◌>>◌, modify, Returns, for_range, remote_starting, heater_off,
}
use freaky_camper_arduino.Webasto.{
  air_fan, water_pump, glow_plug, cabin_heater, start_webasto, stop_webasto, wait, pulse_fuel_pump,
  turn_on_off_system, pool_webasto,
}
use freaky_camper_arduino.Webasto.Laws.Idle.{Idles}
use freaky_camper_arduino.Webasto.Laws.Waiting.{Verdict, wait-Ends}
use freaky_camper_arduino.Webasto.Laws.Driven.{IsDriven, IsGood}
use freaky_camper_arduino.Webasto.Laws.Starting.{start_webasto-IsGood}
use freaky_camper_arduino.Webasto.Laws.Stopping.{
  IsStopped, PumpAfter, stop_webasto-IsStopped, pulse_fuel_pump-PumpAfter,
}
use freaky_camper_arduino.Webasto.Laws.Shipped.{
  OnlyFan, PoolAfter, shipped, shipped-start_webasto-OnlyFan, shipped-pool_webasto,
}
use freaky_camper_arduino.Webasto.Laws.Switch.{Debounced, turn_on_off_system-Debounced}
use freaky_camper_arduino.Heater.{heater_got_tc, handle_heater}
use freaky_camper_arduino.Heater.Attempts.{GivesUp, IsApart, handle_heater-GivesUp}
use freaky_camper_arduino.Heater.Telecommands.{heater_got_tc_clash}
use freaky_camper_arduino.Tests.{elapsed, bench, bench-IsClock, cold, power_on, power_on-IsDriven}

start_webasto-IsGood_example : Returns (λ _ m'. IsGood power_on m') (start_webasto bench power_on)
start_webasto-IsGood_example =
    start_webasto-IsGood bench elapsed bench-IsClock (omega arith) power_on (omega arith)
      power_on-IsDriven (inl refl)

stop_webasto-IsStopped_example :
    Returns
      (λ _ m'. IsStopped power_on m' × (elapsed power_on.trace + 60000000 ≤ elapsed m'.trace))
      (stop_webasto bench power_on)
stop_webasto-IsStopped_example =
    stop_webasto-IsStopped bench elapsed bench-IsClock power_on (omega arith)

wait-Ends_example :
    Returns
      (λ stop m'. Idles power_on m' × Verdict bench elapsed 700 true true 4 stop m')
      (wait bench 700 true true power_on)
wait-Ends_example =
    wait-Ends bench elapsed bench-IsClock 700 true true power_on (omega arith) (omega arith)

pulse_fuel_pump-PumpAfter_example : Returns PumpAfter (pulse_fuel_pump bench true true power_on)
pulse_fuel_pump-PumpAfter_example =
    pulse_fuel_pump-PumpAfter bench elapsed bench-IsClock true true power_on (omega arith)

-- The clock wraps between the two presses: it shows 1000 less than 2^32, and then 1000.
abbrev wrapped : Env
wrapped = record bench { clock = λ _. 1000 }

abbrev pressed_before : Machine
pressed_before = record power_on {
  webasto = record cold { last_debounce_time = 4294966296; system_state = remote_starting };
}

turn_on_off_system-Debounced_example :
    Returns
      (λ _ m'. Debounced 1000 true pressed_before m')
      (turn_on_off_system wrapped pressed_before)
turn_on_off_system-Debounced_example =
    turn_on_off_system-Debounced wrapped pressed_before 4294966296 4294968296 refl refl
      (omega arith) (omega arith)

shipped-start_webasto-OnlyFan_example :
    Returns (λ _ m'. OnlyFan power_on m') (start_webasto (shipped bench) power_on)
shipped-start_webasto-OnlyFan_example =
    shipped-start_webasto-OnlyFan bench elapsed bench-IsClock (omega arith) power_on (omega arith)

shipped-pool_webasto_example :
    Returns
      (λ _ m'. PoolAfter remote_starting pressed_before m')
      (pool_webasto (shipped bench) pressed_before)
shipped-pool_webasto_example = shipped-pool_webasto bench pressed_before

-- The air fan runs.
abbrev blowing : Machine
blowing = record power_on {
  webasto = record cold { air_fan_state = true };
  trace =
      digital_write air_fan true
      ∷ digital_write water_pump false
      ∷ digital_write glow_plug false
      ∷ digital_write cabin_heater false
      ∷ [];
}

heater_got_tc_clash_example :
    Returns
      (λ _ m'.
        (m'.webasto ≡ blowing.webasto) × (level air_fan m'.trace ≡ some false) × (¬ IsDriven m'))
      (heater_got_tc heater_off 0 0 40 blowing)
unfolding level
heater_got_tc_clash_example = heater_got_tc_clash 0 0 40 blowing (record {
  air_fan_level = refl;
  water_pump_level = refl;
  glow_plug_level = refl;
  cabin_heater_level = refl;
})

abbrev heated : Machine
heated = record power_on { heater = record power_on.heater { need_heater_on = true } }

-- The main loop pauses.
abbrev pause : ℕ → Machine → Machine
pause i m = record m { trace = delay 25 ∷ m.trace }

pause-IsApart : (i : ℕ) (m : Machine) → IsApart m (pause i m)
unfolding level
pause-IsApart i m = record { same_webasto = refl; same_heater = refl; same_fuel = refl }

handle_heater-GivesUp_example :
    Returns
      (λ _ m'. GivesUp heated m')
      (for_range 4 0 (λ i. do handle_heater (shipped bench); modify (pause i)) heated)
handle_heater-GivesUp_example =
    handle_heater-GivesUp bench elapsed 4 pause heated bench-IsClock (omega arith) pause-IsApart
      (omega arith) (omega arith) refl refl
