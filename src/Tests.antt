-- ===== src/Tests.antt =====
-- A bench of concrete boards and machines; the theorems at them stand in the modules below.
mod Burner
mod Tablet
mod House
mod Service
mod Frame
mod Overrun
mod Session
use freaky_camper_arduino.Base.{
  ℕ, Bool, Option, none, ap, take, ◌+◌, ◌*◌, ◌/◌, ◌%◌, ◌^◌, ◌≤◌, ◌<◌, ◌≡◌, refl, inl, true, false,
  some, List, [], ◌∷◌, ◌++◌, length, replicate, arith,
}
use freaky_camper_arduino.Base.Int.{ℤ, pos, negsuc, wrap}
use freaky_camper_arduino.Board.{Env, Call, digital, digital_write, analog_write, level}
use freaky_camper_arduino.Machine.{
  Machine, Outcome, Webasto, Returns, done, fault, hang, off, remote_starting, heater_off,
  heater_hot_auto,
}
use freaky_camper_arduino.Config.{initial_lights_conf, pio_water_activate_sensing}
use freaky_camper_arduino.Webasto.{
  start_webasto, stop_webasto, wait, pulse_fuel_pump, turn_on_off_system, pool_webasto,
}
use freaky_camper_arduino.Webasto.Laws.Idle.{IsClock, Idles}
use freaky_camper_arduino.Webasto.Laws.Waiting.{Verdict, wait-Ends}
use freaky_camper_arduino.Webasto.Laws.Driven.{IsDriven, IsGood}
use freaky_camper_arduino.Webasto.Laws.Starting.{start_webasto-IsGood}
use freaky_camper_arduino.Webasto.Laws.Stopping.{
  IsStopped, PumpAfter, stop_webasto-IsStopped, pulse_fuel_pump-PumpAfter,
}
use freaky_camper_arduino.Webasto.Laws.Shipped.{
  OnlyFan, PoolAfter, shipped, shipped-start_webasto-OnlyFan, shipped-pool_webasto,
}
use freaky_camper_arduino.Webasto.Laws.Switch.{Debounced, turn_on_off_system-Debounced}
use freaky_camper_arduino.Light.{light_on_off, light_command}
use freaky_camper_arduino.Light.Dimming.{light_command_lem}
use freaky_camper_arduino.Light.Switching.{after, light_on_off_lem}
use freaky_camper_arduino.Water.{water_level, get_clean_water_level}
use freaky_camper_arduino.Water.Levels.{get_clean_water_level_bounds, water_level_mono}
use freaky_camper_arduino.Heater.{heater_got_tc}
use freaky_camper_arduino.Heater.Telecommands.{StopsFans, heater_got_tc_lem, heater_got_tc_clash}
use freaky_camper_arduino.Protocol.{
  send_tm, process_received_command, format_temp_data, tm_builder_light,
}
use freaky_camper_arduino.Protocol.Sending.{with_tx, frame, sent, acknowledged, send_tm_lem}
use freaky_camper_arduino.Electrical.{init_electrical_function}
use freaky_camper_arduino.Protocol.{tm_builder_switch}
use freaky_camper_arduino.Machine.{◌>>◌}
use freaky_camper_arduino.Protocol.Bank.{
  Relay, water_relay, aux_relay, report, all_off, ReadsBack, run, bank_after,
}
use freaky_camper_arduino.Protocol.Bank.Refines.{bank-refines}
use freaky_camper_arduino.Webasto.{water_pump, glow_plug}
use freaky_camper_arduino.Protocol.Reports.{tm_builder_light_lem}
use freaky_camper_arduino.Protocol.Encoding.{format_temp_data_close}
use freaky_camper_arduino.Protocol.Relays.{
  process_received_command-relay, process_received_command-light_fault,
}
use freaky_camper_arduino.Manager.Watchdog.{ticks, with_watchdog, ticks_lem}
use freaky_camper_arduino.Manager.{
  freaky_camp_manager_start, freaky_camp_manager_loop, got_byte, timer_isr,
}
use freaky_camper_arduino.Manager.Timer.{IsIdle, IsOff}
use freaky_camper_arduino.Manager.Sound.{IsSound}
use freaky_camper_arduino.Manager.Interleaving.{
  main_loop, Reach, start, next, Reach-IsSound, Reach-feed-frame,
}
use freaky_camper_arduino.Manager.Feeding.{IsPlain, feed, idle}
use freaky_camper_arduino.Manager.Receiver.{executed, received, feed-overflow}

-- Each call takes a microsecond.
abbrev pub elapsed : List Call → ℕ
elapsed t = length t

-- A board with 512 on every analog input, 20 degrees on every probe and a burner at 50 degrees.
abbrev pub bench : Env
bench = record {
  digital_level = λ _ _. true;
  analog_level = λ _ _. 512;
  clock = λ t. elapsed t / 1000 % 2 ^ 32;
  thermocouple = λ _ _. some (pos 200);
  switch_pressed = λ _. false;
  usb_ok = λ _. true;
  adk_ready = λ _. true;
  reception = λ _. record { rcode = 0; len = 1; msg = replicate 8 0xAA };
  ack = λ _. 0;
  temperature = λ _ _. pos 2560;
  released = λ _ _. false;
  short_of = λ n. n % 65536;
  byte_of = λ z. wrap z 256;
  uninit = λ _. (0, 0);
  fuel = 60001001;
}

pub bench-IsClock : IsClock bench elapsed
bench-IsClock = record {
  reads = λ t. refl;
  ticks = λ t. omega arith;
  steps = λ t. omega arith;
  forward = λ c t. omega arith;
}

abbrev pub cold : Webasto
cold = record {
  last_debounce_time = 0;
  starting_attempts = 0;
  initial_temperature = pos 0;
  previous_temperature = pos 0;
  system_state = off;
  air_fan_state = false;
  water_pump_state = false;
  glow_plug_state = false;
  cabin_heater_state = false;
}

-- The variables as the program starts with them, with the four modules reset.
abbrev pub power_on : Machine
power_on = record {
  trace =
      digital_write (digital 8) false
      ∷ digital_write (digital 3) false
      ∷ digital_write (digital 6) false
      ∷ digital_write (digital 5) false
      ∷ [];
  webasto = cold;
  heater = record {
    actual_state = heater_off;
    asked_state = heater_off;
    target_temp = 0;
    transient_state = false;
    need_heater_on = false;
  };
  water = record { water_flow_liters_min = 0; flow_sensor_ints_count = 0; use_hot_water = false };
  link = idle 0;
  comm = record { watchdog = 0; rx_buffer = replicate 32 0; tx_buffer = replicate 32 7 };
  lights_conf = initial_lights_conf;
  currents = replicate 7 0;
  tensions = replicate 2 0;
}

pub power_on-IsDriven : IsDriven power_on
unfolding level
power_on-IsDriven = record {
  air_fan_level = refl;
  water_pump_level = refl;
  glow_plug_level = refl;
  cabin_heater_level = refl;
}

abbrev pub with_command : List ℕ → Machine
with_command c = record power_on { comm = record power_on.comm { rx_buffer = c } }
