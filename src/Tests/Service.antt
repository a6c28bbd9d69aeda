-- ===== src/Tests/Service.antt =====
-- The theorems on the main loop and the timer's service at concrete boards.
use freaky_camper_arduino.Base.{drop, ◌≡◌, refl, true, some, [], ◌∷◌, arith}
use freaky_camper_arduino.Board.{digital, digital_write}
use freaky_camper_arduino.Machine.{
  Machine, view, heater_hot_manual, Outcome, Returns, done, fault, hang,
}
use freaky_camper_arduino.Protocol.{keep_alive}
use freaky_camper_arduino.Protocol.Sending.{frame}
use freaky_camper_arduino.Manager.{
  freaky_camp_manager_start, freaky_camp_manager_loop, got_byte, send_all_telemetry,
}
use freaky_camper_arduino.Manager.Sized.{IsSized}
use freaky_camper_arduino.Manager.Builders.{sent_codes}
use freaky_camper_arduino.Manager.Frames.{send_all_telemetry_lem}
use freaky_camper_arduino.Manager.Timer.{IsIdle, IsLate, handle_heater-IsLate}
use freaky_camper_arduino.Heater.{handle_heater}
use freaky_camper_arduino.Manager.Sound.{IsSound}
use freaky_camper_arduino.Manager.Interleaving.{main_loop, Reach, start, next, Reach-IsSound}
use freaky_camper_arduino.Manager.Tablet.{
  rested, Obeys, Reach-feed-relay, Reach-feed-light_fault, Reach-feed-heater, Reach-feed-keep_alive,
}
use freaky_camper_arduino.Manager.Measures.{get_currents-tm_builder_current-Reports}
use freaky_camper_arduino.Protocol.Shorts.{Reports}
use freaky_camper_arduino.Protocol.{tm_builder_current, tm_builder_tension}
use freaky_camper_arduino.Sensors.Polling.{measured}
use freaky_camper_arduino.Machine.{◌>>◌}
use freaky_camper_arduino.Manager.{get_currents, get_tensions}
use freaky_camper_arduino.Config.{
  current_pins, current_cal_factors, tension_pins, tension_cal_factors,
}
use freaky_camper_arduino.Manager.Startup.{Starts, freaky_camp_manager_start-Starts}
use freaky_camper_arduino.Manager.Unescaped.{Reach-feed-footer, Reach-feed-header}
use freaky_camper_arduino.Manager.Race.{Answers, interrupted_keep_alive, keep_alive-race}
use freaky_camper_arduino.Manager.Feeding.{feed, with_rx}
use freaky_camper_arduino.Manager.Receiver.{executed, received}
use freaky_camper_arduino.Tests.{elapsed, bench, bench-IsClock, power_on}

abbrev last : Outcome (Unit {0}) → Machine
last (done a m) = m
last fault = power_on
last hang = power_on

-- After the start, and after one round of the main loop, which takes a header byte.
abbrev booted : Machine
unfolding freaky_camp_manager_start
booted = last (freaky_camp_manager_start bench power_on)

abbrev one_header : Machine
unfolding freaky_camp_manager_start freaky_camp_manager_loop got_byte
one_header = last (freaky_camp_manager_loop bench booted)

one_header-Reach : Reach bench power_on one_header
unfolding freaky_camp_manager_start freaky_camp_manager_loop got_byte
one_header-Reach = next {m' = booted} (start refl) (main_loop refl)

Reach-IsSound_example : IsSound (view power_on) (view one_header)
Reach-IsSound_example = Reach-IsSound bench power_on one_header (omega arith) one_header-Reach

power_on-IsIdle : IsIdle power_on
power_on-IsIdle = record {
  sized = record {
    currents_size = refl;
    tensions_size = refl;
    tx_size = refl;
    same_heater = refl;
    same_water = refl;
  };
  no_heat = refl;
  no_hot_water = refl;
}

handle_heater-IsLate_example :
    Returns
      (λ _ m'. IsLate elapsed 60000004 power_on.heater power_on.water m')
      (handle_heater bench power_on)
handle_heater-IsLate_example =
    handle_heater-IsLate bench elapsed power_on bench-IsClock (omega arith) power_on-IsIdle

send_all_telemetry_lem_example :
    Returns
      (λ _ m'.
        IsSized power_on.heater power_on.water m'
        × (sent_codes m'.trace ≡ (15, some 73) ∷ (15, some 74) ∷ (16, some 72) ∷ []))
      (send_all_telemetry bench power_on)
send_all_telemetry_lem_example = send_all_telemetry_lem bench power_on power_on-IsIdle.sized

Reach-feed-relay_example :
    feed bench (frame (10 ∷ 1 ∷ [])) one_header
    ≡ done tt (record (rested (received (10 ∷ 1 ∷ []) one_header)) {
      trace = digital_write (digital 34) true ∷ one_header.trace;
    })
Reach-feed-relay_example =
    Reach-feed-relay bench power_on one_header 10 1 (digital 34) (omega arith) one_header-Reach refl
      (omega arith) (omega arith) (omega arith)

Reach-feed-light_fault_example :
    feed bench (frame (13 ∷ 0 ∷ 3 ∷ 1 ∷ 0 ∷ 0 ∷ 0 ∷ [])) one_header ≡ fault
Reach-feed-light_fault_example =
    Reach-feed-light_fault bench power_on one_header 0 3 1 0 0 0 (omega arith) one_header-Reach
      (omega arith) (omega arith) (omega arith) (omega arith)

Reach-feed-heater_example :
    Returns
      (λ _ m'. Obeys heater_hot_manual 44 one_header m')
      (feed bench (frame (40 ∷ 3 ∷ 200 ∷ 90 ∷ 44 ∷ [])) one_header)
Reach-feed-heater_example =
    Reach-feed-heater bench 3 200 90 44 power_on one_header (omega arith) refl one_header-Reach
      (omega arith) (omega arith) (omega arith)

abbrev heating_water : Machine
heating_water = record power_on { water = record power_on.water { use_hot_water = true } }

keep_alive-race_example :
    Returns (λ _ m'. Answers 9 m') (keep_alive bench power_on)
    × Returns (λ _ m'. Answers 0xAA m') (interrupted_keep_alive bench power_on)
keep_alive-race_example =
    keep_alive-race bench elapsed power_on bench-IsClock (omega arith) power_on-IsIdle

Reach-feed-keep_alive_example :
    Returns (λ _ m'. Answers 9 m' × (m'.comm.watchdog ≡ 0)) (feed bench (frame (9 ∷ [])) one_header)
Reach-feed-keep_alive_example =
    Reach-feed-keep_alive bench power_on one_header (omega arith) one_header-Reach (omega arith)
      (omega arith) (record { currents_size = refl; tensions_size = refl; tx_size = refl })

get_currents-tm_builder_current-Reports_example :
    Returns
      (Reports 70 7 λ i. measured bench current_pins current_cal_factors i power_on.trace)
      ((do get_currents bench; tm_builder_current) power_on)
    × Returns
        (Reports 71 2 λ i. measured bench tension_pins tension_cal_factors i power_on.trace)
        ((do get_tensions bench; tm_builder_tension) power_on)
get_currents-tm_builder_current-Reports_example =
    get_currents-tm_builder_current-Reports bench power_on (record { bounded = λ x. omega arith })
      (record { currents_size = refl; tensions_size = refl; tx_size = refl })

freaky_camp_manager_start-Starts_example :
    Starts true power_on (freaky_camp_manager_start bench power_on)
freaky_camp_manager_start-Starts_example =
    freaky_camp_manager_start-Starts bench true power_on refl refl

-- The telecommand of a light with a brightness of 0x55 loses that byte.
Reach-feed-footer_example :
    feed bench (frame (13 ∷ 2 ∷ 0 ∷ 0x55 ∷ 1 ∷ 2 ∷ 3 ∷ [])) one_header
    ≡ executed bench 6 (received (13 ∷ 2 ∷ 0 ∷ 1 ∷ 2 ∷ 3 ∷ []) one_header)
Reach-feed-footer_example =
    Reach-feed-footer bench (13 ∷ 2 ∷ 0 ∷ []) (1 ∷ 2 ∷ 3 ∷ []) power_on one_header (omega arith)
      one_header-Reach (omega arith) (omega arith) (omega arith) (omega arith)

-- A light telecommand with red 0xAA, green 10 and blue 1 is executed as one for the fridge's relay.
Reach-feed-header_example :
    feed bench (frame (13 ∷ 2 ∷ 0 ∷ 100 ∷ 0xAA ∷ 10 ∷ 1 ∷ [])) one_header
    ≡ executed bench 2 (
        received (10 ∷ 1 ∷ []) (
          with_rx one_header one_header.link (13 ∷ 2 ∷ 0 ∷ 100 ∷ drop 4 one_header.comm.rx_buffer)))
Reach-feed-header_example =
    Reach-feed-header bench (13 ∷ 2 ∷ 0 ∷ 100 ∷ []) (10 ∷ 1 ∷ []) power_on one_header (omega arith)
      one_header-Reach (omega arith) (omega arith) (omega arith) (omega arith) (omega arith)
