-- ===== src/Tests/Tablet.antt =====
-- The theorems on the frames and the telecommands at concrete boards.
use freaky_camper_arduino.Base.{
  ℕ, Bool, Option, none, ap, take, ◌≡◌, refl, true, false, some, List, [], ◌∷◌, ◌++◌, replicate,
  arith,
}
use freaky_camper_arduino.Board.{Env, level, digital_write}
use freaky_camper_arduino.Machine.{Machine, Returns, done, fault}
use freaky_camper_arduino.Protocol.{send_tm}
use freaky_camper_arduino.Protocol.Sending.{sent, acknowledged, send_tm_lem}
use freaky_camper_arduino.Electrical.{init_electrical_function}
use freaky_camper_arduino.Protocol.{tm_builder_switch}
use freaky_camper_arduino.Machine.{◌>>◌}
use freaky_camper_arduino.Protocol.Bank.{
  Relay, water_relay, aux_relay, report, all_off, ReadsBack, run, bank_after,
}
use freaky_camper_arduino.Protocol.Bank.Refines.{bank-refines}
use freaky_camper_arduino.Webasto.{air_fan, water_pump, glow_plug, cabin_heater}
use freaky_camper_arduino.Manager.Feeding.{IsPlain, feed}
use freaky_camper_arduino.Manager.Receiver.{feed-overflow}
use freaky_camper_arduino.Tests.{bench, power_on, with_command}

-- The telecommand that opens the water.
abbrev water_command : List ℕ
water_command = 11 ∷ 1 ∷ []

water_command-IsPlain : IsPlain water_command
water_command-IsPlain =
    (λ e. omega arith, λ e. omega arith, (λ e. omega arith, λ e. omega arith, tt))

send_tm_lem_example : send_tm bench 7 power_on ≡ done tt (acknowledged 0 (sent power_on 7))
send_tm_lem_example = send_tm_lem bench 7 power_on (omega arith) (omega arith) (omega arith)

-- A receive buffer of two bytes shows the overflow with three.
feed-overflow_example :
    feed bench (0xAA ∷ 0xAA ∷ 0xAA ∷ 0xAA ∷ (water_command ++ 3 ∷ [])) (with_command (0 ∷ 0 ∷ []))
    ≡ fault
feed-overflow_example =
    feed-overflow bench water_command 3 [] 0 (with_command (0 ∷ 0 ∷ [])) water_command-IsPlain
      (λ e. omega arith) (λ e. omega arith) refl refl (omega arith)

-- A board that reads back what it drives.
abbrev or_low : Option Bool → Bool
or_low (some v) = v
or_low none = false

abbrev mirror : Env
unfolding level
mirror = record bench { digital_level = λ t p. or_low (level p t) }

mirror-ReadsBack : ReadsBack mirror
unfolding mirror level
mirror-ReadsBack t p v e = ap or_low e

abbrev switching : List (Relay × Bool)
switching = (water_relay, true) ∷ (aux_relay, true) ∷ (water_relay, false) ∷ []

bank-refines_example :
    Returns
      (λ n m'. (n ≡ 7) × (take 7 m'.comm.tx_buffer ≡ report (bank_after switching all_off)))
      ((do init_electrical_function; run mirror switching; tm_builder_switch mirror) power_on)
bank-refines_example = bank-refines mirror switching power_on mirror-ReadsBack (omega arith)

abbrev rgb_command : Machine
rgb_command = with_command (13 ∷ 2 ∷ 2 ∷ 255 ∷ 0 ∷ 255 ∷ 0 ∷ replicate 25 0)

-- The burner with its water pump and its glow plug running, under a light telecommand without red.
abbrev burning : Machine
burning = record rgb_command {
  webasto = record rgb_command.webasto { water_pump_state = true; glow_plug_state = true };
  trace =
      digital_write glow_plug true
      ∷ digital_write water_pump true
      ∷ digital_write air_fan false
      ∷ digital_write cabin_heater false
      ∷ [];
}
