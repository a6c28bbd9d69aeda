-- ===== src/Tests/Frame.antt =====
-- A frame for a relay that a concrete tablet sends, with interrupts between its bytes.
use freaky_camper_arduino.Base.{
  ℕ, suc, ◌≡◌, refl, some, none, List, [], ◌∷◌, get_elem?, drop, arith,
}
use freaky_camper_arduino.Board.{Env, Call, adk_rcv_data, delay}
use freaky_camper_arduino.Machine.{Machine, Outcome, done, fault, hang, ◌>>◌, call}
use freaky_camper_arduino.Protocol.Sending.{frame}
use freaky_camper_arduino.Water.{on_int_water_flow_sensor}
use freaky_camper_arduino.Webasto.{turn_on_off_system}
use freaky_camper_arduino.Manager.{freaky_camp_manager_start, freaky_camp_manager_loop, got_byte}
use freaky_camper_arduino.Manager.Feeding.{with_rx}
use freaky_camper_arduino.Manager.Receiver.{executed}
use freaky_camper_arduino.Manager.Interleaving.{on_off_switch, flow_sensor, start}
use freaky_camper_arduino.Manager.Interrupted.{polled, Fed, over, byte, pause}
use freaky_camper_arduino.Manager.Frame.{footing, unfinished, Reach-Fed-frame}
use freaky_camper_arduino.Tests.{bench, power_on}

-- The count of messages that were asked for.
abbrev pub messages : List Call → ℕ
messages [] = 0
messages (adk_rcv_data ∷ t) = suc (messages t)
messages (_ ∷ t) = messages t

-- A tablet that sends one frame, byte by byte.
abbrev pub tablet : Env
tablet = record bench {
  reception = λ t. record {
    rcode = 0;
    len = 1;
    msg = elim (get_elem? (frame (10 ∷ 1 ∷ [])) (messages t)) [ some b ↦ b ∷ [] | none ↦ [] ];
  };
}

abbrev after : Outcome (Unit {0}) → Machine
after (done a m) = m
after fault = power_on
after hang = power_on

abbrev pub s₀ : Machine
unfolding freaky_camp_manager_start
s₀ = after (freaky_camp_manager_start tablet power_on)

abbrev round : Machine → Machine
unfolding freaky_camp_manager_loop got_byte
round m = after (freaky_camp_manager_loop tablet m)

abbrev flowing : Machine → Machine
unfolding on_int_water_flow_sensor
flowing m = after (on_int_water_flow_sensor m)

abbrev switched : Machine → Machine
unfolding turn_on_off_system
switched m = after (turn_on_off_system tablet m)

abbrev header : Machine
header = round (round (round (round s₀)))

abbrev two : Machine
two = round (flowing (round (switched header)))

abbrev nearly : Machine
nearly = flowing (round (round (round two)))

nearly-Fed : Fed tablet (unfinished (10 ∷ 1 ∷ [])) s₀ nearly
unfolding freaky_camp_manager_start freaky_camp_manager_loop got_byte on_int_water_flow_sensor
    turn_on_off_system
nearly-Fed =
    byte {m' = round s₀} (record { ready = refl; single = refl; first = refl }) refl
      (byte {m' = round (round s₀)} (record { ready = refl; single = refl; first = refl }) refl
        (byte {m' = round (round (round s₀))} (record { ready = refl; single = refl; first = refl })
          refl
          (byte {m' = header} (record { ready = refl; single = refl; first = refl }) refl
            (pause {m = header} {m' = switched header} (on_off_switch refl) (
              byte {m' = round (switched header)}
                (record { ready = refl; single = refl; first = refl }) refl
                (pause {m' = flowing (round (switched header))} (flow_sensor refl) (
                  byte {m' = two} (record { ready = refl; single = refl; first = refl }) refl
                    (byte {m' = round two} (record { ready = refl; single = refl; first = refl })
                      refl
                      (byte {m' = round (round two)}
                        (record { ready = refl; single = refl; first = refl }) refl
                        (byte {m' = round (round (round two))}
                          (record { ready = refl; single = refl; first = refl }) refl
                          (pause {m' = nearly} (flow_sensor refl) over)))))))))))

Reach-Fed-frame_example :
    freaky_camp_manager_loop tablet nearly
    ≡ (do executed tablet 2; call (delay 25))
        (with_rx (polled nearly) (footing 2 4) (10 ∷ 1 ∷ drop 2 s₀.comm.rx_buffer))
unfolding freaky_camp_manager_start freaky_camp_manager_loop got_byte on_int_water_flow_sensor
    turn_on_off_system
Reach-Fed-frame_example =
    Reach-Fed-frame tablet (10 ∷ 1 ∷ []) power_on s₀ nearly (omega arith) (start refl) (omega arith)
      (omega arith) (omega arith) nearly-Fed (record { ready = refl; single = refl; first = refl })
