-- ===== src/Tests/Session.antt =====
-- A frame that a concrete tablet sends, with interrupts within the rounds of the main loop.
use freaky_camper_arduino.Base.{
  ℕ, ◌+◌, ◌%◌, ◌≡◌, ◌≢◌, ◌<◌, ltb, ◌==◌, refl, true, false, some, List, [], ◌∷◌, length, set, arith,
}
use freaky_camper_arduino.Board.{digital, Env, Call, usb_task, adk_is_ready, adk_rcv_data, delay}
use freaky_camper_arduino.Machine.{Machine, view, fault, relay_levels}
use freaky_camper_arduino.Protocol.Relays.{process_received_command-relay}
use freaky_camper_arduino.Water.{on_int_water_flow_sensor}
use freaky_camper_arduino.Webasto.{turn_on_off_system}
use freaky_camper_arduino.Manager.{freaky_camp_manager_start, timer_isr}
use freaky_camper_arduino.Manager.Interleaving.{on_off_switch, flow_sensor}
use freaky_camper_arduino.Manager.Interrupted.{Takes}
use freaky_camper_arduino.Manager.Thread.{Pc, Move, Event, received, ran, Run, stay, move}
use freaky_camper_arduino.Manager.Thread.Decoder.{decoder, decoded, payloads}
use freaky_camper_arduino.Manager.Thread.Simulation.{taken, commands, Run-payloads}
use freaky_camper_arduino.Manager.Thread.Session.{Run-frames}
use freaky_camper_arduino.Manager.Thread.Lines.{Run-relay_levels}
use freaky_camper_arduino.Manager.Thread.Steady.{IsSteady, Run-IsSteady, Run-timer_isr}
use freaky_camper_arduino.Sketch.{
  setup, loop, Sketch, set_up, round, interrupted, IsDeaf, Sketch-IsDeaf,
}
use freaky_camper_arduino.Tests.{power_on}
use freaky_camper_arduino.Tests.Frame.{tablet, s₀}

abbrev asked : Machine → List Call
asked m = adk_rcv_data ∷ adk_is_ready ∷ usb_task ∷ m.trace

module _ {env : Env} {m m' : Machine} {pc : Pc} {es : List Event} where
  takes :
      {b : ℕ}
      → Takes env m b
      → Run env (record m { trace = asked m }) (Pc.took b) es m' pc
      → Run env m Pc.top (received b ∷ es) m' pc
  takes t r = move Move.poll (move (Move.is_ready t.ready) (Run.take_byte t.single t.first r))

  -- One of the first four header bytes.
  header :
      ltb m.link.header_count 4 ≡ true
      → m.link.ready_for_datas ≡ false
      → Run env
          (record m {
            trace = delay 25 ∷ m.trace;
            link = record {
              footer_count = 0;
              header_count = m.link.header_count + 1;
              rx_counter = m.link.rx_counter;
              ready_for_datas = m.link.header_count + 1 == 4;
            };
          })
          Pc.top
          es
          m'
          pc
      → Run env m (Pc.took 0xAA) es m' pc
  header low idle r = move (Move.is_header refl) (
      move Move.no_footers (
        move (Move.below low) (
          move Move.load_header (
            move Move.store_header (
              move (Move.starts idle)
                (move Move.test_header (move Move.store_ready (move Move.pause r))))))))

  -- One of the first three footer bytes.
  footer :
      m.link.ready_for_datas ≡ true
      → ((m.link.footer_count + 1) % 256 == 4) ≡ false
      → Run env
          (record m {
            trace = delay 25 ∷ m.trace;
            link = record m.link {
              footer_count = (m.link.footer_count + 1) % 256;
              header_count = 0;
            };
          })
          Pc.top
          es
          m'
          pc
      → Run env m (Pc.took 0x55) es m' pc
  footer ready more r = move (Move.is_footer refl (ground (arith, ready))) (
      move Move.load_footer (
        move Move.store_footer
          (move Move.no_headers (move (Move.not_last more) (move Move.pause r)))))

abbrev ready_at : (n : ℕ) → ℕ → Machine → Machine
ready_at n b m = record m {
  trace = delay 25 ∷ m.trace;
  link = record m.link { rx_counter = (n + 1) % 256 };
  comm = record m.comm { rx_buffer = set m.comm.rx_buffer n b };
}

module _ {env : Env} {m m' : Machine} {pc : Pc} {es : List Event} where
  data_byte :
      {b : ℕ}
      → (b == 0xAA) ≡ false
      → (b == 0x55) ≡ false
      → m.link.ready_for_datas ≡ true
      → m.link.rx_counter < length m.comm.rx_buffer
      → Run env (ready_at m.link.rx_counter b m) Pc.top es m' pc
      → Run env m (Pc.took b) es m' pc
  data_byte h f ready room r = move (Move.is_other h (ground (arith, ready, f))) (
      move (Move.is_data ready) (
        move Move.load_counter
          (move Move.store_counter (move (Move.store_data room) (move Move.pause r)))))

-- The switch is pressed before the count of data is raised, and the flow sensor ticks after it.
record Sent (es : List Event) : Type 0 where
  last : Machine
  run : Run tablet s₀ Pc.top es last Pc.top

abbrev events : List Event
events =
    received 0xAA
    ∷ received 0xAA
    ∷ received 0xAA
    ∷ received 0xAA
    ∷ received 10
    ∷ received 1
    ∷ received 0x55
    ∷ received 0x55
    ∷ received 0x55
    ∷ received 0x55
    ∷ ran (10 ∷ 1 ∷ [])
    ∷ []

sent : Sent events
unfolding freaky_camp_manager_start on_int_water_flow_sensor turn_on_off_system
sent = record {
  last = _;
  run =
      takes (record { ready = refl; single = refl; first = refl })
        (header refl refl (
          takes (record { ready = refl; single = refl; first = refl })
            (header refl refl (
              takes (record { ready = refl; single = refl; first = refl })
                (header refl refl (
                  takes (record { ready = refl; single = refl; first = refl })
                    (header refl refl (
                      takes (record { ready = refl; single = refl; first = refl })
                        (move (Move.is_other refl refl) (
                          move (Move.is_data refl) (
                            Run.interrupt (on_off_switch refl) (
                              move Move.load_counter (
                                move Move.store_counter (
                                  Run.interrupt (flow_sensor refl) (
                                    move (Move.store_data (omega arith)) (
                                      move Move.pause (
                                        takes (record { ready = refl; single = refl; first = refl })
                                          (data_byte refl refl refl (omega arith) (
                                            takes
                                              (record { ready = refl; single = refl; first = refl })
                                              (footer refl refl (
                                                takes
                                                  (record {
                                                    ready = refl;
                                                    single = refl;
                                                    first = refl;
                                                  })
                                                  (footer refl refl (
                                                    takes
                                                      (record {
                                                        ready = refl;
                                                        single = refl;
                                                        first = refl;
                                                      })
                                                      (footer refl refl (
                                                        takes
                                                          (record {
                                                            ready = refl;
                                                            single = refl;
                                                            first = refl;
                                                          })
                                                          (move (Move.is_footer refl refl) (
                                                            move Move.load_footer (
                                                            move Move.store_footer (
                                                            move Move.no_headers (
                                                            move (Move.is_last refl) (
                                                            move Move.load_count (
                                                            Run.execute
                                                            (process_received_command-relay tablet
                                                            10 1 2 _ (digital 34) _ refl refl)
                                                            (move Move.clear_watchdog (
                                                            move Move.clear_footer (
                                                            move Move.clear_ready (
                                                            move Move.clear_counter (
                                                            move Move.pause
                                                            stay)))))))))))))))))))))))))))))))))))));
}

Run-payloads_example :
    (commands events ≡ payloads (decoder s₀) (taken events))
    × (decoder sent.last ≡ decoded (decoder s₀) (taken events))
Run-payloads_example = Run-payloads tablet events s₀ sent.last sent.run

Run-frames_example : commands events ≡ (10 ∷ 1 ∷ []) ∷ []
unfolding freaky_camp_manager_start
Run-frames_example =
    Run-frames tablet ((10 ∷ 1 ∷ []) ∷ []) [] events power_on s₀ s₀ sent.last (omega arith) refl
      stay sent.run refl (omega arith) (omega arith)

Run-relay_levels_example :
    relay_levels sent.last.trace
    ≡ some false ∷ some true ∷ some false ∷ some false ∷ some false ∷ some false ∷ []
unfolding freaky_camp_manager_start
Run-relay_levels_example =
    Run-relay_levels tablet ((10 ∷ 1 ∷ []) ∷ []) events power_on s₀ sent.last (omega arith) refl
      refl sent.run refl (omega arith) (omega arith) (omega arith, tt)

-- In the middle of a round, behind a tick of the flow sensor.
record Halfway : Type 0 where
  here : Machine
  way : Run tablet s₀ Pc.top (received 0xAA ∷ []) here Pc.header_load

halfway : Halfway
unfolding freaky_camp_manager_start on_int_water_flow_sensor
halfway = record {
  here = _;
  way =
      takes (record { ready = refl; single = refl; first = refl })
        (move (Move.is_header refl)
          (move Move.no_footers (Run.interrupt (flow_sensor refl) (move (Move.below refl) stay))));
}

Run-IsSteady_example : IsSteady (view power_on) (view halfway.here)
unfolding freaky_camp_manager_start
Run-IsSteady_example =
    Run-IsSteady tablet (received 0xAA ∷ []) power_on s₀ halfway.here Pc.header_load (omega arith)
      refl halfway.way

Run-timer_isr_example : timer_isr tablet halfway.here ≢ fault
unfolding freaky_camp_manager_start
Run-timer_isr_example =
    Run-timer_isr tablet (received 0xAA ∷ []) power_on s₀ halfway.here Pc.header_load (omega arith)
      (record { currents_size = refl; tensions_size = refl; tx_size = refl }) refl halfway.way

-- The sketch, behind a round and a tick of the flow sensor.
record Sketched : Type 0 where
  board : Machine
  way : Sketch tablet power_on board

sketched : Sketched
unfolding freaky_camp_manager_start setup loop on_int_water_flow_sensor
sketched = record {
  board = _;
  way = interrupted (round {m' = s₀} (set_up refl) refl) (flow_sensor refl);
}

Sketch-IsDeaf_example : IsDeaf power_on sketched.board
Sketch-IsDeaf_example = Sketch-IsDeaf tablet power_on sketched.board refl sketched.way
