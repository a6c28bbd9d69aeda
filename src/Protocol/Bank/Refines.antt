-- ===== src/Protocol/Bank/Refines.antt =====
-- The start, the telecommands and the telemetry of the relays implement the bank.
use freaky_camper_arduino.Base.{
  ℕ, ◌≤◌, ◌≡◌, refl, ◌==◌, Bool, true, false, some, List, [], ◌∷◌, length, take, drop, arith,
}
use freaky_camper_arduino.Board.{Env, digital_write, level}
use freaky_camper_arduino.Machine.{Machine, ◌>>◌, Returns, Returns-bind, Leads, Leads-then}
use freaky_camper_arduino.Electrical.{init_electrical_function}
use freaky_camper_arduino.Protocol.{tm_builder_switch, bit}
use freaky_camper_arduino.Protocol.Relays.{relay_of, process_received_command-relay}
use freaky_camper_arduino.Protocol.Bank.{
  Bank, Relay, water_relay, fridge_relay, heating_relay, aux_relay, spare_relay, switched, all_off,
  report, code_of, pin_of, Shows, ReadsBack, command, run, bank_after,
}
use freaky_camper_arduino.Protocol.Bank.Report.{reported}

relay_of-code_of : (r : Relay) → relay_of (code_of r) ≡ some (pin_of r)
relay_of-code_of water_relay = refl
relay_of-code_of fridge_relay = refl
relay_of-code_of heating_relay = refl
relay_of-code_of aux_relay = refl
relay_of-code_of spare_relay = refl

switched-Shows :
    (r : Relay) (v : Bool) (b : Bank) (m : Machine) (rx : List ℕ)
    → Shows b m
    → Shows (switched r v b) (record m {
      trace = digital_write (pin_of r) v ∷ m.trace;
      comm = record m.comm { rx_buffer = rx };
    })
unfolding level
switched-Shows water_relay v b m rx s = ground arith
switched-Shows _ v b m rx s = ground arith

bit-eq_one : (v : Bool) → (bit v == 1) ≡ v
bit-eq_one true = refl
bit-eq_one false = refl

command-Leads :
    (env : Env) (r : Relay) (v : Bool) (b : Bank) (k : ℕ)
    → Leads
        (λ m. Shows b m × (length m.comm.tx_buffer ≡ k))
        (λ m. Shows (switched r v b) m × (length m.comm.tx_buffer ≡ k))
        (command env r v)
command-Leads env r v b k = record {
  at = λ m s.
      let rx = code_of r ∷ bit v ∷ drop 2 m.comm.rx_buffer in
      let loaded = record m { comm = record m.comm { rx_buffer = rx } } in
      rw
        (
          process_received_command-relay env (code_of r) (bit v) 2 (drop 2 m.comm.rx_buffer)
              (pin_of r) loaded refl (relay_of-code_of r),
          bit-eq_one v,
        )
        (switched-Shows r v b m rx s.0, s.1);
}

run-Leads :
    (env : Env) (cs : List (Relay × Bool)) (b : Bank) (k : ℕ)
    → Leads
        (λ m. Shows b m × (length m.comm.tx_buffer ≡ k))
        (λ m. Shows (bank_after cs b) m × (length m.comm.tx_buffer ≡ k))
        (run env cs)
unfolding run
run-Leads env [] b k = record { at = λ m s. s }
run-Leads env ((r, v) ∷ cs) b k =
    let rest = run-Leads env cs (switched r v b) k in
    let both =
      Leads-then (command env r v) (λ _. run env cs) (command-Leads env r v b k) (λ _. rest) in
    record { at = both.at }

init-Leads :
    (k : ℕ)
    → Leads
        (λ m. length m.comm.tx_buffer ≡ k)
        (λ m. Shows all_off m × (length m.comm.tx_buffer ≡ k))
        init_electrical_function
unfolding init_electrical_function level
init-Leads k = record {
  at = λ m e. (
    record { water = refl; fridge = refl; heating = refl; aux = refl; spare = refl; light = refl },
    e,
  );
}

-- The relays are a bank of six switches, all off after the start: on a board that reads back what it
-- drives, after any series of telecommands for relays the telemetry of the switches comes back with
-- seven bytes, which are its code and the states that the bank has then.
pub bank-refines :
    (env : Env) (cs : List (Relay × Bool)) (m : Machine)
    → ReadsBack env
    → 7 ≤ length m.comm.tx_buffer
    → Returns
        (λ n m'. (n ≡ 7) × (take 7 m'.comm.tx_buffer ≡ report (bank_after cs all_off)))
        ((do init_electrical_function; run env cs; tm_builder_switch env) m)
bank-refines env cs m reads room =
    let k = length m.comm.tx_buffer in
    Returns-bind _ _ init_electrical_function _ m ((init-Leads k).at m refl) λ _ m₁ s₁.
      Returns-bind _ _ (run env cs) (λ _. tm_builder_switch env) m₁
        ((run-Leads env cs all_off k).at m₁ s₁)
        λ _ m₂ s₂. reported env (bank_after cs all_off) m₂ reads s₂.0 (omega (arith, s₂.1))
