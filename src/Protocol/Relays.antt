-- ===== src/Protocol/Relays.antt =====
-- The telecommands for the relays and the lights.
use freaky_camper_arduino.Base.{
  ℕ, ◌≤◌, ◌≡◌, ◌==◌, if◌then◌else◌, Option, none, some, List, ◌∷◌, length, get_elem?_beyond, arith,
}
use freaky_camper_arduino.Board.{Env, Pin, digital, digital_write}
use freaky_camper_arduino.Machine.{Machine, done, fault}
use freaky_camper_arduino.Light.{light_on_off, light_command}
use freaky_camper_arduino.Protocol.{process_received_command, relay_command, light_telecommand}

-- The relay of a telecommand, by its code.
abbrev pub relay_of : ℕ → Option Pin
relay_of code =
    if code == 10
    then some (digital 34)
    else if code == 11
    then some (digital 33)
    else if code == 12
    then some (digital 35)
    else if code == 14
    then some (digital 40)
    else if code == 15
    then some (digital 41)
    else none

-- A telecommand for a relay makes one call, which drives the relay of its code, high exactly if the
-- second byte is 1, and changes nothing else.
pub process_received_command-relay :
    (env : Env) (code v len : ℕ) (rest : List ℕ) (pin : Pin) (m : Machine)
    → m.comm.rx_buffer ≡ code ∷ v ∷ rest
    → relay_of code ≡ some pin
    → process_received_command env len m
      ≡ done tt (record m { trace = digital_write pin (v == 1) ∷ m.trace })
unfolding process_received_command relay_command
process_received_command-relay env code v len rest pin m e h = rw e (ground arith)

-- A telecommand for a light of at least seven bytes is not checked against the number of lights:
-- for an identifier beyond them the program reads outside `lightsConf`.
pub process_received_command-light_fault :
    (env : Env) (type id a b c d len : ℕ) (rest : List ℕ) (m : Machine)
    → m.comm.rx_buffer ≡ 13 ∷ type ∷ id ∷ a ∷ b ∷ c ∷ d ∷ rest
    → 7 ≤ len
    → length m.lights_conf ≤ id
    → process_received_command env len m ≡ fault
unfolding process_received_command light_telecommand light_on_off light_command
process_received_command-light_fault env type id a b c d len rest m e h k =
    rw e (ground (arith, get_elem?_beyond m.lights_conf id k))
