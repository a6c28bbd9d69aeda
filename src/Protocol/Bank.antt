-- ===== src/Protocol/Bank.antt =====
-- The relays as a bank of six switches: electrical.cpp, the telecommands for them and the telemetry
-- of their states.
pub mod Report
pub mod Refines
use freaky_camper_arduino.Base.{
  ℕ, zero, suc, ap, none, length-set, ◌+◌, ◌<◌, ◌≤◌, ◌≡◌, refl, ◌∙◌, ◌==◌, if◌then◌else◌, Bool,
  true, false, some, List, [], ◌∷◌, ◌++◌, length, get_elem?, set, take, drop, arith,
}
use freaky_camper_arduino.Board.{Env, Call, Pin, digital, digital_write, digital_read, level}
use freaky_camper_arduino.Machine.{
  Machine, Outcome, done, M, ◌>>=◌, ◌>>◌, skip, run-bind, call, ask, set_comm, Returns,
  Returns-bind, Returns-mono, for_range, return, Leads, Leads-then, Leads-for_range,
}
use freaky_camper_arduino.Config.{electrical_lines_pins}
use freaky_camper_arduino.Electrical.{init_electrical_function}
use freaky_camper_arduino.Protocol.{
  process_received_command, tm_builder_switch, put_switch, bit, put,
}
use freaky_camper_arduino.Protocol.Sending.{put_lem, with_tx}
use freaky_camper_arduino.Protocol.Relays.{relay_of, process_received_command-relay}

-- The abstract bank: the states of the six relays, and the five that a telecommand switches.
pub record Bank : Type 0 where
  pub water : Bool
  pub fridge : Bool
  pub heating : Bool
  pub aux : Bool
  pub spare : Bool
  pub light : Bool

pub data Relay : Type 0 where
  water_relay fridge_relay heating_relay aux_relay spare_relay : Relay

abbrev pub switched : Relay → Bool → Bank → Bank
switched water_relay v b = record b { water = v }
switched fridge_relay v b = record b { fridge = v }
switched heating_relay v b = record b { heating = v }
switched aux_relay v b = record b { aux = v }
switched spare_relay v b = record b { spare = v }

abbrev pub all_off : Bank
all_off = record {
  water = false;
  fridge = false;
  heating = false;
  aux = false;
  spare = false;
  light = false;
}

-- The bytes of the telemetry of a bank, in the order of `electricalLinesPins`.
abbrev pub report : Bank → List ℕ
report b =
    74 ∷ bit b.water ∷ bit b.fridge ∷ bit b.heating ∷ bit b.aux ∷ bit b.spare ∷ bit b.light ∷ []

abbrev pub code_of : Relay → ℕ
code_of water_relay = 11
code_of fridge_relay = 10
code_of heating_relay = 12
code_of aux_relay = 14
code_of spare_relay = 15

-- The pins of the relays are driven as the bank says.
pub record Shows (b : Bank) (m : Machine) : Type 0 where
  pub water : level (digital 33) m.trace ≡ some b.water
  pub fridge : level (digital 34) m.trace ≡ some b.fridge
  pub heating : level (digital 35) m.trace ≡ some b.heating
  pub aux : level (digital 40) m.trace ≡ some b.aux
  pub spare : level (digital 41) m.trace ≡ some b.spare
  pub light : level (digital 42) m.trace ≡ some b.light

-- The board reads a pin that it drives back as it is driven.
abbrev pub ReadsBack : Env → Type 0
ReadsBack env =
    (t : List Call) (p : Pin) (v : Bool) → level p t ≡ some v → env.digital_level t p ≡ v

abbrev pub pin_of : Relay → Pin
pin_of water_relay = digital 33
pin_of fridge_relay = digital 34
pin_of heating_relay = digital 35
pin_of aux_relay = digital 40
pin_of spare_relay = digital 41

-- The states in the order of `electricalLinesPins`.
abbrev pub states : Bank → List Bool
states b = b.water ∷ b.fridge ∷ b.heating ∷ b.aux ∷ b.spare ∷ b.light ∷ []

pub shown :
    (i : ℕ) (b : Bank) (m : Machine)
    → i < 6
    → Shows b m
    → (pin : Pin) × (v : Bool) × (get_elem? electrical_lines_pins i ≡ some pin)
      × (get_elem? (states b) i ≡ some v)
      × (level pin m.trace ≡ some v)
shown zero b m k s = (digital 33, b.water, refl, refl, s.water)
shown (suc zero) b m k s = (digital 34, b.fridge, refl, refl, s.fridge)
shown (suc (suc zero)) b m k s = (digital 35, b.heating, refl, refl, s.heating)
shown (suc (suc (suc zero))) b m k s = (digital 40, b.aux, refl, refl, s.aux)
shown (suc (suc (suc (suc zero)))) b m k s = (digital 41, b.spare, refl, refl, s.spare)
shown (suc (suc (suc (suc (suc zero))))) b m k s = (digital 42, b.light, refl, refl, s.light)
shown (suc (suc (suc (suc (suc (suc i)))))) b m k s = absurd (omega arith)

-- What the program does with a series of telecommands for relays, each in a receive buffer of its own.
abbrev pub command : Env → Relay → Bool → M (Unit {0})
command env r v = do
  set_comm λ c. record c { rx_buffer = code_of r ∷ bit v ∷ drop 2 c.rx_buffer }
  process_received_command env 2

unfoldable pub run : Env → List (Relay × Bool) → M (Unit {0})
run env [] = skip
run env ((r, v) ∷ cs) = do command env r v; run env cs

abbrev pub bank_after : List (Relay × Bool) → Bank → Bank
bank_after [] b = b
bank_after ((r, v) ∷ cs) b = bank_after cs (switched r v b)
