-- ===== src/Machine/State.antt =====
-- The global variables of FreakyCampManager, module by module, with the trace of the calls made;
-- and the state monad in which the model's operations are written.
use freaky_camper_arduino.Base.{
  ℕ, zero, suc, Bool, List, ◌∷◌, none, some, get_elem?, length, ltb, set, if◌then◌else◌,
}
use freaky_camper_arduino.Base.Int.{ℤ}
use freaky_camper_arduino.Board.{Call}

-- `systemState` of webasto.cpp; the macros ON, OFF, REMOTE_STARTING, ….
pub data SystemState : Type 0 where
  on off remote_starting remote_stopping remote_shutdown : SystemState
  system_stopping system_shutdown : SystemState

-- `eHeaterState`; `other` is a byte of a telecommand that names no state.
pub data HeaterState : Type 0 where
  heater_off heater_manual heater_auto heater_hot_manual heater_hot_auto : HeaterState
  other : ℕ → HeaterState

pub record Webasto : Type 0 where
  pub last_debounce_time : ℕ  -- long, as its 32-bit pattern
  pub starting_attempts : ℕ
  pub initial_temperature : ℤ
  pub previous_temperature : ℤ
  pub system_state : SystemState
  pub air_fan_state : Bool
  pub water_pump_state : Bool
  pub glow_plug_state : Bool
  pub cabin_heater_state : Bool

pub record Heater : Type 0 where
  pub actual_state : HeaterState
  pub asked_state : HeaterState
  pub target_temp : ℕ
  pub transient_state : Bool
  pub need_heater_on : Bool

pub record Water : Type 0 where
  pub water_flow_liters_min : ℕ  -- byte
  pub flow_sensor_ints_count : ℕ  -- long, as its 32-bit pattern
  pub use_hot_water : Bool

-- The variables of the frame receiver in freakyCampManager.cpp, all bytes.
pub record Link : Type 0 where
  pub rx_counter : ℕ
  pub header_count : ℕ
  pub footer_count : ℕ
  pub ready_for_datas : Bool

pub record Comm : Type 0 where
  pub watchdog : ℕ
  pub rx_buffer : List ℕ
  pub tx_buffer : List ℕ

pub record Machine : Type 0 where
  pub trace : List Call
  pub webasto : Webasto
  pub heater : Heater
  pub water : Water
  pub link : Link
  pub comm : Comm
  pub lights_conf : List (List ℕ)
  pub currents : List ℕ  -- short, as 16-bit patterns
  pub tensions : List ℕ

-- `fault` is an access outside an array; `hang` a loop that never ends or has used up the fuel.
pub data Outcome (A : Type 0) : Type 0 where
  done : A → Machine → Outcome A
  fault hang : Outcome A

abbrev pub M : Type 0 → Type 0
M A = Machine → Outcome A

infixl 5 ◌>>=◌ ◌>>◌
abbrev pub ◌>>=◌ : {A B : Type 0} → M A → (A → M B) → M B
◌>>=◌ x f m = elim (x m) [ done a m' ↦ f a m' | fault ↦ fault | hang ↦ hang ]

abbrev pub ◌>>◌ : {A B : Type 0} → M A → M B → M B
x >> y = x >>= λ _. y

abbrev pub return : {A : Type 0} → A → M A
return a m = done a m

abbrev pub skip : M (Unit {0})
skip m = done tt m

-- A call that acts on the board.
abbrev pub call : Call → M (Unit {0})
call c m = done tt (record m { trace = c ∷ m.trace })

-- A call that reads the board: the answer depends on the calls before it.
abbrev pub ask : {A : Type 0} → Call → (List Call → A) → M A
ask c answer m = done (answer m.trace) (record m { trace = c ∷ m.trace })

abbrev pub get : {A : Type 0} → (Machine → A) → M A
get f m = done (f m) m

abbrev pub modify : (Machine → Machine) → M (Unit {0})
modify f m = done tt (f m)

-- The memory access behind it lies outside an array.
abbrev pub crash : {A : Type 0} → M A
crash m = fault

abbrev pub set_webasto : (Webasto → Webasto) → M (Unit {0})
set_webasto f m = done tt (record m { webasto = f m.webasto })

abbrev pub set_heater : (Heater → Heater) → M (Unit {0})
set_heater f m = done tt (record m { heater = f m.heater })

abbrev pub set_water : (Water → Water) → M (Unit {0})
set_water f m = done tt (record m { water = f m.water })

abbrev pub set_link : (Link → Link) → M (Unit {0})
set_link f m = done tt (record m { link = f m.link })

abbrev pub set_comm : (Comm → Comm) → M (Unit {0})
set_comm f m = done tt (record m { comm = f m.comm })

-- for (i = first; i < first + n; i++)
abbrev pub for_range : ℕ → ℕ → (ℕ → M (Unit {0})) → M (Unit {0})
for_range zero i body m = done tt m
for_range (suc n) i body m = elim (body i m) [
  | done _ m' ↦ for_range n (suc i) body m'
  | fault ↦ fault
  | hang ↦ hang
]

-- Reading an element of an array.
abbrev pub index : {A : Type 0} → List A → ℕ → M A
index xs i m = elim (get_elem? xs i) [ some x ↦ done x m | none ↦ fault ]

-- Writing an element of an array that `set_array` puts back.
abbrev pub store : {A : Type 0} → List A → ℕ → A → (List A → M (Unit {0})) → M (Unit {0})
store xs i x set_array m = if ltb i (length xs) then set_array (set xs i x) m else fault
