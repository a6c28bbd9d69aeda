-- ===== src/Board.antt =====
-- The board that the firmware runs on: the Arduino core and the libraries beside FreakyCampManager
-- (USB_Host_Shield_20, DallasTemperature, Button, Timer1), which the firmware only calls.
-- Each call that acts on the board or reads it is an entry of a trace, newest first. What a read
-- returns is a function of the calls made so far, a field of `Env`.
use freaky_camper_arduino.Base.{
  ℕ, ◌==◌, if◌then◌else◌, Bool, true, false, List, [], ◌∷◌, Option, none, some,
}
use freaky_camper_arduino.Base.Int.{ℤ, pos, negsuc}

-- The digital pins by number, and the analog inputs A0, A1, … by theirs.
pub data Pin : Type 0 where
  digital analog : ℕ → Pin

pub data PinMode : Type 0 where
  input output : PinMode

-- The registers of the pin change interrupts.
pub data Register : Type 0 where
  pcicr pcmsk1 : Register

pub data Call : Type 0 where
  pin_mode : Pin → PinMode → Call
  digital_write : Pin → Bool → Call
  analog_write : Pin → ℤ → Call
  digital_read : Pin → Call
  analog_read : Pin → Call
  millis : Call
  delay : ℕ → Call
  attach_interrupt : ℕ → Call
  write_register : Register → ℕ → Call
  sei cli : Call
  serial_begin : ℕ → Call
  usb_init usb_task : Call
  adk_is_ready adk_rcv_data adk_release : Call
  adk_snd_data : ℕ → List ℕ → Call
  sensors_begin request_temperatures : Call
  set_resolution : List ℕ → ℕ → Call
  get_address : ℕ → Call
  get_temp_c : List ℕ → Call
  timer_initialize : ℕ → Call
  timer_attach_interrupt : Call
  button_read : ℕ → Call
  button_was_released : ℕ → Call

-- What `ADK::RcvData` gives: its return code, the count of bytes, and the bytes of the message.
pub record Reception : Type 0 where
  pub rcode : ℕ
  pub len : ℕ
  pub msg : List ℕ

-- The answers of the board. `fuel` bounds the rounds of the loops that wait for the clock.
pub record Env : Type 0 where
  pub digital_level : List Call → Pin → Bool
  pub analog_level : List Call → Pin → ℕ
  pub clock : List Call → ℕ
  -- The n-th attempt to read the burner's thermocouple, in quarters of a degree; `none` is NAN.
  pub thermocouple : List Call → ℕ → Option ℤ
  -- Whether the interrupt of the burner's on/off switch is served at this point.
  pub switch_pressed : List Call → Bool
  pub usb_ok : List Call → Bool
  pub adk_ready : List Call → Bool
  pub reception : List Call → Reception
  pub ack : List Call → ℕ
  -- The temperature of a probe in 1/128 of a degree, the unit of DallasTemperature.
  pub temperature : List Call → List ℕ → ℤ
  pub released : List Call → ℕ → Bool
  -- The conversions of a float to `short` and to `byte`; C defines them within the range only.
  pub short_of : ℕ → ℕ
  pub byte_of : ℤ → ℕ
  -- What two local variables hold that no statement has set.
  pub uninit : List Call → ℕ × ℕ
  pub fuel : ℕ

abbrev pub same_pin : Pin → Pin → Bool
same_pin (digital a) (digital b) = a == b
same_pin (analog a) (analog b) = a == b
same_pin _ _ = false

-- What `analogWrite` makes of a pin: always off for 0, always on for 255, and otherwise pulses.
abbrev pub pulsed : ℤ → Option Bool
pulsed (pos n) = if n == 0 then some false else if n == 255 then some true else none
pulsed (negsuc n) = none

-- The level that a pin is last driven to, if it is a steady one.
unfoldable pub level : Pin → List Call → Option Bool
level p [] = none
level p (digital_write q v ∷ t) = if same_pin q p then some v else level p t
level p (analog_write q v ∷ t) = if same_pin q p then pulsed v else level p t
level p (_ ∷ t) = level p t
