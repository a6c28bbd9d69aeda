-- ===== src/Webasto/Wait.antt =====
-- webasto.cpp: `measureTemp`, `wait` and `pulseFuelPump`.
use freaky_camper_arduino.Base.{
  ℕ, zero, suc, ◌+◌, ◌-◌, ◌%◌, ◌^◌, leb, ◌==◌, if◌then◌else◌, Bool, true, false, not, ◌&&◌, ◌||◌,
  Option, none, some,
}
use freaky_camper_arduino.Base.Int.{ℤ, pos, negsuc, leb_ℤ}
use freaky_camper_arduino.Board.{Env, millis, digital_write}
use freaky_camper_arduino.Machine.{hang, M, ◌>>=◌, ◌>>◌, return, skip, call, ask, get, SystemState}
use freaky_camper_arduino.Webasto.Modules.{fuel_pump, same_state, turn_on_off_system}

-- Temperatures are in quarters of a degree, the step of the thermocouple.
abbrev pub max_temperature : ℤ
max_temperature = pos 280

-- `!t`, the firmware's sign that the sensor is off.
abbrev pub is_zero : ℤ → Bool
is_zero (pos n) = n == 0
is_zero (negsuc n) = false

-- The retry loop of `measureTemp`: `n` rounds are left, and the round is number `i`.
pub first_reading : ℕ → (ℕ → Option ℤ) → ℕ → Option ℤ
first_reading zero read i = none
first_reading (suc n) read i = elim (read i) [
  | some t ↦ some t
  | none ↦ first_reading n read (i + 1)
]

abbrev pub or_zero : Option ℤ → ℤ
or_zero (some t) = t
or_zero none = pos 0

unfoldable pub measure_temp : Env → ℕ → M ℤ
unfolding first_reading
measure_temp env max_retries =
    get λ m. or_zero (first_reading max_retries (env.thermocouple m.trace) 0)

abbrev pub is_critical : ℤ → Bool
is_critical t = is_zero t || leb_ℤ max_temperature t

-- An interrupt that comes while `wait` polls.
unfoldable pub serve_interrupts : Env → M (Unit {0})
serve_interrupts env = do
  pressed ← get λ m. env.switch_pressed m.trace
  if pressed then turn_on_off_system env else skip

-- The two tests in the body of the loop of `wait`.
unfoldable pub interrupted : Env → Bool → Bool → SystemState → M Bool
unfolding measure_temp
interrupted env state_interrupt temp_interrupt current = do
  t ← (if temp_interrupt then measure_temp env 3 else return (pos 1))
  s ← get λ m. m.webasto.system_state
  return (temp_interrupt && is_critical t || state_interrupt && not (same_state s current))

unfoldable pub wait_loop : Env → ℕ → Bool → Bool → SystemState → ℕ → ℕ → M Bool
wait_loop env ms state_interrupt temp_interrupt current start zero m = hang
wait_loop env ms state_interrupt temp_interrupt current start (suc fuel) m =
    let rest = wait_loop env ms state_interrupt temp_interrupt current start fuel in
    (do
      now ← ask millis env.clock
      if leb ((now + 2 ^ 32 - start) % 2 ^ 32) ms
          then (do
            serve_interrupts env
            stop ← interrupted env state_interrupt temp_interrupt current
            if stop then return true else rest)
          else return false)
      m

unfoldable pub wait : Env → ℕ → Bool → Bool → M Bool
wait env ms state_interrupt temp_interrupt = do
  start ← ask millis env.clock
  current ← get λ m. m.webasto.system_state
  wait_loop env ms state_interrupt temp_interrupt current start env.fuel

unfoldable pub pulse_fuel_pump : Env → Bool → Bool → M Bool
pulse_fuel_pump env state_interrupt temp_interrupt = do
  call (digital_write fuel_pump true)
  stop ← wait env 100 state_interrupt temp_interrupt
  if stop then return true else (do call (digital_write fuel_pump false); return false)
