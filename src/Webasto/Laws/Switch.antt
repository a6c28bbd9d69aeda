-- ===== src/Webasto/Laws/Switch.antt =====
-- The interrupt service of the on/off switch.
use freaky_camper_arduino.Base.{
  ℕ, ◌+◌, ◌-◌, ◌%◌, ◌^◌, ◌≤◌, ◌<◌, ◌≡◌, refl, ltb, Bool, true, false, Bool-cases, inl, inr, arith,
}
use freaky_camper_arduino.Board.{Env}
use freaky_camper_arduino.Machine.{
  Machine, Returns, SystemState, on, off, remote_starting, remote_stopping, remote_shutdown,
}
use freaky_camper_arduino.Webasto.{turn_on_off_system, press, longer_than_debounce}

-- The state that one press leads to.
abbrev pub pressed : SystemState → SystemState
pressed remote_starting = remote_shutdown
pressed on = remote_stopping
pressed off = remote_starting
pressed s = s

abbrev pub Debounced : ℕ → Bool → Machine → Machine → Type 0
Debounced now true m m' =
    (m'.webasto.system_state ≡ pressed m.webasto.system_state)
    × (m'.webasto.last_debounce_time ≡ now)
Debounced now false m m' = m'.webasto ≡ m.webasto

press_lem :
    (s : SystemState) (m : Machine)
    → m.webasto.system_state ≡ s
    → Returns
        (λ _ m'.
          (m'.webasto.system_state ≡ pressed s)
          × (m'.webasto.last_debounce_time ≡ m.webasto.last_debounce_time))
        (press s m)
unfolding press
press_lem remote_starting m e = (refl, refl)
press_lem on m e = (refl, refl)
press_lem off m e = (refl, refl)
press_lem _ m e = (e, refl)

debounce_wraps :
    (a b : ℕ)
    → a ≤ b
    → b < a + 2 ^ 31
    → longer_than_debounce (b % 2 ^ 32) (a % 2 ^ 32) ≡ ltb (a + 100) b
debounce_wraps a b h k =
    let e : (b % 2 ^ 32 + 2 ^ 32 - a % 2 ^ 32) % 2 ^ 32 ≡ b - a = omega arith in rw e (ground arith)

-- Let the last counted press be at millisecond `a` and this one at `b`, less than 2^31 later, as the
-- clock shows them at 32 bits. If more than 100 milliseconds lie between, the press counts, also
-- over a wrap of the clock: REMOTE_STARTING is aborted, ON stops, OFF starts, the other states stay,
-- and the time is kept. If not, the burner's variables are as they were.
pub turn_on_off_system-Debounced :
    (env : Env) (m : Machine) (a b : ℕ)
    → m.webasto.last_debounce_time ≡ a % 2 ^ 32
    → env.clock m.trace ≡ b % 2 ^ 32
    → a ≤ b
    → b < a + 2 ^ 31
    → Returns (λ _ m'. Debounced (b % 2 ^ 32) (ltb (a + 100) b) m m') (turn_on_off_system env m)
unfolding turn_on_off_system
turn_on_off_system-Debounced env m a b ea eb h k =
    rw (eb, ea, debounce_wraps a b h k)
      (elim (Bool-cases (ltb (a + 100) b)) [
        | inl long ↦ rw long (press_lem m.webasto.system_state _ refl)
        | inr short ↦ rw short refl
      ])
