-- ===== src/Heater/Telecommands.antt =====
-- What a telecommand does to the heater.
use freaky_camper_arduino.Base.{
  ℕ, ◌/◌, ◌≡◌, refl, Bool, true, false, not, some, ◌⊎◌, inl, inr, List, ◌∷◌,
}
use freaky_camper_arduino.Base.Int.{pos}
use freaky_camper_arduino.Board.{Call, analog_write, level}
use freaky_camper_arduino.Machine.{
  Machine, Returns, HeaterState, heater_off, heater_manual, heater_auto, heater_hot_manual,
  heater_hot_auto, other,
}
use freaky_camper_arduino.Config.{pout_webasto_fan_1, pout_webasto_fan_2}
use freaky_camper_arduino.Heater.{heater_got_tc}
use freaky_camper_arduino.Webasto.Laws.Driven.{IsDriven, Agrees}
use freaky_camper_arduino.Webasto.{air_fan}

-- Whether the heat of the burner is needed after a telecommand, given what was needed before.
abbrev pub needed : HeaterState → Bool → Bool
needed heater_hot_manual before = true
needed heater_hot_auto before = true
needed (other n) before = before
needed _ before = false

-- The state that is asked for after it.
abbrev pub asked : HeaterState → HeaterState → HeaterState
asked heater_off before = before
asked (other n) before = before
asked status before = status

-- No call, or two calls that stop the fans.
abbrev pub StopsFans : List Call → List Call → Type 0
StopsFans t t' =
    (t' ≡ t)
    ⊎ (t' ≡ analog_write pout_webasto_fan_2 (pos 0) ∷ analog_write pout_webasto_fan_1 (pos 0) ∷ t)

-- While the actual state is HEATER_OFF, a telecommand for the heater leaves it so and never turns a
-- fan on, whatever fan speeds it carries; it sets the target temperature to half its byte, asks for
-- the burner's heat in the two hot states, withdraws it in the three others and leaves it as it was
-- for a byte that names no state, and records the state asked for unless that is HEATER_OFF or none.
pub heater_got_tc_lem :
    (status : HeaterState) (fan1 fan2 temp : ℕ) (m : Machine)
    → m.heater.actual_state ≡ heater_off
    → Returns
        (λ _ m'.
          (m'.heater.actual_state ≡ heater_off)
          × (m'.heater.target_temp ≡ temp / 2)
          × (m'.heater.need_heater_on ≡ needed status m.heater.need_heater_on)
          × (m'.heater.asked_state ≡ asked status m.heater.asked_state)
          × StopsFans m.trace m'.trace)
        (heater_got_tc status fan1 fan2 temp m)
unfolding heater_got_tc
heater_got_tc_lem heater_off f g t m e = (e, refl, refl, refl, inr refl)
heater_got_tc_lem heater_manual f g t m e = rw e (refl, refl, refl, refl, inl refl)
heater_got_tc_lem heater_auto f g t m e = rw e (refl, refl, refl, refl, inl refl)
heater_got_tc_lem heater_hot_manual f g t m e = rw e (refl, refl, refl, refl, inl refl)
heater_got_tc_lem heater_hot_auto f g t m e = rw e (refl, refl, refl, refl, inl refl)
heater_got_tc_lem (other n) f g t m e = (e, refl, refl, refl, inl refl)

-- A telecommand HEATER_OFF takes the burner's air fan pin, which is also the second heater fan's: it
-- drives the pin low and leaves the burner's variables as they are. If they agreed with the burner's
-- pins, they agree with them afterwards exactly if the air fan's state is off.
pub heater_got_tc_clash :
    (fan1 fan2 temp : ℕ) (m : Machine)
    → IsDriven m
    → Returns
        (λ _ m'.
          (m'.webasto ≡ m.webasto)
          × (level air_fan m'.trace ≡ some false)
          × Agrees (not m.webasto.air_fan_state) m')
        (heater_got_tc heater_off fan1 fan2 temp m)
unfolding heater_got_tc level
heater_got_tc_clash f g t m d = (refl, refl, go m.webasto.air_fan_state refl)
  where
    stopped : Machine
    stopped = record m {
      trace =
          analog_write pout_webasto_fan_2 (pos 0)
          ∷ analog_write pout_webasto_fan_1 (pos 0)
          ∷ m.trace;
      heater = record m.heater { target_temp = t / 2; need_heater_on = false };
    }

    go : (b : Bool) → m.webasto.air_fan_state ≡ b → Agrees (not b) stopped
    go true e = λ s. cc (s.air_fan_level, e)
    go false e = record {
      air_fan_level = cc e;
      water_pump_level = d.water_pump_level;
      glow_plug_level = d.glow_plug_level;
      cabin_heater_level = d.cabin_heater_level;
    }
