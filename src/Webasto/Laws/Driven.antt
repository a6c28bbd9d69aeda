-- ===== src/Webasto/Laws/Driven.antt =====
-- The state variables of the burner's modules agree with the levels of their pins.
use freaky_camper_arduino.Base.{
  ◌≤◌, ◌≡◌, sym, ap, ◌∙◌, Bool, true, false, ◌⊎◌, inl, inr, some, arith,
}
use freaky_camper_arduino.Base.Int.{pos, leb_ℤ, ◌+ℤ◌}
use freaky_camper_arduino.Board.{level}
use freaky_camper_arduino.Machine.{Machine}
use freaky_camper_arduino.Webasto.{air_fan, water_pump, glow_plug, cabin_heater, max_start_attempts}
use freaky_camper_arduino.Webasto.Laws.Idle.{Idles, others, Frozen}

pub record IsDriven (m : Machine) : Type 0 where
  pub air_fan_level : level air_fan m.trace ≡ some m.webasto.air_fan_state
  pub water_pump_level : level water_pump m.trace ≡ some m.webasto.water_pump_state
  pub glow_plug_level : level glow_plug m.trace ≡ some m.webasto.glow_plug_state
  pub cabin_heater_level : level cabin_heater m.trace ≡ some m.webasto.cabin_heater_state

-- Whether they agree.
abbrev pub Agrees : Bool → Machine → Type 0
Agrees true m = IsDriven m
Agrees false m = ¬ IsDriven m

-- The cabin is heated only with a burner that has become warm enough.
abbrev pub IsWarm : Machine → Type 0
IsWarm m =
    (m.webasto.cabin_heater_state ≡ false)
    ⊎ (leb_ℤ (m.webasto.initial_temperature +ℤ pos 40) m.webasto.previous_temperature ≡ true)

-- What holds throughout an attempt that began in `m`.
pub record IsGood (m m' : Machine) : Type 0 where
  pub driven : IsDriven m'
  pub warm : IsWarm m'
  pub few : m'.webasto.starting_attempts ≤ max_start_attempts
  pub alone : others m' ≡ others m

pub Idles-IsDriven : {m m' : Machine} → Idles m m' → IsDriven m → IsDriven m'
Idles-IsDriven i d = record {
  air_fan_level =
      i.same_level air_fan
      ∙ d.air_fan_level
      ∙ ap (λ (f : Frozen). some f.air_fan_state) (sym i.same);
  water_pump_level =
      i.same_level water_pump
      ∙ d.water_pump_level
      ∙ ap (λ (f : Frozen). some f.water_pump_state) (sym i.same);
  glow_plug_level =
      i.same_level glow_plug
      ∙ d.glow_plug_level
      ∙ ap (λ (f : Frozen). some f.glow_plug_state) (sym i.same);
  cabin_heater_level =
      i.same_level cabin_heater
      ∙ d.cabin_heater_level
      ∙ ap (λ (f : Frozen). some f.cabin_heater_state) (sym i.same);
}

Idles-IsWarm : {m m' : Machine} → Idles m m' → IsWarm m → IsWarm m'
Idles-IsWarm i (inl h) = inl (ap (λ (f : Frozen). f.cabin_heater_state) i.same ∙ h)
Idles-IsWarm i (inr h) =
    inr (
      ap (λ (f : Frozen). leb_ℤ (f.initial_temperature +ℤ pos 40) f.previous_temperature) i.same
      ∙ h)

pub Idles-IsGood : {m₀ m m' : Machine} → Idles m m' → IsGood m₀ m → IsGood m₀ m'
Idles-IsGood i g = record {
  driven = Idles-IsDriven i g.driven;
  warm = Idles-IsWarm i g.warm;
  few = omega (arith, i.few_attempts, g.few);
  alone = ap (λ (f : Frozen). f.others) i.same ∙ g.alone;
}
