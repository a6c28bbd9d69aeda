-- ===== src/Machine/Relays.antt =====
-- The levels of the relays' pins, and the calls that leave them alone.
use freaky_camper_arduino.Base.{
  ◌≡◌, refl, Bool, true, false, if◌then◌else◌, List, [], ◌∷◌, Option, arith,
}
use freaky_camper_arduino.Base.Int.{ℤ}
use freaky_camper_arduino.Board.{Call, Pin, digital_write, analog_write, same_pin, level}
use freaky_camper_arduino.Config.{electrical_lines_pins}

abbrev levels : List Pin → List Call → List (Option Bool)
levels [] t = []
levels (pin ∷ pins) t = level pin t ∷ levels pins t

-- The levels that the relays' pins were last driven to, in the order of `electricalLinesPins`.
unfoldable pub relay_levels : List Call → List (Option Bool)
relay_levels t = levels electrical_lines_pins t

-- The call drives none of the pins.
abbrev apart : List Pin → Pin → Bool
apart [] q = true
apart (pin ∷ pins) q = if same_pin q pin then false else apart pins q

abbrev pub spares : Call → Bool
spares (digital_write q v) = apart electrical_lines_pins q
spares (analog_write q v) = apart electrical_lines_pins q
spares _ = true

levels-digital_write :
    (pins : List Pin) (q : Pin) (v : Bool) (t : List Call)
    → apart pins q ≡ true
    → levels pins (digital_write q v ∷ t) ≡ levels pins t
unfolding level
levels-digital_write [] q v t e = refl
levels-digital_write (pin ∷ pins) q v t e = ground (arith, e, levels-digital_write pins q v t)

levels-analog_write :
    (pins : List Pin) (q : Pin) (v : ℤ) (t : List Call)
    → apart pins q ≡ true
    → levels pins (analog_write q v ∷ t) ≡ levels pins t
unfolding level
levels-analog_write [] q v t e = refl
levels-analog_write (pin ∷ pins) q v t e = ground (arith, e, levels-analog_write pins q v t)

pub spares-relay_levels :
    (c : Call) (t : List Call) → spares c ≡ true → relay_levels (c ∷ t) ≡ relay_levels t
unfolding relay_levels level
spares-relay_levels (digital_write q v) t e = levels-digital_write electrical_lines_pins q v t e
spares-relay_levels (analog_write q v) t e = levels-analog_write electrical_lines_pins q v t e
spares-relay_levels _ t e = refl
