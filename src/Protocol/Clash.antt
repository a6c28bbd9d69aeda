-- ===== src/Protocol/Clash.antt =====
-- A telecommand for the RGB light, whose pins are those of the burner's water pump and glow plug.
use freaky_camper_arduino.Base.{Option, some, none, not, Bool, true, false}
use freaky_camper_arduino.Machine.{Machine, Webasto}

-- Whether a level is the one of a module's state.
abbrev pub shows : Option Bool → Bool → Bool
shows (some true) v = v
shows (some false) v = not v
shows none v = false
