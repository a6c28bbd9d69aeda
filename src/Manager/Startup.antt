-- ===== src/Manager/Startup.antt =====
-- freakyCampManagerStart: what stands on the board once it has come back.
use freaky_camper_arduino.Base.{
  ℕ, suc, ◌≡◌, refl, sym, ◌∙◌, subst, replicate, arith, Bool, true, false, some, List, [], ◌∷◌,
}
use freaky_camper_arduino.Board.{
  Env, Call, Pin, digital, sei, serial_begin, timer_initialize, timer_attach_interrupt, level,
}
use freaky_camper_arduino.Config.{electrical_lines_pins, initial_lights_conf}
use freaky_camper_arduino.Machine.{Machine, Outcome, Returns, done, hang, relay_levels}
use freaky_camper_arduino.Manager.{freaky_camp_manager_start}

-- How often the timer's service has been attached.
abbrev pub attached : List Call → ℕ
attached [] = 0
attached (timer_attach_interrupt ∷ t) = suc (attached t)
attached (_ ∷ t) = attached t

-- Each of the pins is driven low; each is as it was.
abbrev pub AllLow : List Pin → List Call → Type 0
AllLow [] t = Unit {0}
AllLow (pin ∷ pins) t = (level pin t ≡ some false) × AllLow pins t

abbrev pub AllKept : List Pin → List Call → List Call → Type 0
AllKept [] t t' = Unit {0}
AllKept (pin ∷ pins) t t' = (level pin t' ≡ level pin t) × AllKept pins t t'

-- From `m` to `m'`.
pub record IsReady (m : Machine) (m' : Machine) : Type 0 where
  pub same_variables : m' ≡ record m { trace = m'.trace }
  pub relays_off : AllLow electrical_lines_pins m'.trace
  pub lights_off : AllLow (digital 36 ∷ digital 37 ∷ []) m'.trace
  pub rgb_kept : AllKept (digital 5 ∷ digital 6 ∷ digital 7 ∷ []) m.trace m'.trace
  pub before : List Call
  pub armed : m'.trace ≡ sei ∷ timer_attach_interrupt ∷ timer_initialize 2000000 ∷ before
  pub relays_off_before : AllLow electrical_lines_pins before
  pub lights_off_before : AllLow (digital 36 ∷ digital 37 ∷ []) before
  pub unattached : attached before ≡ attached m.trace

-- By whether the USB host has started.
pub Starts : Bool → Machine → Outcome (Unit {0}) → Type 0
Starts true m o = Returns (λ _ m'. IsReady m m') o
Starts false m o = o ≡ hang

-- With the lights' table as the program is built with, the start never comes back if the USB host does
-- not start. If it does, the start comes back with every variable as it was, with every relay and the
-- two switched lights driven low and the three pins of the colour light as they were. Its last three
-- calls set up the timer for two seconds, attach its service and call `sei`; no call before them
-- attaches the service, and the relays and the two lights are low already then, before a service can
-- come.
pub freaky_camp_manager_start-Starts :
    (env : Env) (ok : Bool) (m : Machine)
    → m.lights_conf ≡ initial_lights_conf
    → env.usb_ok (serial_begin 115200 ∷ m.trace) ≡ ok
    → Starts ok m (freaky_camp_manager_start env m)
unfolding freaky_camp_manager_start Starts level
freaky_camp_manager_start-Starts env true m table e =
    rw (e, table)
      (record {
        same_variables = refl;
        relays_off = (refl, (refl, (refl, (refl, (refl, (refl, tt))))));
        lights_off = (refl, (refl, tt));
        rgb_kept = (refl, (refl, (refl, tt)));
        before = _;
        armed = refl;
        relays_off_before = (refl, (refl, (refl, (refl, (refl, (refl, tt))))));
        lights_off_before = (refl, (refl, tt));
        unattached = refl;
      })
freaky_camp_manager_start-Starts env false m table e = rw e refl

all_low :
    (t : List Call) → AllLow electrical_lines_pins t → relay_levels t ≡ replicate 6 (some false)
unfolding relay_levels
all_low t low = ground (arith, low)

pub freaky_camp_manager_start-relay_levels :
    (env : Env) (m m' : Machine)
    → m.lights_conf ≡ initial_lights_conf
    → freaky_camp_manager_start env m ≡ done tt m'
    → relay_levels m'.trace ≡ replicate 6 (some false)
unfolding Starts
freaky_camp_manager_start-relay_levels env m m' table s =
    go (env.usb_ok (serial_begin 115200 ∷ m.trace)) refl
  where
    go :
        (ok : Bool)
        → env.usb_ok (serial_begin 115200 ∷ m.trace) ≡ ok
        → relay_levels m'.trace ≡ replicate 6 (some false)
    go true e =
        let ready : IsReady m m' =
          subst (Starts true m) s (freaky_camp_manager_start-Starts env true m table e) in
        all_low m'.trace ready.relays_off
    go false e =
        let hangs : freaky_camp_manager_start env m ≡ hang =
          freaky_camp_manager_start-Starts env false m table e in
        absurd (ground (arith, sym s ∙ hangs))
