-- ===== src/Light/Switching.antt =====
-- `lightOnOff` of FreakyCampManager/light.cpp.
use freaky_camper_arduino.Base.{
  ℕ, ◌≡◌, refl, ap, ◌∙◌, Bool-cases, inl, inr, ◌==◌, ltb, false, some, [], if◌then◌else◌, get_elem?,
  set, ◌∷◌, List, length, ◌<◌, arith, zero, suc,
}
use freaky_camper_arduino.Board.{digital, digital_write}
use freaky_camper_arduino.Machine.{Machine, done}
use freaky_camper_arduino.Config.{light_pout_r, light_stat_dimm}
use freaky_camper_arduino.Light.{light_on_off}

get_elem?-set :
    {A : Type 0} (xs : List A) (i : ℕ) (x v : A)
    → get_elem? xs i ≡ some x
    → get_elem? (set xs i v) i ≡ some v
get_elem?-set [] i x v e = absurd (ground arith)
get_elem?-set (y ∷ xs) zero x v e = refl
get_elem?-set (y ∷ xs) (suc i) x v e = get_elem?-set xs i x v e

get_elem?-length :
    {A : Type 0} (xs : List A) (i : ℕ) (x : A) → get_elem? xs i ≡ some x → i < length xs
get_elem?-length [] i x e = absurd (ground arith)
get_elem?-length (y ∷ xs) zero x e = omega arith
get_elem?-length (y ∷ xs) (suc i) x e = omega (arith, get_elem?-length xs i x e)

-- The machine with the light's state recorded and its pin driven.
abbrev pub switched : ℕ → List ℕ → ℕ → ℕ → Machine → Machine
switched light_id row pin status m = record m {
  lights_conf = set m.lights_conf light_id (set row light_stat_dimm status);
  trace = digital_write (digital pin) (ltb 0 status) ∷ m.trace;
}

light_on_off-new :
    (light_id status : ℕ) (row : List ℕ) (pin st : ℕ) (m : Machine)
    → get_elem? m.lights_conf light_id ≡ some row
    → get_elem? row light_pout_r ≡ some pin
    → get_elem? row light_stat_dimm ≡ some st
    → (st == status) ≡ false
    → light_on_off light_id status m ≡ done tt (switched light_id row pin status m)
unfolding light_on_off
light_on_off-new light_id status row pin st m e ep es d = ground (
  arith,
  get_elem?-length m.lights_conf light_id row e,
  get_elem?-length row light_stat_dimm st es,
)

light_on_off-old :
    (light_id status : ℕ) (row : List ℕ) (m : Machine)
    → get_elem? m.lights_conf light_id ≡ some row
    → get_elem? row light_stat_dimm ≡ some status
    → light_on_off light_id status m ≡ done tt m
unfolding light_on_off
light_on_off-old light_id status row m e es = ground arith

-- The machine after the command, by the state that the light had.
abbrev pub after : ℕ → List ℕ → ℕ → ℕ → ℕ → Machine → Machine
after light_id row pin st status m = if st == status then m else switched light_id row pin status m

-- For a light whose row holds a pin and a state, the command drives that pin once and records the
-- state if the state is another one, and does nothing otherwise; the same command again then does
-- nothing.
pub light_on_off_lem :
    (light_id status : ℕ) (row : List ℕ) (pin st : ℕ) (m : Machine)
    → get_elem? m.lights_conf light_id ≡ some row
    → get_elem? row light_pout_r ≡ some pin
    → get_elem? row light_stat_dimm ≡ some st
    → (light_on_off light_id status m ≡ done tt (after light_id row pin st status m))
      × (light_on_off light_id status (after light_id row pin st status m)
          ≡ done tt (after light_id row pin st status m))
light_on_off_lem light_id status row pin st m e ep es = elim (Bool-cases (st == status)) [
  | inl t ↦
      (let u : st ≡ status = ground arith in
        let k = light_on_off-old light_id status row m e (es ∙ ap some u) in rw t (k, k))
  | inr f ↦ rw f (
    light_on_off-new light_id status row pin st m e ep es f,
    light_on_off-old light_id status (set row light_stat_dimm status)
        (switched light_id row pin status m)
        (get_elem?-set m.lights_conf light_id row (set row light_stat_dimm status) e)
        (get_elem?-set row light_stat_dimm st status es),
  )
]
