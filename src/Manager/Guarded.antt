-- ===== src/Manager/Guarded.antt =====
-- A telecommand makes no access outside an array, unless it names a light beyond the lights' table.
use freaky_camper_arduino.Base.{
  inl, inr, Bool-cases, ltb, ℕ, zero, suc, ◌≤◌, ◌<◌, ◌≡◌, sym, ap, subst, ◌∙◌, ◌==◌, ltb, true,
  some, List, [], ◌∷◌, length, get_elem?, get_elem?_split, sizes, get_elem?-sizes, arith,
}
use freaky_camper_arduino.Board.{Env, Call, Pin}
use freaky_camper_arduino.Machine.{
  Machine, Heater, Water, call, Ends, Over, Anything, Safe, safe_rules, Safe-if, Safe-skip,
  Safe-bind, Safe-given, Safe-Runs, Safe-Leads, Safe-Keeps, Safe-weaken, Runs, Gives, total_rules,
}
use freaky_camper_arduino.Light.{
  light_byte, light_on_off, light_command, set_light_dimmed_rgb_value,
}
use freaky_camper_arduino.Light.Switching.{light_on_off_lem}
use freaky_camper_arduino.Heater.{heater_state_of}
use freaky_camper_arduino.Heater.Apart.{heater_got_tc-Keeps}
use freaky_camper_arduino.Protocol.{
  rx, keep_alive, relay_command, light_telecommand, heater_command, dispatch,
  process_received_command,
}
use freaky_camper_arduino.Manager.Sized.{IsSized}
use freaky_camper_arduino.Manager.Race.{keep_alive-Answers}

-- The receive buffer and the lights' table are as given, and the other arrays have their sizes.
pub record Stocked (bytes : List ℕ) (conf : List (List ℕ)) (h : Heater) (w : Water) (m : Machine)
    : Type 0 where
  pub rx_bytes : m.comm.rx_buffer ≡ bytes
  pub lights : m.lights_conf ≡ conf
  pub sized : IsSized h w m

nines : (i n : ℕ) → get_elem? (9 ∷ 9 ∷ 9 ∷ []) i ≡ some n → n ≡ 9
nines zero n e = cc
nines (suc zero) n e = cc
nines (suc (suc zero)) n e = cc
nines (suc (suc (suc i))) n e = absurd (cc)

row_size :
    (conf : List (List ℕ)) (id : ℕ) (row : List ℕ)
    → sizes conf ≡ 9 ∷ 9 ∷ 9 ∷ []
    → get_elem? conf id ≡ some row
    → length row ≡ 9
row_size conf id row table e =
    nines id (length row)
      (subst (λ ns. get_elem? ns id ≡ some (length row)) table (get_elem?-sizes conf id row e))

module _ {bytes : List ℕ} {conf : List (List ℕ)} {h : Heater} {w : Water} where
  call-Runs : (c : Call) → Runs (Stocked bytes conf h w) (call c)
  call-Runs c = record { at = λ m s. ground (arith, s, s.sized) }

  rx-Gives : (i v : ℕ) → get_elem? bytes i ≡ some v → Gives (Stocked bytes conf h w) v (rx i)
  rx-Gives i v e = record { at = λ m s. ground (arith, s, s.sized, e) }

  rx-Runs : (i : ℕ) → i < length bytes → Runs (Stocked bytes conf h w) (rx i)
  rx-Runs i k =
      let (v, e, _) = get_elem?_split i bytes k in
      record { at = λ m s. ground (arith, s, s.sized, e) }

  module _ (table : sizes conf ≡ 9 ∷ 9 ∷ 9 ∷ []) (id : ℕ) (within : id < length conf) where
    light_byte-Runs :
        (column : ℕ) → column < 9 → Runs (Stocked bytes conf h w) (light_byte id column)
    light_byte-Runs column k =
        let (row, e, _) = get_elem?_split id conf within in
        let size : length row ≡ 9 = row_size conf id row table e in
        let (v, d, _) = get_elem?_split column row (omega arith) in
        record { at = λ m s. ground (arith, s, s.sized, e, d) }

    -- The same for a column that is a numeral.
    light_at-Runs :
        (column : ℕ) → ltb column 9 ≡ true → Runs (Stocked bytes conf h w) (light_byte id column)
    light_at-Runs column e = light_byte-Runs column (ground arith)

    light_on_off-Safe : (status : ℕ) → Safe (Stocked bytes conf h w) (light_on_off id status)
    light_on_off-Safe status =
        let (row, e, _) = get_elem?_split id conf within in
        let size : length row ≡ 9 = row_size conf id row table e in
        let (pin, ep, _) = get_elem?_split 2 row (omega arith) in
        let (st, es, _) = get_elem?_split 5 row (omega arith) in
        record {
          at = λ m s.
              subst (Ends ⊥ (Over Anything))
                (sym
                  (light_on_off_lem id status row pin st m (ap (λ c. get_elem? c id) s.lights ∙ e)
                    ep es).0)
                (record { holds = tt });
        }

    set_light_dimmed_rgb_value-Runs :
        (dim r g b : ℕ) → Runs (Stocked bytes conf h w) (set_light_dimmed_rgb_value id dim r g b)
    unfolding set_light_dimmed_rgb_value
    set_light_dimmed_rgb_value-Runs dim r g b =
        search (total_rules, call-Runs, light_at-Runs) depth 20

    light_command-Runs :
        (dim r g b : ℕ) → Runs (Stocked bytes conf h w) (light_command id dim r g b)
    unfolding light_command
    light_command-Runs dim r g b =
        search (total_rules, light_at-Runs, set_light_dimmed_rgb_value-Runs)

  -- The identifier of a light stands in byte 2.
  light_telecommand-Safe :
      (n id : ℕ)
      → 7 ≤ length bytes
      → sizes conf ≡ 9 ∷ 9 ∷ 9 ∷ []
      → get_elem? bytes 2 ≡ some id
      → (7 ≤ n → id < length conf)
      → Safe (Stocked bytes conf h w) (light_telecommand n)
  unfolding light_telecommand
  light_telecommand-Safe n id k table e within = elim (Bool-cases (ltb n 7)) [
    | inl short ↦ rw short Safe-skip
    | inr long ↦
        let named : id < length conf = within (ground (arith, long)) in
        rw long (
          Safe-bind (rx 1) _ (rx-Runs 1 (omega arith)) λ type.
            Safe-given id (rx 2) _ (rx-Gives 2 id e) (
              Safe-bind (rx 3) _ (rx-Runs 3 (omega arith)) λ a.
                Safe-if _ _ _ (λ _. light_on_off-Safe table id named a)
                  (Safe-bind (rx 4) _ (rx-Runs 4 (omega arith)) λ r.
                    Safe-bind (rx 5) _ (rx-Runs 5 (omega arith)) λ g.
                      Safe-bind (rx 6) _ (rx-Runs 6 (omega arith))
                        λ b. Safe-Runs _ (light_command-Runs table id named a r g b))))
  ]

  heater_command-Safe : 7 ≤ length bytes → Safe (Stocked bytes conf h w) heater_command
  unfolding heater_command
  heater_command-Safe k = Safe-bind (rx 1) _ (rx-Runs 1 (omega arith)) λ status.
      Safe-bind (rx 2) _ (rx-Runs 2 (omega arith)) λ f.
        Safe-bind (rx 3) _ (rx-Runs 3 (omega arith)) λ g.
          Safe-bind (rx 4) _ (rx-Runs 4 (omega arith))
            λ t. Safe-Keeps _ (heater_got_tc-Keeps (heater_state_of status) f g t)

  relay_command-Safe :
      (pin : Pin) → 7 ≤ length bytes → Safe (Stocked bytes conf h w) (relay_command pin)
  unfolding relay_command
  relay_command-Safe pin k =
      Safe-bind (rx 1) _ (rx-Runs 1 (omega arith)) λ v. Safe-Runs _ (call-Runs _)

  keep_alive-Safe : (env : Env) → Safe (Stocked bytes conf h w) (keep_alive env)
  keep_alive-Safe env =
      Safe-weaken (keep_alive env) (λ m s. s.sized) (Safe-Leads _ (keep_alive-Answers env))

  module _ (env : Env) (k : 7 ≤ length bytes) (table : sizes conf ≡ 9 ∷ 9 ∷ 9 ∷ []) where
    dispatch-Safe :
        (n code id : ℕ)
        → get_elem? bytes 2 ≡ some id
        → (7 ≤ n → code ≡ 13 → id < length conf)
        → Safe (Stocked bytes conf h w) (dispatch env n code)
    unfolding dispatch
    dispatch-Safe n code id e within =
        let light : (code == 13) ≡ true → Safe (Stocked bytes conf h w) (light_telecommand n) =
          λ t. light_telecommand-Safe n id k table e (λ l. within l (ground (arith, t))) in
        search (safe_rules, keep_alive-Safe, relay_command-Safe, heater_command-Safe) depth 30

    -- The command's code stands in byte 0.
    pub process_received_command-Safe :
        (n code id : ℕ)
        → get_elem? bytes 0 ≡ some code
        → get_elem? bytes 2 ≡ some id
        → (7 ≤ n → code ≡ 13 → id < length conf)
        → Safe (Stocked bytes conf h w) (process_received_command env n)
    unfolding process_received_command
    process_received_command-Safe n code id c e within =
        Safe-given code (rx 0) _ (rx-Gives 0 code c) (dispatch-Safe n code id e within)
