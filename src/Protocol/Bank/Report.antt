-- ===== src/Protocol/Bank/Report.antt =====
-- protocol.cpp: the telemetry of the switches, against the bank.
use freaky_camper_arduino.Base.{
  ℕ, zero, suc, ap, none, length-set, ◌+◌, ◌<◌, ◌≤◌, ◌≡◌, refl, ◌∙◌, some, List, [], ◌∷◌, length,
  get_elem?, set, take, arith,
}
use freaky_camper_arduino.Board.{Env, Pin, digital_read, level}
use freaky_camper_arduino.Machine.{
  Machine, Returns, Returns-bind, Returns-mono, for_range, return, Leads, Leads-for_range,
}
use freaky_camper_arduino.Protocol.{tm_builder_switch, put_switch, bit, put}
use freaky_camper_arduino.Protocol.Sending.{put_lem, with_tx}
use freaky_camper_arduino.Protocol.Bank.{Bank, report, Shows, ReadsBack, states, shown}

-- The send buffer `tx` with the code and the first `j` states written.
abbrev state_bit : Bank → ℕ → ℕ
state_bit b j = elim (get_elem? (states b) j) [ some v ↦ bit v | none ↦ 0 ]

abbrev filled : Bank → List ℕ → ℕ → List ℕ
filled b tx zero = set tx 0 74
filled b tx (suc j) = set (filled b tx j) (1 + j) (state_bit b j)

length-filled : (b : Bank) (tx : List ℕ) (j : ℕ) → length (filled b tx j) ≡ length tx
length-filled b tx zero = length-set tx 0 74
length-filled b tx (suc j) =
    length-set (filled b tx j) (1 + j) (state_bit b j) ∙ length-filled b tx j

write-Shows : (b : Bank) (m : Machine) (tx : List ℕ) → Shows b m → Shows b (with_tx m tx)
write-Shows b m tx s = record {
  water = s.water;
  fridge = s.fridge;
  heating = s.heating;
  aux = s.aux;
  spare = s.spare;
  light = s.light;
}

read-Shows :
    (b : Bank) (m : Machine) (pin : Pin) (tx : List ℕ)
    → Shows b m
    → Shows b (with_tx (record m { trace = digital_read pin ∷ m.trace }) tx)
unfolding level
read-Shows b m pin tx s = record {
  water = s.water;
  fridge = s.fridge;
  heating = s.heating;
  aux = s.aux;
  spare = s.spare;
  light = s.light;
}

module _ (env : Env) (reads : ReadsBack env) (b : Bank) (tx : List ℕ) (room : 7 ≤ length tx) where
  abbrev Filled : ℕ → Machine → Type 0
  Filled j m = Shows b m × (m.comm.tx_buffer ≡ filled b tx j)

  put_switch-Leads : (j : ℕ) → j < 6 → Leads (Filled j) (Filled (suc j)) (put_switch env j)
  unfolding put_switch level
  put_switch-Leads j k = record {
    at = λ m s.
        let (pin, v, e, d, l) = shown j b m k s.0 in
        rw
          (
            e,
            reads m.trace pin v l,
            put_lem (1 + j) (bit v) (record m { trace = digital_read pin ∷ m.trace })
                (omega (arith, ap length s.1, length-filled b tx j)),
          )
          (read-Shows b m pin (set m.comm.tx_buffer (1 + j) (bit v)) s.0, rw (s.1, d));
  }

  code_then : Leads (λ m. Shows b m × (m.comm.tx_buffer ≡ tx)) (Filled 0) (put 0 74)
  code_then = record {
    at = λ m s.
        rw (put_lem 0 74 m (omega (arith, ap length s.1)))
          (write-Shows b m (set m.comm.tx_buffer 0 74) s.0, rw s.1);
  }

  tm_builder_switch-Filled :
      (m : Machine)
      → Shows b m
      → m.comm.tx_buffer ≡ tx
      → Returns (λ n m'. (n ≡ 7) × Filled 6 m') (tm_builder_switch env m)
  unfolding tm_builder_switch
  tm_builder_switch-Filled m s e =
      Returns-bind (λ _ m'. Filled 0 m') _ (put 0 74) _ m (code_then.at m (s, e))
        λ _ m₁ s₁.
          Returns-bind (λ _ m'. Filled 6 m') _ (for_range 6 0 (put_switch env)) (λ _. return 7) m₁
            ((Leads-for_range Filled 6 (put_switch env) put_switch-Leads 6 0 refl).at m₁ s₁)
            λ _ m₂ s₂. (refl, s₂)

take-filled : (b : Bank) (tx : List ℕ) → 7 ≤ length tx → take 7 (filled b tx 6) ≡ report b
take-filled b [] k = absurd (omega arith)
take-filled b (x0 ∷ []) k = absurd (omega arith)
take-filled b (x0 ∷ x1 ∷ []) k = absurd (omega arith)
take-filled b (x0 ∷ x1 ∷ x2 ∷ []) k = absurd (omega arith)
take-filled b (x0 ∷ x1 ∷ x2 ∷ x3 ∷ []) k = absurd (omega arith)
take-filled b (x0 ∷ x1 ∷ x2 ∷ x3 ∷ x4 ∷ []) k = absurd (omega arith)
take-filled b (x0 ∷ x1 ∷ x2 ∷ x3 ∷ x4 ∷ x5 ∷ []) k = absurd (omega arith)
take-filled b (x0 ∷ x1 ∷ x2 ∷ x3 ∷ x4 ∷ x5 ∷ x6 ∷ rest) k = refl

pub reported :
    (env : Env) (b : Bank) (m : Machine)
    → ReadsBack env
    → Shows b m
    → 7 ≤ length m.comm.tx_buffer
    → Returns (λ n m'. (n ≡ 7) × (take 7 m'.comm.tx_buffer ≡ report b)) (tm_builder_switch env m)
reported env b m reads s k =
    Returns-mono _ _ (tm_builder_switch env m)
      (tm_builder_switch-Filled env reads b m.comm.tx_buffer k m s refl)
      λ n m' g. (g.0, ap (take 7) g.1.1 ∙ take-filled b m.comm.tx_buffer k)
