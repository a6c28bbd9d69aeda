-- ===== src/Manager/Builders.antt =====
-- The builders of telemetry put their code at the start of the send buffer and send nothing.
use freaky_camper_arduino.Base.{
  ℕ, zero, suc, ◌+◌, ◌*◌, ◌<◌, ◌≡◌, refl, ltb, true, Option, some, List, [], ◌∷◌, length, get_elem?,
  set, length-set, arith,
}
use freaky_camper_arduino.Board.{Env, Call, adk_snd_data}
use freaky_camper_arduino.Machine.{
  Machine, Heater, Water, call, ask, for_range, Runs, Runs-for_range, Runs-bind, total_rules, Leads,
  Leads-after, Runs-return,
}
use freaky_camper_arduino.Protocol.{
  put, put_temperature, put_switch, put_short, tm_builder_temperature, tm_builder_switch,
  tm_builder_tension, tm_builder_water,
}
use freaky_camper_arduino.Protocol.Sending.{put_lem}
use freaky_camper_arduino.Manager.Sized.{IsSized}

-- The count of bytes of each frame sent and the first byte behind its header, the last frame first.
abbrev pub sent_codes : List Call → List (ℕ × Option ℕ)
sent_codes [] = []
sent_codes (adk_snd_data n bytes ∷ t) = (n, get_elem? bytes 4) ∷ sent_codes t
sent_codes (_ ∷ t) = sent_codes t

-- The frames sent so far, and the code at the start of the send buffer.
pub record Coded (h : Heater) (w : Water) (c : ℕ) (f : List (ℕ × Option ℕ)) (m : Machine)
    : Type 0 where
  pub sized : IsSized h w m
  pub frames : sent_codes m.trace ≡ f
  pub code : get_elem? m.comm.tx_buffer 0 ≡ some c

abbrev Quiet : Call → Type 0
Quiet c = (t : List Call) → sent_codes (c ∷ t) ≡ sent_codes t

get_elem?-set_after : (tx : List ℕ) (i v : ℕ) → get_elem? (set tx (suc i) v) 0 ≡ get_elem? tx 0
get_elem?-set_after [] i v = refl
get_elem?-set_after (x ∷ tx) i v = refl

pub get_elem?-set_start : (tx : List ℕ) (v : ℕ) → 0 < length tx → get_elem? (set tx 0 v) 0 ≡ some v
get_elem?-set_start [] v k = absurd (omega arith)
get_elem?-set_start (x ∷ tx) v k = refl

module _ {h : Heater} {w : Water} {c : ℕ} {f : List (ℕ × Option ℕ)} where
  call-Runs : (d : Call) → Quiet d → Runs (Coded h w c f) (call d)
  call-Runs d q = record { at = λ m s. ground (arith, s.sized, q m.trace) }

  ask-Runs : {A : Type 0} (d : Call) (g : List Call → A) → Quiet d → Runs (Coded h w c f) (ask d g)
  ask-Runs d g q = record { at = λ m s. ground (arith, s.sized, q m.trace) }

  put_after-Runs : (i v : ℕ) → suc i < 32 → Runs (Coded h w c f) (put (suc i) v)
  put_after-Runs i v k = record {
    at = λ m s. rw (put_lem (suc i) v m (omega (arith, s.sized.tx_size))) (
        ground (
          arith,
          s.sized,
          length-set m.comm.tx_buffer (suc i) v,
          get_elem?-set_after m.comm.tx_buffer i v,
        ));
  }

  put-Runs : (i v : ℕ) → ltb 0 i ≡ true → i < 32 → Runs (Coded h w c f) (put i v)
  put-Runs zero v e k = absurd (ground arith)
  put-Runs (suc i) v e k = put_after-Runs i v k

  put_at-Runs : (i v : ℕ) → ltb 0 i ≡ true → ltb i 32 ≡ true → Runs (Coded h w c f) (put i v)
  put_at-Runs i v e d = put-Runs i v e (ground arith)

  put_temperature-Runs : (env : Env) (i : ℕ) → i < 7 → Runs (Coded h w c f) (put_temperature env i)
  unfolding put_temperature
  put_temperature-Runs env i k =
      search (total_rules, ask-Runs, λ (v : ℕ). put-Runs (1 + i) v (ground arith) (omega arith))
        depth 20

  put_switch-Runs : (env : Env) (i : ℕ) → i < 6 → Runs (Coded h w c f) (put_switch env i)
  unfolding put_switch
  put_switch-Runs env i k =
      search (total_rules, ask-Runs, λ (v : ℕ). put-Runs (1 + i) v (ground arith) (omega arith))
        depth 20

  put_short-Runs :
      (i : ℕ) → i < 2 → (ts : List ℕ) → length ts ≡ 2 → Runs (Coded h w c f) (put_short ts i)
  put_short-Runs i k ts e =
      let j : i < length ts = omega arith in
      search
        (
          total_rules,
          λ (v : ℕ). put-Runs (1 + 2 * i) v (ground arith) (omega arith),
          λ (v : ℕ). put-Runs (2 + 2 * i) v (ground arith) (omega arith),
          j,
        )
        depth 20

  put_temperatures-Runs : (env : Env) → Runs (Coded h w c f) (for_range 7 0 (put_temperature env))
  put_temperatures-Runs env =
      Runs-for_range 7 (put_temperature env) 7 0 (omega arith) (put_temperature-Runs env)

  put_switches-Runs : (env : Env) → Runs (Coded h w c f) (for_range 6 0 (put_switch env))
  put_switches-Runs env = Runs-for_range 6 (put_switch env) 6 0 (omega arith) (put_switch-Runs env)

-- The frames sent so far.
pub record Framed (h : Heater) (w : Water) (f : List (ℕ × Option ℕ)) (m : Machine) : Type 0 where
  pub sized : IsSized h w m
  pub frames : sent_codes m.trace ≡ f

module _ {h : Heater} {w : Water} {f : List (ℕ × Option ℕ)} where
  put_code-Leads : (c : ℕ) → Leads (Framed h w f) (Coded h w c f) (put 0 c)
  put_code-Leads c = record {
    at = λ m s. rw (put_lem 0 c m (omega (arith, s.sized.tx_size))) (
        ground (
          arith,
          s.sized,
          length-set m.comm.tx_buffer 0 c,
          get_elem?-set_start m.comm.tx_buffer c,
        ));
  }

  pub tm_builder_temperature-Leads :
      (env : Env) → Leads (Framed h w f) (Coded h w 72 f) (tm_builder_temperature env)
  unfolding tm_builder_temperature
  tm_builder_temperature-Leads env =
      search (Leads-after, total_rules, put_code-Leads, put_temperatures-Runs) depth 20

  pub tm_builder_switch-Leads :
      (env : Env) → Leads (Framed h w f) (Coded h w 74 f) (tm_builder_switch env)
  unfolding tm_builder_switch
  tm_builder_switch-Leads env =
      search (Leads-after, total_rules, put_code-Leads, put_switches-Runs) depth 20

  pub tm_builder_tension-Leads : Leads (Framed h w f) (Coded h w 71 f) tm_builder_tension
  unfolding tm_builder_tension
  tm_builder_tension-Leads = Leads-after _ _ (put_code-Leads 71) λ _. record {
    at = λ m s.
        (Runs-bind _ _
            (Runs-for_range 2 (put_short m.tensions) 2 0 (omega arith)
              λ i k. put_short-Runs i k m.tensions s.sized.tensions_size)
            (λ _. Runs-return 5)).at
          m s;
  }

  pub tm_builder_water-Leads :
      (env : Env) → Leads (Framed h w f) (Coded h w 73 f) (tm_builder_water env)
  unfolding tm_builder_water
  tm_builder_water-Leads env =
      search (Leads-after, total_rules, put_code-Leads, call-Runs, ask-Runs, put_at-Runs) depth 60
        fits 4000
