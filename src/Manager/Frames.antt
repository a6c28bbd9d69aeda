-- ===== src/Manager/Frames.antt =====
-- The frames that a service of the timer sends.
use freaky_camper_arduino.Base.{
  ℕ, zero, suc, ◌+◌, ◌≤◌, ◌<◌, ◌≡◌, refl, Option, some, List, [], ◌∷◌, get_elem?, take, arith,
}
use freaky_camper_arduino.Board.{Env}
use freaky_camper_arduino.Machine.{
  Machine, Heater, Water, M, ◌>>=◌, ◌>>◌, Returns, Returns-bind, Returns-mono, Leads, Leads-then,
  Returns-both, Gives,
}
use freaky_camper_arduino.Protocol.{send_tm, tm_builder_tension, tm_builder_water}
use freaky_camper_arduino.Protocol.Sending.{acknowledged, sent, frame, send_tm_lem}
use freaky_camper_arduino.Manager.{send_all_telemetry}
use freaky_camper_arduino.Manager.Sized.{
  IsSized, send_tm-Runs, tm_builder_temperature-Gives, tm_builder_switch-Gives,
  tm_builder_water-Gives,
}
use freaky_camper_arduino.Manager.Builders.{
  sent_codes, Coded, Framed, tm_builder_temperature-Leads, tm_builder_switch-Leads,
  tm_builder_tension-Leads, tm_builder_water-Leads,
}

frame_code :
    (n c : ℕ) (tx : List ℕ)
    → 0 < n
    → get_elem? tx 0 ≡ some c
    → get_elem? (frame (take n tx)) 4 ≡ some c
frame_code zero c tx k e = absurd (omega arith)
frame_code (suc n) c [] k e = absurd (ground arith)
frame_code (suc n) c (x ∷ tx) k e = e

module _ {h : Heater} {w : Water} {f : List (ℕ × Option ℕ)} where
  pub send_tm-Leads :
      (env : Env) (n c : ℕ)
      → 0 < n
      → n ≤ 24
      → Leads (Coded h w c f) (Framed h w ((n + 8, some c) ∷ f)) (send_tm env n)
  send_tm-Leads env n c k l = record {
    at = λ m s.
        Returns-mono _ _ (send_tm env n m)
          (Returns-both (λ _ m'. IsSized h w m') (λ _ m'. sent_codes m'.trace ≡ (n + 8, some c) ∷ f)
            (send_tm env n m) ((send_tm-Runs env n k l).at m s.sized) (one_more m s))
          λ _ m' g. record { sized = g.0; frames = g.1 };
  }
    where
      acked :
          (ack : ℕ) (m : Machine)
          → sent_codes m.trace ≡ (n + 8, some c) ∷ f
          → sent_codes (acknowledged ack m).trace ≡ (n + 8, some c) ∷ f
      acked ack m e = ground arith

      one_more :
          (m : Machine)
          → Coded h w c f m
          → Returns (λ _ m'. sent_codes m'.trace ≡ (n + 8, some c) ∷ f) (send_tm env n m)
      one_more m s = rw (send_tm_lem env n m k (omega (arith, s.sized.tx_size)) (omega arith)) (
          acked (env.ack m.trace) (sent m n)
            (rw (frame_code n c m.comm.tx_buffer k s.code, s.frames) refl))

  -- A builder of `n` bytes with the code `c`, its frame, and what follows.
  report-Leads :
      (env : Env) (n c : ℕ) (x : M ℕ) (rest : M (Unit {0})) (Q : Machine → Type 0)
      → 0 < n
      → n ≤ 24
      → Gives (IsSized h w) n x
      → Leads (Framed h w f) (Coded h w c f) x
      → Leads (Framed h w ((n + 8, some c) ∷ f)) Q rest
      → Leads (Framed h w f) Q (do a ← x; send_tm env a; rest)
  report-Leads env n c x rest Q k l g e r = record {
    at = λ m s.
        Returns-bind _ _ x _ m (Returns-both _ _ (x m) (g.at m s.sized) (e.at m s)) λ a m' b.
          rw b.0.0 (
            (Leads-then (send_tm env n) (λ _. rest) (send_tm-Leads env n c k l) (λ _. r)).at m'
              b.1);
  }

  report_last-Leads :
      (env : Env) (n c : ℕ) (x : M ℕ)
      → 0 < n
      → n ≤ 24
      → Gives (IsSized h w) n x
      → Leads (Framed h w f) (Coded h w c f) x
      → Leads (Framed h w f) (Framed h w ((n + 8, some c) ∷ f)) (x >>= send_tm env)
  report_last-Leads env n c x k l g e = record {
    at = λ m s.
        Returns-bind _ _ x _ m (Returns-both _ _ (x m) (g.at m s.sized) (e.at m s))
          λ a m' b. rw b.0.0 ((send_tm-Leads env n c k l).at m' b.1);
  }

  unsent-Leads :
      (c : ℕ) (x : M ℕ)
      → Leads (Framed h w f) (Coded h w c f) x
      → Leads (Framed h w f) (Framed h w f) x
  unsent-Leads c x e = record {
    at = λ m s.
        Returns-mono _ _ (x m) (e.at m s) λ _ m' g. record { sized = g.sized; frames = g.frames };
  }

  unsent_then-Leads :
      (env : Env)
      → Leads
          (Framed h w f)
          (Framed h w ((15, some 73) ∷ f))
          (do tm_builder_tension; c ← tm_builder_water env; send_tm env c)
  unsent_then-Leads env =
      Leads-then tm_builder_tension _ (unsent-Leads 71 _ tm_builder_tension-Leads) λ _.
        report_last-Leads env 7 73 _ (omega arith) (omega arith) (tm_builder_water-Gives env)
          (tm_builder_water-Leads env)

-- `sendAllTelemetry` sends three frames, whatever the board answers: the temperatures with the code 72
-- in 16 bytes, the switches with 74 in 15 and the water with 73 in 15. The tensions, which it builds in
-- between, are not sent. It comes back without a fault, if the arrays of currents, tensions and the send
-- buffer have their sizes of 7, 2 and 32, and these sizes and the variables of the heater and of the
-- water stay as they were.
pub send_all_telemetry_lem :
    (env : Env) (m : Machine)
    → IsSized m.heater m.water m
    → Returns
        (λ _ m'.
          IsSized m.heater m.water m'
          × (sent_codes m'.trace
              ≡ (15, some 73) ∷ (15, some 74) ∷ (16, some 72) ∷ sent_codes m.trace))
        (send_all_telemetry env m)
unfolding send_all_telemetry
send_all_telemetry_lem env m s =
    let F = (15, some 74) ∷ (16, some 72) ∷ sent_codes m.trace in
    let Q = Framed m.heater m.water ((15, some 73) ∷ F) in
    Returns-mono _ _ (send_all_telemetry env m)
      ((report-Leads env 8 72 _ _ Q (omega arith) (omega arith) (tm_builder_temperature-Gives env)
          (tm_builder_temperature-Leads env)
          (report-Leads env 7 74 _ _ Q (omega arith) (omega arith) (tm_builder_switch-Gives env)
            (tm_builder_switch-Leads env) (unsent_then-Leads env))).at
        m (record { sized = s; frames = refl }))
      λ _ m' g. (g.sized, g.frames)
