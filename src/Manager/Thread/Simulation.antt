-- ===== src/Manager/Thread/Simulation.antt =====
-- The main loop under interrupts against the decoder.
use freaky_camper_arduino.Base.{
  ℕ, ◌+◌, ◌%◌, ◌==◌, if◌then◌else◌, ◌≡◌, refl, sym, ap, ◌∙◌, false, List, [], ◌∷◌, ◌++◌, set, take,
}
use freaky_camper_arduino.Board.{Env}
use freaky_camper_arduino.Machine.{Blind, Link, Machine, done}
use freaky_camper_arduino.Protocol.{prot_repeat_header}
use mathlib.Core.List.{append-nil}
use freaky_camper_arduino.Machine.{Over}
use freaky_camper_arduino.Protocol.{process_received_command}
use freaky_camper_arduino.Protocol.Apart.{process_received_command-Keeps}
use freaky_camper_arduino.Manager.Interleaving.{Interrupt, Keeps-done}
use freaky_camper_arduino.Manager.Interrupted.{At, Interrupt-At}
use freaky_camper_arduino.Manager.Thread.{Pc, Move, Event, received, ran, Run}
use freaky_camper_arduino.Manager.Thread.Decoder.{
  Decoder, decoder, with_ready, restarted, counted, heard, ended, judged, payload, raised, stored,
  decode, completed, decoded, payloads,
}

-- The decoder once the round of the main loop at `pc` is over.
rest : Pc → Decoder → Decoder
rest Pc.top d = d
rest Pc.asking d = d
rest Pc.fetching d = d
rest (Pc.took b) d = decode b d
rest (Pc.other b) d = if d.link.ready_for_datas then stored b d else d
rest Pc.header_found d = heard d
rest Pc.header_limit d = counted d
rest Pc.header_load d =
    restarted (record d { link = record d.link { header_count = d.link.header_count + 1 } })
rest (Pc.header_raise n) d = restarted (record d { link = record d.link { header_count = n + 1 } })
rest Pc.header_restart d = restarted d
rest Pc.header_reset d = with_ready (record d { link = record d.link { rx_counter = 0 } })
rest Pc.header_test d = with_ready d
rest (Pc.header_ready n) d = record d {
  link = record d.link { ready_for_datas = n == prot_repeat_header };
}
rest Pc.footer_found d = judged (raised d.link.footer_count d)
rest (Pc.footer_raise n) d = judged (raised n d)
rest Pc.footer_clear d = judged (record d { link = record d.link { header_count = 0 } })
rest Pc.footer_test d = judged d
rest Pc.footer_count d = ended d
rest (Pc.executing n) d = ended d
rest Pc.end_watchdog d = ended d
rest Pc.end_footer d = ended d
rest Pc.end_ready d = record d { link = record d.link { ready_for_datas = false; rx_counter = 0 } }
rest Pc.end_counter d = record d { link = record d.link { rx_counter = 0 } }
rest (Pc.data_found b) d = stored b d
rest (Pc.data_raise n b) d = record {
  link = record d.link { rx_counter = (n + 1) % 256 };
  rx = set d.rx n b;
}
rest (Pc.data_store n b) d = record d { rx = set d.rx n b }
rest Pc.waiting d = d

-- What it will have executed by then.
owed : Pc → Decoder → List (List ℕ)
owed (Pc.took b) d = completed b d
owed Pc.footer_found d = payload (raised d.link.footer_count d)
owed (Pc.footer_raise n) d = payload (raised n d)
owed Pc.footer_clear d = payload d
owed Pc.footer_test d = payload d
owed Pc.footer_count d = take d.link.rx_counter d.rx ∷ []
owed (Pc.executing n) d = take n d.rx ∷ []
owed _ d = []

abbrev Same : Pc → Decoder → Pc → Decoder → Type 0
Same pc d pc' d' = (rest pc' d' ≡ rest pc d) × (owed pc' d' ≡ owed pc d)

module _ {env : Env} where
  Move-Same :
      (m m' : Machine) (pc pc' : Pc) → Move env m pc m' pc' → Same pc (decoder m) pc' (decoder m')
  unfolding rest owed decode completed
  Move-Same m m' _ _ (Move.is_header e) = rw e (refl, refl)
  Move-Same m m' _ _ (Move.is_footer e f) = rw (e, f) (refl, refl)
  Move-Same m m' _ _ (Move.is_other e f) = rw (e, f) (refl, refl)
  Move-Same m m' _ _ (Move.is_data e) = rw e (refl, refl)
  Move-Same m m' _ _ (Move.is_noise e) = rw e (refl, refl)
  Move-Same m m' _ _ (Move.below e) = rw e (refl, refl)
  Move-Same m m' _ _ (Move.enough e) = rw e (refl, refl)
  Move-Same m m' _ _ (Move.restarts e) = rw e (refl, refl)
  Move-Same m m' _ _ (Move.starts e) = rw e (refl, refl)
  Move-Same m m' _ _ (Move.is_last e) = rw e (refl, refl)
  Move-Same m m' _ _ (Move.not_last e) = rw e (refl, refl)
  Move-Same m m' _ _ _ = (refl, refl)

-- The bytes taken and the payloads executed.
abbrev pub taken : List Event → List ℕ
taken [] = []
taken (received b ∷ es) = b ∷ taken es
taken (ran p ∷ es) = taken es

abbrev pub commands : List Event → List (List ℕ)
commands [] = []
commands (received b ∷ es) = commands es
commands (ran p ∷ es) = p ∷ commands es

pub At-Blind : {l : Link} {rx : List ℕ} → Blind (At l rx)
At-Blind = record { at = λ v r h. record { same_link = h.same_link; same_rx = h.same_rx } }

pub At-decoder : (m m' : Machine) → Over (At m.link m.comm.rx_buffer) m' → decoder m' ≡ decoder m
At-decoder m m' h =
    ap (λ l. record { link = l; rx = m'.comm.rx_buffer }) h.holds.same_link
    ∙ ap (λ rx. record { link = m.link; rx = rx }) h.holds.same_rx

module _ (env : Env) where
  Interrupt-decoder : (m m' : Machine) → Interrupt env m m' → decoder m' ≡ decoder m
  Interrupt-decoder m m' i = At-decoder m m' (
      Interrupt-At env m.link m.comm.rx_buffer m m' i
        (record { holds = record { same_link = refl; same_rx = refl } }))

  process_received_command-decoder :
      (n : ℕ) (m m' : Machine)
      → process_received_command env n m ≡ done tt m'
      → decoder m' ≡ decoder m
  process_received_command-decoder n m m' e = At-decoder m m' (
      Keeps-done {F = Unit {0}} (process_received_command env n) m m'
        (process_received_command-Keeps tt
          (λ v h. record { same_link = h.same_link; same_rx = h.same_rx }) At-Blind env n)
        e (record { holds = record { same_link = refl; same_rx = refl } }))

  -- From any place in a round to any other.
  abbrev Decodes : Machine → Pc → List Event → Machine → Pc → Type 0
  Decodes m pc es m' pc' =
      (rest pc' (decoder m') ≡ decoded (rest pc (decoder m)) (taken es))
      × (commands es ++ owed pc' (decoder m')
          ≡ owed pc (decoder m) ++ payloads (rest pc (decoder m)) (taken es))

  Run-Decodes :
      (m m' : Machine) (pc pc' : Pc) (es : List Event)
      → Run env m pc es m' pc'
      → Decodes m pc es m' pc'
  unfolding rest owed
  Run-Decodes m m' pc pc' es Run.stay = (refl, sym (append-nil (owed pc (decoder m))))
  Run-Decodes m m' pc pc' es (Run.move {m' = n} {pc' = pc₁} s r) =
      let same = Move-Same m n pc pc₁ s in
      rw (sym same.0, sym same.1) (Run-Decodes n m' pc₁ pc' es r)
  Run-Decodes m m' _ pc' _ (Run.take_byte {es} {b} l e r) = Run-Decodes _ m' (Pc.took b) pc' es r
  Run-Decodes m m' _ pc' _ (Run.execute {m' = n} {n = k} {es} e r) =
      let same = process_received_command-decoder k m n e in
      let ih = Run-Decodes n m' Pc.end_watchdog pc' es r in
      (
        ih.0 ∙ ap (λ d. decoded (ended d) (taken es)) same,
        ap (◌∷◌ (take k m.comm.rx_buffer)) (ih.1 ∙ ap (λ d. payloads (ended d) (taken es)) same),
      )
  Run-Decodes m m' pc pc' es (Run.interrupt {m' = n} i r) =
      rw⁻¹ (Interrupt-decoder m n i) (Run-Decodes n m' pc pc' es r)

  -- Whatever interrupts come at whichever points of its rounds, between the tops of two rounds the
  -- main loop executes exactly the telecommands that the decoder finds in the bytes taken, in their
  -- order, and its variables and its buffer are then the decoder's.
  pub Run-payloads :
      (es : List Event) (m m' : Machine)
      → Run env m Pc.top es m' Pc.top
      → (commands es ≡ payloads (decoder m) (taken es))
        × (decoder m' ≡ decoded (decoder m) (taken es))
  unfolding rest owed
  Run-payloads es m m' r =
      let d = Run-Decodes m m' Pc.top Pc.top es r in (sym (append-nil (commands es)) ∙ d.1, d.0)
