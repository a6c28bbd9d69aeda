-- ===== src/Manager/Thread/Session.antt =====
-- The decoder on frames, and a session of them with the tablet.
use native.Mathlib.Nat.{add-zero}
use mathlib.Core.List.{append_assoc}
use freaky_camper_arduino.Base.{
  ℕ, suc, ◌+◌, ◌≤◌, ◌<◌, ◌≡◌, ◌≢◌, ◌⊎◌, inl, inr, refl, sym, ap, subst, ◌∙◌, true, List, [], ◌∷◌,
  ◌++◌, length, take, drop, set, take-append-drop, take-append_eq, length-append, length-drop,
  length-set, arith,
}
use freaky_camper_arduino.Board.{Env}
use freaky_camper_arduino.Machine.{Machine, Link, done}
use freaky_camper_arduino.Protocol.{prot_header, prot_footer}
use freaky_camper_arduino.Protocol.Sending.{frame}
use freaky_camper_arduino.Manager.{freaky_camp_manager_start}
use freaky_camper_arduino.Manager.Feeding.{IsPlain, idle, receiving, written, written_step}
use freaky_camper_arduino.Manager.Receiver.{counting, counting_four}
use freaky_camper_arduino.Manager.Apart.{freaky_camp_manager_start-Keeps}
use freaky_camper_arduino.Manager.Interleaving.{IsFresh, Keeps-done}
use freaky_camper_arduino.Manager.Thread.{Pc, Event, Run}
use freaky_camper_arduino.Manager.Thread.Simulation.{
  At-Blind, taken, commands, At-decoder, Run-payloads,
}
use freaky_camper_arduino.Manager.Thread.Decoder.{
  Decoder, decoder, decode, completed, decoded, payloads,
}

-- What every byte keeps: at most four headers are counted, data only while they are expected, and
-- the buffer has `size` bytes.
record IsOpen (size : ℕ) (d : Decoder) : Type 0 where
  headers : d.link.header_count ≤ 4
  counted : (d.link.ready_for_datas ≡ true) ⊎ (d.link.rx_counter ≡ 0)
  rx_size : length d.rx ≡ size

decode-IsOpen : (size b : ℕ) (d : Decoder) → IsOpen size d → IsOpen size (decode b d)
unfolding decode
decode-IsOpen size b d h = ground (arith, h, length-set d.rx d.link.rx_counter b)

decoded-IsOpen : (size : ℕ) (bs : List ℕ) (d : Decoder) → IsOpen size d → IsOpen size (decoded d bs)
decoded-IsOpen size [] d h = h
decoded-IsOpen size (b ∷ bs) d h = decoded-IsOpen size bs (decode b d) (decode-IsOpen size b d h)

abbrev at : Link → List ℕ → Decoder
at l rx = record { link = l; rx = rx }

header_then :
    (l : Link) (rx bs : List ℕ)
    → l.header_count ≤ 4
    → (l.ready_for_datas ≡ true) ⊎ (l.rx_counter ≡ 0)
    → payloads (at l rx) (0xAA ∷ bs) ≡ payloads (at (counting l.header_count) rx) bs
unfolding decode completed
header_then l rx bs h (inl e) = rw e (ground arith)
header_then l rx bs h (inr e) = ground arith

payloads-header :
    (l : Link) (rx bs : List ℕ)
    → l.header_count ≤ 4
    → (l.ready_for_datas ≡ true) ⊎ (l.rx_counter ≡ 0)
    → payloads (at l rx) (0xAA ∷ 0xAA ∷ 0xAA ∷ 0xAA ∷ bs) ≡ payloads (at (receiving 0) rx) bs
payloads-header l rx bs h e =
    let l₁ = counting l.header_count in
    let l₂ = counting l₁.header_count in
    let l₃ = counting l₂.header_count in
    header_then l rx (0xAA ∷ 0xAA ∷ 0xAA ∷ bs) h e
    ∙ header_then l₁ rx (0xAA ∷ 0xAA ∷ bs) (ground arith) (inr refl)
    ∙ header_then l₂ rx (0xAA ∷ bs) (ground arith) (inr refl)
    ∙ header_then l₃ rx bs (ground arith) (inr refl)
    ∙ ap (λ k. payloads (at k rx) bs) (counting_four l.header_count h)

data_then :
    (b n : ℕ) (rx bs : List ℕ)
    → b ≢ prot_header
    → b ≢ prot_footer
    → n + 1 < 256
    → payloads (at (receiving n) rx) (b ∷ bs) ≡ payloads (at (receiving (n + 1)) (set rx n b)) bs
unfolding decode completed
data_then b n rx bs h f k = ground arith

payloads-data :
    (p bs rx : List ℕ) (n : ℕ)
    → IsPlain p
    → n + length p ≤ length rx
    → length rx < 256
    → payloads (at (receiving n) rx) (p ++ bs)
      ≡ payloads (at (receiving (n + length p)) (written n p rx)) bs
payloads-data [] bs rx n plain k l = rw (add-zero, take-append-drop n rx) refl
payloads-data (b ∷ p) bs rx n plain k l =
    let e : n + 1 + length p ≡ n + suc (length p) = omega arith in
    data_then b n rx (p ++ bs) plain.0 plain.1 (omega (arith, k, l))
    ∙ payloads-data p bs (set rx n b) (n + 1) plain.2 (omega (arith, k, length-set rx n b))
        (omega (arith, l, length-set rx n b))
    ∙ ap (λ w. payloads (at (receiving (n + 1 + length p)) w) bs) (written_step n b p rx k)
    ∙ ap (λ i. payloads (at (receiving i) (written n (b ∷ p) rx)) bs) e

payloads-footer :
    (n : ℕ) (rx bs : List ℕ)
    → payloads (at (receiving n) rx) (0x55 ∷ 0x55 ∷ 0x55 ∷ 0x55 ∷ bs)
      ≡ take n rx ∷ payloads (at (idle 0) rx) bs
unfolding decode completed
payloads-footer n rx bs = refl

-- Frames one behind the other.
abbrev pub frames : List (List ℕ) → List ℕ
frames [] = []
frames (p ∷ ps) = frame p ++ frames ps

-- Payloads without header and footer bytes that fit a buffer of `size` bytes.
abbrev pub Fit : ℕ → List (List ℕ) → Type 0
Fit size [] = Unit {0}
Fit size (p ∷ ps) = IsPlain p × (length p ≤ size) × Fit size ps

payloads-frame :
    (size : ℕ) (p bs : List ℕ) (d : Decoder)
    → IsOpen size d
    → IsPlain p
    → length p ≤ size
    → size < 256
    → payloads d (frame p ++ bs) ≡ p ∷ payloads (at (idle 0) (written 0 p d.rx)) bs
payloads-frame size p bs d h plain k l =
    let footers : List ℕ = 0x55 ∷ 0x55 ∷ 0x55 ∷ 0x55 ∷ [] in
    let z : 0 + length p ≡ length p = omega arith in
    ap (λ q. payloads d (0xAA ∷ 0xAA ∷ 0xAA ∷ 0xAA ∷ q)) (append_assoc p footers bs)
    ∙ payloads-header d.link d.rx (p ++ (footers ++ bs)) h.headers h.counted
    ∙ payloads-data p (footers ++ bs) d.rx 0 plain (omega (arith, h.rx_size))
        (omega (arith, h.rx_size))
    ∙ payloads-footer (0 + length p) (written 0 p d.rx) bs
    ∙ ap (λ q. q ∷ payloads (at (idle 0) (written 0 p d.rx)) bs)
        (ap (λ n. take n (written 0 p d.rx)) z
          ∙ take-append_eq (length p) p (drop (0 + length p) d.rx) refl)

payloads-frames :
    (size : ℕ) (ps : List (List ℕ)) (d : Decoder)
    → IsOpen size d
    → Fit size ps
    → size < 256
    → payloads d (frames ps) ≡ ps
payloads-frames size [] d h fit l = refl
payloads-frames size (p ∷ ps) d h fit l =
    let n = 0 + length p in
    let after : IsOpen size (at (idle 0) (written 0 p d.rx)) = record {
      headers = omega arith;
      counted = inr refl;
      rx_size = omega (arith, h.rx_size, fit.1, length-append p (drop n d.rx), length-drop n d.rx);
    } in
    payloads-frame size p (frames ps) d h fit.0 fit.1 l
    ∙ ap (◌∷◌ p) (payloads-frames size ps (at (idle 0) (written 0 p d.rx)) after fit.2 l)

-- A tablet that sends frames one behind the other, whatever it has sent before, has exactly their
-- payloads executed, in their order, whatever idle rounds, services of the timer and other
-- interrupts come, between the bytes or between any two accesses to shared variables within a round of
-- the main loop. The program starts with its counters at zero; the payloads fit the receive buffer,
-- of less than 256 bytes, and hold no header or footer byte.
pub Run-frames :
    (env : Env) (ps : List (List ℕ)) (es es' : List Event) (m₀ m₁ m m' : Machine)
    → IsFresh m₀
    → freaky_camp_manager_start env m₀ ≡ done tt m₁
    → Run env m₁ Pc.top es m Pc.top
    → Run env m Pc.top es' m' Pc.top
    → taken es' ≡ frames ps
    → Fit (length m₀.comm.rx_buffer) ps
    → length m₀.comm.rx_buffer < 256
    → commands es' ≡ ps
Run-frames env ps es es' m₀ m₁ m m' f s before r e fit l =
    let size = length m₀.comm.rx_buffer in
    let a =
      Keeps-done {F = Unit {0}} (freaky_camp_manager_start env) m₀ m₁
        (freaky_camp_manager_start-Keeps tt env At-Blind) s
        (record { holds = record { same_link = refl; same_rx = refl } }) in
    let opened : IsOpen size (decoder m₁) = subst (IsOpen size) (sym (At-decoder m₀ m₁ a)) (record {
      headers = omega (arith, f.no_headers);
      counted = inr f.no_datas;
      rx_size = refl;
    }) in
    let now : IsOpen size (decoder m) =
      subst (IsOpen size) (sym (Run-payloads env es m₁ m before).1)
        (decoded-IsOpen size (taken es) (decoder m₁) opened) in
    (Run-payloads env es' m m' r).0
    ∙ ap (payloads (decoder m)) e
    ∙ payloads-frames size ps (decoder m) now fit l
