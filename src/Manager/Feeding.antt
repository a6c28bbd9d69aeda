-- ===== src/Manager/Feeding.antt =====
-- Bytes fed to the frame receiver of the main loop, and the data of a frame.
use mathlib.Core.List.{append_assoc}
use native.Mathlib.Nat.{add-zero}
use freaky_camper_arduino.Base.{
  ℕ, suc, ◌+◌, ◌≤◌, ◌<◌, ◌≡◌, ◌≢◌, refl, sym, ap, ◌∙◌, true, false, List, [], ◌∷◌, ◌++◌, length,
  take, drop, set, arith, length-set, length-append, set_split, take-append_eq, drop-append_eq,
  length-take_le, drop-drop, take-append-drop,
}
use freaky_camper_arduino.Board.{Env}
use freaky_camper_arduino.Machine.{Machine, Link, done, fault, M, ◌>>◌, skip, run-bind}
use freaky_camper_arduino.Protocol.{prot_header, prot_footer}
use freaky_camper_arduino.Manager.{got_byte}

-- The bytes of successive messages of one byte.
unfoldable pub feed : Env → List ℕ → M (Unit {0})
feed env [] = skip
feed env (b ∷ bs) = do got_byte env b; feed env bs

-- A payload that holds neither a header nor a footer byte.
abbrev pub IsPlain : List ℕ → Type 0
IsPlain [] = Unit {0}
IsPlain (b ∷ bs) = (b ≢ prot_header) × (b ≢ prot_footer) × IsPlain bs

-- The receiver between two frames, while data are expected, and after four bytes of header and `n`
-- bytes of data.
abbrev pub idle : ℕ → Link
idle f = record { rx_counter = 0; header_count = 0; footer_count = f; ready_for_datas = false }

abbrev pub expecting : ℕ → ℕ → ℕ → Link
expecting h f n = record {
  rx_counter = n;
  header_count = h;
  footer_count = f;
  ready_for_datas = true;
}

abbrev pub receiving : ℕ → Link
receiving n = expecting 4 0 n

-- The receive buffer `rx` with the payload written from place `n` on.
abbrev pub written : ℕ → List ℕ → List ℕ → List ℕ
written n p rx = take n rx ++ (p ++ drop (n + length p) rx)

abbrev pub with_rx : Machine → Link → List ℕ → Machine
with_rx m l rx = record m { link = l; comm = record m.comm { rx_buffer = rx } }

pub got_data_lem :
    {h f : ℕ} (env : Env) (b n : ℕ) (m : Machine)
    → b ≢ prot_header
    → b ≢ prot_footer
    → m.link ≡ expecting h f n
    → n < length m.comm.rx_buffer
    → n + 1 < 256
    → got_byte env b m ≡ done tt (with_rx m (expecting h f (n + 1)) (set m.comm.rx_buffer n b))
unfolding got_byte
got_data_lem env b n m not_header not_footer e k l = rw e (ground arith)

pub got_data_fault :
    (env : Env) (b n : ℕ) (m : Machine)
    → b ≢ prot_header
    → b ≢ prot_footer
    → m.link ≡ receiving n
    → length m.comm.rx_buffer ≤ n
    → got_byte env b m ≡ fault
unfolding got_byte
got_data_fault env b n m h f e k = rw e (ground arith)

pub written_step :
    (n b : ℕ) (p rx : List ℕ)
    → n + suc (length p) ≤ length rx
    → written (n + 1) p (set rx n b) ≡ written n (b ∷ p) rx
written_step n b p rx h =
    let head = take n rx ++ b ∷ [] in
    let len : length head ≡ n + 1 =
      omega (arith, length-append (take n rx) (b ∷ []), length-take_le n rx (omega arith)) in
    rw
      (
        set_split n rx b (omega arith),
        sym (append_assoc (take n rx) (b ∷ []) (drop (suc n) rx)),
        take-append_eq (n + 1) head (drop (suc n) rx) len,
        sym (drop-drop (n + 1) (length p) (n + 1 + length p) (head ++ drop (suc n) rx) refl),
        drop-append_eq (n + 1) head (drop (suc n) rx) len,
        drop-drop (suc n) (length p) (n + suc (length p)) rx (omega arith),
      )
      (append_assoc (take n rx) (b ∷ []) (p ++ drop (n + suc (length p)) rx))

pub feed_data :
    {h f : ℕ} (env : Env) (p rest : List ℕ) (n : ℕ) (m : Machine)
    → IsPlain p
    → m.link ≡ expecting h f n
    → n + length p ≤ length m.comm.rx_buffer
    → length m.comm.rx_buffer < 256
    → feed env (p ++ rest) m
      ≡ feed env rest (with_rx m (expecting h f (n + length p)) (written n p m.comm.rx_buffer))
unfolding feed
feed_data env [] rest n m plain e k l = rw (add-zero, take-append-drop n m.comm.rx_buffer, e) refl
feed_data {h} {f} env (b ∷ p) rest n m plain e k l =
    let m' = with_rx m (expecting h f (n + 1)) (set m.comm.rx_buffer n b) in
    run-bind (got_byte env b) (λ _. feed env (p ++ rest)) m tt m'
      (got_data_lem env b n m plain.0 plain.1 e (omega arith) (omega arith))
    ∙ feed_data env p rest (n + 1) m' plain.2 refl (omega (arith, length-set m.comm.rx_buffer n b))
        (omega (arith, length-set m.comm.rx_buffer n b))
    ∙ ap (λ l. feed env rest (with_rx m (expecting h f (n + 1 + length p)) l))
        (written_step n b p m.comm.rx_buffer k)
    ∙ ap (λ i. feed env rest (with_rx m (expecting h f i) (written n (b ∷ p) m.comm.rx_buffer)))
        (let e' : n + 1 + length p ≡ n + suc (length p) = omega arith in e')
