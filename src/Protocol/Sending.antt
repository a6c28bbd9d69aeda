-- ===== src/Protocol/Sending.antt =====
-- The two loops and the transmission of `sendTM` against the frame that they stand for.
use freaky_camper_arduino.Base.{
  ℕ, zero, suc, ◌+◌, ◌%◌, ◌≤◌, ◌<◌, ◌≡◌, refl, sym, ap, ◌∙◌, ltb, ◌==◌, if◌then◌else◌, not, ◌||◌,
  true, some, List, [], ◌∷◌, ◌++◌, length, take, drop, replicate, set, get_elem?, arith,
  length-append, length-set, take-append-drop, take-append_eq, drop-append_eq, length-take_le,
  length-drop, drop-drop, get_elem?_split, set_split, take-suc, take-take, take-append_le,
  length-replicate,
}
use mathlib.Core.List.{append_assoc}
use native.Mathlib.Nat.{add-zero}
use freaky_camper_arduino.Board.{Env, adk_snd_data, adk_release}
use freaky_camper_arduino.Machine.{Machine, done, skip, index, run-bind, run-index}
use freaky_camper_arduino.Protocol.{
  prot_header, prot_footer, prot_repeat_header, put, shift_data, fill, transmit, send_tm,
  hr_success, handle_usb_error,
}

abbrev pub with_tx : Machine → List ℕ → Machine
with_tx m l = record m { comm = record m.comm { tx_buffer = l } }

pub put_lem :
    (i v : ℕ) (m : Machine)
    → i < length m.comm.tx_buffer
    → put i v m ≡ done tt (with_tx m (set m.comm.tx_buffer i v))
put_lem i v m h = let e : ltb i (length m.comm.tx_buffer) ≡ true = ground arith in rw e

-- The buffer after the data has moved up behind the header.
abbrev shifted : ℕ → List ℕ → List ℕ
shifted n tx = take 4 tx ++ (take n tx ++ drop (4 + n) tx)

shifted_step :
    (i v : ℕ) (tx : List ℕ)
    → suc i + 4 ≤ length tx
    → get_elem? tx i ≡ some v
    → shifted i (set tx (i + 4) v) ≡ shifted (suc i) tx
shifted_step i v tx h e =
    rw
      (
        set_split (i + 4) tx v (omega arith),
        take-append_le 4 (take (i + 4) tx) (v ∷ drop (suc (i + 4)) tx)
            (omega (arith, length-take_le (i + 4) tx (omega arith))),
        take-take 4 (i + 4) tx (omega arith),
        take-append_le i (take (i + 4) tx) (v ∷ drop (suc (i + 4)) tx)
            (omega (arith, length-take_le (i + 4) tx (omega arith))),
        take-take i (i + 4) tx (omega arith),
        drop-append_eq (4 + i) (take (i + 4) tx) (v ∷ drop (suc (i + 4)) tx)
            (omega (arith, length-take_le (i + 4) tx (omega arith))),
        take-suc i tx v e,
      )
      (let k : suc (i + 4) ≡ 4 + suc i = omega arith in
        rw k (rw (append_assoc (take i tx) (v ∷ [])) refl))

shift_data_lem :
    (n : ℕ) (m : Machine)
    → n + 4 ≤ length m.comm.tx_buffer
    → shift_data n m ≡ done tt (with_tx m (shifted n m.comm.tx_buffer))
unfolding shift_data
shift_data_lem zero m h = rw (take-append-drop 4 m.comm.tx_buffer)
shift_data_lem (suc i) m h =
    let (v, e, _) = get_elem?_split i m.comm.tx_buffer (omega arith) in
    let tx' = set m.comm.tx_buffer (i + 4) v in
    run-bind (index m.comm.tx_buffer i) _ m v m (run-index m.comm.tx_buffer i v m e)
    ∙ run-bind (put (i + 4) v) (λ _. shift_data i) m tt _ (put_lem (i + 4) v m (omega arith))
    ∙ shift_data_lem i (with_tx m tx') (omega (arith, length-set m.comm.tx_buffer (i + 4) v))
    ∙ ap (λ l. done tt (with_tx m l)) (shifted_step i v m.comm.tx_buffer h e)

-- The buffer after `n` places from `i` on have been set to `v`.
abbrev filled : ℕ → ℕ → ℕ → List ℕ → List ℕ
filled n i v tx = take i tx ++ (replicate n v ++ drop (i + n) tx)

filled_step :
    (n i v : ℕ) (tx : List ℕ)
    → i + suc n ≤ length tx
    → filled n (i + 1) v (set tx i v) ≡ filled (suc n) i v tx
filled_step n i v tx h = rw (set_split i tx v (omega arith)) (
    let e : take i tx ++ v ∷ drop (suc i) tx ≡ (take i tx ++ v ∷ []) ++ drop (suc i) tx =
      sym (append_assoc (take i tx) (v ∷ []) (drop (suc i) tx)) in
    let len : length (take i tx ++ v ∷ []) ≡ i + 1 =
      omega (arith, length-append (take i tx) (v ∷ []), length-take_le i tx (omega arith)) in
    rw e (
      rw
        (
          take-append_eq (i + 1) (take i tx ++ v ∷ []) (drop (suc i) tx) len,
          sym (drop-drop (i + 1) n (i + 1 + n) ((take i tx ++ v ∷ []) ++ drop (suc i) tx) refl),
          drop-append_eq (i + 1) (take i tx ++ v ∷ []) (drop (suc i) tx) len,
          drop-drop (suc i) n (i + suc n) tx (omega arith),
        )
        (append_assoc (take i tx) (v ∷ []) (replicate n v ++ drop (i + suc n) tx))))

fill_lem :
    (n i v : ℕ) (m : Machine)
    → i + n ≤ length m.comm.tx_buffer
    → fill n i v m ≡ done tt (with_tx m (filled n i v m.comm.tx_buffer))
unfolding fill
fill_lem zero i v m h = rw (add-zero, take-append-drop i m.comm.tx_buffer)
fill_lem (suc n) i v m h =
    run-bind (put i v) (λ _. fill n (i + 1) v) m tt _ (put_lem i v m (omega arith))
    ∙ fill_lem n (i + 1) v (with_tx m (set m.comm.tx_buffer i v))
        (omega (arith, length-set m.comm.tx_buffer i v))
    ∙ ap (λ l. done tt (with_tx m l)) (filled_step n i v m.comm.tx_buffer h)

-- What goes over the wire for a payload.
abbrev pub frame : List ℕ → List ℕ
frame payload =
    replicate prot_repeat_header prot_header
    ++ (payload ++ replicate prot_repeat_header prot_footer)

length-shifted : (n : ℕ) (tx : List ℕ) → n + 4 ≤ length tx → length (shifted n tx) ≡ length tx
length-shifted n tx h = omega (
  arith,
  length-append (take 4 tx) (take n tx ++ drop (4 + n) tx),
  length-append (take n tx) (drop (4 + n) tx),
  length-take_le 4 tx (omega arith),
  length-take_le n tx (omega arith),
  length-drop (4 + n) tx,
)

length-filled : (n i v : ℕ) (tx : List ℕ) → i + n ≤ length tx → length (filled n i v tx) ≡ length tx
length-filled n i v tx h = omega (
  arith,
  length-append (take i tx) (replicate n v ++ drop (i + n) tx),
  length-append (replicate n v) (drop (i + n) tx),
  length-take_le i tx (omega arith),
  length-replicate n v,
  length-drop (i + n) tx,
)

pub length-frame : (p : List ℕ) → length (frame p) ≡ length p + 8
length-frame p = omega (arith, length-append p (replicate 4 prot_footer))

sent_buffer :
    (n : ℕ) (tx : List ℕ)
    → n + 8 ≤ length tx
    → filled 4 (n + 4) prot_footer (filled 4 0 prot_header (shifted n tx))
      ≡ frame (take n tx) ++ drop (n + 8) tx
sent_buffer n tx h =
    let head = replicate prot_repeat_header prot_header ++ take n tx in
    let len : length head ≡ n + 4 = omega (arith, length-take_le n tx (omega arith)) in
    rw
      (
        drop-append_eq 4 (take 4 tx) (take n tx ++ drop (4 + n) tx)
            (length-take_le 4 tx (omega arith)),
        take-append_eq (n + 4) head (drop (4 + n) tx) len,
        sym (drop-drop (n + 4) 4 (n + 4 + 4) (head ++ drop (4 + n) tx) refl),
        drop-append_eq (n + 4) head (drop (4 + n) tx) len,
        drop-drop (4 + n) 4 (n + 8) tx (omega arith),
        append_assoc (take n tx) (replicate 4 prot_footer) (drop (n + 8) tx),
      )
      refl

-- The machine when the frame has been handed to the USB library.
abbrev pub sent : Machine → ℕ → Machine
sent m n = record m {
  trace = adk_snd_data (n + 8) (frame (take n m.comm.tx_buffer)) ∷ m.trace;
  comm = record m.comm {
    tx_buffer = frame (take n m.comm.tx_buffer) ++ drop (n + 8) m.comm.tx_buffer;
  };
}

-- After it the device is released if the answer is a wrong or corrupted packet identifier.
abbrev pub acknowledged : ℕ → Machine → Machine
acknowledged ack m = if ack == 7 || ack == 9 then record m { trace = adk_release ∷ m.trace } else m

answer_lem :
    (ack : ℕ) (m : Machine)
    → (if not (ack == hr_success) then handle_usb_error ack else skip) m
      ≡ done tt (acknowledged ack m)
unfolding handle_usb_error
answer_lem ack m = ground arith

transmit_lem :
    (env : Env) (n : ℕ) (m : Machine) (p rest : List ℕ)
    → m.comm.tx_buffer ≡ frame p ++ rest
    → length (frame p) ≡ n
    → transmit env n m
      ≡ done tt
          (acknowledged (env.ack m.trace) (record m { trace = adk_snd_data n (frame p) ∷ m.trace }))
unfolding transmit
transmit_lem env n m p rest e h =
    rw (e, take-append_eq n (frame p) rest h) (answer_lem (env.ack m.trace) _)

-- For a payload that is not empty and leaves room for its frame in the send buffer and its frame's
-- length in a byte, `sendTM` comes back having sent
-- one frame, four header bytes, the payload and four footer bytes; the buffer holds the frame and
-- then what it held before, and the device is released exactly on the answers 7 and 9.
pub send_tm_lem :
    (env : Env) (n : ℕ) (m : Machine)
    → 0 < n
    → n + 8 ≤ length m.comm.tx_buffer
    → n + 8 < 256
    → send_tm env n m ≡ done tt (acknowledged (env.ack m.trace) (sent m n))
unfolding send_tm
send_tm_lem env zero m h k l = absurd (omega arith)
send_tm_lem env (suc n) m h k l =
    let tx = m.comm.tx_buffer in
    let a = shifted (suc n) tx in
    let b = filled 4 0 prot_header a in
    let c = filled 4 (suc n + 4) prot_footer b in
    let ea = length-shifted (suc n) tx (omega arith) in
    let eb = length-filled 4 0 prot_header a (omega (arith, ea)) in
    let final : c ≡ frame (take (suc n) tx) ++ drop (suc n + 8) tx = sent_buffer (suc n) tx k in
    let small : (suc n + 8) % 256 ≡ suc n + 8 = omega arith in
    run-bind (shift_data (suc n)) _ m tt (with_tx m a) (shift_data_lem (suc n) m (omega arith))
    ∙ run-bind (fill 4 0 prot_header) _ (with_tx m a) tt (with_tx m b)
        (fill_lem 4 0 prot_header (with_tx m a) (omega (arith, ea)))
    ∙ run-bind (fill 4 (suc n + 4) prot_footer) _ (with_tx m b) tt (with_tx m c)
        (fill_lem 4 (suc n + 4) prot_footer (with_tx m b) (omega (arith, ea, eb)))
    ∙ rw (final, small)
        (transmit_lem env (suc n + 8) (with_tx m (frame (take (suc n) tx) ++ drop (suc n + 8) tx))
          (take (suc n) tx) (drop (suc n + 8) tx) refl
          (length-frame (take (suc n) tx)
            ∙ ap (λ k. k + 8) (length-take_le (suc n) tx (omega arith))))
