-- ===== src/Manager/Receiver.antt =====
-- The frame receiver of the main loop, fed byte by byte, against the frames of `sendTM`.
use freaky_camper_arduino.Base.{
  ℕ, ◌+◌, ◌≤◌, ◌<◌, ◌≡◌, ◌≢◌, ◌⊎◌, inl, inr, ltb, ◌==◌, if◌then◌else◌, refl, ap, ◌∙◌, true, false,
  List, [], ◌∷◌, ◌++◌, length, drop, arith, length-append, length-drop,
}
use freaky_camper_arduino.Board.{Env}
use freaky_camper_arduino.Machine.{
  Machine, Link, Outcome, done, fault, hang, M, ◌>>◌, skip, set_link, set_comm, run-bind,
  fault-first,
}
use freaky_camper_arduino.Protocol.{prot_header, prot_footer, process_received_command}
use freaky_camper_arduino.Protocol.Sending.{frame}
use freaky_camper_arduino.Manager.{got_byte}
use freaky_camper_arduino.Manager.Feeding.{
  feed, IsPlain, idle, receiving, written, with_rx, got_data_fault, feed_data,
}

-- What a complete frame of `n` bytes of data does.
abbrev pub executed : Env → ℕ → M (Unit {0})
executed env n = do
  process_received_command env n
  set_comm λ c. record c { watchdog = 0 }
  set_link λ k. record k { footer_count = 0; ready_for_datas = false; rx_counter = 0 }

skip-right :
    (o : Outcome (Unit {0})) → elim o [ done a m' ↦ skip m' | fault ↦ fault | hang ↦ hang ] ≡ o
skip-right (done a m) = refl
skip-right fault = refl
skip-right hang = refl

pub feed_footer :
    (env : Env) (n : ℕ) (m : Machine)
    → m.link ≡ receiving n
    → feed env (0x55 ∷ 0x55 ∷ 0x55 ∷ 0x55 ∷ []) m
      ≡ executed env n (record m {
        link = record {
          rx_counter = n;
          header_count = 0;
          footer_count = 4;
          ready_for_datas = true;
        };
      })
unfolding feed got_byte
feed_footer env n m e = rw e (skip-right (executed env n _))

-- The receiver after a header byte, with `h` such bytes counted before.
abbrev pub counting : ℕ → Link
counting h = record {
  rx_counter = 0;
  header_count = if ltb h 4 then h + 1 else h;
  footer_count = 0;
  ready_for_datas = (if ltb h 4 then h + 1 else h) == 4;
}

-- What one header byte does while at most four are counted.
pub header_step :
    (env : Env) (m : Machine)
    → m.link.header_count ≤ 4
    → (m.link.ready_for_datas ≡ true) ⊎ (m.link.rx_counter ≡ 0)
    → got_byte env 0xAA m ≡ done tt (record m { link = counting m.link.header_count })
unfolding got_byte
header_step env m h (inl e) = rw e (ground arith)
header_step env m h (inr e) = ground arith

pub header_then :
    (env : Env) (rest : List ℕ) (m : Machine)
    → m.link.header_count ≤ 4
    → (m.link.ready_for_datas ≡ true) ⊎ (m.link.rx_counter ≡ 0)
    → feed env (0xAA ∷ rest) m ≡ feed env rest (record m { link = counting m.link.header_count })
unfolding feed
header_then env rest m h e =
    run-bind (got_byte env 0xAA) (λ _. feed env rest) m tt _ (header_step env m h e)

pub counting_four :
    (n : ℕ)
    → n ≤ 4
    → counting (counting (counting (counting n).header_count).header_count).header_count
      ≡ receiving 0
counting_four n k = ground arith

-- Four header bytes start a frame, whatever is counted before.
pub feed_header :
    (env : Env) (rest : List ℕ) (m : Machine)
    → m.link.header_count ≤ 4
    → (m.link.ready_for_datas ≡ true) ⊎ (m.link.rx_counter ≡ 0)
    → feed env (0xAA ∷ 0xAA ∷ 0xAA ∷ 0xAA ∷ rest) m
      ≡ feed env rest (record m { link = receiving 0 })
feed_header env rest m h e =
    let l₁ = counting m.link.header_count in
    let l₂ = counting l₁.header_count in
    let l₃ = counting l₂.header_count in
    header_then env (0xAA ∷ 0xAA ∷ 0xAA ∷ rest) m h e
    ∙ header_then env (0xAA ∷ 0xAA ∷ rest) (record m { link = l₁ }) (ground arith) (inr refl)
    ∙ header_then env (0xAA ∷ rest) (record m { link = l₂ }) (ground arith) (inr refl)
    ∙ header_then env rest (record m { link = l₃ }) (ground arith) (inr refl)
    ∙ ap (λ l. feed env rest (record m { link = l })) (counting_four m.link.header_count h)

-- The machine in which the command of a frame with the payload `p` is executed.
abbrev pub received : List ℕ → Machine → Machine
received p m =
    with_rx m
      (record { rx_counter = length p; header_count = 0; footer_count = 4; ready_for_datas = true })
      (p ++ drop (length p) m.comm.rx_buffer)

-- Whatever headers are counted, a frame with a plain payload executes exactly that payload: it stands
-- at the start of the buffer, and its length is the command's.
pub feed-frame_from :
    (env : Env) (p : List ℕ) (m : Machine)
    → IsPlain p
    → m.link.header_count ≤ 4
    → (m.link.ready_for_datas ≡ true) ⊎ (m.link.rx_counter ≡ 0)
    → length p ≤ length m.comm.rx_buffer
    → length m.comm.rx_buffer < 256
    → feed env (frame p) m ≡ executed env (length p) (received p m)
feed-frame_from env p m plain h e k l =
    feed_header env (p ++ (0x55 ∷ 0x55 ∷ 0x55 ∷ 0x55 ∷ [])) m h e
    ∙ feed_data env p (0x55 ∷ 0x55 ∷ 0x55 ∷ 0x55 ∷ []) 0 (record m { link = receiving 0 }) plain
        refl (omega arith) l
    ∙ (let z : 0 + length p ≡ length p = omega arith in rw z (feed_footer env (length p) _ refl))

-- A frame whose payload has more bytes than the receive buffer of less than 256 bytes makes the
-- receiver, between two frames, write outside it, if no byte up to that one is a header or a footer.
pub feed-overflow :
    (env : Env) (p : List ℕ) (b : ℕ) (rest : List ℕ) (f : ℕ) (m : Machine)
    → IsPlain p
    → b ≢ prot_header
    → b ≢ prot_footer
    → m.link ≡ idle f
    → length p ≡ length m.comm.rx_buffer
    → length m.comm.rx_buffer < 256
    → feed env (0xAA ∷ 0xAA ∷ 0xAA ∷ 0xAA ∷ (p ++ b ∷ rest)) m ≡ fault
unfolding feed
feed-overflow env p b rest f m plain h₁ h₂ e k l =
    feed_header env (p ++ b ∷ rest) m (rw e (omega arith)) (inr (rw e))
    ∙ feed_data env p (b ∷ rest) 0 (record m { link = receiving 0 }) plain refl (omega arith) l
    ∙ overflow (with_rx m (receiving (0 + length p)) (written 0 p m.comm.rx_buffer)) refl (
        omega (
          arith,
          length-append p (drop (0 + length p) m.comm.rx_buffer),
          length-drop (0 + length p) m.comm.rx_buffer,
        ))
  where
    overflow :
        (m' : Machine)
        → m'.link ≡ receiving (0 + length p)
        → length m'.comm.rx_buffer ≤ 0 + length p
        → feed env (b ∷ rest) m' ≡ fault
    overflow m' e' h' =
        fault-first (got_byte env b) _ m' (got_data_fault env b (0 + length p) m' h₁ h₂ e' h')
