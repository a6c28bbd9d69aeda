-- ===== src/Manager/Unescaped.antt =====
-- A frame whose payload holds a header or a footer byte.
use mathlib.Core.List.{append_assoc}
use freaky_camper_arduino.Base.{
  inl, ℕ, ◌+◌, ◌≤◌, ◌<◌, ◌≡◌, refl, sym, ap, ◌∙◌, false, List, [], ◌∷◌, ◌++◌, length, drop, arith,
  length-append, take-append_eq, drop-append_eq, drop-drop, length-drop,
}
use freaky_camper_arduino.Board.{Env}
use freaky_camper_arduino.Machine.{Machine, M, Outcome, done, fault, hang, ◌>>◌, set_link, set_comm}
use freaky_camper_arduino.Protocol.{process_received_command}
use freaky_camper_arduino.Protocol.Sending.{frame}
use freaky_camper_arduino.Manager.{got_byte}
use freaky_camper_arduino.Manager.Feeding.{
  feed, IsPlain, expecting, receiving, written, with_rx, feed_data,
}
use freaky_camper_arduino.Manager.Receiver.{
  executed, received, feed_header, feed_footer, header_then,
}
use freaky_camper_arduino.Manager.Interleaving.{IsFresh, Reach, Reach-IsSound}

-- A payload that is written in two parts.
written-append :
    (q r rx : List ℕ)
    → length q + length r ≤ length rx
    → written (length q) r (q ++ drop (length q) rx) ≡ (q ++ r) ++ drop (length (q ++ r)) rx
written-append q r rx k =
    rw
      (
        take-append_eq (length q) q (drop (length q) rx) refl,
        sym (drop-drop (length q) (length r) (length q + length r) (q ++ drop (length q) rx) refl),
        drop-append_eq (length q) q (drop (length q) rx) refl,
        drop-drop (length q) (length r) (length q + length r) rx refl,
        length-append q r,
      )
      (sym (append_assoc q r (drop (length q + length r) rx)))

-- The end of `executed`, where the command has come to the outcome.
abbrev after : Outcome (Unit {0}) → M (Unit {0})
after o = do
  λ _. o
  set_comm λ c. record c { watchdog = 0 }
  set_link λ k. record k { footer_count = 0; ready_for_datas = false; rx_counter = 0 }

module _ (env : Env) where
  -- The footer byte within the payload is counted, and not stored.
  stray_footer :
      (rest : List ℕ) (n : ℕ) (m : Machine)
      → m.link ≡ receiving n
      → feed env (0x55 ∷ rest) m ≡ feed env rest (record m { link = expecting 0 1 n })
  unfolding feed got_byte
  stray_footer rest n m e = rw e refl

  -- After a command, a footer byte is passed over.
  ignored : (n : ℕ) (m : Machine) → (do executed env n; feed env (0x55 ∷ [])) m ≡ executed env n m
  unfolding feed got_byte
  ignored n m = go (process_received_command env n m)
    where
      go : (o : Outcome (Unit {0})) → (do after o; feed env (0x55 ∷ [])) m ≡ after o m
      go (done a m') = refl
      go fault = refl
      go hang = refl

  last_footers :
      (n : ℕ) (m : Machine)
      → m.link ≡ expecting 0 1 n
      → feed env (0x55 ∷ 0x55 ∷ 0x55 ∷ 0x55 ∷ []) m
        ≡ (do executed env n; feed env (0x55 ∷ [])) (record m { link = expecting 0 4 n })
  unfolding feed got_byte
  last_footers n m e = rw e refl

-- In every state that the program reaches from a start with its counters at zero, by any number of
-- rounds of the main loop, services of the timer and interrupts in any order, a footer byte in the
-- payload of a frame is lost: where the rest of the payload fits the receive buffer, of less than 256
-- bytes, and holds no header or footer byte, the frame does what the frame without that byte does.
pub Reach-feed-footer :
    (env : Env) (q r : List ℕ) (m m' : Machine)
    → IsFresh m
    → Reach env m m'
    → IsPlain q
    → IsPlain r
    → length q + length r ≤ length m.comm.rx_buffer
    → length m.comm.rx_buffer < 256
    → feed env (frame (q ++ 0x55 ∷ r)) m' ≡ executed env (length (q ++ r)) (received (q ++ r) m')
Reach-feed-footer env q r m m' f reach plain plain' k l =
    let s = Reach-IsSound env m m' f reach in
    let rx = m'.comm.rx_buffer in
    let footers : List ℕ = 0x55 ∷ 0x55 ∷ 0x55 ∷ 0x55 ∷ [] in
    let n = 0 + length q in
    let size : length (written 0 q rx) ≡ length rx =
      omega (arith, length-append q (drop n rx), length-drop n rx, s.rx_size) in
    let z : n ≡ length q = omega arith in
    let count : n + length r ≡ length (q ++ r) = omega (arith, length-append q r) in
    let stored : written n r (written 0 q rx) ≡ (q ++ r) ++ drop (length (q ++ r)) rx =
      rw z (written-append q r rx (omega (arith, s.rx_size))) in
    let m₁ = with_rx m' (expecting 0 1 n) (written 0 q rx) in
    let rest : List ℕ = r ++ footers in
    ap (λ p. feed env (0xAA ∷ 0xAA ∷ 0xAA ∷ 0xAA ∷ p) m') (append_assoc q (0x55 ∷ r) footers)
    ∙ feed_header env (q ++ 0x55 ∷ rest) m' s.headers s.counted
    ∙ feed_data env q (0x55 ∷ rest) 0 (record m' { link = receiving 0 }) plain refl
        (omega (arith, s.rx_size)) (omega (arith, s.rx_size))
    ∙ stray_footer env rest n (with_rx m' (receiving n) (written 0 q rx)) refl
    ∙ feed_data env r footers n m₁ plain' refl (omega (arith, size, s.rx_size))
        (omega (arith, size, s.rx_size))
    ∙ last_footers env (n + length r)
        (with_rx m₁ (expecting 0 1 (n + length r)) (written n r (written 0 q rx))) refl
    ∙ ignored env (n + length r)
        (with_rx m₁ (expecting 0 4 (n + length r)) (written n r (written 0 q rx)))
    ∙ ap (λ c. executed env c (with_rx m' (expecting 0 4 c) (written n r (written 0 q rx)))) count
    ∙ ap (λ b. executed env (length (q ++ r)) (with_rx m' (expecting 0 4 (length (q ++ r))) b))
        stored

-- In every state that the program reaches from a start with its counters at zero, by any number of
-- rounds of the main loop, services of the timer and interrupts in any order, a header byte in the
-- payload of a frame cuts the payload: where what stands before and after it fits the receive buffer,
-- of less than 256 bytes, and holds no header or footer byte, only the bytes behind it are executed,
-- as a command of their own, over what stands in the receive buffer then.
pub Reach-feed-header :
    (env : Env) (q r : List ℕ) (m m' : Machine)
    → IsFresh m
    → Reach env m m'
    → IsPlain q
    → IsPlain r
    → length q ≤ length m.comm.rx_buffer
    → length r ≤ length m.comm.rx_buffer
    → length m.comm.rx_buffer < 256
    → feed env (frame (q ++ 0xAA ∷ r)) m'
      ≡ executed env
          (length r)
          (received r (with_rx m' m'.link (q ++ drop (length q) m'.comm.rx_buffer)))
Reach-feed-header env q r m m' f reach plain plain' k k' l =
    let s = Reach-IsSound env m m' f reach in
    let rx = m'.comm.rx_buffer in
    let footers : List ℕ = 0x55 ∷ 0x55 ∷ 0x55 ∷ 0x55 ∷ [] in
    let n = 0 + length q in
    let size : length (written 0 q rx) ≡ length rx =
      omega (arith, length-append q (drop n rx), length-drop n rx, s.rx_size) in
    let m₁ = with_rx m' (receiving n) (written 0 q rx) in
    let m₂ = with_rx m' (receiving 0) (written 0 q rx) in
    let z : 0 + length r ≡ length r = omega arith in
    let y : n ≡ length q = omega arith in
    ap (λ p. feed env (0xAA ∷ 0xAA ∷ 0xAA ∷ 0xAA ∷ p) m') (append_assoc q (0xAA ∷ r) footers)
    ∙ feed_header env (q ++ 0xAA ∷ (r ++ footers)) m' s.headers s.counted
    ∙ feed_data env q (0xAA ∷ (r ++ footers)) 0 (record m' { link = receiving 0 }) plain refl
        (omega (arith, s.rx_size)) (omega (arith, s.rx_size))
    ∙ header_then env (r ++ footers) m₁ (omega arith) (inl refl)
    ∙ feed_data env r footers 0 m₂ plain' refl (omega (arith, size, s.rx_size))
        (omega (arith, size, s.rx_size))
    ∙ feed_footer env (0 + length r)
        (with_rx m' (receiving (0 + length r)) (written 0 r (written 0 q rx))) refl
    ∙ ap (λ c. executed env c (with_rx m' (expecting 0 4 c) (written 0 r (written 0 q rx)))) z
    ∙ ap (λ b. executed env (length r) (with_rx m' (expecting 0 4 (length r)) b))
        (ap (λ c. r ++ drop c (q ++ drop n rx)) z
          ∙ ap (λ c. r ++ drop (length r) (q ++ drop c rx)) y)
