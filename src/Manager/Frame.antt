-- ===== src/Manager/Frame.antt =====
-- A whole frame that the main loop takes between interrupts.
use freaky_camper_arduino.Base.{
  ℕ, suc, ◌+◌, ◌≤◌, ◌<◌, ◌≡◌, ◌⊎◌, inr, refl, sym, ap, subst, ◌∙◌, true, List, [], ◌∷◌, ◌++◌,
  length, drop, take-append-drop, set, length-set, arith,
}
use native.Mathlib.Nat.{add-zero}
use freaky_camper_arduino.Board.{Env, delay}
use freaky_camper_arduino.Machine.{Machine, Link, ◌>>◌, Outcome, call, done, fault, hang, Over}
use freaky_camper_arduino.Protocol.{prot_footer}
use freaky_camper_arduino.Manager.{got_byte, freaky_camp_manager_loop}
use freaky_camper_arduino.Manager.Feeding.{
  IsPlain, receiving, written, with_rx, got_data_lem, written_step,
}
use freaky_camper_arduino.Manager.Receiver.{executed, counting, header_step, counting_four}
use freaky_camper_arduino.Manager.Interleaving.{IsFresh, Reach, Reach-IsSound}
use freaky_camper_arduino.Manager.Interrupted.{polled, Takes, Fed, At, Fed-byte, Fed-At, loop-Takes}

-- The receiver with `n` bytes of data and `f` bytes of footer.
abbrev pub footing : ℕ → ℕ → Link
footing n f = record { rx_counter = n; header_count = 0; footer_count = f; ready_for_datas = true }

got_header_lem :
    (env : Env) (l : Link) (rx : List ℕ)
    → l.header_count ≤ 4
    → (l.ready_for_datas ≡ true) ⊎ (l.rx_counter ≡ 0)
    → (n : Machine) → n.link ≡ l
    → n.comm.rx_buffer ≡ rx
    → got_byte env 0xAA n ≡ done tt (with_rx n (counting l.header_count) rx)
got_header_lem env l rx h c n e d =
    header_step env n (subst (λ (k : Link). k.header_count ≤ 4) (sym e) h)
      (subst (λ (k : Link). (k.ready_for_datas ≡ true) ⊎ (k.rx_counter ≡ 0)) (sym e) c)
    ∙ ap (λ (k : Link). done tt (with_rx n (counting k.header_count) n.comm.rx_buffer)) e
    ∙ ap (λ r. done tt (with_rx n (counting l.header_count) r)) d

-- The first footer byte comes behind the header's count, the others behind footer bytes.
got_footer_lem :
    (env : Env) (l : Link) (rx : List ℕ)
    → l.ready_for_datas ≡ true
    → l.footer_count < 3
    → (n : Machine) → n.link ≡ l
    → n.comm.rx_buffer ≡ rx
    → got_byte env 0x55 n ≡ done tt (with_rx n (footing l.rx_counter (l.footer_count + 1)) rx)
unfolding got_byte
got_footer_lem env l rx r k n e d = ground (arith, e, d)

module _ (env : Env) where
  Fed-header :
      (l : Link) (rx rest : List ℕ) (m m' : Machine)
      → l.header_count ≤ 4
      → (l.ready_for_datas ≡ true) ⊎ (l.rx_counter ≡ 0)
      → Fed env (0xAA ∷ 0xAA ∷ 0xAA ∷ 0xAA ∷ rest) m m'
      → Over (At l rx) m
      → (n : Machine) × Over (At (receiving 0) rx) n × Fed env rest n m'
  Fed-header l rx rest m m' h c f a =
      let l₁ = counting l.header_count in
      let l₂ = counting l₁.header_count in
      let l₃ = counting l₂.header_count in
      let l₄ = counting l₃.header_count in
      let (n₁, a₁, f₁) = Fed-byte env l l₁ rx rx _ _ m m' (got_header_lem env l rx h c) f a in
      let (n₂, a₂, f₂) =
        Fed-byte env l₁ l₂ rx rx _ _ n₁ m' (got_header_lem env l₁ rx (ground arith) (inr refl)) f₁
          a₁ in
      let (n₃, a₃, f₃) =
        Fed-byte env l₂ l₃ rx rx _ _ n₂ m' (got_header_lem env l₂ rx (ground arith) (inr refl)) f₂
          a₂ in
      let (n₄, a₄, f₄) =
        Fed-byte env l₃ l₄ rx rx _ _ n₃ m' (got_header_lem env l₃ rx (ground arith) (inr refl)) f₃
          a₃ in
      (n₄, subst (λ k. Over (At k rx) n₄) (counting_four l.header_count h) a₄, f₄)

  Fed-data :
      (p rest rx : List ℕ) (n : ℕ) (m m' : Machine)
      → IsPlain p
      → n + length p ≤ length rx
      → length rx < 256
      → Fed env (p ++ rest) m m'
      → Over (At (receiving n) rx) m
      → (k : Machine) × Over (At (receiving (n + length p)) (written n p rx)) k × Fed env rest k m'
  Fed-data [] rest rx n m m' plain k l f a = (m, rw (add-zero, take-append-drop n rx) a, f)
  Fed-data (b ∷ p) rest rx n m m' plain k l f a =
      let got = λ (j : Machine) (e : j.link ≡ receiving n) (d : j.comm.rx_buffer ≡ rx).
        got_data_lem env b n j plain.0 plain.1 e (rw d (omega (arith, k))) (omega (arith, k, l))
        ∙ ap (λ r. done tt (with_rx j (receiving (n + 1)) (set r n b))) d in
      let (j, c, g) = Fed-byte env _ _ rx (set rx n b) b (p ++ rest) m m' got f a in
      let (i, o, r) =
        Fed-data p rest (set rx n b) (n + 1) j m' plain.2 (omega (arith, k, length-set rx n b))
          (omega (arith, l, length-set rx n b)) g c in
      let e : n + 1 + length p ≡ n + suc (length p) = omega arith in
      (
        i,
        subst (λ q. Over (At (receiving q) (written n (b ∷ p) rx)) i) e
            (subst (λ w. Over (At (receiving (n + 1 + length p)) w) i) (written_step n b p rx k) o),
        r,
      )

  -- Three bytes of footer, and the interrupts after them.
  Fed-footers :
      (n : ℕ) (rx : List ℕ) (m m' : Machine)
      → Fed env (0x55 ∷ 0x55 ∷ 0x55 ∷ []) m m'
      → Over (At (receiving n) rx) m
      → Over (At (footing n 3) rx) m'
  Fed-footers n rx m m' f a =
      let (n₁, a₁, f₁) =
        Fed-byte env _ (footing n 1) rx rx _ _ m m'
          (got_footer_lem env (receiving n) rx refl (omega arith)) f a in
      let (n₂, a₂, f₂) =
        Fed-byte env _ (footing n 2) rx rx _ _ n₁ m'
          (got_footer_lem env (footing n 1) rx refl (omega arith)) f₁ a₁ in
      let (n₃, a₃, f₃) =
        Fed-byte env _ (footing n 3) rx rx _ _ n₂ m'
          (got_footer_lem env (footing n 2) rx refl (omega arith)) f₂ a₂ in
      Fed-At env (footing n 3) rx n₃ m' f₃ a₃

-- The frame of a payload, but for its last byte.
abbrev pub unfinished : List ℕ → List ℕ
unfinished p = 0xAA ∷ 0xAA ∷ 0xAA ∷ 0xAA ∷ (p ++ 0x55 ∷ 0x55 ∷ 0x55 ∷ [])

got_last_lem :
    (env : Env) (k : ℕ) (n : Machine)
    → n.link ≡ footing k 3
    → got_byte env 0x55 n ≡ executed env k (record n { link = footing k 4 })
unfolding got_byte
got_last_lem env k n e = rw e refl

abbrev then_delay : Outcome (Unit {0}) → Outcome (Unit {0})
then_delay o = elim o [ done _ m ↦ call (delay 25) m | fault ↦ fault | hang ↦ hang ]

-- In every state that the program reaches, whatever idle rounds of the main loop, services of the
-- timer and other interrupts come between the bytes of a frame, the round that takes the last byte
-- executes exactly the frame's payload, which stands at the start of the receive buffer, and waits.
-- The program starts with its counters at zero; the payload fits the receive buffer, of less than
-- 256 bytes, and holds no header or footer byte.
pub Reach-Fed-frame :
    (env : Env) (p : List ℕ) (m₀ m m' : Machine)
    → IsFresh m₀
    → Reach env m₀ m
    → IsPlain p
    → length p ≤ length m₀.comm.rx_buffer
    → length m₀.comm.rx_buffer < 256
    → Fed env (unfinished p) m m'
    → Takes env m' prot_footer
    → freaky_camp_manager_loop env m'
      ≡ (do executed env (length p); call (delay 25))
          (with_rx (polled m') (footing (length p) 4) (p ++ drop (length p) m.comm.rx_buffer))
Reach-Fed-frame env p m₀ m m' f r plain k l fed t =
    let s = Reach-IsSound env m₀ m f r in
    let rx = m.comm.rx_buffer in
    let (n, a, fed₁) =
      Fed-header env m.link rx _ m m' s.headers s.counted fed
        (record { holds = record { same_link = refl; same_rx = refl } }) in
    let (n', a', fed₂) =
      Fed-data env p _ rx 0 n m' plain (omega (arith, s.rx_size)) (omega (arith, s.rx_size)) fed₁
        a in
    let b = Fed-footers env (0 + length p) (written 0 p rx) n' m' fed₂ a' in
    let z : 0 + length p ≡ length p = omega arith in
    loop-Takes env m' prot_footer t
    ∙ ap then_delay (got_last_lem env (0 + length p) (polled m') b.holds.same_link)
    ∙ ap (λ q. then_delay (executed env q (with_rx (polled m') (footing q 4) m'.comm.rx_buffer))) z
    ∙ ap (λ r. then_delay (executed env (length p) (with_rx (polled m') (footing (length p) 4) r)))
        (b.holds.same_rx ∙ ap (λ q. p ++ drop q rx) z)
