-- ===== src/Protocol/Shorts.antt =====
-- protocol.cpp: the telemetry of the currents and of the tensions, as its reader decodes it.
use freaky_camper_arduino.Base.{
  ℕ, suc, inl, inr, Bool-cases, ◌==◌, ◌+◌, ◌*◌, ◌/◌, ◌%◌, ◌<◌, ◌≤◌, ◌≡◌, ◌≢◌, refl, sym, ap, ◌∙◌,
  some, none, Option, List, length, get_elem?, get_elem?_split, get_elem?-set, get_elem?-set_ne,
  length-set, set, arith,
}
use freaky_camper_arduino.Machine.{
  Machine, Returns, Returns-bind, Returns-first, Returns-mono, ◌>>◌, return, done, for_range, index,
  Leads, Leads-for_range, run-bind, run-index,
}
use freaky_camper_arduino.Protocol.{put, put_short, tm_builder_current, tm_builder_tension}
use freaky_camper_arduino.Protocol.Sending.{put_lem, with_tx}

abbrev joined : Option ℕ → Option ℕ → Option ℕ
joined (some high) (some low) = some (256 * high + low)
joined (some high) none = none
joined none low = none

-- The short `i` that a reader of the telemetry finds behind its code.
abbrev pub short_at : List ℕ → ℕ → Option ℕ
short_at tx i = joined (get_elem? tx (1 + 2 * i)) (get_elem? tx (2 + 2 * i))

abbrev with_short : List ℕ → ℕ → ℕ → List ℕ
with_short tx i v = set (set tx (1 + 2 * i) (v / 256 % 256)) (2 + 2 * i) (v % 256)

length-with_short : (tx : List ℕ) (i v : ℕ) → length (with_short tx i v) ≡ length tx
length-with_short tx i v =
    length-set (set tx (1 + 2 * i) (v / 256 % 256)) (2 + 2 * i) (v % 256)
    ∙ length-set tx (1 + 2 * i) (v / 256 % 256)

get_elem?-with_short :
    (tx : List ℕ) (i v k : ℕ)
    → k ≢ 1 + 2 * i
    → k ≢ 2 + 2 * i
    → get_elem? (with_short tx i v) k ≡ get_elem? tx k
get_elem?-with_short tx i v k a b =
    get_elem?-set_ne (set tx (1 + 2 * i) (v / 256 % 256)) (2 + 2 * i) k (v % 256) b
    ∙ get_elem?-set_ne tx (1 + 2 * i) k (v / 256 % 256) a

short_at-with_short :
    (tx : List ℕ) (i v : ℕ)
    → 2 + 2 * i < length tx
    → v < 65536
    → short_at (with_short tx i v) i ≡ some v
short_at-with_short tx i v k b =
    let tx₁ = set tx (1 + 2 * i) (v / 256 % 256) in
    let whole : 256 * (v / 256 % 256) + v % 256 ≡ v = omega arith in
    let high : get_elem? (with_short tx i v) (1 + 2 * i) ≡ some (v / 256 % 256) =
      get_elem?-set_ne tx₁ (2 + 2 * i) (1 + 2 * i) (v % 256) (λ q. omega arith)
      ∙ get_elem?-set tx (1 + 2 * i) (v / 256 % 256) (omega arith) in
    let low : get_elem? (with_short tx i v) (2 + 2 * i) ≡ some (v % 256) =
      get_elem?-set tx₁ (2 + 2 * i) (v % 256)
        (omega (arith, length-set tx (1 + 2 * i) (v / 256 % 256))) in
    ap (λ q. joined q (get_elem? (with_short tx i v) (2 + 2 * i))) high
    ∙ ap (joined (some (v / 256 % 256))) low
    ∙ ap some whole

short_at-with_short_ne :
    (tx : List ℕ) (i j v : ℕ) → j ≢ i → short_at (with_short tx i v) j ≡ short_at tx j
short_at-with_short_ne tx i j v d =
    ap (λ q. joined q (get_elem? (with_short tx i v) (2 + 2 * j)))
      (get_elem?-with_short tx i v (1 + 2 * j) (λ q. d (omega arith)) (λ q. omega arith))
    ∙ ap (joined (get_elem? tx (1 + 2 * j)))
        (get_elem?-with_short tx i v (2 + 2 * j) (λ q. omega arith) (λ q. d (omega arith)))

module _ (code hi : ℕ) (values : List ℕ) (size : ℕ) (enough : length values ≡ hi)
    (room : 1 + 2 * hi ≤ size) (bounded : (i v : ℕ) → get_elem? values i ≡ some v → v < 65536) where
  -- With the first `j` shorts written.
  record Holds (j : ℕ) (m : Machine) : Type 0 where
    tx_size : length m.comm.tx_buffer ≡ size
    coded : get_elem? m.comm.tx_buffer 0 ≡ some code
    shorts : (i : ℕ) → i < j → short_at m.comm.tx_buffer i ≡ get_elem? values i

  put_short-Holds : (j : ℕ) → j < hi → Leads (Holds j) (Holds (suc j)) (put_short values j)
  put_short-Holds j k = record {
    at = λ m h.
        let tx = m.comm.tx_buffer in
        let (v, has_v, _) = get_elem?_split j values (omega arith) in
        let tx₁ = set tx (1 + 2 * j) (v / 256 % 256) in
        let e : put_short values j m ≡ done tt (with_tx m (with_short tx j v)) =
          run-bind (index values j) _ m v m (run-index values j v m has_v)
          ∙ run-bind (put (1 + 2 * j) (v / 256 % 256)) (λ _. put (2 + 2 * j) (v % 256)) m tt _
              (put_lem (1 + 2 * j) (v / 256 % 256) m (omega (arith, h.tx_size)))
          ∙ put_lem (2 + 2 * j) (v % 256) (with_tx m tx₁)
              (omega (arith, h.tx_size, length-set tx (1 + 2 * j) (v / 256 % 256))) in
        rw e (record {
          tx_size = length-with_short tx j v ∙ h.tx_size;
          coded = get_elem?-with_short tx j v 0 (λ q. omega arith) (λ q. omega arith) ∙ h.coded;
          shorts = λ i l. elim (Bool-cases (i == j)) [
            | inl s ↦
                let same : i ≡ j = ground (arith, s) in
                rw same (
                  short_at-with_short tx j v (omega (arith, h.tx_size)) (bounded j v has_v)
                  ∙ sym has_v)
            | inr d ↦
                let other : i ≢ j = λ q. ground (arith, q, d) in
                short_at-with_short_ne tx j i v other ∙ h.shorts i (omega (arith, other))
          ];
        });
  }

  shorts-Holds :
      (m : Machine)
      → length m.comm.tx_buffer ≡ size
      → Returns
          (λ n m'. (n ≡ 1 + 2 * hi) × Holds hi m')
          ((do for_range hi 0 (put_short values); return (1 + 2 * hi))
            (with_tx m (set m.comm.tx_buffer 0 code)))
  shorts-Holds m e =
      let m₁ = with_tx m (set m.comm.tx_buffer 0 code) in
      let start : Holds 0 m₁ = record {
        tx_size = length-set m.comm.tx_buffer 0 code ∙ e;
        coded = get_elem?-set m.comm.tx_buffer 0 code (omega arith);
        shorts = λ i k. absurd (omega arith);
      } in
      Returns-bind (λ _ m'. Holds hi m') _ (for_range hi 0 (put_short values))
        (λ _. return (1 + 2 * hi)) m₁
        ((Leads-for_range Holds hi (put_short values) put_short-Holds hi 0 (omega arith)).at m₁
          start)
        λ _ m₂ h. (refl, h)

-- The code and the values, as the reader of a telemetry of `n` bytes finds them.
pub record Reports (code : ℕ) (hi : ℕ) (values : ℕ → Option ℕ) (n : ℕ) (m : Machine) : Type 0 where
  pub count : n ≡ 1 + 2 * hi
  pub coded : get_elem? m.comm.tx_buffer 0 ≡ some code
  pub shorts : (i : ℕ) → i < hi → short_at m.comm.tx_buffer i ≡ values i

-- Each current stands in two bytes of the telemetry.
pub tm_builder_current-Reports :
    (m : Machine)
    → length m.currents ≡ 7
    → 15 ≤ length m.comm.tx_buffer
    → ((i v : ℕ) → get_elem? m.currents i ≡ some v → v < 65536)
    → Returns (Reports 70 7 (get_elem? m.currents)) (tm_builder_current m)
unfolding tm_builder_current
tm_builder_current-Reports m e k bounded =
    Returns-mono _ _ (tm_builder_current m)
      (Returns-first _ (put 0 70) _ m tt _ (put_lem 0 70 m (omega arith))
        (shorts-Holds 70 7 m.currents (length m.comm.tx_buffer) e k bounded m refl))
      λ n m' h. record { count = h.0; coded = h.1.coded; shorts = h.1.shorts }

-- Each tension stands in two bytes of the telemetry.
pub tm_builder_tension-Reports :
    (m : Machine)
    → length m.tensions ≡ 2
    → 5 ≤ length m.comm.tx_buffer
    → ((i v : ℕ) → get_elem? m.tensions i ≡ some v → v < 65536)
    → Returns (Reports 71 2 (get_elem? m.tensions)) (tm_builder_tension m)
unfolding tm_builder_tension
tm_builder_tension-Reports m e k bounded =
    Returns-mono _ _ (tm_builder_tension m)
      (Returns-first _ (put 0 71) _ m tt _ (put_lem 0 71 m (omega arith))
        (shorts-Holds 71 2 m.tensions (length m.comm.tx_buffer) e k bounded m refl))
      λ n m' h. record { count = h.0; coded = h.1.coded; shorts = h.1.shorts }
