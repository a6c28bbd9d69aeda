-- ===== src/Manager/Overflow.antt =====
-- Which accesses outside an array a round of the main loop can make.
use freaky_camper_arduino.Base.{
  leb, ◌||◌, not, ℕ, ◌≤◌, ◌<◌, ◌≡◌, ◌⊎◌, inl, inr, ap, ◌∙◌, ◌==◌, ◌&&◌, ltb, Bool-cases, true, some,
  [], ◌∷◌, length, get_elem?, get_elem?_split, sizes, arith,
}
use freaky_camper_arduino.Board.{Env}
use freaky_camper_arduino.Machine.{Machine, Safe-never, fault}
use freaky_camper_arduino.Manager.{freaky_camp_manager_loop}
use freaky_camper_arduino.Manager.Rounds.{HasMessages, Completes, IsGuarded, loop-Ends}
use freaky_camper_arduino.Manager.Interleaving.{IsFresh, Reach, Reach-IsSound}
use freaky_camper_arduino.Manager.Tablet.{HasSizes, Reach-sizes}

-- Data are expected, and the receive buffer is full.
abbrev pub Overflows : Machine → Type 0
Overflows m = (m.link.ready_for_datas ≡ true) × (length m.comm.rx_buffer ≤ m.link.rx_counter)

-- Data are expected and three footer bytes counted, and the receive buffer starts with a telecommand
-- of seven bytes at least for a light that is none of the three.
abbrev pub NamesNoLight : Machine → Type 0
NamesNoLight m =
    (id : ℕ) × (m.link.ready_for_datas ≡ true)
    × (m.link.footer_count ≡ 3)
    × (7 ≤ m.link.rx_counter)
    × (get_elem? m.comm.rx_buffer 0 ≡ some 13)
    × (get_elem? m.comm.rx_buffer 2 ≡ some id)
    × (3 ≤ id)

room_or_Overflows :
    (m : Machine)
    → Overflows m ⊎ ((m.link.ready_for_datas ≡ true) → m.link.rx_counter < length m.comm.rx_buffer)
room_or_Overflows m = elim (Bool-cases (ltb m.link.rx_counter (length m.comm.rx_buffer))) [
  | inl t ↦ inr λ _. ground (arith, t)
  | inr f ↦ elim (Bool-cases m.link.ready_for_datas) [
    | inl ready ↦ inl (ready, ground (arith, f))
    | inr none_expected ↦ inr λ ready. ground (arith, ready, none_expected)
  ]
]

light_or_NamesNoLight :
    (m : Machine) (code id : ℕ)
    → get_elem? m.comm.rx_buffer 0 ≡ some code
    → get_elem? m.comm.rx_buffer 2 ≡ some id
    → NamesNoLight m ⊎ (Completes m.link → code ≡ 13 → id < 3)
light_or_NamesNoLight m code id has_code has_id = elim (Bool-cases (ltb id 3 || not (code == 13))) [
  | inl t ↦ inr λ _ is_light. ground (arith, t, is_light)
  | inr f ↦
      let is_light : code ≡ 13 = ground (arith, f) in
      elim (Bool-cases
        (m.link.ready_for_datas && m.link.footer_count == 3 && leb 7 m.link.rx_counter)) [
          | inl t ↦ inl (
            id,
            ground (arith, t),
            ground (arith, t),
            ground (arith, t),
            has_code ∙ ap some is_light,
            has_id,
            ground (arith, f),
          )
          | inr f' ↦ inr λ c _. absurd (ground (arith, f', c.ready, c.footers, c.long))
        ]
]

-- In every state that the program reaches from a start with its arrays at their declared sizes, a
-- receive buffer of at least seven bytes and its counters at zero, a round of the main loop makes an
-- access outside an array only in two cases, where a message of one byte has one: data are expected
-- and the receive buffer is full, or three footer bytes have come behind a telecommand of seven bytes
-- at least for a light that is none of the three.
pub Reach-freaky_camp_manager_loop-Overflows :
    (env : Env) (m m' : Machine)
    → IsFresh m
    → HasSizes m
    → sizes m.lights_conf ≡ 9 ∷ 9 ∷ 9 ∷ []
    → 7 ≤ length m.comm.rx_buffer
    → HasMessages env
    → Reach env m m'
    → freaky_camp_manager_loop env m' ≡ fault
    → Overflows m' ⊎ NamesNoLight m'
Reach-freaky_camp_manager_loop-Overflows env m m' f z table k messages r e =
    let s = Reach-IsSound env m m' f r in
    let enough : 7 ≤ length m'.comm.rx_buffer = omega (arith, s.rx_size) in
    let (code, has_code, _) = get_elem?_split 0 m'.comm.rx_buffer (omega (arith, enough)) in
    let (id, has_id, _) = get_elem?_split 2 m'.comm.rx_buffer (omega (arith, enough)) in
    elim (room_or_Overflows m') [
      | inl overflows ↦ inl overflows
      | inr room ↦ elim (light_or_NamesNoLight m' code id has_code has_id) [
        | inl none_such ↦ inr none_such
        | inr within ↦
            let guarded : IsGuarded m' = record {
              sized = Reach-sizes env m m' f r z;
              table = s.same_columns ∙ table;
              enough = enough;
              room = room;
              few = s.footers;
              code = code;
              has_code = has_code;
              id = id;
              has_id = has_id;
              within = within;
            } in
            absurd
              (Safe-never (freaky_camp_manager_loop env m') (loop-Ends env m' messages guarded) e)
      ]
    ]
