-- ===== src/Manager/Thread/Placing.antt =====
-- What the payload of a telecommand makes of the levels of the relays' pins.
use freaky_camper_arduino.Base.{
  ℕ, ◌≡◌, ◌≢◌, ◌==◌, if◌then◌else◌, refl, subst, inl, inr, Bool, Bool-cases, Option, some, none,
  List, [], ◌∷◌, set, arith,
}
use freaky_camper_arduino.Board.{Call, Pin, digital, digital_write, level}
use freaky_camper_arduino.Machine.{relay_levels}
use freaky_camper_arduino.Protocol.Relays.{relay_of}

-- The place of a relay in `electricalLinesPins`, by the code of its telecommand.
abbrev pub place : ℕ → Option ℕ
place code =
    if code == 11
    then some 0
    else if code == 10
    then some 1
    else if code == 12
    then some 2
    else if code == 14
    then some 3
    else if code == 15
    then some 4
    else none

abbrev pub placed : Option ℕ → ℕ → List (Option Bool) → List (Option Bool)
placed (some i) v ls = set ls i (some (v == 1))
placed none v ls = ls

-- What a payload makes of the levels of the six relays, and what a series does.
abbrev pub relays_after : List ℕ → List (Option Bool) → List (Option Bool)
relays_after (code ∷ v ∷ p) ls = placed (place code) v ls
relays_after _ ls = ls

abbrev pub relays_after_all : List (List ℕ) → List (Option Bool) → List (Option Bool)
relays_after_all [] ls = ls
relays_after_all (p ∷ ps) ls = relays_after_all ps (relays_after p ls)

-- Payloads that are not empty and for no light, with a value where they are for a relay.
abbrev pub IsHarmless : List ℕ → Type 0
IsHarmless [] = ⊥
IsHarmless (code ∷ []) = (code ≢ 13) × (place code ≡ none)
IsHarmless (code ∷ v ∷ p) = code ≢ 13

abbrev pub AllHarmless : List (List ℕ) → Type 0
AllHarmless [] = Unit {0}
AllHarmless (p ∷ ps) = IsHarmless p × AllHarmless ps

-- The pin of the relay at a place, and what driving it does to the levels.
pub record Drives (code i : ℕ) : Type 0 where
  pub pin : Pin
  pub pin_of_code : relay_of code ≡ some pin
  pub drives :
      (t : List Call) (v : Bool)
      → relay_levels (digital_write pin v ∷ t) ≡ set (relay_levels t) i (some v)

water-Drives : Drives 11 0
unfolding relay_levels level
water-Drives = record { pin = digital 33; pin_of_code = refl; drives = λ t v. refl }

fridge-Drives : Drives 10 1
unfolding relay_levels level
fridge-Drives = record { pin = digital 34; pin_of_code = refl; drives = λ t v. refl }

heating-Drives : Drives 12 2
unfolding relay_levels level
heating-Drives = record { pin = digital 35; pin_of_code = refl; drives = λ t v. refl }

aux-Drives : Drives 14 3
unfolding relay_levels level
aux-Drives = record { pin = digital 40; pin_of_code = refl; drives = λ t v. refl }

spare-Drives : Drives 15 4
unfolding relay_levels level
spare-Drives = record { pin = digital 41; pin_of_code = refl; drives = λ t v. refl }

pub place-Drives : (code i : ℕ) → place code ≡ some i → Drives code i
place-Drives code i e = elim (Bool-cases (code == 11)) [
  | inl a ↦ move_to 11 0 water-Drives (ground (arith, a)) (ground (arith, a, e))
  | inr a ↦ elim (Bool-cases (code == 10)) [
    | inl b ↦ move_to 10 1 fridge-Drives (ground (arith, b)) (ground (arith, a, b, e))
    | inr b ↦ elim (Bool-cases (code == 12)) [
      | inl c ↦ move_to 12 2 heating-Drives (ground (arith, c)) (ground (arith, a, b, c, e))
      | inr c ↦ elim (Bool-cases (code == 14)) [
        | inl d ↦ move_to 14 3 aux-Drives (ground (arith, d)) (ground (arith, a, b, c, d, e))
        | inr d ↦
            move_to 15 4 spare-Drives (ground (arith, a, b, c, d, e))
              (ground (arith, a, b, c, d, e))
      ]
    ]
  ]
]
  where
    move_to : (c j : ℕ) → Drives c j → c ≡ code → j ≡ i → Drives code i
    move_to c j d f g = subst (Drives code) g (subst (λ c. Drives c j) f d)
