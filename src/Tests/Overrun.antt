-- ===== src/Tests/Overrun.antt =====
-- Eight bytes of data that a concrete tablet sends to a receive buffer of seven.
use freaky_camper_arduino.Base.{
  if◌then◌else◌, ltb, ℕ, zero, suc, ◌≡◌, ◌⊎◌, refl, [], ◌∷◌, replicate, arith,
}
use freaky_camper_arduino.Board.{Env}
use freaky_camper_arduino.Machine.{Machine, Outcome, done, fault, hang}
use freaky_camper_arduino.Protocol.{prot_header}
use freaky_camper_arduino.Manager.{freaky_camp_manager_start, freaky_camp_manager_loop, got_byte}
use freaky_camper_arduino.Manager.Interleaving.{main_loop, Reach, start, next}
use freaky_camper_arduino.Manager.Overflow.{
  Overflows, NamesNoLight, Reach-freaky_camp_manager_loop-Overflows,
}
use freaky_camper_arduino.Tests.{bench, power_on}
use freaky_camper_arduino.Tests.Frame.{messages}

-- A tablet that sends four header bytes and then data.
abbrev tablet : Env
tablet = record bench {
  reception = λ t. record {
    rcode = 0;
    len = 1;
    msg = (if ltb (messages t) 4 then prot_header else 1) ∷ [];
  };
}

abbrev small : Machine
small = record power_on { comm = record power_on.comm { rx_buffer = replicate 7 0 } }

abbrev after : Outcome (Unit {0}) → Machine
after (done a m) = m
after fault = power_on
after hang = power_on

abbrev begun : Machine
unfolding freaky_camp_manager_start
begun = after (freaky_camp_manager_start tablet small)

abbrev round : Machine → Machine
unfolding freaky_camp_manager_loop got_byte
round m = after (freaky_camp_manager_loop tablet m)

-- After the start and some rounds.
abbrev rounds : ℕ → Machine
rounds zero = begun
rounds (suc n) = round (rounds n)

abbrev full : Machine
full = rounds 11

goes :
    (n : ℕ)
    → Reach tablet small (rounds n)
    → freaky_camp_manager_loop tablet (rounds n) ≡ done tt (round (rounds n))
    → Reach tablet small (rounds (suc n))
goes n r e = next {m' = rounds n} r (main_loop e)

half-Reach : Reach tablet small (rounds 6)
unfolding freaky_camp_manager_start freaky_camp_manager_loop got_byte
half-Reach =
    goes 5 (goes 4 (goes 3 (goes 2 (goes 1 (goes 0 (start refl) refl) refl) refl) refl) refl) refl

later-Reach : Reach tablet small (rounds 9)
unfolding freaky_camp_manager_start freaky_camp_manager_loop got_byte
later-Reach = goes 8 (goes 7 (goes 6 half-Reach refl) refl) refl

next-Reach : Reach tablet small (rounds 10)
unfolding freaky_camp_manager_start freaky_camp_manager_loop got_byte
next-Reach = goes 9 later-Reach refl

full-Reach : Reach tablet small full
unfolding freaky_camp_manager_start freaky_camp_manager_loop got_byte
full-Reach = goes 10 next-Reach refl

Reach-freaky_camp_manager_loop-Overflows_example : Overflows full ⊎ NamesNoLight full
unfolding freaky_camp_manager_start freaky_camp_manager_loop got_byte
Reach-freaky_camp_manager_loop-Overflows_example =
    Reach-freaky_camp_manager_loop-Overflows tablet small full (omega arith)
      (record { currents_size = refl; tensions_size = refl; tx_size = refl }) refl (omega arith)
      (record { filled = λ t e. omega arith }) full-Reach refl
