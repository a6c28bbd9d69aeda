-- ===== src/Machine/Safety.antt =====
-- Operations that make no access outside an array, whether or not they come back.
use freaky_camper_arduino.Base.{◌≡◌, ◌≢◌, refl, subst, Bool, true, false, if◌then◌else◌}
use freaky_camper_arduino.Machine.State.{Machine, Outcome, done, fault, hang, M, ◌>>=◌, skip}
use freaky_camper_arduino.Machine.Logic.{Returns}
use freaky_camper_arduino.Machine.Invariant.{Ends, Ends-bind, Keeps, View, Over}
use freaky_camper_arduino.Machine.Total.{Runs, Gives, Leads}

abbrev pub Anything : View → Type 0
Anything v = Unit {0}

pub record Safe {A : Type 0} (P : Machine → Type 0) (x : M A) : Type 0 where
  pub at : (m : Machine) → P m → Ends ⊥ (Over Anything) (x m)

pub Safe-never : {A : Type 0} (o : Outcome A) → Ends ⊥ (Over Anything) o → o ≢ fault
Safe-never o h e = subst (Ends ⊥ (Over Anything)) e h

Returns-Ends :
    {A : Type 0} (Q : A → Machine → Type 0) (P : Machine → Type 0) (o : Outcome A)
    → Returns Q o
    → ((a : A) (m : Machine) → Q a m → P m)
    → Ends ⊥ P o
Returns-Ends Q P (done a m) h k = k a m h
Returns-Ends Q P fault h k = h
Returns-Ends Q P hang h k = tt

module _ {P : Machine → Type 0} where
  pub Safe-Keeps : {A : Type 0} (x : M A) → Keeps ⊥ (Over Anything) x → Safe P x
  Safe-Keeps x k = record { at = λ m p. k.at m (record { holds = tt }) }

  pub Safe-Runs : {A : Type 0} (x : M A) → Runs P x → Safe P x
  Safe-Runs x h = record {
    at = λ m p. Returns-Ends _ _ (x m) (h.at m p) λ a m' q. record { holds = tt };
  }

  pub Safe-Leads : {A : Type 0} {Q : Machine → Type 0} (x : M A) → Leads P Q x → Safe P x
  Safe-Leads x h = record {
    at = λ m p. Returns-Ends _ _ (x m) (h.at m p) λ a m' q. record { holds = tt };
  }

  pub Safe-weaken :
      {A : Type 0} {Q : Machine → Type 0} (x : M A)
      → ((m : Machine) → P m → Q m)
      → Safe Q x
      → Safe P x
  Safe-weaken x f h = record { at = λ m p. h.at m (f m p) }

  pub Safe-skip : Safe P skip
  Safe-skip = record { at = λ m p. record { holds = tt } }

  pub Safe-if :
      {A : Type 0} (b : Bool) (x y : M A)
      → (b ≡ true → Safe P x)
      → Safe P y
      → Safe P (if b then x else y)
  Safe-if true x y h k = h refl
  Safe-if false x y h k = k

  pub Safe-bind :
      {A B : Type 0} (x : M A) (f : A → M B)
      → Runs P x
      → ((a : A) → Safe P (f a))
      → Safe P (x >>= f)
  Safe-bind x f h k = record {
    at = λ m p.
        Ends-bind ⊥ P (Over Anything) x f m (Returns-Ends _ P (x m) (h.at m p) λ a m' q. q)
          λ a m' q. (k a).at m' q;
  }

  -- What follows an operation with a known result.
  pub Safe-given :
      {A B : Type 0} (a : A) (x : M A) (f : A → M B) → Gives P a x → Safe P (f a) → Safe P (x >>= f)
  Safe-given {A} {B} a x f h k = record { at = λ m p. after (x m) (h.at m p) }
    where
      after :
          (o : Outcome A)
          → Returns (λ b m'. (b ≡ a) × P m') o
          → Ends ⊥ (Over Anything) (elim o [ done a m' ↦ f a m' | fault ↦ fault | hang ↦ hang ])
      after (done b m') q = rw q.0 (k.at m' q.1)
      after fault q = q
      after hang q = tt

pub ruleset safe_rules = (Safe-skip, Safe-if, Safe-bind)
