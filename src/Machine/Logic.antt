-- ===== src/Machine/Logic.antt =====
-- Total correctness of an operation: it ends, without a fault, in a state with the property.
use freaky_camper_arduino.Base.{ℕ, List, get_elem?, some, ◌≡◌, Bool, true, false, if◌then◌else◌}
use freaky_camper_arduino.Machine.State.{Machine, Outcome, done, fault, hang, M, index, ◌>>=◌}

abbrev pub Returns : {A : Type 0} → (A → Machine → Type 0) → Outcome A → Type 0
Returns Q (done a m) = Q a m
Returns Q fault = ⊥
Returns Q hang = ⊥

-- The rule for a sequence of two operations.
pub Returns-bind :
    {A B : Type 0} (Q : A → Machine → Type 0) (R : B → Machine → Type 0) (x : M A) (f : A → M B)
    (m : Machine)
    → Returns Q (x m)
    → ((a : A) (m' : Machine) → Q a m' → Returns R (f a m'))
    → Returns R ((x >>= f) m)
Returns-bind {A} {B} Q R x f m h k = go (x m) h
  where
    go :
        (o : Outcome A)
        → Returns Q o
        → Returns R (elim o [ done a m' ↦ f a m' | fault ↦ fault | hang ↦ hang ])
    go (done a m') h = k a m' h
    go fault h = h
    go hang h = h

-- The rule of consequence.
pub Returns-mono :
    {A : Type 0} (Q R : A → Machine → Type 0) (o : Outcome A)
    → Returns Q o
    → ((a : A) (m : Machine) → Q a m → R a m)
    → Returns R o
Returns-mono Q R (done a m) h k = k a m h
Returns-mono Q R fault h k = h
Returns-mono Q R hang h k = h

-- The rule for a test that an operation makes.
pub Returns-if :
    {A : Type 0} (Q : Machine → Type 0) (R : A → Machine → Type 0) (x : M Bool) (p q : M A)
    (m : Machine)
    → Returns (λ _ m'. Q m') (x m)
    → ((m' : Machine) → Q m' → Returns R (p m'))
    → ((m' : Machine) → Q m' → Returns R (q m'))
    → Returns R ((x >>= λ b. if b then p else q) m)
Returns-if Q R x p q m h yes_case no_case = Returns-bind (λ _ m'. Q m') R x _ m h branch
  where
    branch : (b : Bool) (m' : Machine) → Q m' → Returns R ((if b then p else q) m')
    branch true m' g = yes_case m' g
    branch false m' g = no_case m' g

-- A sequence goes on from where its first operation is known to end.
pub Returns-first :
    {A B : Type 0} (R : B → Machine → Type 0) (x : M A) (f : A → M B) (m : Machine) (a : A)
    (m' : Machine)
    → x m ≡ done a m'
    → Returns R (f a m')
    → Returns R ((x >>= f) m)
Returns-first R x f m a m' e h = rw (e, ◌>>=◌) h

-- The same as an equation.
pub run-bind :
    {A B : Type 0} (x : M A) (f : A → M B) (m : Machine) (a : A) (m' : Machine)
    → x m ≡ done a m'
    → (x >>= f) m ≡ f a m'
run-bind x f m a m' e = rw (e, ◌>>=◌)

pub run-index :
    {A : Type 0} (xs : List A) (i : ℕ) (x : A) (m : Machine)
    → get_elem? xs i ≡ some x
    → index xs i m ≡ done x m
run-index xs i x m e = rw (e, index)

-- A sequence faults if its first operation does.
pub fault-first :
    {A B : Type 0} (x : M A) (f : A → M B) (m : Machine) → x m ≡ fault → (x >>= f) m ≡ fault
fault-first x f m e = rw (e, ◌>>=◌)

-- Two results on one run.
pub Returns-both :
    {A : Type 0} (Q R : A → Machine → Type 0) (o : Outcome A)
    → Returns Q o
    → Returns R o
    → Returns (λ a m. Q a m × R a m) o
Returns-both Q R (done a m) h k = (h, k)
Returns-both Q R fault h k = absurd h
Returns-both Q R hang h k = absurd h
