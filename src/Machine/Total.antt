-- ===== src/Machine/Total.antt =====
-- Operations that end without a fault and keep a property, one rule for each way to build one.
use freaky_camper_arduino.Base.{
  ℕ, zero, suc, ◌+◌, ◌≤◌, ◌<◌, ◌≡◌, refl, subst, Bool, true, false, if◌then◌else◌, List, length,
  get_elem?_split, arith,
}
use freaky_camper_arduino.Machine.State.{Machine, M, ◌>>=◌, return, skip, get, for_range, index}
use freaky_camper_arduino.Machine.Logic.{Returns, Returns-bind, run-index}

pub record Runs {A : Type 0} (P : Machine → Type 0) (x : M A) : Type 0 where
  pub at : (m : Machine) → P m → Returns (λ _ m'. P m') (x m)

-- The same for an operation whose result is `a`.
pub record Gives {A : Type 0} (P : Machine → Type 0) (a : A) (x : M A) : Type 0 where
  pub at : (m : Machine) → P m → Returns (λ b m'. (b ≡ a) × P m') (x m)

module _ {P : Machine → Type 0} where
  pub Runs-return : {A : Type 0} (a : A) → Runs P (return a)
  Runs-return a = record { at = λ m h. h }

  pub Runs-skip : Runs P skip
  Runs-skip = record { at = λ m h. h }

  pub Runs-get : {A : Type 0} (f : Machine → A) → Runs P (get f)
  Runs-get f = record { at = λ m h. h }

  pub Runs-if :
      {A : Type 0} (b : Bool) (x y : M A) → Runs P x → Runs P y → Runs P (if b then x else y)
  Runs-if true x y h k = h
  Runs-if false x y h k = k

  pub Runs-bind :
      {A B : Type 0} (x : M A) (f : A → M B)
      → Runs P x
      → ((a : A) → Runs P (f a))
      → Runs P (x >>= f)
  Runs-bind x f h k = record {
    at = λ m p. Returns-bind _ _ x f m (h.at m p) λ a m' q. (k a).at m' q;
  }

  pub Runs-index : {A : Type 0} (xs : List A) (i : ℕ) → i < length xs → Runs P (index xs i)
  Runs-index xs i k = record {
    at = λ m p. let (x, e, _) = get_elem?_split i xs k in rw (run-index xs i x m e) p;
  }

  pub Runs-for_range :
      (hi : ℕ) (body : ℕ → M (Unit {0})) (n i : ℕ)
      → i + n ≤ hi
      → ((j : ℕ) → j < hi → Runs P (body j))
      → Runs P (for_range n i body)
  Runs-for_range hi body zero i k h = record { at = λ m p. p }
  Runs-for_range hi body (suc n) i k h =
      let r =
        Runs-bind (body i) (λ _. for_range n (suc i) body) (h i (omega arith))
          (λ _. Runs-for_range hi body n (suc i) (omega arith) h) in
      record { at = r.at }

  pub Gives-return : {A : Type 0} (a : A) → Gives P a (return a)
  Gives-return a = record { at = λ m h. (refl, h) }

  pub Gives-bind :
      {A B : Type 0} (b : B) (x : M A) (f : A → M B)
      → Runs P x
      → ((a : A) → Gives P b (f a))
      → Gives P b (x >>= f)
  Gives-bind b x f h k = record {
    at = λ m p. Returns-bind _ _ x f m (h.at m p) λ a m' q. (k a).at m' q;
  }

  -- What follows an operation with a known result.
  pub Runs-given :
      {A B : Type 0} (a : A) (x : M A) (f : A → M B) → Gives P a x → Runs P (f a) → Runs P (x >>= f)
  Runs-given a x f h k = record {
    at = λ m p. Returns-bind _ _ x f m (h.at m p) λ b m' q. rw q.0 (k.at m' q.1);
  }

-- From a state with `P`, the operation ends without a fault in a state with `Q`.
pub record Leads {A : Type 0} (P Q : Machine → Type 0) (x : M A) : Type 0 where
  pub at : (m : Machine) → P m → Returns (λ _ m'. Q m') (x m)

module _ {P Q : Machine → Type 0} where
  pub Leads-before :
      {A B : Type 0} (x : M A) (f : A → M B)
      → Runs P x
      → ((a : A) → Leads P Q (f a))
      → Leads P Q (x >>= f)
  Leads-before x f h k = record {
    at = λ m p. Returns-bind _ _ x f m (h.at m p) λ a m' q. (k a).at m' q;
  }

  pub Leads-after :
      {A B : Type 0} (x : M A) (f : A → M B)
      → Leads P Q x
      → ((a : A) → Runs Q (f a))
      → Leads P Q (x >>= f)
  Leads-after x f h k = record {
    at = λ m p. Returns-bind _ _ x f m (h.at m p) λ a m' q. (k a).at m' q;
  }

-- What follows an operation with a known result.
pub Leads-given :
    {A B : Type 0} {P Q : Machine → Type 0} (a : A) (x : M A) (f : A → M B)
    → Gives P a x
    → Leads P Q (f a)
    → Leads P Q (x >>= f)
Leads-given a x f h k = record {
  at = λ m p. Returns-bind _ _ x f m (h.at m p) λ b m' q. rw q.0 (k.at m' q.1);
}

pub Leads-then :
    {A B : Type 0} {P Q R : Machine → Type 0} (x : M A) (f : A → M B)
    → Leads P Q x
    → ((a : A) → Leads Q R (f a))
    → Leads P R (x >>= f)
Leads-then x f h k = record {
  at = λ m p. Returns-bind _ _ x f m (h.at m p) λ a m' q. (k a).at m' q;
}

-- A loop, with what holds before each round.
pub Leads-for_range :
    (P : ℕ → Machine → Type 0) (hi : ℕ) (body : ℕ → M (Unit {0}))
    → ((j : ℕ) → j < hi → Leads (P j) (P (suc j)) (body j))
    → (n i : ℕ) → i + n ≡ hi
    → Leads (P i) (P hi) (for_range n i body)
Leads-for_range P hi body h zero i e = record {
  at = λ m p. let k : i ≡ hi = omega arith in subst (λ j. P j m) k p;
}
Leads-for_range P hi body h (suc n) i e =
    let rest = Leads-for_range P hi body h n (suc i) (omega arith) in
    let r = Leads-then (body i) (λ _. for_range n (suc i) body) (h i (omega arith)) (λ _. rest) in
    record { at = r.at }

pub ruleset leads_rules = (Leads-before, Leads-after)

pub ruleset total_rules =
    (Runs-return, Runs-skip, Runs-get, Runs-if, Runs-bind, Runs-index, Gives-return, Gives-bind)
