-- ===== src/Base/Lists.antt =====
-- Lists measured and indexed by native numbers, under the library's names.
use Prim.Native.Nat.{ℕ, zero, suc, ◌+◌, ◌-◌, ◌<◌, ◌≤◌}
use mathlib.Core.Logic.{◌≢◌}
use mathlib.Core.Path.{◌≡◌, refl, ap, ◌∙◌}
use mathlib.Core.List.{List, [], ◌∷◌, ◌++◌}
use mathlib.Core.Option.{Option, none, some}
use native.Mathlib.Omega.{arith}

module _ {ℓ} {A : Type ℓ} where
  abbrev pub length : List A → ℕ
  length [] = 0
  length (x ∷ xs) = suc (length xs)

  abbrev pub get_elem? : List A → ℕ → Option A
  get_elem? [] i = none
  get_elem? (x ∷ xs) zero = some x
  get_elem? (x ∷ xs) (suc i) = get_elem? xs i

  -- A write out of bounds changes nothing; callers test the bound first.
  abbrev pub set : List A → ℕ → A → List A
  set [] i v = []
  set (x ∷ xs) zero v = v ∷ xs
  set (x ∷ xs) (suc i) v = x ∷ set xs i v

  abbrev pub take : ℕ → List A → List A
  take zero xs = []
  take (suc n) [] = []
  take (suc n) (x ∷ xs) = x ∷ take n xs

  abbrev pub drop : ℕ → List A → List A
  drop zero xs = xs
  drop (suc n) [] = []
  drop (suc n) (x ∷ xs) = drop n xs

  abbrev pub replicate : ℕ → A → List A
  replicate zero a = []
  replicate (suc n) a = a ∷ replicate n a

module _ {ℓ} {A : Type ℓ} where
  pub length-replicate : (n : ℕ) (a : A) → length (replicate n a) ≡ n
  length-replicate zero a = refl
  length-replicate (suc n) a = ap suc (length-replicate n a)

  pub length-append : (xs ys : List A) → length (xs ++ ys) ≡ length xs + length ys
  length-append [] ys = omega arith
  length-append (x ∷ xs) ys = omega (arith, length-append xs ys)

  pub length-set : (xs : List A) (i : ℕ) (v : A) → length (set xs i v) ≡ length xs
  length-set [] i v = refl
  length-set (x ∷ xs) zero v = refl
  length-set (x ∷ xs) (suc i) v = ap suc (length-set xs i v)

  -- What an element is after a write at its place, and at another.
  pub get_elem?-set :
      (xs : List A) (i : ℕ) (v : A) → i < length xs → get_elem? (set xs i v) i ≡ some v
  get_elem?-set [] i v k = absurd (omega arith)
  get_elem?-set (x ∷ xs) zero v k = refl
  get_elem?-set (x ∷ xs) (suc i) v k = get_elem?-set xs i v (omega arith)

  pub get_elem?-set_ne :
      (xs : List A) (i j : ℕ) (v : A) → j ≢ i → get_elem? (set xs i v) j ≡ get_elem? xs j
  get_elem?-set_ne [] i j v k = refl
  get_elem?-set_ne (x ∷ xs) zero zero v k = absurd (k refl)
  get_elem?-set_ne (x ∷ xs) zero (suc j) v k = refl
  get_elem?-set_ne (x ∷ xs) (suc i) zero v k = refl
  get_elem?-set_ne (x ∷ xs) (suc i) (suc j) v k = get_elem?-set_ne xs i j v λ e. k (ap suc e)

  pub take-append-drop : (n : ℕ) (xs : List A) → take n xs ++ drop n xs ≡ xs
  take-append-drop zero xs = refl
  take-append-drop (suc n) [] = refl
  take-append-drop (suc n) (x ∷ xs) = rw (take-append-drop n xs)

  pub take-append_eq : (n : ℕ) (xs ys : List A) → length xs ≡ n → take n (xs ++ ys) ≡ xs
  take-append_eq zero [] ys h = refl
  take-append_eq zero (x ∷ xs) ys h = absurd (omega arith)
  take-append_eq (suc n) [] ys h = absurd (omega arith)
  take-append_eq (suc n) (x ∷ xs) ys h = ap (◌∷◌ x) (take-append_eq n xs ys (omega arith))

  pub drop-append_eq : (n : ℕ) (xs ys : List A) → length xs ≡ n → drop n (xs ++ ys) ≡ ys
  drop-append_eq zero [] ys h = refl
  drop-append_eq zero (x ∷ xs) ys h = absurd (omega arith)
  drop-append_eq (suc n) [] ys h = absurd (omega arith)
  drop-append_eq (suc n) (x ∷ xs) ys h = drop-append_eq n xs ys (omega arith)

  pub length-take_le : (n : ℕ) (xs : List A) → n ≤ length xs → length (take n xs) ≡ n
  length-take_le zero xs h = refl
  length-take_le (suc n) [] h = absurd (omega arith)
  length-take_le (suc n) (x ∷ xs) h = ap suc (length-take_le n xs (omega arith))

  pub length-drop : (n : ℕ) (xs : List A) → length (drop n xs) ≡ length xs - n
  length-drop zero xs = omega arith
  length-drop (suc n) [] = omega arith
  length-drop (suc n) (x ∷ xs) = omega (arith, length-drop n xs)

  pub drop-drop : (m n k : ℕ) (xs : List A) → m + n ≡ k → drop n (drop m xs) ≡ drop k xs
  drop-drop zero n k xs h = let e : n ≡ k = omega arith in rw e
  drop-drop (suc m) n zero xs h = absurd (omega arith)
  drop-drop (suc m) zero (suc k) [] h = refl
  drop-drop (suc m) (suc n) (suc k) [] h = refl
  drop-drop (suc m) n (suc k) (x ∷ xs) h = drop-drop m n k xs (omega arith)

  -- An element within bounds, and the list around it.
  pub get_elem?_split :
      (i : ℕ) (xs : List A)
      → i < length xs
      → (x : A) × (get_elem? xs i ≡ some x) × (drop i xs ≡ x ∷ drop (suc i) xs)
  get_elem?_split zero [] h = absurd (omega arith)
  get_elem?_split zero (x ∷ xs) h = (x, refl, refl)
  get_elem?_split (suc i) [] h = absurd (omega arith)
  get_elem?_split (suc i) (x ∷ xs) h = get_elem?_split i xs (omega arith)

  pub get_elem?_beyond : (xs : List A) (i : ℕ) → length xs ≤ i → get_elem? xs i ≡ none
  get_elem?_beyond [] i h = refl
  get_elem?_beyond (x ∷ xs) zero h = elim h [ ]
  get_elem?_beyond (x ∷ xs) (suc i) h = get_elem?_beyond xs i (omega arith)

  pub set_split :
      (i : ℕ) (xs : List A) (v : A) → i < length xs → set xs i v ≡ take i xs ++ v ∷ drop (suc i) xs
  set_split zero [] v h = absurd (omega arith)
  set_split zero (x ∷ xs) v h = refl
  set_split (suc i) [] v h = absurd (omega arith)
  set_split (suc i) (x ∷ xs) v h = ap (◌∷◌ x) (set_split i xs v (omega arith))

  pub take-suc :
      (i : ℕ) (xs : List A) (x : A)
      → get_elem? xs i ≡ some x
      → take (suc i) xs ≡ take i xs ++ x ∷ []
  take-suc i [] x h = cc
  take-suc zero (y ∷ xs) x h = ground arith
  take-suc (suc i) (y ∷ xs) x h = ap (◌∷◌ y) (take-suc i xs x h)

  pub take-take : (i j : ℕ) (xs : List A) → i ≤ j → take i (take j xs) ≡ take i xs
  take-take zero j xs h = refl
  take-take (suc i) zero xs h = absurd (omega arith)
  take-take (suc i) (suc j) [] h = refl
  take-take (suc i) (suc j) (x ∷ xs) h = ap (◌∷◌ x) (take-take i j xs (omega arith))

  pub take-append_le : (i : ℕ) (xs ys : List A) → i ≤ length xs → take i (xs ++ ys) ≡ take i xs
  take-append_le zero xs ys h = refl
  take-append_le (suc i) [] ys h = absurd (omega arith)
  take-append_le (suc i) (x ∷ xs) ys h = ap (◌∷◌ x) (take-append_le i xs ys (omega arith))

-- The sizes of the rows of a table.
abbrev pub sizes {ℓ} : {A : Type ℓ} → List (List A) → List ℕ
sizes [] = []
sizes (row ∷ table) = length row ∷ sizes table

-- A change of an element of a row leaves the sizes.
pub sizes-set {ℓ} :
    {A : Type ℓ} (table : List (List A)) (i : ℕ) (row : List A) (j : ℕ) (v : A)
    → get_elem? table i ≡ some row
    → sizes (set table i (set row j v)) ≡ sizes table
sizes-set [] i row j v e = refl
sizes-set (r ∷ table) zero row j v e =
    let same : row ≡ r = cc in ap (λ n. n ∷ sizes table) (length-set row j v ∙ ap length same)
sizes-set (r ∷ table) (suc i) row j v e = ap (λ ns. length r ∷ ns) (sizes-set table i row j v e)

pub length-sizes {ℓ} : {A : Type ℓ} (table : List (List A)) → length (sizes table) ≡ length table
length-sizes [] = refl
length-sizes (row ∷ table) = ap suc (length-sizes table)

pub get_elem?-sizes {ℓ} :
    {A : Type ℓ} (table : List (List A)) (i : ℕ) (row : List A)
    → get_elem? table i ≡ some row
    → get_elem? (sizes table) i ≡ some (length row)
get_elem?-sizes [] i row e = cc
get_elem?-sizes (r ∷ table) zero row e = let same : r ≡ row = cc in ap (λ q. some (length q)) same
get_elem?-sizes (r ∷ table) (suc i) row e = get_elem?-sizes table i row e
