-- ===== src/Light/Hsv.antt =====
-- `HSV_to_RGB` of FreakyCampManager/light.cpp, over the operations on floats that it uses.
use freaky_camper_arduino.Base.{
  ℕ, zero, suc, ◌+◌, ◌-◌, ◌*◌, ◌%◌, ap, refl, sym, subst, ◌⊎◌, inl, inr, Bool-cases, ◌^◌, ◌≤◌, ◌<◌,
  ◌≡◌, ◌==◌, ◌||◌, Bool, true, false, if◌then◌else◌, Option, none, some, arith,
}
use freaky_camper_arduino.Base.Int.{ℤ, pos, negsuc, ◌+ℤ◌, signed, wrap}

-- `float`, with the conversion of an `int`, `<`, `-` and `*`, `floor` and the conversion to `long`.
pub record Float : Type 1 where
  pub Value : Type 0
  pub of_int : ℤ → Value
  pub lt : Value → Value → Bool
  pub sub : Value → Value → Value
  pub mul : Value → Value → Value
  pub floor : Value → ℤ
  pub to_long : Value → ℤ

abbrev times : ℤ → ℕ → ℤ
times (pos n) k = pos (n * k)
times (negsuc n) k = negsuc ((n + 1) * k - 1)

-- i & 1 on `int`.
abbrev odd : ℤ → Bool
odd (pos n) = n % 2 == 1
odd (negsuc n) = n % 2 == 0

module _ (F : Float) where
  open F use {Value, of_int, lt, sub, mul, floor, to_long}

  -- hi * 65536 + mid * 256 + lo on `long`.
  abbrev rgb : Value → Value → Value → ℤ
  rgb hi mid lo =
      let byte = λ (x : Value). to_long (mul x (of_int (pos 255))) in
      signed (wrap (times (byte hi) 65536 +ℤ times (byte mid) 256 +ℤ byte lo) (2 ^ 32)) (2 ^ 31)

  -- The switch over `i`; `none` where it has no case, and the function no return.
  unfoldable pub sextant : ℤ → Value → Value → Value → Option ℤ
  sextant (pos i) v n m =
      if i == 6 || i == 0
      then some (rgb v n m)
      else if i == 1
      then some (rgb n v m)
      else if i == 2
      then some (rgb m v n)
      else if i == 3
      then some (rgb m n v)
      else if i == 4
      then some (rgb n m v)
      else if i == 5
      then some (rgb v m n)
      else none
  sextant (negsuc i) v n m = none

  -- The source's first test.
  abbrev pub rejected : Value → Value → Bool
  rejected s v =
      let zero_f = of_int (pos 0) in
      let one_f = of_int (pos 1) in lt s zero_f || lt one_f s || lt v one_f || lt one_f v

  -- v * (1 - s)
  abbrev low : Value → Value → Value
  low s v = mul v (sub (of_int (pos 1)) s)

  -- v * (1 - s * f), where f is h - i, or 1 less that if i is even.
  abbrev high : Value → Value → Value → Value
  high h s v =
      let f = sub h (of_int (floor h)) in
      mul v (sub (of_int (pos 1)) (mul s (if odd (floor h) then f else sub (of_int (pos 1)) f)))

  unfoldable pub hsv_to_rgb : Value → Value → Value → Option ℤ
  unfolding sextant
  hsv_to_rgb h s v =
      if rejected s v
      then some (pos 0)
      else if lt h (of_int (pos 0)) || lt (of_int (pos 6)) h
      then some (rgb v v v)
      else sextant (floor h) v (high h s v) (low s v)

  -- Neither below 0 nor above 1.
  abbrev pub Unital : Value → Type 0
  Unital x = (lt x (of_int (pos 0)) ≡ false) × (lt (of_int (pos 1)) x ≡ false)

  -- What holds of the values other than NaN.
  pub record IsFloat : Type 0 where
    pub floor_range :
        (h : Value)
        → lt h (of_int (pos 0)) ≡ false
        → lt (of_int (pos 6)) h ≡ false
        → (i : ℕ) × (floor h ≡ pos i) × (i ≤ 6) × Unital (sub h (of_int (pos i)))
    pub above_one : (x : Value) → lt x (of_int (pos 1)) ≡ false → lt x (of_int (pos 0)) ≡ false
    pub unital_flip : (x : Value) → Unital x → Unital (sub (of_int (pos 1)) x)
    pub unital_mul : (x y : Value) → Unital x → Unital y → Unital (mul x y)
    pub to_byte :
        (x : Value) → Unital x → (n : ℕ) × (to_long (mul x (of_int (pos 255))) ≡ pos n) × (n ≤ 255)

three_bytes :
    (a b c : ℕ)
    → a ≤ 255
    → b ≤ 255
    → c ≤ 255
    → signed (wrap (times (pos a) 65536 +ℤ times (pos b) 256 +ℤ pos c) (2 ^ 32)) (2 ^ 31)
      ≡ pos (a * 65536 + b * 256 + c)
three_bytes a b c h k l = ground arith

-- A colour of 24 bits.
abbrev pub Colour : Option ℤ → Type 0
Colour o = (n : ℕ) × (o ≡ some (pos n)) × (n < 2 ^ 24)

both_false : (a b : Bool) → (a || b) ≡ false → (a ≡ false) × (b ≡ false)
both_false a b e = ground arith

four_false :
    (a b c d : Bool)
    → (a || b || c || d) ≡ false
    → (a ≡ false) × (b ≡ false) × (c ≡ false) × (d ≡ false)
four_false a b c d e = ground arith

module _ (F : Float) (laws : IsFloat F) where
  open F use {Value, of_int, lt, sub, mul, floor, to_long}
  open laws use {floor_range, above_one, unital_flip, unital_mul, to_byte}

  rgb-Colour : (x y z : Value) → Unital F x → Unital F y → Unital F z → Colour (some (rgb F x y z))
  rgb-Colour x y z ux uy uz =
      let (a, ea, la) = to_byte x ux in
      let (b, eb, lb) = to_byte y uy in
      let (c, ec, lc) = to_byte z uz in
      (
        a * 65536 + b * 256 + c,
        rw (ea, eb, ec) (ap (λ (t : ℤ). some t) (three_bytes a b c la lb lc)),
        omega arith,
      )

  sextant-Colour :
      (i : ℕ) (v n m : Value)
      → i ≤ 6
      → Unital F v
      → Unital F n
      → Unital F m
      → Colour (sextant F (pos i) v n m)
  unfolding sextant
  sextant-Colour zero v n m k uv un um = rgb-Colour v n m uv un um
  sextant-Colour (suc zero) v n m k uv un um = rgb-Colour n v m un uv um
  sextant-Colour (suc (suc zero)) v n m k uv un um = rgb-Colour m v n um uv un
  sextant-Colour (suc (suc (suc zero))) v n m k uv un um = rgb-Colour m n v um un uv
  sextant-Colour (suc (suc (suc (suc zero)))) v n m k uv un um = rgb-Colour n m v un um uv
  sextant-Colour (suc (suc (suc (suc (suc zero))))) v n m k uv un um = rgb-Colour v m n uv um un
  sextant-Colour (suc (suc (suc (suc (suc (suc zero)))))) v n m k uv un um =
      rgb-Colour v n m uv un um
  sextant-Colour (suc (suc (suc (suc (suc (suc (suc i))))))) v n m k uv un um = absurd (omega arith)

  flip-Unital :
      (b : Bool) (x : Value) → Unital F x → Unital F (if b then x else sub (of_int (pos 1)) x)
  flip-Unital true x u = u
  flip-Unital false x u = unital_flip x u

  high-Unital :
      (h s v : Value) (i : ℕ)
      → floor h ≡ pos i
      → Unital F (sub h (of_int (pos i)))
      → Unital F s
      → Unital F v
      → Unital F (high F h s v)
  high-Unital h s v i e u us uv =
      let part = subst (λ j. Unital F (sub h (of_int j))) (sym e) u in
      unital_mul v _ uv (
        unital_flip _
          (unital_mul s _ us (flip-Unital (odd (floor h)) (sub h (of_int (floor h))) part)))

  in_range-Colour :
      (h s v : Value)
      → Unital F s
      → Unital F v
      → Colour (
          if lt h (of_int (pos 0)) || lt (of_int (pos 6)) h
          then some (rgb F v v v)
          else sextant F (floor h) v (high F h s v) (low F s v))
  in_range-Colour h s v us uv = elim (Bool-cases (lt h (of_int (pos 0)) || lt (of_int (pos 6)) h)) [
    | inl t ↦ rw t (rgb-Colour v v v uv uv uv)
    | inr t ↦
        (let (below, above) = both_false _ _ t in
          let (i, e, k, u) = floor_range h below above in
          rw t (
            subst (λ j. Colour (sextant F j v (high F h s v) (low F s v))) (sym e)
              (sextant-Colour i v _ _ k uv (high-Unital h s v i e u us uv)
                (unital_mul v _ uv (unital_flip s us)))))
  ]

  -- For all values but NaN, `HSV_to_RGB` comes back through a return statement with a colour of 24
  -- bits, which is black where the saturation is out of range or the value is not 1.
  pub hsv_to_rgb_lem :
      (h s v : Value)
      → (n : ℕ) × (hsv_to_rgb F h s v ≡ some (pos n))
        × (n < 2 ^ 24)
        × ((rejected F s v ≡ false) ⊎ (n ≡ 0))
  unfolding hsv_to_rgb
  hsv_to_rgb_lem h s v = elim (Bool-cases (rejected F s v)) [
    | inl t ↦ (0, rw t, omega arith, inr refl)
    | inr t ↦
        (let (s₀, s₁, v₀, v₁) = four_false _ _ _ _ t in
          let (n, e, k) = in_range-Colour h s v (s₀, s₁) (above_one v v₀, v₁) in
          (n, rw t e, k, inl t))
  ]
