-- ===== src/Light/Fixed.antt =====
-- The values of `HSV_to_RGB` as multiples of 1/256.
use freaky_camper_arduino.Base.{ℕ, ◌-◌, ◌*◌, ◌/◌, ◌≤◌, refl, ltb, arith}
use freaky_camper_arduino.Base.Int.{pos, pos_part}
use freaky_camper_arduino.Light.Hsv.{Float, IsFloat, Unital}

abbrev pub fixed : Float
fixed = record {
  Value = ℕ;
  of_int = λ n. 256 * pos_part n;
  lt = ltb;
  sub = λ x y. x - y;
  mul = λ x y. x * y / 256;
  floor = λ x. pos (x / 256);
  to_long = λ x. pos (x / 256);
}

product : (x y : ℕ) → x ≤ 256 → y ≤ 256 → x * y ≤ 65536
product x y h k = grind arith

mul-Unital : (x y : ℕ) → Unital fixed x → Unital fixed y → Unital fixed (x * y / 256)
mul-Unital x y u v = ground (arith, product x y)

pub fixed-IsFloat : IsFloat fixed
fixed-IsFloat = record {
  floor_range = λ h u v. (h / 256, refl, ground arith, ground arith);
  above_one = λ x e. ground arith;
  unital_flip = λ x u. ground arith;
  unital_mul = mul-Unital;
  to_byte = λ x u. (x * 65280 / 256 / 256, refl, ground arith);
}
