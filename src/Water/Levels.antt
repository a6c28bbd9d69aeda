-- ===== src/Water/Levels.antt =====
-- The percentage that `getCleanWaterLevel` reports.
use Prim.Native.Nat.{min}
use freaky_camper_arduino.Base.{
  ℕ, ◌*◌, ◌/◌, ◌≤◌, ◌<◌, ◌≡◌, refl, ltb, ◌-◌, Bool-cases, inl, inr, false, some, arith,
}
use freaky_camper_arduino.Base.Int.{ℤ, pos}
use freaky_camper_arduino.Board.{Env, level}
use freaky_camper_arduino.Machine.{Machine, Returns}
use freaky_camper_arduino.Config.{pio_water_activate_sensing}
use freaky_camper_arduino.Water.{water_level, get_clean_water_level}

-- Whatever the board answers, `getCleanWaterLevel` comes back with at most 100 and with the supply
-- of the level sensor switched off again; only the trace of calls has changed.
pub get_clean_water_level_bounds :
    (env : Env) (m : Machine)
    → Returns
        (λ res m'.
          (res ≤ 100)
          × (level pio_water_activate_sensing m'.trace ≡ some false)
          × (m' ≡ record m { trace = m'.trace }))
        (get_clean_water_level env m)
unfolding get_clean_water_level level
get_clean_water_level_bounds env m = (ground arith, refl, refl)

closed :
    (byte_of : ℤ → ℕ)
    → ((n : ℕ) → n < 256 → byte_of (pos n) ≡ n)
    → (a : ℕ) → a ≤ 2046
    → water_level byte_of a ≡ min 100 ((a / 2 - 5) * 100 / 419)
unfolding water_level
closed byte_of exact a h = elim (Bool-cases (ltb (a / 2) 5)) [
  | inl low ↦ rw (low, exact 0 (omega arith)) (ground arith)
  | inr high ↦ rw (high, exact ((a / 2 - 5) * 100 / 419) (omega arith)) (ground arith)
]

-- If the conversion to a byte keeps what fits one, the level for a sum of two 10-bit measurements is
-- 100 times the mean above the offset by 419, cut off at 100, and a higher sum gives no lower level.
pub water_level_mono :
    (byte_of : ℤ → ℕ)
    → ((n : ℕ) → n < 256 → byte_of (pos n) ≡ n)
    → (a b : ℕ) → a ≤ b
    → b ≤ 2046
    → (water_level byte_of b ≡ min 100 ((b / 2 - 5) * 100 / 419))
      × (water_level byte_of a ≤ water_level byte_of b)
water_level_mono byte_of exact a b h k =
    let ea = closed byte_of exact a (omega arith) in
    let eb = closed byte_of exact b k in (eb, rw (ea, eb) (omega arith))
