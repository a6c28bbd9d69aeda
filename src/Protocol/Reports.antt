-- ===== src/Protocol/Reports.antt =====
-- protocol.cpp: the telemetry of a light against the row of its table.
use freaky_camper_arduino.Base.{ℕ, ◌≡◌, set, some, List, ◌∷◌, get_elem?, arith}
use freaky_camper_arduino.Machine.{Machine, done, ◌>>=◌, ◌>>◌}
use freaky_camper_arduino.Config.{
  light_type, light_stat_dimm, light_stat_r, light_stat_g, light_stat_b,
}
use freaky_camper_arduino.Light.{light_byte}
use freaky_camper_arduino.Protocol.{tm_builder_light, tm_light}
use freaky_camper_arduino.Protocol.Sending.{put_lem, with_tx}

byte_lem :
    (light_id column x : ℕ) (row : List ℕ) (m : Machine) (tx : List ℕ)
    → get_elem? m.lights_conf light_id ≡ some row
    → get_elem? row column ≡ some x
    → light_byte light_id column (with_tx m tx) ≡ done x (with_tx m tx)
byte_lem light_id column x row m tx e d = ground arith

-- With a send buffer of at least seven bytes and a light whose row holds a type, a state and three
-- colours, the telemetry is seven bytes at the start of the buffer: the code 75, the light's
-- identifier, and those five bytes in this order. The rest of the buffer and of the machine stays.
pub tm_builder_light_lem :
    (light_id : ℕ) (row : List ℕ) (type dimm r g b : ℕ) (x0 x1 x2 x3 x4 x5 x6 : ℕ) (rest : List ℕ)
    (m : Machine)
    → get_elem? m.lights_conf light_id ≡ some row
    → get_elem? row light_type ≡ some type
    → get_elem? row light_stat_dimm ≡ some dimm
    → get_elem? row light_stat_r ≡ some r
    → get_elem? row light_stat_g ≡ some g
    → get_elem? row light_stat_b ≡ some b
    → tm_builder_light light_id (with_tx m (x0 ∷ x1 ∷ x2 ∷ x3 ∷ x4 ∷ x5 ∷ x6 ∷ rest))
      ≡ done 7 (with_tx m (75 ∷ light_id ∷ type ∷ dimm ∷ r ∷ g ∷ b ∷ rest))
unfolding tm_builder_light
tm_builder_light_lem light_id row type dimm r g b x0 x1 x2 x3 x4 x5 x6 rest m e et ed er eg eb =
    simp (
      ◌>>=◌,
      ◌>>◌,
      set,
      put_lem 0 tm_light (with_tx m (x0 ∷ x1 ∷ x2 ∷ x3 ∷ x4 ∷ x5 ∷ x6 ∷ rest)) (ground arith),
      put_lem 1 light_id (with_tx m (tm_light ∷ x1 ∷ x2 ∷ x3 ∷ x4 ∷ x5 ∷ x6 ∷ rest)) (ground arith),
      byte_lem light_id light_type type row m (tm_light ∷ light_id ∷ x2 ∷ x3 ∷ x4 ∷ x5 ∷ x6 ∷ rest)
          e et,
      put_lem 2 type (with_tx m (tm_light ∷ light_id ∷ x2 ∷ x3 ∷ x4 ∷ x5 ∷ x6 ∷ rest))
          (ground arith),
      byte_lem light_id light_stat_dimm dimm row m
          (tm_light ∷ light_id ∷ type ∷ x3 ∷ x4 ∷ x5 ∷ x6 ∷ rest) e ed,
      put_lem 3 dimm (with_tx m (tm_light ∷ light_id ∷ type ∷ x3 ∷ x4 ∷ x5 ∷ x6 ∷ rest))
          (ground arith),
      byte_lem light_id light_stat_r r row m
          (tm_light ∷ light_id ∷ type ∷ dimm ∷ x4 ∷ x5 ∷ x6 ∷ rest) e er,
      put_lem 4 r (with_tx m (tm_light ∷ light_id ∷ type ∷ dimm ∷ x4 ∷ x5 ∷ x6 ∷ rest))
          (ground arith),
      byte_lem light_id light_stat_g g row m
          (tm_light ∷ light_id ∷ type ∷ dimm ∷ r ∷ x5 ∷ x6 ∷ rest) e eg,
      put_lem 5 g (with_tx m (tm_light ∷ light_id ∷ type ∷ dimm ∷ r ∷ x5 ∷ x6 ∷ rest))
          (ground arith),
      byte_lem light_id light_stat_b b row m (tm_light ∷ light_id ∷ type ∷ dimm ∷ r ∷ g ∷ x6 ∷ rest)
          e eb,
      put_lem 6 b (with_tx m (tm_light ∷ light_id ∷ type ∷ dimm ∷ r ∷ g ∷ x6 ∷ rest))
          (ground arith),
    )
