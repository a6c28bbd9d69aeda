-- ===== src/Protocol/Encoding.antt =====
-- The byte that stands for a temperature.
use freaky_camper_arduino.Base.{◌+◌, ◌*◌, ◌≤◌, ◌<◌, arith}
use freaky_camper_arduino.Base.Int.{ℤ, pos, negsuc, pos_part, neg_part}
use freaky_camper_arduino.Protocol.{format_temp_data}

-- From -64 degrees up to but not including 64, the encoded byte e is less than 256, and e / 2 - 64
-- degrees is less than half a degree away from the temperature.
pub format_temp_data_close :
    (t : ℤ)
    → neg_part t ≤ 8192
    → pos_part t < 8192
    → (format_temp_data t < 256)
      × (64 * format_temp_data t + neg_part t < 8192 + pos_part t + 64)
      × (8192 + pos_part t < 64 * format_temp_data t + neg_part t + 64)
unfolding format_temp_data
format_temp_data_close (pos n) h k = ground arith
format_temp_data_close (negsuc n) h k = ground arith
