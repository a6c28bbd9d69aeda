-- ===== src/Config.antt =====
-- FreakyCampManager/masterConf.h and masterConf.cpp: the pins and tables of the camper.
use freaky_camper_arduino.Base.{ℕ, List, [], ◌∷◌}
use freaky_camper_arduino.Board.{Pin, digital, analog}

abbrev pub nb_elec_switches : ℕ
nb_elec_switches = 6

abbrev pub pout_relay_water : Pin
pout_relay_water = digital 33

abbrev pub pout_relay_fridge : Pin
pout_relay_fridge = digital 34

abbrev pub pout_relay_heating : Pin
pout_relay_heating = digital 35

abbrev pub pout_relay_aux : Pin
pout_relay_aux = digital 40

abbrev pub pout_relay_spare : Pin
pout_relay_spare = digital 41

abbrev pub pout_relay_light : Pin
pout_relay_light = digital 42

abbrev pub electrical_lines_pins : List Pin
electrical_lines_pins =
    pout_relay_water ∷ pout_relay_fridge ∷ pout_relay_heating ∷ pout_relay_aux ∷ pout_relay_spare
    ∷ pout_relay_light ∷ []

abbrev pub nb_current_sensors : ℕ
nb_current_sensors = 7

abbrev pin_current_cold_module : Pin
pin_current_cold_module = analog 0

abbrev pub pin_current_water_module : Pin
pin_current_water_module = analog 1

abbrev pin_current_heat_module : Pin
pin_current_heat_module = analog 2

abbrev pin_current_light_module : Pin
pin_current_light_module = analog 3

abbrev pin_current_aux_module : Pin
pin_current_aux_module = analog 4

abbrev pin_current_spare_module : Pin
pin_current_spare_module = analog 5

abbrev pin_current_solar_gene : Pin
pin_current_solar_gene = analog 6

abbrev pub current_pins : List Pin
current_pins =
    pin_current_cold_module ∷ pin_current_water_module ∷ pin_current_heat_module
    ∷ pin_current_light_module ∷ pin_current_aux_module ∷ pin_current_spare_module
    ∷ pin_current_solar_gene ∷ []

-- The calibration factors are in hundredths.
abbrev current_factor_cold_module : ℕ
current_factor_cold_module = 100

abbrev current_factor_water_module : ℕ
current_factor_water_module = 100

abbrev current_factor_heat_module : ℕ
current_factor_heat_module = 100

abbrev current_factor_light_module : ℕ
current_factor_light_module = 100

abbrev current_factor_aux_module : ℕ
current_factor_aux_module = 100

abbrev current_factor_spare_module : ℕ
current_factor_spare_module = 100

abbrev current_factor_solar_gene : ℕ
current_factor_solar_gene = 100

abbrev pub current_cal_factors : List ℕ
current_cal_factors =
    current_factor_cold_module ∷ current_factor_water_module ∷ current_factor_heat_module
    ∷ current_factor_light_module ∷ current_factor_aux_module ∷ current_factor_spare_module
    ∷ current_factor_solar_gene ∷ []

abbrev pub nb_tension_sensors : ℕ
nb_tension_sensors = 2

abbrev pin_tension_batt_prim : Pin
pin_tension_batt_prim = analog 9

abbrev pin_tension_batt_aux : Pin
pin_tension_batt_aux = analog 8

abbrev pub tension_pins : List Pin
tension_pins = pin_tension_batt_prim ∷ pin_tension_batt_aux ∷ []

abbrev tension_factor_batt_prim : ℕ
tension_factor_batt_prim = 100

abbrev tension_factor_batt_aux : ℕ
tension_factor_batt_aux = 100

abbrev pub tension_cal_factors : List ℕ
tension_cal_factors = tension_factor_batt_prim ∷ tension_factor_batt_aux ∷ []

abbrev pub nb_lights : ℕ
nb_lights = 2

abbrev pout_light_ssd_1 : ℕ
pout_light_ssd_1 = 36

abbrev pout_light_ssd_2 : ℕ
pout_light_ssd_2 = 37

abbrev pout_light_rgb_1_r : ℕ
pout_light_rgb_1_r = 5

abbrev pout_light_rgb_1_g : ℕ
pout_light_rgb_1_g = 6

abbrev pout_light_rgb_1_b : ℕ
pout_light_rgb_1_b = 7

abbrev pint_light_switch_1 : ℕ
pint_light_switch_1 = 10

abbrev pint_light_switch_2 : ℕ
pint_light_switch_2 = 11

abbrev pint_light_switch_3 : ℕ
pint_light_switch_3 = 12

-- The columns of a row of `lightsConf`.
abbrev pub light_type : ℕ
light_type = 1

abbrev pub light_pout_r : ℕ
light_pout_r = 2

abbrev pub light_pout_g : ℕ
light_pout_g = 3

abbrev pub light_pout_b : ℕ
light_pout_b = 4

abbrev pub light_stat_dimm : ℕ
light_stat_dimm = 5

abbrev pub light_stat_r : ℕ
light_stat_r = 6

abbrev pub light_stat_g : ℕ
light_stat_g = 7

abbrev pub light_stat_b : ℕ
light_stat_b = 8

-- `eLightTypes`
abbrev pub light_type_normal : ℕ
light_type_normal = 0

abbrev pub light_type_dimmable : ℕ
light_type_dimmable = 1

abbrev pub light_type_rgb_dimmable : ℕ
light_type_rgb_dimmable = 2

-- `lightsConf` as the program starts with it.
abbrev pub initial_lights_conf : List (List ℕ)
initial_lights_conf =
    (pint_light_switch_1 ∷ light_type_normal ∷ pout_light_ssd_1 ∷ 0 ∷ 0 ∷ 0 ∷ 0 ∷ 0 ∷ 0 ∷ [])
    ∷ (pint_light_switch_2 ∷ light_type_normal ∷ pout_light_ssd_2 ∷ 0 ∷ 0 ∷ 0 ∷ 0 ∷ 0 ∷ 0 ∷ [])
    ∷ (pint_light_switch_3 ∷ light_type_rgb_dimmable ∷ pout_light_rgb_1_r ∷ pout_light_rgb_1_g
        ∷ pout_light_rgb_1_b ∷ 0 ∷ 0 ∷ 0 ∷ 0 ∷ [])
    ∷ []

abbrev pub nb_input_switchs : ℕ
nb_input_switchs = 3

abbrev pub pint_water_flow_out : Pin
pint_water_flow_out = digital 18

abbrev pub pio_water_activate_sensing : Pin
pio_water_activate_sensing = digital 32

abbrev pub tank_water_level_input : Pin
tank_water_level_input = analog 10

-- 4.19, in hundredths
abbrev pub tank_water_level_factor : ℕ
tank_water_level_factor = 419

abbrev pub tank_water_level_offset : ℕ
tank_water_level_offset = 5

abbrev pub pin_tank_dark_full : Pin
pin_tank_dark_full = digital 30

-- 0.0
abbrev pub const_pump_water_factor : ℕ
const_pump_water_factor = 0

abbrev pub pin_water_switch_evier : Pin
pin_water_switch_evier = digital 31

abbrev pub nb_temp_sensors : ℕ
nb_temp_sensors = 7

abbrev pub temp_probes : List (List ℕ)
temp_probes =
    (0x28 ∷ 0x94 ∷ 0x13 ∷ 0xFB ∷ 0x5 ∷ 0x0 ∷ 0x0 ∷ 0x91 ∷ [])
    ∷ (0x28 ∷ 0x1C ∷ 0x73 ∷ 0xDA ∷ 0x2 ∷ 0x0 ∷ 0x0 ∷ 0x4E ∷ [])
    ∷ (0x28 ∷ 0x59 ∷ 0x85 ∷ 0xDA ∷ 0x2 ∷ 0x0 ∷ 0x0 ∷ 0xEA ∷ [])
    ∷ (0x28 ∷ 0x79 ∷ 0x87 ∷ 0xDA ∷ 0x2 ∷ 0x0 ∷ 0x0 ∷ 0xDF ∷ [])
    ∷ (0x28 ∷ 0x15 ∷ 0x58 ∷ 0xC4 ∷ 0x3 ∷ 0x0 ∷ 0x0 ∷ 0xD6 ∷ [])
    ∷ (0x28 ∷ 0x93 ∷ 0xB1 ∷ 0x9C ∷ 0x4 ∷ 0x0 ∷ 0x0 ∷ 0x19 ∷ [])
    ∷ (0x28 ∷ 0x53 ∷ 0xEB ∷ 0x9C ∷ 0x4 ∷ 0x0 ∷ 0x0 ∷ 0xAE ∷ [])
    ∷ []

abbrev pub pout_webasto_fan_1 : Pin
pout_webasto_fan_1 = digital 2

abbrev pub pout_webasto_fan_2 : Pin
pout_webasto_fan_2 = digital 3
