-- ===== src/Max6620.antt =====
-- src/drivers/sdi_max6620.c and inc/opx/private/sdi_max6620.h: the MAX6620 controller of four fans.
pub mod Fan
pub mod Tach
pub mod Speed
pub mod Setting
pub mod Faults
pub mod Setup
use opx_sdi_sys.Base.{
  ℕ, ◌+◌, ◌-◌, ◌*◌, ◌/◌, ◌%◌, ◌^◌, Bool, true, false, not, ◌&&◌, ltb, leb, ◌==◌, if◌then◌else◌,
  bit_and, bit_or, Option, none, some, Io, ok, abort, pure, fail, catch, ◌>>=◌, ◌>>◌, and_then,
  errcode, eopnotsupp, Rc, rc_of, value_or, StdError, unless_error, ◌⊎◌,
}
use opx_sdi_sys.I2c.{
  I2cBus, flag_none, sdi_smbus_read_byte, sdi_smbus_write_byte, sdi_smbus_read_word,
  sdi_smbus_write_word,
}
use opx_sdi_sys.DeviceData.{
  Driven, on_hardware, get_data, set_data, sdi_platform_util_convert_le_to_uint16,
  sdi_platform_util_write_16bit_to_bytearray_le,
}

abbrev pub max_tach_count : ℕ
max_tach_count = 2047

abbrev pub globalcfg : ℕ
globalcfg = 0x0

abbrev pub fanfault : ℕ
fanfault = 0x1

abbrev pub fancfg : ℕ → ℕ
fancfg x = 0x2 + x

abbrev pub fandyn : ℕ → ℕ
fandyn x = 0x6 + x

abbrev pub fantachcnt : ℕ → ℕ
fantachcnt x = 0x10 + x * 2

abbrev pub fantgttachcnt : ℕ → ℕ
fantgttachcnt x = 0x20 + x * 2

abbrev pub fantgtdrvvolt : ℕ → ℕ
fantgtdrvvolt x = 0x28 + x * 2

abbrev pub speed_range_mask : ℕ
speed_range_mask = 0xE0

abbrev pub fan_full_spd_mask : ℕ
fan_full_spd_mask = 2 ^ 4

abbrev pub spin_up_1s_mask : ℕ
spin_up_1s_mask = 2 ^ 6

abbrev pub rpm_mode_en_mask : ℕ
rpm_mode_en_mask = 2 ^ 7

abbrev pub frequency_hz : ℕ
frequency_hz = 8192

-- TACH_COUNT_VAL
unfoldable pub tach_count_val : ℕ → ℕ → ℕ
tach_count_val msb lsb = bit_or (lsb * 2 ^ 3) (msb / 2 ^ 5)

-- DATA_TO_DRV_VOLT, DRV_VOLT_TO_SPEED_PERCENT and SPEED_PERCENT_TO_RPM, the last in a uint_t
unfoldable pub data_to_drv_volt : ℕ × ℕ → ℕ
data_to_drv_volt (d0, d1) = bit_or (d0 * 2 ^ 8) d1 / 2 ^ 7

unfoldable pub drv_volt_to_speed_percent : ℕ → ℕ
drv_volt_to_speed_percent duty = duty * 100 / 0x1ff

unfoldable pub speed_percent_to_rpm : ℕ → ℕ → ℕ
speed_percent_to_rpm max_speed percent = max_speed * percent % 2 ^ 32 / 100

-- max6620_fan_data_t, less the alias
pub record FanData : Type 0 where
  pub no_of_tach_pulse : ℕ
  pub tach_count_period : ℕ
  pub max_speed : ℕ

-- max6620_device; the array of fans is a function of the fan's number.
pub record Max6620Device : Type 0 where
  pub is_full_speed_on_fail : Bool
  pub max6620_fan : ℕ → FanData
  pub fan_faults : ℕ

abbrev pub change_fan : ℕ → (FanData → FanData) → Max6620Device → Max6620Device
change_fan fan_id f d = record d {
  max6620_fan = λ i. if i == fan_id then f (d.max6620_fan i) else d.max6620_fan i;
}

abbrev pub set_fan_faults : ℕ → Max6620Device → Max6620Device
set_fan_faults faults d = record d { fan_faults = faults }

-- The tach count period and the value of the speed range field for a maximum speed.
unfoldable pub speed_range : ℕ → ℕ × ℕ
speed_range max_speed =
    if ltb 0 max_speed && leb max_speed 500
    then (1, 0)
    else if ltb 500 max_speed && leb max_speed 1000
    then (2, 1)
    else if ltb 1000 max_speed && leb max_speed 2000
    then (4, 2)
    else if ltb 2000 max_speed && leb max_speed 4000
    then (8, 3)
    else if ltb 4000 max_speed && leb max_speed 8000
    then (16, 4)
    else (32, 5)

-- A quotient of two values of type uint_t. A divisor of 0 is undefined in C; the processor traps.
unfoldable pub uint_quotient : {W : Type 0} → ℕ → ℕ → Io W ℕ
uint_quotient a b w = if b % 2 ^ 32 == 0 then (abort, w) else (ok (a % 2 ^ 32 / (b % 2 ^ 32)), w)

-- The two bytes of the target tach count, in a word whose low byte is the first.
unfoldable pub target_bytes : ℕ → ℕ × ℕ → ℕ × ℕ
target_bytes target (b0, b1) = (
  bit_and (bit_and target 0x7FF / 2 ^ 3) 0xff,
  bit_or (bit_and b1 (2 ^ 8 - 1 - 0xE0)) (bit_and (bit_and (bit_and target 0x7 * 2 ^ 5) 0xff) 0xE0),
)

abbrev tach_count_of : ℕ × ℕ → ℕ
tach_count_of (b0, b1) = tach_count_val b1 b0

-- `1 << (fan_id + 4)`
abbrev pub fault_mask : ℕ → ℕ
fault_mask fan_id = 2 ^ (fan_id + 4)

module _ {W : Type 0} (bus : I2cBus W) (addr : ℕ) where
  unfoldable pub sdi_max6620_onfail_fullspeed_enable : Bool → Io W (Unit {0})
  sdi_max6620_onfail_fullspeed_enable enable = do
    buf ← sdi_smbus_read_byte bus addr globalcfg flag_none
    sdi_smbus_write_byte bus addr globalcfg
        (if enable
          then bit_and buf (2 ^ 8 - 1 - fan_full_spd_mask)
          else bit_or buf fan_full_spd_mask)
        flag_none

  unfoldable pub sdi_max6620_clear_fan_fault : Io W (Unit {0})
  sdi_max6620_clear_fan_fault = sdi_smbus_write_byte bus addr fanfault 0 flag_none

  -- The register access of sdi_max6620_fan_tach_count_period_set, for the value of the field.
  unfoldable pub write_speed_range : ℕ → ℕ → Io W (Unit {0})
  write_speed_range fan_id data_bits = do
    buf ← sdi_smbus_read_byte bus addr (fandyn fan_id) flag_none
    sdi_smbus_write_byte bus addr (fandyn fan_id)
        (bit_or (bit_and buf (2 ^ 8 - 1 - speed_range_mask))
          (bit_and (data_bits * 2 ^ 5 % 2 ^ 8) speed_range_mask))
        flag_none

  unfoldable pub sdi_max6620_fan_tach_count_period_set : ℕ → Io (Driven Max6620Device W) (Unit {0})
  unfolding speed_range write_speed_range
  sdi_max6620_fan_tach_count_period_set fan_id = do
    d ← get_data
    set_data
        (change_fan fan_id (λ f. record f { tach_count_period = (speed_range f.max_speed).0 }) d)
    on_hardware (write_speed_range fan_id (speed_range (d.max6620_fan fan_id).max_speed).1)

  unfoldable pub sdi_max6620_fan_tach_count_get : ℕ → Io W ℕ
  unfolding tach_count_val sdi_platform_util_write_16bit_to_bytearray_le
  sdi_max6620_fan_tach_count_get fan_id = do
    buf ← sdi_smbus_read_word bus addr (fantachcnt fan_id) flag_none
    pure (tach_count_of (sdi_platform_util_write_16bit_to_bytearray_le buf))

  unfoldable pub sdi_max6620_fan_target_tach_count_set : ℕ → ℕ → Io W (Unit {0})
  unfolding target_bytes sdi_platform_util_write_16bit_to_bytearray_le
      sdi_platform_util_convert_le_to_uint16
  sdi_max6620_fan_target_tach_count_set fan_id target_tach_count = do
    temp_buf ← sdi_smbus_read_word bus addr (fantgttachcnt fan_id) flag_none
    sdi_smbus_write_word bus addr (fantgttachcnt fan_id)
        (sdi_platform_util_convert_le_to_uint16
          (target_bytes target_tach_count (sdi_platform_util_write_16bit_to_bytearray_le temp_buf)))
        flag_none

  -- The voltage is computed from a buffer of 0 where the read fails, and its code is returned.
  unfoldable pub sdi_max6620_fan_current_drive_volt_get : ℕ → Io W (Rc × ℕ)
  unfolding data_to_drv_volt sdi_platform_util_write_16bit_to_bytearray_le
  sdi_max6620_fan_current_drive_volt_get fan_id = do
    r ← catch (sdi_smbus_read_word bus addr (fantgtdrvvolt fan_id) flag_none)
    pure (rc_of r, data_to_drv_volt (sdi_platform_util_write_16bit_to_bytearray_le (value_or 0 r)))
