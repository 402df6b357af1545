-- ===== src/Tmp75.antt =====
-- src/drivers/sdi_tmp75.c: the TMP75 temperature sensor. An int is its 32 bits.
pub mod Limits
pub mod Setup
use opx_sdi_sys.Base.{
  ℕ, ◌+◌, ◌-◌, ◌%◌, ◌^◌, Bool, true, false, not, ◌||◌, leb, ◌==◌, if◌then◌else◌, bit_and, Io, pure,
  fail, ◌>>=◌, ◌>>◌, and_then, errcode, einval, eopnotsupp,
}
use opx_sdi_sys.I2c.{I2cBus, flag_none, sdi_smbus_read_byte, sdi_smbus_write_byte}
use opx_sdi_sys.DeviceData.{Driven, on_hardware, get_data, set_data}

abbrev pub temp_reg : ℕ
temp_reg = 0x00

abbrev pub tlow_reg : ℕ
tlow_reg = 0x02

abbrev pub thigh_reg : ℕ
thigh_reg = 0x03

-- sdi_threshold_t
pub data Threshold : Type 0 where
  low_threshold high_threshold critical_threshold : Threshold

-- tmp75_device
pub record Tmp75Device : Type 0 where
  pub low : ℕ
  pub high : ℕ
  pub default_low : ℕ
  pub default_high : ℕ

-- `a <= b` of two values of type int
abbrev pub int_le : ℕ → ℕ → Bool
int_le a b = leb ((a + 2 ^ 31) % 2 ^ 32) ((b + 2 ^ 31) % 2 ^ 32)

-- `temperature & (~(0xff))`
abbrev pub is_outside_byte : ℕ → Bool
is_outside_byte temperature = not (bit_and temperature (2 ^ 32 - 1 - 0xff) == 0)

module _ {W : Type 0} (bus : I2cBus W) (addr : ℕ) where
  unfoldable pub sdi_tmp75_temperature_get : Io W ℕ
  sdi_tmp75_temperature_get = sdi_smbus_read_byte bus addr temp_reg flag_none

  unfoldable pub sdi_tmp75_threshold_get : Threshold → Io (Driven Tmp75Device W) ℕ
  sdi_tmp75_threshold_get low_threshold = get_data >>= λ d. pure d.low
  sdi_tmp75_threshold_get high_threshold = get_data >>= λ d. pure d.high
  sdi_tmp75_threshold_get critical_threshold = fail (errcode eopnotsupp)

  -- The switch of sdi_tmp75_threshold_set; a write takes the low byte of the value.
  unfoldable pub store_threshold : Threshold → ℕ → Io (Driven Tmp75Device W) (Unit {0})
  store_threshold low_threshold temperature = do
    d ← get_data
    set_data (record d { low = temperature })
    on_hardware (sdi_smbus_write_byte bus addr tlow_reg (temperature % 2 ^ 8) flag_none)
  store_threshold high_threshold temperature = do
    d ← get_data
    set_data (record d { high = temperature })
    on_hardware (sdi_smbus_write_byte bus addr thigh_reg (temperature % 2 ^ 8) flag_none)
  store_threshold critical_threshold temperature = fail (errcode eopnotsupp)

  unfoldable pub sdi_tmp75_threshold_set : Threshold → ℕ → Io (Driven Tmp75Device W) (Unit {0})
  unfolding store_threshold
  sdi_tmp75_threshold_set type temperature =
      if is_outside_byte temperature
      then fail (errcode einval)
      else store_threshold type temperature

  unfoldable pub sdi_tmp75_status_get : Io (Driven Tmp75Device W) Bool
  unfolding sdi_tmp75_temperature_get
  sdi_tmp75_status_get = do
    temperature ← on_hardware sdi_tmp75_temperature_get
    d ← get_data
    pure (int_le d.high temperature || int_le temperature d.low)

  unfoldable pub sdi_tmp75_chip_init : Io (Driven Tmp75Device W) (Unit {0})
  unfolding sdi_tmp75_threshold_set
  sdi_tmp75_chip_init = do
    d ← get_data
    sdi_tmp75_threshold_set low_threshold d.default_low
    d1 ← get_data
    set_data (record d1 { low = d1.default_low })
    sdi_tmp75_threshold_set high_threshold d1.default_high
    d2 ← get_data
    set_data (record d2 { high = d2.default_high })
