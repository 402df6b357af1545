-- ===== src/Max6620/Fan.antt =====
-- src/drivers/sdi_max6620.c: the callbacks of a fan (the table max6620_fan_resource) and of the chip.
use opx_sdi_sys.Base.{
  ℕ, ◌-◌, ◌*◌, ◌^◌, Bool, true, false, not, ltb, ◌==◌, if◌then◌else◌, bit_and, bit_or, Option, none,
  some, Io, pure, fail, catch, ◌>>=◌, ◌>>◌, errcode, eopnotsupp, unless_error,
}
use opx_sdi_sys.I2c.{
  I2cBus, flag_none, sdi_smbus_read_byte, sdi_smbus_write_byte, sdi_smbus_read_word,
  sdi_smbus_write_word,
}
use opx_sdi_sys.DeviceData.{Driven, on_hardware, get_data, set_data}
use opx_sdi_sys.Max6620.{
  FanData, Max6620Device, change_fan, set_fan_faults, uint_quotient, frequency_hz, max_tach_count,
  fault_mask, fanfault, fancfg, fantgttachcnt, rpm_mode_en_mask, spin_up_1s_mask,
  drv_volt_to_speed_percent, speed_percent_to_rpm, sdi_max6620_fan_target_tach_count_set,
  sdi_max6620_fan_tach_count_get, sdi_max6620_fan_current_drive_volt_get,
  sdi_max6620_fan_tach_count_period_set, sdi_max6620_onfail_fullspeed_enable,
  sdi_max6620_clear_fan_fault,
}

-- The quotient in both directions: the count of a speed, and the speed of a count.
unfoldable pub tach_quotient : {W : Type 0} → FanData → ℕ → Io W ℕ
unfolding uint_quotient
tach_quotient f x =
    uint_quotient (f.tach_count_period * (60 * frequency_hz)) (f.no_of_tach_pulse * x)

-- `none` where the caller's speed is left as it was.
unfoldable pub speed_of_count : {W : Type 0} → FanData → ℕ → Io W (Option ℕ)
unfolding tach_quotient
speed_of_count f tach_count =
    if tach_count == 0
    then pure none
    else if tach_count == max_tach_count
    then pure (some 0)
    else (tach_quotient f tach_count >>= λ speed. pure (some speed))

unfoldable pub count_of_speed : {W : Type 0} → FanData → ℕ → Io W ℕ
unfolding tach_quotient
count_of_speed f speed = if speed == 0 then pure max_tach_count else tach_quotient f speed

-- The speed for the voltage that drives the fan.
unfoldable pub initial_rpm : ℕ → ℕ → ℕ
unfolding drv_volt_to_speed_percent speed_percent_to_rpm
initial_rpm max_speed drv_volt = speed_percent_to_rpm max_speed (drv_volt_to_speed_percent drv_volt)

-- `*status = (((fan_faults |= buf) & m) != 0)`
abbrev pub is_faulty : ℕ → ℕ → Bool
is_faulty faults fan_id = not (bit_and faults (fault_mask fan_id) == 0)

-- `fan_faults &= ~m` of a uint_t
abbrev pub cleared : ℕ → ℕ → ℕ
cleared faults fan_id = bit_and faults (2 ^ 32 - 1 - fault_mask fan_id)

module _ {W : Type 0} (bus : I2cBus W) (addr : ℕ) where
  unfoldable pub sdi_max6620_fan_speed_get : ℕ → Io (Driven Max6620Device W) (Option ℕ)
  unfolding speed_of_count
  sdi_max6620_fan_speed_get fan_id = do
    tach_count ← on_hardware (sdi_max6620_fan_tach_count_get bus addr fan_id)
    d ← get_data
    speed_of_count (d.max6620_fan fan_id) tach_count

  unfoldable pub sdi_max6620_fan_speed_set : ℕ → ℕ → Io (Driven Max6620Device W) (Unit {0})
  unfolding count_of_speed
  sdi_max6620_fan_speed_set fan_id speed = do
    d ← get_data
    if ltb (d.max6620_fan fan_id).max_speed speed
        then fail (errcode eopnotsupp)
        else (count_of_speed (d.max6620_fan fan_id) speed >>= λ target.
            on_hardware (sdi_max6620_fan_target_tach_count_set bus addr fan_id target))

  -- The write of the target that sets the fault detection again, and the fault that it clears.
  unfoldable pub after_fault : ℕ → Io (Driven Max6620Device W) Bool
  after_fault fan_id = do
    tach ← on_hardware (sdi_smbus_read_word bus addr (fantgttachcnt fan_id) flag_none)
    on_hardware (sdi_smbus_write_word bus addr (fantgttachcnt fan_id) tach flag_none)
    d ← get_data
    set_data (set_fan_faults (cleared d.fan_faults fan_id) d)
    pure true

  unfoldable pub sdi_max6620_fan_status_get : ℕ → Io (Driven Max6620Device W) Bool
  unfolding after_fault
  sdi_max6620_fan_status_get fan_id = do
    buf ← on_hardware (sdi_smbus_read_byte bus addr fanfault flag_none)
    d ← get_data
    set_data (set_fan_faults (bit_or d.fan_faults buf) d)
    if is_faulty (bit_or d.fan_faults buf) fan_id then after_fault fan_id else pure false

  -- The code of sdi_max6620_fan_tach_count_period_set is logged and dropped.
  unfoldable pub sdi_max6620_init_fan : ℕ → Io (Driven Max6620Device W) (Unit {0})
  unfolding initial_rpm
  sdi_max6620_init_fan fan_id = do
    r ← catch (sdi_max6620_fan_tach_count_period_set bus addr fan_id)
    got ← on_hardware (sdi_max6620_fan_current_drive_volt_get bus addr fan_id)
    drv_volt ← unless_error got
    d ← get_data
    sdi_max6620_fan_speed_set fan_id (initial_rpm (d.max6620_fan fan_id).max_speed drv_volt)
    on_hardware (
        sdi_smbus_write_byte bus addr (fancfg fan_id) (bit_or rpm_mode_en_mask spin_up_1s_mask)
          flag_none)

  unfoldable pub sdi_max6620_resource_init : ℕ → ℕ → Io (Driven Max6620Device W) (Unit {0})
  sdi_max6620_resource_init fan_id max_rpm = do
    d ← get_data
    set_data
        (if max_rpm == 0 then d else change_fan fan_id (λ f. record f { max_speed = max_rpm }) d)
    sdi_max6620_init_fan fan_id

  unfoldable pub sdi_max6620_chip_init : Io (Driven Max6620Device W) (Unit {0})
  sdi_max6620_chip_init = do
    d ← get_data
    on_hardware (sdi_max6620_onfail_fullspeed_enable bus addr d.is_full_speed_on_fail)
    on_hardware (sdi_max6620_clear_fan_fault bus addr)
