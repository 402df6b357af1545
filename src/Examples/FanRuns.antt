-- ===== src/Examples/FanRuns.antt =====
-- Runs of the MAX6620 driver and of the ONIE parser at fixed inputs.
use opx_sdi_sys.Base.{
  ℕ, suc, ◌≡◌, refl, List, [], ◌∷◌, none, some, ok, err, errcode, eopnotsupp, true, Option, ◌==◌,
  if◌then◌else◌,
}
use opx_sdi_sys.Base.Strings.{
  strtoul, signed_of, unsigned_of, prefixed, digits_of, digit_of, same_string, begins_with,
  c_string,
}
use opx_sdi_sys.I2c.{
  sdi_smbus_read_byte, sdi_smbus_write_byte, sdi_smbus_read_word, sdi_smbus_write_word, on_bus,
}
use opx_sdi_sys.Bus.Mutex.{with_lock}
use opx_sdi_sys.DeviceData.{
  sdi_platform_util_convert_le_to_uint16, sdi_platform_util_write_16bit_to_bytearray_le,
}
use opx_sdi_sys.Max6620.{
  tach_count_val, data_to_drv_volt, drv_volt_to_speed_percent, speed_percent_to_rpm, speed_range,
  uint_quotient, target_bytes, write_speed_range, sdi_max6620_fan_tach_count_period_set,
  sdi_max6620_fan_target_tach_count_set, sdi_max6620_fan_current_drive_volt_get,
}
use opx_sdi_sys.Max6620.Fan.{
  tach_quotient, count_of_speed, initial_rpm, sdi_max6620_fan_speed_set, sdi_max6620_init_fan,
  sdi_max6620_resource_init,
}
use opx_sdi_sys.Max6620.Setting.{driven}
use opx_sdi_sys.Eeprom.{onie_psu_eeprom}
use opx_sdi_sys.Onie.{Library, no_info, EntityInfo}
use opx_sdi_sys.Onie.Vendor.{
  sdi_onie_fill_vendor_extn, scan_extension, scan_type, scan_first, scan_second, psu_type,
}
use opx_sdi_sys.Examples.{Memory}
use opx_sdi_sys.Examples.Fan.{map_bus, contents, chip, failing}

abbrev after : Memory
after = (sdi_max6620_fan_speed_set map_bus 0x29 0 1000 (driven chip failing)).1.hardware

-- The count of 1000 revolutions per minute is 7864; the registers have 7864 modulo 2048.
slow_speed_is_masked : tach_count_val (contents after 0x21) (contents after 0x20) ≡ 1720
unfolding sdi_max6620_fan_speed_set count_of_speed tach_quotient uint_quotient tach_count_val
    sdi_max6620_fan_target_tach_count_set target_bytes sdi_smbus_read_word sdi_smbus_write_word
    on_bus with_lock sdi_platform_util_convert_le_to_uint16
    sdi_platform_util_write_16bit_to_bytearray_le
slow_speed_is_masked = refl

too_fast :
    (sdi_max6620_fan_speed_set map_bus 0x29 0 16001 (driven chip failing)).0
    ≡ err (errcode eopnotsupp)
unfolding sdi_max6620_fan_speed_set
too_fast = refl

-- A drive voltage of 0xB4, 35 percent of the range, gives 5600 revolutions per minute.
initialized : (sdi_max6620_resource_init map_bus 0x29 0 16000 (driven chip failing)).0 ≡ ok tt
unfolding sdi_max6620_resource_init sdi_max6620_init_fan sdi_max6620_fan_tach_count_period_set
    speed_range write_speed_range sdi_max6620_fan_current_drive_volt_get data_to_drv_volt
    initial_rpm drv_volt_to_speed_percent speed_percent_to_rpm sdi_max6620_fan_speed_set
    count_of_speed tach_quotient uint_quotient sdi_max6620_fan_target_tach_count_set target_bytes
    sdi_smbus_read_byte sdi_smbus_write_byte sdi_smbus_read_word sdi_smbus_write_word on_bus
    with_lock sdi_platform_util_convert_le_to_uint16 sdi_platform_util_write_16bit_to_bytearray_le
initialized = refl

hexadecimal : strtoul (32 ∷ 48 ∷ 120 ∷ 49 ∷ 102 ∷ 45 ∷ []) ≡ 31
unfolding strtoul signed_of unsigned_of prefixed digits_of digit_of
hexadecimal = refl

decimal : strtoul (49 ∷ 56 ∷ 48 ∷ 48 ∷ 48 ∷ []) ≡ 18000
unfolding strtoul signed_of unsigned_of prefixed digits_of digit_of
decimal = refl

-- std_parse_string_next as the tokens "PSU", "1", "18000" and "2" of "674-PSU-1-18000-2-FF".
abbrev token : ℕ → Option (List ℕ)
token n =
    if n == 0
    then some (80 ∷ 83 ∷ 85 ∷ [])
    else if n == 1
    then some (49 ∷ [])
    else if n == 2
    then some (50 ∷ [])
    else if n == 3
    then some (49 ∷ 56 ∷ 48 ∷ 48 ∷ 48 ∷ [])
    else none

abbrev tokens : Library
tokens = record {
  Handle = Unit {0};
  std_parse_string = λ s d. some tt;
  std_parse_string_next = λ h n. (token n, suc n);
  safestrncpy = λ s n. s;
  crc32 = λ start bytes. 0;
}

abbrev extension : EntityInfo
extension = sdi_onie_fill_vendor_extn tokens onie_psu_eeprom (54 ∷ 55 ∷ 52 ∷ 45 ∷ []) no_info

psu_extension :
    (extension.num_fans ≡ 2) × (extension.max_speed ≡ 18000) × (extension.ac_power ≡ true)
unfolding sdi_onie_fill_vendor_extn scan_extension scan_type scan_first scan_second psu_type strtoul
    signed_of unsigned_of prefixed digits_of digit_of same_string begins_with c_string
psu_extension = (refl, refl, refl)
