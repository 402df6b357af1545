-- ===== src/Eeprom.antt =====
-- src/drivers/sdi_eeprom.c: reads of an EEPROM, and sdi_device_read of
-- inc/opx/private/sdi_driver_internal.h.
pub mod Offsets
pub mod Cells
use opx_sdi_sys.Base.{
  ℕ, zero, suc, ◌+◌, ◌%◌, ◌^◌, bit_and, List, [], ◌∷◌, Bool, true, false, ltb, leb, ◌==◌,
  if◌then◌else◌, Option, none, some, Io, pure, fail, ◌>>=◌, ◌>>◌, and_then, errcode, einval,
  enotsup,
}
use opx_sdi_sys.I2c.{
  I2cBus, flag_none, sdi_smbus_write_byte, sdi_smbus_recv_byte, sdi_smbus_read_multi_byte,
}

-- sdi_device_read_fn: the offset, the length and the flags.
abbrev pub ReadFn : Type 0 → Type 0
ReadFn W = ℕ → ℕ → ℕ → Io W (List ℕ)

abbrev pub sdi_device_read : {W : Type 0} → Option (ReadFn W) → ReadFn W
sdi_device_read none offset len flags = fail (errcode enotsup)
sdi_device_read (some read) offset len flags = read offset len flags

-- sdi_entity_parser_t
pub data EntityParser : Type 0 where
  onie_sys_eeprom onie_psu_eeprom onie_fan_eeprom : EntityParser
  dell_legacy_psu_eeprom dell_legacy_fan_eeprom delta_psu_eeprom : EntityParser

-- entity_info_device_t, less the alias
pub record EntityInfoDevice : Type 0 where
  pub entity_size : ℕ
  pub no_of_fans : ℕ
  pub max_fan_speed : ℕ

module _ {W : Type 0} (bus : I2cBus W) (addr : ℕ) where
  -- The loop over `counter`; `offset` has it added.
  unfoldable pub read_cells : ℕ → ℕ → Io W (List ℕ)
  read_cells offset zero = pure []
  read_cells offset (suc left) = do
    sdi_smbus_write_byte bus addr 0 (bit_and (offset % 2 ^ 32) 0xff) flag_none
    b ← sdi_smbus_recv_byte bus addr flag_none
    bs ← read_cells (offset + 1) left
    pure (b ∷ bs)

  unfoldable pub sdi_eeprom_read : EntityInfoDevice → ReadFn W
  unfolding read_cells
  sdi_eeprom_read device offset len flags =
      if leb device.entity_size offset
      then fail (errcode einval)
      else if device.entity_size == 8192
      then read_cells offset len
      else if device.entity_size == 256
      then sdi_smbus_read_multi_byte bus addr offset len flag_none
      else fail (errcode einval)
