-- ===== src/Examples/Onie.antt =====
-- An ONIE image in an EEPROM of 256 bytes, a sum of the bytes in place of the CRC, and the theorems on
-- it.
use opx_sdi_sys.Base.{
  ℕ, ◌+◌, ◌*◌, ◌%◌, ◌^◌, ◌<◌, ◌≡◌, inl, refl, arith, List, [], ◌∷◌, ◌++◌, length, take, All, true,
  false, none, some, Io, ok, err, fail, errcode, enotsup,
}
use opx_sdi_sys.Bus.{i2c_bus}
use opx_sdi_sys.I2c.{I2cBus, DataType, byte_data}
use opx_sdi_sys.I2c.Device.{Gives, View, window}
use opx_sdi_sys.Eeprom.{EntityInfoDevice, onie_psu_eeprom, sdi_eeprom_read}
use opx_sdi_sys.Eeprom.Cells.{eeprom_read-IsReadable}
use opx_sdi_sys.Eeprom.Offsets.{low_window, pointer_after, IsEeprom, eeprom_read_wraps}
use opx_sdi_sys.Onie.{Library, copy_bytes_to_string, no_info}
use opx_sdi_sys.Onie.Fill.{Filled, sdi_onie_eeprom_data_get, sdi_onie_fill_tlv_entity_info}
use opx_sdi_sys.Onie.Image.{Field, encode, fill_tlv_returns, byte_or_zero}
use opx_sdi_sys.Onie.Checks.{header_of_image, crc_field}
use opx_sdi_sys.Onie.Text.{Printable, copy_bytes-fits}
use opx_sdi_sys.Onie.Reading.{parsed, data_get-image}
use opx_sdi_sys.Examples.{Memory, Locked, lock_of, device_read}
use opx_sdi_sys.Examples.MultiByte.{byte_bus, registers, byte_bus-IsByteMemory}

abbrev sum_of : List ℕ → ℕ
sum_of [] = 0
sum_of (b ∷ bs) = b + sum_of bs

abbrev library : Library
library = record {
  Handle = Unit {0};
  std_parse_string = λ s d. none;
  std_parse_string_next = λ h count. (none, count);
  safestrncpy = λ s n. take 9 s;
  crc32 = λ start bytes. (start + sum_of bytes) % 2 ^ 32;
}

-- The product name "Z9", two MAC addresses and the part number "0K".
abbrev fields : List Field
fields = (0x21, 90 ∷ 57 ∷ []) ∷ (0x2a, 0 ∷ 2 ∷ []) ∷ (0x22, 48 ∷ 75 ∷ []) ∷ []

abbrev image : List ℕ
image = header_of_image 18 ++ encode fields ++ crc_field 1370

abbrev programmed : Memory
programmed = ((λ a. byte_or_zero image a), false)

abbrev eeprom : EntityInfoDevice
eeprom = record { entity_size = 256; no_of_fans = 1; max_fan_speed = 18000 }

abbrev expected : Filled
expected = record {
  entity_data = record no_info {
    prod_name = 90 ∷ 57 ∷ [];
    mac_size = 2;
    part_number = 48 ∷ 75 ∷ [];
    num_fans = 1;
    max_speed = 18000;
  };
  system_part_number = 48 ∷ 75 ∷ [];
}

abbrev at_end : Memory → View
at_end w = (w.0, 0)

data_get-image_example :
    (w' : Memory) × (sdi_onie_eeprom_data_get library
        (some (sdi_eeprom_read byte_bus 0x50 eeprom))
        eeprom
        onie_psu_eeprom
        (λ a. 0xAA)
        []
        []
        programmed
      ≡ (ok expected, w'))
unfolding window parsed
data_get-image_example =
    data_get-image library (sdi_eeprom_read byte_bus 0x50 eeprom) eeprom onie_psu_eeprom registers
      (λ a. 0xAA) [] [] fields 1370 expected programmed
      (eeprom_read-IsReadable byte_bus 0x50 registers eeprom byte_bus-IsByteMemory refl)
      (refl, (refl, (refl, (refl, (refl, (refl, (refl, (refl, (refl, (refl, (refl, tt)))))))))))
      (
        refl,
        (refl, (refl, (refl, (refl, (refl, (refl, (refl, (refl, (refl, (refl, (refl, tt))))))))))),
      )
      (refl, (refl, (refl, (refl, (refl, (refl, tt)))))) (omega arith) refl
      (inl (omega arith), (inl (omega arith), (inl (omega arith), tt))) (omega arith) (omega arith)
      refl

fill_tlv_returns_example :
    (s : Filled) × (sdi_onie_fill_tlv_entity_info library (λ a. 0xFF) onie_psu_eeprom [] ≡ some s)
fill_tlv_returns_example = fill_tlv_returns library onie_psu_eeprom (λ a. 0xFF) []

copy_bytes-fits_example :
    (length (copy_bytes_to_string 4 (90 ∷ 57 ∷ 49 ∷ 48 ∷ [])) < 4)
    × All Printable (copy_bytes_to_string 4 (90 ∷ 57 ∷ 49 ∷ 48 ∷ []))
copy_bytes-fits_example = copy_bytes-fits 4 (90 ∷ 57 ∷ 49 ∷ 48 ∷ []) (omega arith)

-- An AT24C64: the command is the high half of the offset.
abbrev seek_write : DataType → ℕ → List ℕ → Io (Locked View) (Unit {0})
seek_write byte_data hi (lo ∷ []) w = (ok tt, ((w.0.0, hi * 2 ^ 8 + lo), w.1))
seek_write _ hi bytes w = (err (errcode enotsup), w)

abbrev large_bus : I2cBus (Locked View)
large_bus = record {
  bus_type = i2c_bus;
  ops = record {
    smbus_read = λ addr type cmd flags. device_read type;
    smbus_write = λ addr type cmd bytes flags. seek_write type cmd bytes;
    i2c_read = λ addr cmd n flags. fail (errcode enotsup);
    i2c_write = λ addr cmd b n flags. fail (errcode enotsup);
  };
  mutex = lock_of;
}

abbrev cells_of : Locked View → View
cells_of w = w.0

large_bus-IsEeprom : IsEeprom large_bus 0x50 cells_of
large_bus-IsEeprom = record {
  i2c = refl;
  locks = λ w. ((w.0, true), refl, refl);
  view-unlock = λ w. refl;
  points = λ w hi lo. (((w.0.0, hi * 2 ^ 8 + lo), w.1), refl, refl);
  receives = λ w. (((w.0.0, w.0.1 + 1), w.1), refl, refl);
}

abbrev large : EntityInfoDevice
large = record { entity_size = 8192; no_of_fans = 0; max_fan_speed = 0 }

-- Each cell has its own number.
abbrev numbered : Locked View
numbered = (((λ a. a), 0), false)

eeprom_read_wraps_example :
    Gives cells_of
      (sdi_eeprom_read large_bus 0x50 large 300 2 0)
      numbered
      (44 ∷ 45 ∷ [])
      ((λ a. a), 46)
unfolding low_window pointer_after
eeprom_read_wraps_example =
    eeprom_read_wraps large_bus 0x50 cells_of large 300 2 0 numbered large_bus-IsEeprom refl
      (omega arith)
