-- ===== src/Onie/Reading.antt =====
-- src/drivers/sdi_onie_eeprom.c: sdi_onie_eeprom_data_get on a device that has an image.
use mathlib.Core.Option.{none-ne-some}
use opx_sdi_sys.Base.{
  ℕ, ◌+◌, ◌^◌, ◌≤◌, ◌<◌, ◌≡◌, ap, ◌∙◌, subst, arith, false, List, length, All, ◌==◌, Option, some,
  none, ok,
}
use opx_sdi_sys.I2c.Device.{window}
use opx_sdi_sys.Eeprom.{
  EntityParser, onie_sys_eeprom, onie_psu_eeprom, onie_fan_eeprom, dell_legacy_psu_eeprom,
  dell_legacy_fan_eeprom, delta_psu_eeprom, EntityInfoDevice, ReadFn,
}
use opx_sdi_sys.Onie.{Library, no_info}
use opx_sdi_sys.Onie.Fill.{
  Filled, header_size, with_defaults, finished, sdi_onie_eeprom_data_get,
  sdi_onie_fill_tlv_entity_info, fill_format,
}
use opx_sdi_sys.Onie.Image.{Field, encode, Holds, IsField, apply_fields}
use opx_sdi_sys.Onie.Parse.{overrun, fill_tlv-image}
use opx_sdi_sys.Eeprom.Cells.{IsReadable}
use opx_sdi_sys.Onie.Checks.{
  header_of_image, crc_field, first_read, second_read, first_read-cells, second_read-cells,
  second_read-zero, Holds-same, window-same, header_accepted, total_len_lem, checksum_accepted,
}

-- What the fields give in one of the three ONIE formats.
unfoldable pub parsed :
    Library → EntityInfoDevice → EntityParser → List Field → List ℕ → Option Filled
unfolding apply_fields with_defaults
parsed lib device onie_sys_eeprom fs part_number = some (
    apply_fields lib onie_sys_eeprom fs
      record { entity_data = no_info; system_part_number = part_number })
parsed lib device onie_psu_eeprom fs part_number = some (
    with_defaults device (
      apply_fields lib onie_psu_eeprom fs
        record { entity_data = no_info; system_part_number = part_number }))
parsed lib device onie_fan_eeprom fs part_number = some (
    with_defaults device (
      apply_fields lib onie_fan_eeprom fs
        record { entity_data = no_info; system_part_number = part_number }))
parsed lib device _ fs part_number = none

module _ (lib : Library) (device : EntityInfoDevice) (mem : ℕ → ℕ) (fs : List Field)
    (part_number : List ℕ)
    (image : (parser_type : EntityParser)
      → sdi_onie_fill_tlv_entity_info lib mem parser_type part_number
        ≡ some (
            apply_fields lib parser_type fs
              record { entity_data = no_info; system_part_number = part_number })) where
  fill_format_lem :
      {W : Type 0} (format : EntityParser) (w : W) (s : Filled)
      → parsed lib device format fs part_number ≡ some s
      → fill_format lib device format mem part_number w ≡ (ok s, w)
  unfolding fill_format parsed
  fill_format_lem onie_sys_eeprom w s result =
      rw (image onie_sys_eeprom) (ap (λ o. finished o w) result)
  fill_format_lem onie_psu_eeprom w s result =
      rw (image onie_psu_eeprom) (ap (λ o. finished o w) result)
  fill_format_lem onie_fan_eeprom w s result =
      rw (image onie_fan_eeprom) (ap (λ o. finished o w) result)
  fill_format_lem dell_legacy_psu_eeprom w s result = absurd (none-ne-some s result)
  fill_format_lem dell_legacy_fan_eeprom w s result = absurd (none-ne-some s result)
  fill_format_lem delta_psu_eeprom w s result = absurd (none-ne-some s result)

-- For a readable device with an image of fields in the ONIE format, whose checksum is that of the
-- bytes before it, in one of the three ONIE formats, where the image and the bytes behind it that the
-- loop may read fit in the device: sdi_onie_eeprom_data_get succeeds with what the fields give.
pub data_get-image :
    {W : Type 0} (lib : Library) (read : ReadFn W) (device : EntityInfoDevice)
    (format : EntityParser) (regs : W → ℕ → ℕ) (beyond : ℕ → ℕ) (torn part_number : List ℕ)
    (fs : List Field) (crc : ℕ) (s : Filled) (w : W)
    → IsReadable read device.entity_size regs
    → Holds (regs w) 0 (header_of_image (length (encode fs) + 6))
    → Holds (regs w) 11 (encode fs)
    → Holds (regs w) (11 + length (encode fs)) (crc_field crc)
    → crc < 2 ^ 32
    → lib.crc32 0 (window (regs w) 0 (13 + length (encode fs))) ≡ crc
    → All IsField fs
    → 11 + length (encode fs) + 6 + overrun fs ≤ device.entity_size
    → device.entity_size < 2 ^ 31
    → parsed lib device format fs part_number ≡ some s
    → (w' : W) × (sdi_onie_eeprom_data_get lib (some read) device format beyond torn part_number w
        ≡ (ok s, w'))
unfolding sdi_onie_eeprom_data_get
data_get-image {W} lib read device format regs beyond torn part_number fs crc s w readable head body
      tail small agrees fields fits bound result =
    let size = device.entity_size in
    let cells = regs w in
    let total = length (encode fs) + 6 in
    let one = readable 0 header_size w (omega arith) (omega arith) in
    let two = readable header_size total one.0 (omega arith) (omega arith) in
    let second_value : window (regs one.0) header_size total ≡ window cells header_size total =
      ap (λ f. window f header_size total) one.2 in
    let b1 = first_read cells beyond size total in
    let b2 = second_read cells beyond size total in
    let e0 : (size == 0) ≡ false = ground arith in
    let first : Holds b1 0 (header_of_image total) =
      Holds-same b1 cells 0 (header_of_image total)
        (λ a low high. first_read-cells cells beyond size total a (omega arith)) head in
    let again : Holds b2 0 (header_of_image total) =
      Holds-same b2 cells 0 (header_of_image total)
        (λ a low high. second_read-cells cells beyond size total a (omega arith)) head in
    let body2 : Holds b2 11 (encode fs) =
      Holds-same b2 cells 11 (encode fs)
        (λ a low high. second_read-cells cells beyond size total a (omega arith)) body in
    let tail2 : Holds b2 (11 + length (encode fs)) (crc_field crc) =
      Holds-same b2 cells (11 + length (encode fs)) (crc_field crc)
        (λ a low high. second_read-cells cells beyond size total a (omega arith)) tail in
    let sum2 : lib.crc32 0 (window b2 0 (7 + total)) ≡ crc =
      ap (lib.crc32 0) (
        window-same b2 cells 0 (7 + total)
          (λ a low high. second_read-cells cells beyond size total a (omega arith))
        ∙ ap (window cells 0) (omega arith))
      ∙ agrees in
    let total1 = total_len_lem b1 total first in
    let total2 = total_len_lem b2 total again in
    let v1 = header_accepted b1 total size one.0 first (omega arith) bound in
    let v2 =
      checksum_accepted lib b2 total crc two.0 total2 (omega arith)
        (subst (λ a. Holds b2 a (crc_field crc)) (omega arith) tail2) small sum2 in
    let image = λ (parser_type : EntityParser).
      fill_tlv-image lib parser_type b2 part_number fs body2 tail2.0 (tail2.1).0 total2
        (λ a low high. second_read-zero cells beyond size total a (omega arith) (omega arith))
        fields in
    (
      two.0,
      rw (
        e0,
        one.1,
        v1,
        total1,
        two.1,
        second_value,
        v2,
        fill_format_lem lib device b2 fs part_number image format two.0 s result,
      ),
    )
