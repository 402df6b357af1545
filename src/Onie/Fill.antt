-- ===== src/Onie/Fill.antt =====
-- src/drivers/sdi_onie_eeprom.c: the loop over the fields, the checks of the header and of the
-- checksum, and the reads of the device. The buffer is the memory from its first byte on.
use opx_sdi_sys.Base.{
  ℕ, zero, suc, ◌+◌, ◌-◌, ◌*◌, ◌%◌, ◌^◌, not, ◌&&◌, ◌||◌, bit_or, List, [], ◌∷◌, ◌++◌, length, ltb,
  leb, ◌==◌, if◌then◌else◌, Option, none, some, Io, abort, pure, fail, std_assert, catch, value_or,
  ◌>>=◌, ◌>>◌, errcode, errno, einval, eperm,
}
use opx_sdi_sys.Base.Strings.{same_string}
use opx_sdi_sys.I2c.{flag_none}
use opx_sdi_sys.I2c.Device.{overlay, window}
use opx_sdi_sys.Eeprom.{
  EntityParser, onie_sys_eeprom, onie_psu_eeprom, onie_fan_eeprom, EntityInfoDevice, ReadFn,
  sdi_device_read,
}
use opx_sdi_sys.Onie.{
  EntityInfo, Library, no_info, copy_bytes_to_string, name_max, ppid_len, hw_rev_len, part_num_len,
  mac_addr_len,
}
use opx_sdi_sys.Onie.Vendor.{sdi_onie_fill_vendor_extn}

abbrev pub header_size : ℕ
header_size = 11

abbrev pub tlv_crc_size : ℕ
tlv_crc_size = 6

abbrev pub onie_crc_size : ℕ
onie_crc_size = 4

abbrev pub tlv_field_size : ℕ
tlv_field_size = 2

abbrev pub tl_field_size : ℕ
tl_field_size = tlv_field_size - 1

abbrev pub crc32_tag : ℕ
crc32_tag = 0xfe

abbrev pub hdr_version : ℕ
hdr_version = 1

-- "TlvInfo"
abbrev pub hdr_id_string : List ℕ
hdr_id_string = 84 ∷ 108 ∷ 118 ∷ 73 ∷ 110 ∷ 102 ∷ 111 ∷ []

-- entity_data and the static system_part_number
pub record Filled : Type 0 where
  pub entity_data : EntityInfo
  pub system_part_number : List ℕ

-- ntohs(total_len)
unfoldable pub total_len : (ℕ → ℕ) → ℕ
total_len mem = mem 9 * 2 ^ 8 + mem 10

abbrev pub big_endian : (ℕ → ℕ) → ℕ → ℕ
big_endian mem a =
    bit_or (bit_or (bit_or (mem a * 2 ^ 24) (mem (a + 1) * 2 ^ 16)) (mem (a + 2) * 2 ^ 8))
      (mem (a + 3))

-- strncmp over 8 characters with "TlvInfo", whose final 0 is the eighth.
unfoldable pub sdi_onie_validate_header : {W : Type 0} → (ℕ → ℕ) → ℕ → Io W (Unit {0})
unfolding total_len
sdi_onie_validate_header mem size =
    if same_string (window mem 0 8) (hdr_id_string ++ 0 ∷ [])
      && mem 8 == hdr_version
      && leb (total_len mem) ((size + 2 ^ 64 - header_size) % 2 ^ 64)
    then pure tt
    else fail (errcode einval)

-- The defaults from the configuration, for a PSU and a fan tray.
unfoldable pub with_defaults : EntityInfoDevice → Filled → Filled
with_defaults device s =
    let e = s.entity_data in
    record s {
      entity_data = record e {
        max_speed = if e.max_speed == 0 then device.max_fan_speed else e.max_speed;
        num_fans = if e.num_fans == 0 then device.no_of_fans else e.num_fans;
      };
    }

abbrev pub finished : {W : Type 0} → Option Filled → Io W Filled
finished none = λ w. (abort, w)
finished (some s) = pure s

-- The buffer after calloc; what is behind it is unknown.
abbrev pub allocated : ℕ → (ℕ → ℕ) → ℕ → ℕ
allocated size beyond a = if ltb a size then 0 else beyond a

module _ (lib : Library) where
  -- The switch on the tag; `v0` and `v1` are the first two bytes of the value, which the number of MAC
  -- addresses takes whatever the length is.
  unfoldable pub apply_field : EntityParser → ℕ → List ℕ → ℕ → ℕ → Filled → Filled
  unfolding copy_bytes_to_string sdi_onie_fill_vendor_extn
  apply_field parser_type tag value v0 v1 s =
      let e = s.entity_data in
      if tag == 0x21
      then record s { entity_data = record e { prod_name = copy_bytes_to_string name_max value } }
      else if tag == 0x23
      then record s { entity_data = record e { ppid = copy_bytes_to_string ppid_len value } }
      else if tag == 0x2f
      then record s { entity_data = record e { service_tag = copy_bytes_to_string name_max value } }
      else if tag == 0x27
      then record s {
        entity_data = record e { hw_revision = copy_bytes_to_string hw_rev_len value };
      }
      else if tag == 0x28
      then record s {
        entity_data = record e { platform_name = copy_bytes_to_string name_max value };
      }
      else if tag == 0x2d
      then record s { entity_data = record e { vendor_name = copy_bytes_to_string name_max value } }
      else if tag == 0x24
      then (if length value == mac_addr_len
          then record s { entity_data = record e { base_mac = value } }
          else s)
      else if tag == 0x2a
      then record s { entity_data = record e { mac_size = bit_or v1 (v0 * 2 ^ 8) } }
      else if tag == 0xfd
      then record s { entity_data = sdi_onie_fill_vendor_extn lib parser_type value e }
      else if tag == 0x22
      then record {
        entity_data = record e { part_number = copy_bytes_to_string part_num_len value };
        system_part_number = lib.safestrncpy (copy_bytes_to_string part_num_len value) part_num_len;
      }
      else s

  -- The loop, at the field at `at`; `none` where the fuel is used up. tlv_len is an int, and the loop
  -- ends at 0 and below.
  unfoldable pub fill_fields : ℕ → EntityParser → (ℕ → ℕ) → ℕ → ℕ → Filled → Option Filled
  fill_fields zero parser_type mem at tlv_len s = if tlv_len == 0 then some s else none
  fill_fields (suc fuel) parser_type mem at tlv_len s =
      let next = at + (mem (at + 1) + tlv_field_size) in
      let rest = fill_fields fuel parser_type mem next (tlv_len - mem (next + 1) - tl_field_size) (
        apply_field parser_type (mem at) (window mem (at + 2) (mem (at + 1))) (mem (at + 2))
          (mem (at + 3)) s) in
      if tlv_len == 0 then some s else rest

  unfoldable pub sdi_onie_fill_tlv_entity_info : (ℕ → ℕ) → EntityParser → List ℕ → Option Filled
  unfolding fill_fields total_len
  sdi_onie_fill_tlv_entity_info mem parser_type part_number =
      let tlv_len = total_len mem - tlv_crc_size in
      fill_fields tlv_len parser_type mem header_size tlv_len
        record { entity_data = no_info; system_part_number = part_number }

  unfoldable pub sdi_onie_validate_checksum : {W : Type 0} → (ℕ → ℕ) → Io W (Unit {0})
  unfolding total_len
  sdi_onie_validate_checksum mem =
      let crc_offset = header_size + total_len mem - (tlv_field_size + onie_crc_size) in
      if not (mem crc_offset == crc32_tag) || not (mem (crc_offset + 1) == onie_crc_size)
      then fail errno
      else if lib.crc32 0 (window mem 0 (header_size + total_len mem - onie_crc_size))
          == big_endian mem (crc_offset + 2)
      then pure tt
      else fail (errcode einval)

  unfoldable pub fill_format :
      {W : Type 0} → EntityInfoDevice → EntityParser → (ℕ → ℕ) → List ℕ → Io W Filled
  unfolding sdi_onie_fill_tlv_entity_info with_defaults
  fill_format device onie_sys_eeprom mem part_number =
      finished (sdi_onie_fill_tlv_entity_info mem onie_sys_eeprom part_number)
  fill_format device onie_psu_eeprom mem part_number =
      finished (sdi_onie_fill_tlv_entity_info mem onie_psu_eeprom part_number) >>= λ s.
      pure (with_defaults device s)
  fill_format device onie_fan_eeprom mem part_number =
      finished (sdi_onie_fill_tlv_entity_info mem onie_fan_eeprom part_number) >>= λ s.
      pure (with_defaults device s)
  fill_format device _ mem part_number = fail (errcode eperm)

  -- `torn` is what the second read left in the buffer where it fails; its code is overwritten.
  unfoldable pub sdi_onie_eeprom_data_get :
      {W : Type 0}
      → Option (ReadFn W)
      → EntityInfoDevice
      → EntityParser
      → (ℕ → ℕ)
      → List ℕ
      → List ℕ
      → Io W Filled
  unfolding sdi_onie_validate_header sdi_onie_validate_checksum fill_format total_len
  sdi_onie_eeprom_data_get read device format beyond torn part_number = do
    std_assert (not (device.entity_size == 0))
    header ← sdi_device_read read 0 header_size flag_none
    sdi_onie_validate_header (overlay 0 header (allocated device.entity_size beyond))
        device.entity_size
    r ← catch (
        sdi_device_read read header_size
          (total_len (overlay 0 header (allocated device.entity_size beyond))) flag_none)
    sdi_onie_validate_checksum (
        overlay header_size (value_or torn r)
          (overlay 0 header (allocated device.entity_size beyond)))
    fill_format device format
        (overlay header_size (value_or torn r)
          (overlay 0 header (allocated device.entity_size beyond)))
        part_number
