-- ===== src/Onie/Vendor.antt =====
-- src/drivers/sdi_onie_eeprom.c: sdi_onie_fill_vendor_extn, the vendor extension of a fan tray or a
-- PSU. An error message ends the scan, and what was filled before it stays.
use opx_sdi_sys.Base.{
  ℕ, ◌-◌, ◌%◌, ◌^◌, Bool, true, false, not, ◌&&◌, ◌||◌, List, [], ◌∷◌, ◌++◌, length, drop,
  replicate, ◌==◌, if◌then◌else◌, Option, none, some,
}
use opx_sdi_sys.Base.Strings.{c_string, same_string, begins_with, strtoul}
use opx_sdi_sys.Eeprom.{EntityParser, onie_psu_eeprom, onie_fan_eeprom}
use opx_sdi_sys.Onie.{EntityInfo, Library, air_flow_normal, air_flow_reverse}

abbrev iana_num : List ℕ
iana_num = 0x00 ∷ 0x00 ∷ 0x02 ∷ 0xa2 ∷ 0x2d ∷ []

-- "674-"
abbrev iana_ascii : List ℕ
iana_ascii = 54 ∷ 55 ∷ 52 ∷ 45 ∷ []

-- "-"
abbrev delimiter : List ℕ
delimiter = 45 ∷ []

abbrev str_fantray : List ℕ
str_fantray = 70 ∷ 65 ∷ 78 ∷ 84 ∷ 82 ∷ 65 ∷ 89 ∷ []

abbrev str_psu : List ℕ
str_psu = 80 ∷ 83 ∷ 85 ∷ []

abbrev str_maxrpm : List ℕ
str_maxrpm = 77 ∷ 65 ∷ 88 ∷ 82 ∷ 80 ∷ 77 ∷ []

abbrev str_fans : List ℕ
str_fans = 70 ∷ 65 ∷ 78 ∷ 83 ∷ []

abbrev is_psu : EntityParser → Bool
is_psu onie_psu_eeprom = true
is_psu _ = false

abbrev is_fan : EntityParser → Bool
is_fan onie_fan_eeprom = true
is_fan _ = false

-- The type of the PSU: `none` where it is not one of the four.
unfoldable pub psu_type : ℕ → EntityInfo → Option EntityInfo
psu_type temp e =
    if temp == 0
    then some (record e { ac_power = true; air_flow = air_flow_normal })
    else if temp == 1
    then some (record e { ac_power = true; air_flow = air_flow_reverse })
    else if temp == 2
    then some (record e { dc_power = true; air_flow = air_flow_normal })
    else if temp == 3
    then some (record e { dc_power = true; air_flow = air_flow_reverse })
    else none

unfoldable pub fan_type : ℕ → EntityInfo → Option EntityInfo
fan_type temp e =
    if temp == 0
    then some (record e { air_flow = air_flow_normal })
    else if temp == 1
    then some (record e { air_flow = air_flow_reverse })
    else none

abbrev entity_type : EntityParser → ℕ → EntityInfo → Option EntityInfo
entity_type onie_psu_eeprom temp e = psu_type temp e
entity_type onie_fan_eeprom temp e = fan_type temp e
entity_type _ temp e = some e

module _ (lib : Library) (parser_type : EntityParser) where
  open lib use {Handle, std_parse_string, std_parse_string_next}

  -- `value = std_parse_string_next(handle, &count)`; the scan ends where there is none.
  abbrev with_token : Option (List ℕ) × ℕ → EntityInfo → (List ℕ → ℕ → EntityInfo) → EntityInfo
  with_token (none, count) e k = e
  with_token (some value, count) e k = k value count

  abbrev next : Handle → ℕ → EntityInfo → (List ℕ → ℕ → EntityInfo) → EntityInfo
  next handle count e k = with_token (std_parse_string_next handle count) e k

  abbrev set_max_speed : List ℕ → EntityInfo → EntityInfo
  set_max_speed value e = record e { max_speed = strtoul value % 2 ^ 32 }

  abbrev set_num_fans : List ℕ → EntityInfo → EntityInfo
  set_num_fans value e = record e { num_fans = strtoul value % 2 ^ 32 }

  -- "FANS" and the number of fans, or the maximum speed.
  unfoldable pub scan_second : Handle → ℕ → EntityInfo → EntityInfo
  scan_second handle count e = next handle count e λ value count'.
      if same_string value str_fans
      then next handle count' e (λ number count''. set_num_fans number e)
      else set_max_speed value e

  -- "MAXRPM" and the maximum speed, or the number of fans.
  unfoldable pub scan_first : Handle → ℕ → EntityInfo → EntityInfo
  unfolding scan_second
  scan_first handle count e = next handle count e λ value count'.
      if same_string value str_maxrpm
      then next handle count' e
          (λ number count''. scan_second handle count'' (set_max_speed number e))
      else scan_second handle count' (set_num_fans value e)

  abbrev scan_typed : Handle → ℕ → EntityInfo → Option EntityInfo → EntityInfo
  scan_typed handle count e none = e
  scan_typed handle count e (some typed) = scan_first handle count typed

  -- From the type of the PSU or fan tray on.
  unfoldable pub scan_type : Handle → List ℕ → ℕ → EntityInfo → EntityInfo
  unfolding scan_first psu_type fan_type
  scan_type handle value count e =
      scan_typed handle count e (entity_type parser_type (strtoul value % 2 ^ 32) e)

  -- "PSU" or "FANTRAY" is left out, or it is that of the parser.
  unfoldable pub scan_extension : Handle → EntityInfo → EntityInfo
  unfolding scan_type
  scan_extension handle e = next handle 0 e λ value count.
      if same_string value str_fantray || same_string value str_psu
      then (if (same_string value str_fantray && not (is_fan parser_type))
            || (same_string value str_psu && not (is_psu parser_type))
          then e
          else next handle count e (λ kind count'. scan_type handle kind count' e))
      else scan_type handle value count e

  abbrev scan_parsed : Option Handle → EntityInfo → EntityInfo
  scan_parsed none e = e
  scan_parsed (some handle) e = scan_extension handle e

  -- The value, in a buffer of 256 bytes; the test of the terminator only logs.
  unfoldable pub sdi_onie_fill_vendor_extn : List ℕ → EntityInfo → EntityInfo
  unfolding scan_extension
  sdi_onie_fill_vendor_extn value e =
      let vendor_extn = value ++ replicate (256 - length value) 0 in
      if not (is_fan parser_type || is_psu parser_type)
      then e
      else if begins_with iana_num vendor_extn
      then scan_parsed (std_parse_string (c_string (drop 5 vendor_extn)) delimiter) e
      else if begins_with iana_ascii vendor_extn
      then scan_parsed (std_parse_string (c_string (drop 4 vendor_extn)) delimiter) e
      else e
