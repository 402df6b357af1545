-- ===== src/Onie.antt =====
-- src/drivers/sdi_onie_eeprom.c and inc/opx/private/sdi_onie_eeprom.h: the fields of an ONIE EEPROM.
pub mod Vendor
pub mod Fill
pub mod Image
pub mod Parse
pub mod Text
pub mod Checks
pub mod Reading
use opx_sdi_sys.Base.{
  ℕ, zero, suc, ◌+◌, ◌-◌, ◌*◌, ◌^◌, ◌≤◌, ◌≡◌, Bool, true, false, not, min, List, [], ◌∷◌, length,
  take, replicate, bit_or, ◌==◌, if◌then◌else◌, Option, none, some,
}
use opx_sdi_sys.Base.Strings.{isprint}
use opx_sdi_sys.Eeprom.{EntityParser}

-- Sizes of sdi_entity_info_t; NAME_MAX is that of limits.h.
abbrev pub name_max : ℕ
name_max = 255

abbrev pub ppid_len : ℕ
ppid_len = 120

abbrev pub hw_rev_len : ℕ
hw_rev_len = 8

abbrev pub part_num_len : ℕ
part_num_len = 10

abbrev pub mac_addr_len : ℕ
mac_addr_len = 6

-- sdi_air_flow_type_t
pub data AirFlow : Type 0 where
  air_flow_normal air_flow_reverse air_flow_unknown air_flow_not_applicable : AirFlow

-- sdi_entity_info_t; a string is its bytes before the final 0, an int its 32 bits.
pub record EntityInfo : Type 0 where
  pub prod_name : List ℕ
  pub ppid : List ℕ
  pub hw_revision : List ℕ
  pub platform_name : List ℕ
  pub vendor_name : List ℕ
  pub service_tag : List ℕ
  pub mac_size : ℕ
  pub base_mac : List ℕ
  pub num_fans : ℕ
  pub max_speed : ℕ
  pub air_flow : AirFlow
  pub power_rating : ℕ
  pub ac_power : Bool
  pub dc_power : Bool
  pub part_number : List ℕ

-- memset with 0
abbrev pub no_info : EntityInfo
no_info = record {
  prod_name = [];
  ppid = [];
  hw_revision = [];
  platform_name = [];
  vendor_name = [];
  service_tag = [];
  mac_size = 0;
  base_mac = replicate mac_addr_len 0;
  num_fans = 0;
  max_speed = 0;
  air_flow = air_flow_normal;
  power_rating = 0;
  ac_power = false;
  dc_power = false;
  part_number = [];
}

abbrev pub prepend : ℕ → Option (List ℕ) → Option (List ℕ)
prepend c none = none
prepend c (some s) = some (c ∷ s)

-- The loop of copy_bytes_to_string, over at most `n` characters; `none` where it meets a character
-- that cannot be printed.
unfoldable pub copy_printable : ℕ → List ℕ → Option (List ℕ)
copy_printable zero src = some []
copy_printable (suc n) [] = some []
copy_printable (suc n) (c ∷ src) =
    let rest = copy_printable n src in
    if c == 0 then some [] else if isprint c then prepend c rest else none

abbrev pub string_or_empty : Option (List ℕ) → List ℕ
string_or_empty none = []
string_or_empty (some s) = s

-- `dst_size` is the size of the array that receives the string.
unfoldable pub copy_bytes_to_string : ℕ → List ℕ → List ℕ
unfolding copy_printable
copy_bytes_to_string dst_size src = string_or_empty (copy_printable (dst_size - 1) src)

-- The functions of the common library and of zlib that the parser calls: std_parse_string,
-- std_parse_string_next, safestrncpy and crc32.
pub record Library : Type 1 where
  pub Handle : Type 0
  pub std_parse_string : List ℕ → List ℕ → Option Handle
  pub std_parse_string_next : Handle → ℕ → Option (List ℕ) × ℕ
  pub safestrncpy : List ℕ → ℕ → List ℕ
  pub crc32 : ℕ → List ℕ → ℕ
