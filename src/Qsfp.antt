-- ===== src/Qsfp.antt =====
-- src/drivers/sdi_qsfp_eeprom.c: a QSFP module, whose memory has pages, or an SFP module in a QSA
-- adapter, to which the driver passes the calls on.
pub mod Channel
pub mod Raw
pub mod Power
pub mod Monitor
pub mod Plugged
pub mod Transmit
pub mod PagedAccess
pub mod Paging
pub mod Frees
pub mod Locks
pub mod MaxPower
pub mod Modes
pub mod Recovery
use opx_sdi_sys.Base.{
  ℕ, ◌*◌, ◌%◌, ◌^◌, Bool, true, false, not, Option, none, some, ◌⊎◌, inl, inr, leb, ltb, ◌==◌,
  if◌then◌else◌, bit_and, Io, abort, pure, fail, catch, value_or, ◌>>=◌, ◌>>◌, StdError, errcode,
  enotsup, param,
}
use opx_sdi_sys.Base.StdBits.{StdBits}
use opx_sdi_sys.Bus.Mutex.{Mutex, with_lock}
use opx_sdi_sys.Bus.Group.{GroupBus}
use opx_sdi_sys.I2c.{I2cBus, flag_none, sdi_smbus_read_byte, sdi_smbus_write_byte}
use opx_sdi_sys.Media.{Selector, EepromAddr, Clock, nap, module_select, module_deselect, selection}
use opx_sdi_sys.Media.Paged.{page_select_byte}
use opx_sdi_sys.Sfp.{SfpDevice}

-- qsfp_category_t
pub data Category : Type 0 where
  qsfp qsfpplus qsfp28 qsfpdd : Category

-- The values of sdi_media_type_t that the driver gives to mod_type.
pub data ModType : Type 0 where
  media_default qsa_adapter : ModType

-- The fields of qsfp_device_t and of its handle that the operations use.
pub record QsfpDevice (W : Type 0) : Type 0 where
  pub bus_hdl : I2cBus W
  pub i2c_addr : ℕ
  pub selector : Selector W
  pub mod_reset_hdl : Option (GroupBus W)
  pub mod_reset_bitmask : ℕ
  pub mod_reset_delay_ms : ℕ
  pub delay : ℕ
  pub mod_type : ModType
  pub sfp_device : Option (SfpDevice W)
  pub mod_category : Category

-- The offsets of inc/opx/private/sdi_qsfp_reg.h
abbrev pub status_indicator : ℕ
status_indicator = 2

abbrev pub ext_identifier : ℕ
ext_identifier = 129

abbrev pub options3 : ℕ
options3 = 194

abbrev pub options4 : ℕ
options4 = 195

-- SDI_MEDIA_PAGE_DEFAULT
abbrev pub page_default : ℕ
page_default = 0

-- The value for a QSFP-DD module, or for any other.
abbrev pub for_dd {ℓ} : {A : Type ℓ} → Category → A → A → A
for_dd qsfpdd x y = x
for_dd _ x y = y

unfoldable pub sdi_qsfp_validate_channel : ℕ → Category → Bool
sdi_qsfp_validate_channel channel category = leb channel (for_dd category 7 3)

module _ {W A : Type 0} where
  -- The calls that are passed on to the SFP module in an adapter, which must not be NULL.
  abbrev pub on_media : ModType → Option (SfpDevice W) → (SfpDevice W → Io W A) → Io W A → Io W A
  on_media media_default sfp pass own = own
  on_media qsa_adapter none pass own = λ w. (abort, w)
  on_media qsa_adapter (some sfp) pass own = pass sfp

module _ {W : Type 0} (bits : StdBits) (clock : Clock W) (dev : QsfpDevice W) where
  open dev use {bus_hdl, i2c_addr, selector, delay, mod_type, sfp_device, mod_category}

  pub sdi_qsfp_module_select : Io W (Unit {0})
  unfolding module_select
  sdi_qsfp_module_select = module_select selector

  pub sdi_qsfp_module_deselect : W → W
  unfolding module_deselect
  sdi_qsfp_module_deselect = module_deselect selector

  -- Select, wait, the accesses, deselect.
  unfoldable pub selected : {A : Type 0} → Io W A → Io W A
  unfolding with_lock
  selected body = with_lock (selection selector) (nap clock (clock.milli_to_micro delay) >> body)

  -- The check of the channel before it.
  unfoldable pub on_channel : {A : Type 0} → ℕ → Io W A → Io W A
  unfolding sdi_qsfp_validate_channel
  on_channel channel call =
      if sdi_qsfp_validate_channel channel mod_category then call else fail param

  unfoldable pub read_byte : ℕ → Io W ℕ
  unfolding sdi_smbus_read_byte
  read_byte offset = sdi_smbus_read_byte bus_hdl i2c_addr offset flag_none

  unfoldable pub write_byte : ℕ → ℕ → Io W (Unit {0})
  unfolding sdi_smbus_write_byte
  write_byte offset buf = sdi_smbus_write_byte bus_hdl i2c_addr offset buf flag_none

  -- The page number is a uint_t, which the call takes as a uint8_t.
  unfoldable pub sdi_qsfp_page_select : ℕ → Io W (Unit {0})
  unfolding read_byte write_byte
  sdi_qsfp_page_select page_num = do
    buf ← read_byte status_indicator
    if bits.test buf 2
        then fail (errcode enotsup)
        else write_byte page_select_byte (page_num % 2 ^ 8)

  unfoldable pub sdi_is_tx_control_supported : Io W Bool
  unfolding read_byte
  sdi_is_tx_control_supported = do buf ← read_byte options4; pure (bits.test buf 4)

  -- The bits QSFP_TX_CDR_CONTROL_BIT_OFFSET and QSFP_RX_CDR_CONTROL_BIT_OFFSET of support_status.
  unfoldable pub sdi_is_cdr_control_supported : Io W (Bool × Bool)
  unfolding read_byte
  sdi_is_cdr_control_supported = do
    buf ← read_byte options3
    pure (bits.test buf 7, bits.test buf 6)

  unfoldable pub sdi_is_paging_supported : Io W Bool
  unfolding read_byte
  sdi_is_paging_supported = do buf ← read_byte status_indicator; pure (not (bits.test buf 2))

  unfoldable pub sdi_is_rate_select_supported : Io W Bool
  unfolding read_byte
  sdi_is_rate_select_supported = do buf ← read_byte options4; pure (bits.test buf 5)

  -- A failed selection of page 0 is only logged.
  unfoldable pub default_page_if : Bool → Io W (Unit {0})
  unfolding sdi_qsfp_page_select
  default_page_if true = catch (sdi_qsfp_page_select page_default) >>= λ rc. pure tt
  default_page_if false = pure tt

  unfoldable pub sdi_is_software_controlled_power_mode_supported : Io W Bool
  unfolding sdi_is_paging_supported default_page_if read_byte
  sdi_is_software_controlled_power_mode_supported = do
    paging_support ← catch sdi_is_paging_supported
    default_page_if (value_or false paging_support)
    buf ← read_byte ext_identifier
    pure (not (bit_and buf 3 == 0))
