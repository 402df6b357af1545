-- ===== src/Sfp.antt =====
-- src/drivers/sdi_sfp_eeprom.c: an SFP module, whose memory has the I2C addresses A0 and A2 and some of
-- whose signals may be on pins of a CPLD.
pub mod Channel
pub mod Monitor
pub mod Rx
use opx_sdi_sys.Base.{
  ℕ, Bool, true, false, not, ◌&&◌, ◌||◌, Option, none, some, ◌⊎◌, inl, inr, List, leb, ltb, ◌==◌,
  if◌then◌else◌, bit_and, bit_or, length, Io, Rc, ok, pure, fail, std_assert, catch, value_or,
  unless_error, ◌>>=◌, ◌>>◌, errcode, einval, eopnotsupp,
}
use opx_sdi_sys.Base.StdBits.{StdBits}
use opx_sdi_sys.Bus.Mutex.{Mutex, with_lock}
use opx_sdi_sys.Bus.Group.{
  GroupBus, sdi_pin_group_acquire_bus, sdi_pin_group_release_bus, sdi_pin_group_read_level,
  sdi_pin_group_write_level,
}
use opx_sdi_sys.I2c.{
  I2cBus, flag_none, sdi_smbus_read_byte, sdi_smbus_write_byte, sdi_smbus_read_multi_byte,
  sdi_smbus_write_multi_byte,
}
use opx_sdi_sys.Media.Paged.{page_select_byte}
use opx_sdi_sys.Media.{
  Selector, EepromAddr, i2c_address, auto_address, add_flag, txdisable, txfault, txloss, rxloss,
  module_select, module_deselect, selection, set_disable,
}

-- The fields of sfp_device_t and of its handle that the operations use.
pub record SfpDevice (W : Type 0) : Type 0 where
  pub bus_hdl : I2cBus W
  pub i2c_addr : ℕ
  pub selector : Selector W
  pub mod_tx_control_hdl : Option (GroupBus W)
  pub mod_tx_control_bitmask : ℕ
  pub mod_sfp_rx_los_hdl : Option (GroupBus W)
  pub mod_sfp_rx_los_bitmask : ℕ
  pub mod_sfp_tx_fault_hdl : Option (GroupBus W)
  pub mod_sfp_tx_fault_bitmask : ℕ

-- SFP_DIAG_MNTR_I2C_ADDR, and the offsets and bits of inc/opx/private/sdi_sfp_reg.h
abbrev pub sfp_i2c_addr : ℕ
sfp_i2c_addr = 0x51

-- SDI_SFP_CHANNEL_NUM
abbrev pub no_channel : ℕ
no_channel = 0

abbrev options2 : ℕ
options2 = 65

abbrev diag_mon_type : ℕ
diag_mon_type = 92

abbrev pub enhanced_options : ℕ
enhanced_options = 93

abbrev ext_mod_ctrl_support : ℕ
ext_mod_ctrl_support = 101

abbrev pub optional_status_control : ℕ
optional_status_control = 110

module _ {W : Type 0} where
  -- A call between acquire and release of a group.
  abbrev pub pins_lock : GroupBus W → Mutex W
  pins_lock group = record {
    lock = sdi_pin_group_acquire_bus group;
    unlock = λ w. (sdi_pin_group_release_bus group w).1;
  }

module _ {W : Type 0} (bits : StdBits) (dev : SfpDevice W) where
  open dev use {bus_hdl, i2c_addr, selector}

  pub sdi_sfp_module_select : Io W (Unit {0})
  unfolding module_select
  sdi_sfp_module_select = module_select selector

  pub sdi_sfp_module_deselect : W → W
  unfolding module_deselect
  sdi_sfp_module_deselect = module_deselect selector

  -- Select, the accesses, deselect.
  unfoldable pub selected : {A : Type 0} → Io W A → Io W A
  unfolding with_lock
  selected = with_lock (selection selector)

  unfoldable pub feature_bit : ℕ → ℕ → Io W Bool
  unfolding sdi_smbus_read_byte
  feature_bit offset bit = do
    buf ← sdi_smbus_read_byte bus_hdl i2c_addr offset flag_none
    pure (bits.test buf bit)

  unfoldable pub sdi_is_alarm_flags_supported : Io W Bool
  unfolding feature_bit
  sdi_is_alarm_flags_supported = feature_bit enhanced_options 7

  pub sdi_is_diag_monitoring_supported : Io W Bool
  unfolding feature_bit
  sdi_is_diag_monitoring_supported = feature_bit diag_mon_type 6

  pub sdi_is_rate_select_supported : Io W Bool
  unfolding feature_bit
  sdi_is_rate_select_supported = feature_bit enhanced_options 1

  pub sdi_is_ext_mod_ctrl_supported : Io W Bool
  unfolding feature_bit
  sdi_is_ext_mod_ctrl_supported = feature_bit ext_mod_ctrl_support 0

  -- `status && (rc == STD_ERR_OK)`
  unfoldable pub sdi_is_sfp_plus_aq_ext_mod_ctrl_sup : Io W Bool
  unfolding sdi_is_ext_mod_ctrl_supported
  sdi_is_sfp_plus_aq_ext_mod_ctrl_sup = do
    status ← catch sdi_is_ext_mod_ctrl_supported
    pure (value_or false status)

  pub sdi_is_wavelength_tune_supported : Io W Bool
  unfolding sdi_smbus_read_byte
  sdi_is_wavelength_tune_supported = do
    buf ← sdi_smbus_read_byte bus_hdl i2c_addr options2 flag_none
    pure (not (bit_and buf 64 == 0))

  pub sdi_sfp_page_select : ℕ → Io W (Unit {0})
  unfolding sdi_smbus_write_byte
  sdi_sfp_page_select page =
      sdi_smbus_write_byte bus_hdl sfp_i2c_addr page_select_byte page flag_none

  -- STD_ASSERT(data_len > 0)
  abbrev with_address : {A : Type 0} → Option ℕ → (ℕ → Io W A) → Io W A
  with_address none k = fail (errcode einval)
  with_address (some addr) k = k addr

  unfoldable pub sdi_sfp_read_generic : EepromAddr → ℕ → Io W (List ℕ)
  unfolding selected sdi_smbus_read_multi_byte
  sdi_sfp_read_generic addr data_len =
      std_assert (ltb 0 data_len)
      >> with_address (i2c_address addr.device_addr i2c_addr) λ address.
        selected (sdi_smbus_read_multi_byte bus_hdl address addr.offset data_len flag_none)

  unfoldable pub sdi_sfp_write_generic : EepromAddr → List ℕ → Io W (Unit {0})
  unfolding selected sdi_smbus_write_multi_byte
  sdi_sfp_write_generic addr buffer =
      std_assert (ltb 0 (length buffer))
      >> with_address (i2c_address addr.device_addr i2c_addr) λ address.
        selected (sdi_smbus_write_multi_byte bus_hdl address addr.offset buffer flag_none)

  pub sdi_sfp_read : ℕ → ℕ → Io W (List ℕ)
  unfolding sdi_sfp_read_generic
  sdi_sfp_read offset = sdi_sfp_read_generic (auto_address offset)

  pub sdi_sfp_write : ℕ → List ℕ → Io W (Unit {0})
  unfolding sdi_sfp_write_generic
  sdi_sfp_write offset = sdi_sfp_write_generic (auto_address offset)

  -- sfp_features of sdi_media_supported_feature_t, in the order of the reads.
  unfoldable pub sdi_sfp_feature_support_status_get : Io W (Bool × Bool × Bool × Bool × Bool)
  unfolding selected sdi_is_alarm_flags_supported sdi_is_diag_monitoring_supported
      sdi_is_rate_select_supported sdi_is_wavelength_tune_supported sdi_is_ext_mod_ctrl_supported
  sdi_sfp_feature_support_status_get = selected do
    alarm_support_status ← sdi_is_alarm_flags_supported
    diag_mntr_support_status ← sdi_is_diag_monitoring_supported
    rate_select_status ← sdi_is_rate_select_supported
    wavelength_tune_support_status ← sdi_is_wavelength_tune_supported
    ext_mod_ctrl_support_status ← sdi_is_ext_mod_ctrl_supported
    pure (
      alarm_support_status, diag_mntr_support_status, rate_select_status,
      wavelength_tune_support_status, ext_mod_ctrl_support_status,
    )
