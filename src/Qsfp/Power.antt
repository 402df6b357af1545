-- ===== src/Qsfp/Power.antt =====
-- src/drivers/sdi_qsfp_eeprom.c: the power class, the optional features, the rate selection and the
-- reset of a QSFP module, and the type of its adapter.
use opx_sdi_sys.Base.{
  ℕ, ◌*◌, ◌/◌, ◌^◌, Bool, true, false, not, ◌&&◌, Option, none, some, List, ◌∷◌, ◌==◌,
  if◌then◌else◌, bit_and, Io, Result, Rc, ok, err, abort, pure, fail, catch, rc_of, unless_error,
  ◌>>=◌, ◌>>◌, ◌⊎◌, inl, inr, StdError, errcode, enotsup, eopnotsupp,
}
use opx_sdi_sys.Base.StdBits.{StdBits}
use opx_sdi_sys.Bus.Mutex.{with_lock}
use opx_sdi_sys.Bus.Group.{GroupBus, sdi_pin_group_read_level, sdi_pin_group_write_level}
use opx_sdi_sys.I2c.{flag_none, sdi_smbus_read_multi_byte}
use opx_sdi_sys.Media.{Clock, nap}
use opx_sdi_sys.Sfp.{pins_lock, sdi_sfp_feature_support_status_get}
use opx_sdi_sys.Qsfp.{
  QsfpDevice, ModType, media_default, qsa_adapter, on_media, on_channel, selected, read_byte,
  write_byte, ext_identifier, sdi_is_tx_control_supported, sdi_is_paging_supported,
  sdi_is_rate_select_supported, sdi_is_software_controlled_power_mode_supported,
  sdi_qsfp_module_select, sdi_qsfp_module_deselect,
}

abbrev pub power_class_control : ℕ
power_class_control = 93

-- The power in milliwatts and whether the software controls it, by the byte of the extended
-- identifier: the lower two bits override the upper two.
unfoldable pub upper_power : ℕ → ℕ
upper_power buf =
    if buf == 0 then 1500 else if buf == 1 then 2000 else if buf == 2 then 2500 else 3500

unfoldable pub max_power : ℕ → ℕ × Bool
unfolding upper_power
max_power buf =
    let low = bit_and buf 3 in
    if low == 0
    then (upper_power (bit_and buf 0xC0 / 2 ^ 6), false)
    else if low == 1
    then (4000, true)
    else if low == 2
    then (4500, true)
    else (5000, true)

abbrev set_bit_to : StdBits → Bool → ℕ → ℕ → ℕ
set_bit_to bits true buf k = bits.set buf k
set_bit_to bits false buf k = bits.clear buf k

-- The high power class bit as the state, the low power bit as its opposite, and the override set.
unfoldable pub power_bits : StdBits → Bool → ℕ → ℕ
power_bits bits state buf =
    set_bit_to bits true (set_bit_to bits (not state) (set_bit_to bits state buf 2) 1) 0

-- sdi_media_fw_rev_t, and sdi_qsa_adapter_type_t
pub data FwRev : Type 0 where
  rev0 rev1 other_rev : FwRev

pub data QsaAdapter : Type 0 where
  adapter_none adapter_unknown qsa qsa28 : QsaAdapter

-- `none` where the revision is another one.
abbrev rate_byte : FwRev → Bool → Option ℕ
rate_byte rev0 true = some 0xAA
rate_byte rev0 false = some 0
rate_byte rev1 true = some 0xFF
rate_byte rev1 false = some 0x55
rate_byte other_rev enable = none

-- SDI_QSFP_QSA28_OUI_VAL0 and the next two
abbrev adapter_of : List ℕ → QsaAdapter
adapter_of (b0 ∷ b1 ∷ b2 ∷ bs) = if b0 == 0 && b1 == 2 && b2 == 0xC9 then qsa28 else qsa
adapter_of _ = qsa

module _ {W : Type 0} (bits : StdBits) (clock : Clock W) (dev : QsfpDevice W) where
  open dev use {
    bus_hdl, i2c_addr, mod_type, sfp_device, delay, mod_reset_hdl, mod_reset_bitmask,
    mod_reset_delay_ms,
  }

  -- Where the read fails the call returns with the module still selected.
  unfoldable pub after_class : Result ℕ × W → Result (ℕ × Bool) × W
  unfolding sdi_qsfp_module_deselect max_power
  after_class (ok buf, w) = (ok (max_power buf), sdi_qsfp_module_deselect bits clock dev w)
  after_class (err e, w) = (err e, w)
  after_class (abort, w) = (abort, w)

  unfoldable pub own_max_power_get : Io W (ℕ × Bool)
  unfolding sdi_qsfp_module_select after_class read_byte
  own_max_power_get =
      sdi_qsfp_module_select bits clock dev
      >> (nap clock (clock.milli_to_micro delay) >> λ w.
          after_class (read_byte bits clock dev ext_identifier w))

  abbrev pub no_adapter : {A : Type 0} → ModType → Io W A → Io W A
  no_adapter media_default call = call
  no_adapter qsa_adapter call = fail (errcode enotsup)

  unfoldable pub sdi_qsfp_media_max_power_get : Io W (ℕ × Bool)
  unfolding own_max_power_get
  sdi_qsfp_media_max_power_get = no_adapter mod_type own_max_power_get

  -- `state` for the high power class.
  unfoldable pub set_power_class : Bool → Bool → Io W (Unit {0})
  unfolding read_byte write_byte power_bits
  set_power_class state feature_sup =
      if feature_sup
      then (do
        buf ← read_byte bits clock dev power_class_control
        nap clock (clock.milli_to_micro delay)
        write_byte bits clock dev power_class_control (power_bits bits state buf))
      else fail (errcode enotsup)

  unfoldable pub change_power_class : Bool → Io W (Unit {0})
  unfolding sdi_is_software_controlled_power_mode_supported set_power_class
  change_power_class state =
      sdi_is_software_controlled_power_mode_supported bits clock dev >>= set_power_class state

  unfoldable pub sdi_qsfp_media_force_power_mode_set : Bool → Io W (Unit {0})
  unfolding selected change_power_class
  sdi_qsfp_media_force_power_mode_set state =
      no_adapter mod_type (selected bits clock dev (change_power_class state))

  -- qsfp_features of sdi_media_supported_feature_t or sfp_features, for a module in an adapter.
  unfoldable pub feature_flags : Io W (Bool × Bool × Bool × Bool)
  unfolding sdi_is_tx_control_supported sdi_is_paging_supported sdi_is_rate_select_supported
      sdi_is_software_controlled_power_mode_supported
  feature_flags = do
    tx_control_support_status ← sdi_is_tx_control_supported bits clock dev
    paging_support_status ← sdi_is_paging_supported bits clock dev
    rate_select_status ← sdi_is_rate_select_supported bits clock dev
    software_controlled_power_mode_status ←
        sdi_is_software_controlled_power_mode_supported bits clock dev
    pure (
      tx_control_support_status, paging_support_status, rate_select_status,
      software_controlled_power_mode_status,
    )

  unfoldable pub own_feature_support : Io W (Bool × Bool × Bool × Bool)
  unfolding selected feature_flags
  own_feature_support = selected bits clock dev feature_flags

  unfoldable pub sdi_qsfp_feature_support_status_get :
      Io W ((Bool × Bool × Bool × Bool × Bool) ⊎ (Bool × Bool × Bool × Bool))
  unfolding own_feature_support sdi_sfp_feature_support_status_get
  sdi_qsfp_feature_support_status_get =
      on_media mod_type sfp_device
        (λ sfp. sdi_sfp_feature_support_status_get bits sfp >>= λ f. pure (inl f))
        (own_feature_support >>= λ f. pure (inr f))

  -- STD_BIT_SET and STD_BIT_CLEAR take mod_reset_bitmask for the number of the bit.
  unfoldable pub change_reset : GroupBus W → Bool → Io W (Unit {0})
  unfolding sdi_pin_group_read_level sdi_pin_group_write_level
  change_reset group reset = do
    value ← sdi_pin_group_read_level group
    sdi_pin_group_write_level group (set_bit_to bits reset value mod_reset_bitmask)
    nap clock (1000 * mod_reset_delay_ms)

  unfoldable pub reset_on : Option (GroupBus W) → Bool → Io W (Unit {0})
  unfolding change_reset with_lock
  reset_on none reset w = (abort, w)
  reset_on (some group) reset w = with_lock (pins_lock group) (change_reset group reset) w

  unfoldable pub sdi_qsfp_module_reset : Bool → Io W (Unit {0})
  unfolding reset_on
  sdi_qsfp_module_reset = reset_on mod_reset_hdl

  abbrev adapter_read : StdError ⊎ List ℕ → QsaAdapter
  adapter_read (inl e) = adapter_unknown
  adapter_read (inr buf) = adapter_of buf

  -- The codes of the first reset and of the read are overwritten; where the module cannot be selected
  -- it stays in reset.
  unfoldable pub adapter_type : ModType → Io W QsaAdapter
  unfolding sdi_qsfp_module_reset selected sdi_smbus_read_multi_byte
  adapter_type media_default = pure adapter_none
  adapter_type qsa_adapter = do
    rc ← catch (sdi_qsfp_module_reset true)
    buf ←
        selected bits clock dev (catch (sdi_smbus_read_multi_byte bus_hdl i2c_addr 64 3 flag_none))
    sdi_qsfp_module_reset false
    pure (adapter_read buf)

  unfoldable pub sdi_qsfp_qsa_adapter_type_get : Io W QsaAdapter
  unfolding adapter_type
  sdi_qsfp_qsa_adapter_type_get = adapter_type mod_type

  -- A byte that is right already is not written.
  unfoldable pub write_if_changed : ℕ → ℕ → ℕ → Rc → Io W Rc
  unfolding write_byte
  write_if_changed offset old new rc =
      if old == new
      then pure rc
      else (catch (write_byte bits clock dev offset new) >>= λ r. pure (rc_of r))

  -- The code of the second write overwrites that of the first.
  unfoldable pub write_rates : Option ℕ → ℕ → ℕ → Io W (Unit {0})
  unfolding write_if_changed
  write_rates none rx_buf tx_buf = pure tt
  write_rates (some rate) rx_buf tx_buf = do
    rc ← write_if_changed 87 rx_buf rate none
    rc ← write_if_changed 88 tx_buf rate rc
    unless_error (rc, tt)

  abbrev pub no_adapter_rate : {A : Type 0} → ModType → Io W A → Io W A
  no_adapter_rate media_default call = call
  no_adapter_rate qsa_adapter call = fail (errcode eopnotsupp)

  unfoldable pub change_rates : FwRev → Bool → Io W (Unit {0})
  unfolding read_byte write_rates
  change_rates rev cdr_enable = do
    rx_buf ← read_byte bits clock dev 87
    tx_buf ← read_byte bits clock dev 88
    write_rates (rate_byte rev cdr_enable) rx_buf tx_buf

  unfoldable pub sdi_qsfp_ext_rate_select : ℕ → FwRev → Bool → Io W (Unit {0})
  unfolding selected on_channel change_rates
  sdi_qsfp_ext_rate_select channel rev cdr_enable =
      no_adapter_rate mod_type
        (on_channel bits clock dev channel (selected bits clock dev (change_rates rev cdr_enable)))
