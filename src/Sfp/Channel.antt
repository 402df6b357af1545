-- ===== src/Sfp/Channel.antt =====
-- src/drivers/sdi_sfp_eeprom.c: the transmitter of an SFP module and the status of its channel.
use opx_sdi_sys.Base.{
  ℕ, Bool, true, false, not, Option, none, some, ◌==◌, if◌then◌else◌, bit_and, Io, Rc, pure, fail,
  catch, unless_error, ◌>>=◌, ◌>>◌, errcode, einval, eopnotsupp,
}
use opx_sdi_sys.Base.StdBits.{StdBits}
use opx_sdi_sys.Bus.Mutex.{with_lock}
use opx_sdi_sys.Bus.Group.{GroupBus, sdi_pin_group_read_level, sdi_pin_group_write_level}
use opx_sdi_sys.I2c.{flag_none, sdi_smbus_read_byte, sdi_smbus_write_byte}
use opx_sdi_sys.Media.{add_flag, txdisable, txfault, txloss, rxloss, set_disable}
use opx_sdi_sys.Sfp.{
  SfpDevice, pins_lock, selected, sdi_is_sfp_plus_aq_ext_mod_ctrl_sup, sfp_i2c_addr, no_channel,
  enhanced_options, optional_status_control,
}

-- `serdes_control` is sdi_cusfp_plus_phy_serdes_control of the device.
module _ {W : Type 0} (bits : StdBits) (dev : SfpDevice W) where
  open dev use {
    bus_hdl, i2c_addr, mod_tx_control_hdl, mod_tx_control_bitmask, mod_sfp_rx_los_hdl,
    mod_sfp_rx_los_bitmask, mod_sfp_tx_fault_hdl, mod_sfp_tx_fault_bitmask,
  }

  -- The reads of sdi_sfp_tx_control_status_get and of the others: buf_sup and buf_data, which is 0
  -- where buf_sup is 0 and is not read.
  pub read_optional : Io W (ℕ × ℕ)
  unfolding sdi_smbus_read_byte
  read_optional = do
    buf_sup ← sdi_smbus_read_byte bus_hdl i2c_addr enhanced_options flag_none
    if buf_sup == 0 then pure (buf_sup, 0) else (do
      buf_data ← sdi_smbus_read_byte bus_hdl sfp_i2c_addr optional_status_control flag_none
      pure (buf_sup, buf_data))

  -- A write of the soft control bit.
  pub write_soft_disable : Bool → ℕ × ℕ → Io W (Unit {0})
  unfolding sdi_smbus_write_byte set_disable
  write_soft_disable enable (buf_sup, buf_data) =
      if buf_sup == 0
      then pure tt
      else if bits.test buf_sup 6
      then sdi_smbus_write_byte bus_hdl sfp_i2c_addr optional_status_control
          (set_disable bits enable buf_data 6) flag_none
      else fail (errcode eopnotsupp)

  -- The code of sdi_cusfp_plus_phy_serdes_control is overwritten.
  pub control_serdes : (Bool → Io W (Unit {0})) → Bool → Io W (Unit {0})
  unfolding sdi_is_sfp_plus_aq_ext_mod_ctrl_sup
  control_serdes serdes_control enable = do
    supported ← sdi_is_sfp_plus_aq_ext_mod_ctrl_sup bits dev
    if supported then (catch (serdes_control enable) >>= λ rc. pure tt) else pure tt

  pub change_pins : GroupBus W → Bool → Io W (Unit {0})
  unfolding sdi_pin_group_read_level sdi_pin_group_write_level set_disable
  change_pins group enable = do
    value ← sdi_pin_group_read_level group
    sdi_pin_group_write_level group (set_disable bits enable value mod_tx_control_bitmask)

  pub tx_control_on : (Bool → Io W (Unit {0})) → Option (GroupBus W) → Bool → Io W (Unit {0})
  unfolding selected control_serdes read_optional write_soft_disable change_pins with_lock
  tx_control_on serdes_control none enable =
      selected bits dev
        (control_serdes serdes_control enable >> (read_optional >>= write_soft_disable enable))
  tx_control_on serdes_control (some group) enable =
      with_lock (pins_lock group) (change_pins group enable)

  unfoldable pub sdi_sfp_tx_control : (Bool → Io W (Unit {0})) → ℕ → Bool → Io W (Unit {0})
  unfolding tx_control_on
  sdi_sfp_tx_control serdes_control channel enable =
      if channel == no_channel
      then tx_control_on serdes_control mod_tx_control_hdl enable
      else fail (errcode einval)

  -- `none` where `*status` is left as it was.
  pub soft_status : ℕ × ℕ → Io W (Option Bool)
  soft_status (buf_sup, buf_data) =
      if buf_sup == 0
      then pure none
      else if bits.test buf_sup 6
      then pure (some (not (bits.test buf_data 6)))
      else fail (errcode eopnotsupp)

  pub tx_status_on : Option (GroupBus W) → Io W (Option Bool)
  unfolding selected read_optional soft_status sdi_pin_group_read_level with_lock
  tx_status_on none = selected bits dev (read_optional >>= soft_status)
  tx_status_on (some group) = do
    value ← with_lock (pins_lock group) (sdi_pin_group_read_level group)
    pure (some (not (bits.test value mod_tx_control_bitmask)))

  unfoldable pub sdi_sfp_tx_control_status_get : ℕ → Io W (Option Bool)
  unfolding tx_status_on
  sdi_sfp_tx_control_status_get channel =
      if channel == no_channel then tx_status_on mod_tx_control_hdl else fail (errcode einval)

  -- One of the flags: from a pin where the device has one, else from the bytes that were read. A later
  -- pin overwrites the code of an earlier flag.
  channel_flag : Option (GroupBus W) → ℕ → ℕ → ℕ → ℕ → ℕ × ℕ → Rc × ℕ → Io W (Rc × ℕ)
  unfolding sdi_pin_group_read_level with_lock
  channel_flag none bitmask flag sup_bit data_bit (buf_sup, buf_data) (rc, status) =
      if bits.test buf_sup sup_bit
      then pure (rc, add_flag (bits.test buf_data data_bit) flag status)
      else pure (some (errcode eopnotsupp), status)
  channel_flag (some group) bitmask flag sup_bit data_bit bufs (rc, status) = do
    value ← with_lock (pins_lock group) (sdi_pin_group_read_level group)
    pure (none, add_flag (bits.test value bitmask) flag status)

  abbrev wanted_flag : ℕ → ℕ → (Rc × ℕ → Io W (Rc × ℕ)) → Rc × ℕ → Io W (Rc × ℕ)
  wanted_flag flags flag step state = if bit_and flags flag == 0 then pure state else step state

  abbrev all_pins : Option (GroupBus W) → Option (GroupBus W) → Option (GroupBus W) → Bool
  all_pins (some a) (some b) (some c) = true
  all_pins _ _ _ = false

  unfoldable pub sdi_sfp_channel_status_get : ℕ → ℕ → Io W ℕ
  unfolding selected read_optional channel_flag
  sdi_sfp_channel_status_get channel flags =
      if channel == no_channel
      then (do
        bufs ←
            if all_pins mod_tx_control_hdl mod_sfp_rx_los_hdl mod_sfp_tx_fault_hdl
            then pure (0, 0)
            else selected bits dev read_optional
        s1 ←
            wanted_flag flags txdisable
              (channel_flag mod_tx_control_hdl mod_tx_control_bitmask txdisable 6 7 bufs) (none, 0)
        s2 ←
            wanted_flag flags txfault
              (channel_flag mod_sfp_tx_fault_hdl mod_sfp_tx_fault_bitmask txfault 5 2 bufs) s1
        s3 ←
            wanted_flag flags rxloss
              (channel_flag mod_sfp_rx_los_hdl mod_sfp_rx_los_bitmask rxloss 4 1 bufs) s2
        if bit_and flags txloss == 0 then unless_error s3 else fail (errcode eopnotsupp))
      else fail (errcode einval)
