-- ===== src/Sfp/Monitor.antt =====
-- src/drivers/sdi_sfp_eeprom.c: the alarms and warnings of an SFP module and of its channel.
use opx_sdi_sys.Base.{ℕ, ◌==◌, if◌then◌else◌, Io, pure, fail, errcode, einval, eopnotsupp, ◌>>=◌}
use opx_sdi_sys.Base.StdBits.{StdBits}
use opx_sdi_sys.I2c.{flag_none, sdi_smbus_read_byte}
use opx_sdi_sys.Media.{any_bit, first_flag}
use opx_sdi_sys.Sfp.{SfpDevice, sfp_i2c_addr, no_channel, selected, sdi_is_alarm_flags_supported}

-- SFP_ALARM_STATUS_1_OFFSET and the other three
abbrev pub alarm_status_1 : ℕ
alarm_status_1 = 112

abbrev pub alarm_status_2 : ℕ
alarm_status_2 = 113

abbrev pub warning_status_1 : ℕ
warning_status_1 = 116

abbrev pub warning_status_2 : ℕ
warning_status_2 = 117

-- The flags of one half of a byte: the masks of high and low, and their status bits.
abbrev pub pair_flags : ℕ → ℕ → ℕ → ℕ → ℕ → ℕ → ℕ
pair_flags buf high low f g status = first_flag (any_bit buf high) f (any_bit buf low) g status

unfoldable pub module_flags : ℕ × ℕ → ℕ
module_flags (alarm, warning) = pair_flags warning 0x20 0x10 64 128 (
    pair_flags warning 0x80 0x40 4 8
      (pair_flags alarm 0x20 0x10 16 32 (pair_flags alarm 0x80 0x40 1 2 0)))

-- The low flag of the received power is taken from the byte of the transmitter.
abbrev pub rx_flags : ℕ → ℕ → ℕ → ℕ → ℕ → ℕ
rx_flags rx tx f g status = first_flag (any_bit rx 0x80) f (any_bit tx 0x40) g status

unfoldable pub channel_flags : ℕ × ℕ × ℕ × ℕ → ℕ
channel_flags (tx_alarm, rx_alarm, tx_warn, rx_warn) = rx_flags rx_warn tx_warn 4 8 (
    pair_flags tx_warn 0x02 0x01 1024 2048 (
      pair_flags tx_warn 0x08 0x04 64 128 (
        rx_flags rx_alarm tx_alarm 1 2
          (pair_flags tx_alarm 0x02 0x01 256 512 (pair_flags tx_alarm 0x08 0x04 16 32 0)))))

module _ {W : Type 0} (bits : StdBits) (dev : SfpDevice W) where
  open dev use {bus_hdl}

  -- The byte is read if one of its flags is asked for; else it is 0.
  unfoldable pub read_if : ℕ → ℕ → ℕ → Io W ℕ
  unfolding sdi_smbus_read_byte
  read_if flags mask offset =
      if any_bit flags mask
      then sdi_smbus_read_byte bus_hdl sfp_i2c_addr offset flag_none
      else pure 0

  unfoldable pub if_alarms : {A : Type 0} → Io W A → Io W A
  unfolding sdi_is_alarm_flags_supported
  if_alarms call = sdi_is_alarm_flags_supported bits dev >>= λ supported.
      if supported then call else fail (errcode eopnotsupp)

  unfoldable pub sdi_sfp_module_monitor_status_get : ℕ → Io W ℕ
  unfolding selected if_alarms read_if module_flags
  sdi_sfp_module_monitor_status_get flags = do
    bufs ← selected bits dev (
        if_alarms {A = ℕ × ℕ} do
          alarm ← read_if flags 0x33 alarm_status_1
          warning ← read_if flags 0xCC warning_status_1
          pure (alarm, warning))
    pure (module_flags bufs)

  unfoldable pub read_channel : ℕ → Io W (ℕ × ℕ × ℕ × ℕ)
  unfolding read_if
  read_channel flags = do
    tx_alarm ← read_if flags 0x330 alarm_status_1
    rx_alarm ← read_if flags 0x3 alarm_status_2
    tx_warn ← read_if flags 0xCC0 warning_status_1
    rx_warn ← read_if flags 0xC warning_status_2
    pure (tx_alarm, rx_alarm, tx_warn, rx_warn)

  unfoldable pub sdi_sfp_channel_monitor_status_get : ℕ → ℕ → Io W ℕ
  unfolding selected if_alarms read_channel channel_flags
  sdi_sfp_channel_monitor_status_get channel flags =
      if channel == no_channel
      then (do bufs ← selected bits dev (if_alarms (read_channel flags)); pure (channel_flags bufs))
      else fail (errcode einval)
