-- ===== src/Qsfp/Monitor.antt =====
-- src/drivers/sdi_qsfp_eeprom.c: the alarms and warnings of a QSFP module and of its channels.
use opx_sdi_sys.Base.{ℕ, Bool, ◌||◌, ◌==◌, if◌then◌else◌, Io, pure, ◌>>=◌}
use opx_sdi_sys.Base.StdBits.{StdBits}
use opx_sdi_sys.Media.{Clock, any_bit, first_flag}
use opx_sdi_sys.Sfp.Monitor.{sdi_sfp_module_monitor_status_get, sdi_sfp_channel_monitor_status_get}
use opx_sdi_sys.Qsfp.{QsfpDevice, Category, for_dd, on_media, on_channel, selected, read_byte}

-- The interrupt bytes, for QSFP-DD and else.
abbrev pub temp_interrupt : Category → ℕ
temp_interrupt category = for_dd category 8 6

abbrev pub volt_interrupt : Category → ℕ
volt_interrupt category = for_dd category 9 7

abbrev pub is_first_pair : ℕ → Bool
is_first_pair channel = channel == 0 || channel == 1

abbrev pub rx_power_interrupt : ℕ → ℕ
rx_power_interrupt channel = if is_first_pair channel then 9 else 10

abbrev pub tx_bias_interrupt : ℕ → ℕ
tx_bias_interrupt channel = if is_first_pair channel then 11 else 12

-- The four flags of an interrupt byte, the masks of high alarm, low alarm, high warning and low
-- warning, and the first of the four status bits.
unfoldable pub four_flags : ℕ → ℕ × ℕ × ℕ × ℕ → ℕ × ℕ × ℕ × ℕ → ℕ → ℕ
four_flags buf (ha, la, hw, lw) (f0, f1, f2, f3) status =
    first_flag (any_bit buf hw) f2 (any_bit buf lw) f3
      (first_flag (any_bit buf ha) f0 (any_bit buf la) f1 status)

-- The masks of QSFP_TEMP_HIGH_ALARM_FLAG and the next three, and of both channels of a pair.
abbrev pub module_masks : ℕ × ℕ × ℕ × ℕ
module_masks = (0x80, 0x40, 0x20, 0x10)

abbrev pub pair_masks : ℕ × ℕ × ℕ × ℕ
pair_masks = (0x88, 0x44, 0x22, 0x11)

-- SDI_MEDIA_STATUS_TEMP_HIGH_ALARM and on, which are also those of the power; and the four above
-- them, of the voltage and of the bias.
abbrev pub low_flags : ℕ × ℕ × ℕ × ℕ
low_flags = (1, 2, 4, 8)

abbrev pub high_flags : ℕ × ℕ × ℕ × ℕ
high_flags = (16, 32, 64, 128)

module _ {W : Type 0} (bits : StdBits) (clock : Clock W) (dev : QsfpDevice W) where
  open dev use {mod_type, sfp_device, mod_category}

  -- The byte is read if one of its flags is asked for; else it is 0.
  unfoldable pub read_if : ℕ → ℕ → ℕ → Io W ℕ
  unfolding read_byte
  read_if flags mask offset = if any_bit flags mask then read_byte bits clock dev offset else pure 0

  unfoldable pub read_monitors : ℕ → ℕ → ℕ → Io W (ℕ × ℕ)
  unfolding read_if
  read_monitors flags low high = do
    low_buf ← read_if flags 15 low
    high_buf ← read_if flags 240 high
    pure (low_buf, high_buf)

  unfoldable pub own_module_monitor_status_get : ℕ → ℕ → Io W ℕ
  unfolding selected read_monitors four_flags
  own_module_monitor_status_get flags status = do
    bufs ←
        selected bits clock dev
          (read_monitors flags (temp_interrupt mod_category) (volt_interrupt mod_category))
    pure (
        four_flags bufs.1 module_masks high_flags (four_flags bufs.0 module_masks low_flags status))

  -- `status` is what `*status` holds before the call.
  unfoldable pub sdi_qsfp_module_monitor_status_get : ℕ → ℕ → Io W ℕ
  unfolding own_module_monitor_status_get sdi_sfp_module_monitor_status_get
  sdi_qsfp_module_monitor_status_get flags status =
      on_media mod_type sfp_device (λ sfp. sdi_sfp_module_monitor_status_get bits sfp flags)
        (own_module_monitor_status_get flags status)

  unfoldable pub own_channel_monitor_status_get : ℕ → ℕ → ℕ → Io W ℕ
  unfolding selected read_monitors four_flags on_channel
  own_channel_monitor_status_get channel flags status = on_channel bits clock dev channel do
    bufs ←
        selected bits clock dev
          (read_monitors flags (rx_power_interrupt channel) (tx_bias_interrupt channel))
    pure (four_flags bufs.1 pair_masks high_flags (four_flags bufs.0 pair_masks low_flags status))

  unfoldable pub sdi_qsfp_channel_monitor_status_get : ℕ → ℕ → ℕ → Io W ℕ
  unfolding own_channel_monitor_status_get sdi_sfp_channel_monitor_status_get
  sdi_qsfp_channel_monitor_status_get channel flags status =
      on_media mod_type sfp_device
        (λ sfp. sdi_sfp_channel_monitor_status_get bits sfp channel flags)
        (own_channel_monitor_status_get channel flags status)
