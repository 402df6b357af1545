-- ===== src/Qsfp/Channel.antt =====
-- src/drivers/sdi_qsfp_eeprom.c: the operations on a channel of a QSFP module.
use opx_sdi_sys.Base.{
  ℕ, ◌+◌, ◌*◌, ◌^◌, Bool, true, false, not, ◌||◌, ◌==◌, if◌then◌else◌, bit_and, bit_or, Option,
  some, Io, rc_of, pure, fail, catch, value_or, unless_error, ◌>>=◌, ◌>>◌, errcode, eopnotsupp,
}
use opx_sdi_sys.Base.StdBits.{StdBits}
use opx_sdi_sys.Media.{Clock, nap, set_disable, add_flag, txdisable, txfault, txloss, rxloss}
use opx_sdi_sys.Sfp.Channel.{
  sdi_sfp_tx_control, sdi_sfp_tx_control_status_get, sdi_sfp_channel_status_get,
}
use opx_sdi_sys.Qsfp.{
  QsfpDevice, Category, qsfpdd, ModType, media_default, qsa_adapter, for_dd, on_media, on_channel,
  selected, read_byte, write_byte, sdi_is_tx_control_supported, sdi_is_cdr_control_supported,
}

-- QSFP_TX_CONTROL_OFFSET and the others, for QSFP-DD and else.
abbrev pub tx_control : Category → ℕ
tx_control category = for_dd category 84 86

abbrev tx_fault : Category → ℕ
tx_fault category = for_dd category 7 4

abbrev pub cdr_control : ℕ
cdr_control = 98

abbrev pub dd_tx_cdr_control : ℕ
dd_tx_cdr_control = 90

abbrev pub dd_rx_cdr_control : ℕ
dd_rx_cdr_control = 91

-- QSFP_TX_ENABLE_DELAY and QSFP_TX_DISABLE_DELAY
abbrev pub tx_delay : Bool → ℕ
tx_delay true = 400 * 1000
tx_delay false = 100 * 1000

-- A bit that the module supports is set to enable and cleared to disable.
unfoldable pub set_cdr : StdBits → Bool → Bool → ℕ → ℕ → ℕ
set_cdr bits true true buf k = bits.set buf k
set_cdr bits true false buf k = bits.clear buf k
set_cdr bits false enable buf k = buf

module _ {W : Type 0} (bits : StdBits) (clock : Clock W) (dev : QsfpDevice W) where
  open dev use {mod_type, sfp_device, mod_category}

  -- After a failed write the driver waits too.
  unfoldable pub write_tx_control : ℕ → Bool → Io W (Unit {0})
  unfolding read_byte write_byte set_disable
  write_tx_control channel enable = do
    buf ← read_byte bits clock dev (tx_control mod_category)
    rc ←
        catch (
          write_byte bits clock dev (tx_control mod_category) (set_disable bits enable buf channel))
    nap clock (tx_delay enable)
    unless_error (rc_of rc, tt)

  unfoldable pub tx_if_supported : ℕ → Bool → Bool → Io W (Unit {0})
  unfolding write_tx_control
  tx_if_supported channel enable support_status =
      if support_status then write_tx_control channel enable else fail (errcode eopnotsupp)

  unfoldable pub change_tx_control : ℕ → Bool → Io W (Unit {0})
  unfolding sdi_is_tx_control_supported tx_if_supported
  change_tx_control channel enable =
      sdi_is_tx_control_supported bits clock dev >>= tx_if_supported channel enable

  unfoldable pub own_tx_control : ℕ → Bool → Io W (Unit {0})
  unfolding selected change_tx_control on_channel
  own_tx_control channel enable =
      on_channel bits clock dev channel (selected bits clock dev (change_tx_control channel enable))

  unfoldable pub sdi_qsfp_tx_control : (Bool → Io W (Unit {0})) → ℕ → Bool → Io W (Unit {0})
  unfolding own_tx_control sdi_sfp_tx_control
  sdi_qsfp_tx_control serdes_control channel enable =
      on_media mod_type sfp_device
        (λ sfp. sdi_sfp_tx_control bits sfp serdes_control channel enable)
        (own_tx_control channel enable)

  unfoldable pub own_tx_control_status_get : ℕ → Io W (Option Bool)
  unfolding selected read_byte on_channel
  own_tx_control_status_get channel = on_channel bits clock dev channel do
    buf ← selected bits clock dev (read_byte bits clock dev (tx_control mod_category))
    pure (some (not (bits.test buf channel)))

  -- `none` where `*status` is left as it was.
  unfoldable pub sdi_qsfp_tx_control_status_get : ℕ → Io W (Option Bool)
  unfolding own_tx_control_status_get sdi_sfp_tx_control_status_get
  sdi_qsfp_tx_control_status_get channel =
      on_media mod_type sfp_device (λ sfp. sdi_sfp_tx_control_status_get bits sfp channel)
        (own_tx_control_status_get channel)

  -- A flag that the caller asks for is or-ed into `*status`, which keeps what it holds.
  abbrev pub wanted : ℕ → ℕ → (ℕ → Io W ℕ) → ℕ → Io W ℕ
  wanted flags flag step status = if bit_and flags flag == 0 then pure status else step status

  unfoldable pub channel_bit : ℕ → ℕ → ℕ → ℕ → Io W ℕ
  unfolding read_byte
  channel_bit offset channel flag status = do
    buf ← read_byte bits clock dev offset
    pure (add_flag (bits.test buf channel) flag status)

  -- `buf & (mask << channel)`
  abbrev loss_flag : ℕ → ℕ → ℕ → Bool
  loss_flag buf mask channel = not (bit_and buf (mask * 2 ^ channel) == 0)

  unfoldable pub dd_loss : ℕ → ℕ → ℕ → ℕ → Io W ℕ
  unfolding read_byte
  dd_loss offset channel flag status = do
    buf ← read_byte bits clock dev offset
    pure (add_flag (loss_flag buf 1 channel) flag status)

  -- Both losses of the byte are reported, whichever the caller asks for.
  unfoldable pub both_losses : ℕ → ℕ → Io W ℕ
  unfolding read_byte
  both_losses channel status = do
    buf ← read_byte bits clock dev 3
    pure (
        add_flag (loss_flag buf 1 channel) rxloss
          (add_flag (loss_flag buf 16 channel) txloss status))

  unfoldable pub losses : Category → ℕ → ℕ → ℕ → Io W ℕ
  unfolding dd_loss both_losses
  losses qsfpdd channel flags status =
      wanted flags txloss (dd_loss 3 channel txloss) status
      >>= wanted flags rxloss (dd_loss 4 channel rxloss)
  losses _ channel flags status = wanted flags (bit_or txloss rxloss) (both_losses channel) status

  unfoldable pub all_flags : ℕ → ℕ → ℕ → Io W ℕ
  unfolding channel_bit losses
  all_flags channel flags status =
      wanted flags txdisable (channel_bit (tx_control mod_category) channel txdisable) status
      >>= wanted flags txfault (channel_bit (tx_fault mod_category) channel txfault)
      >>= losses mod_category channel flags

  unfoldable pub own_channel_status_get : ℕ → ℕ → ℕ → Io W ℕ
  unfolding selected all_flags on_channel
  own_channel_status_get channel flags status =
      on_channel bits clock dev channel (selected bits clock dev (all_flags channel flags status))

  -- `status` is what `*status` holds before the call.
  unfoldable pub sdi_qsfp_channel_status_get : ℕ → ℕ → ℕ → Io W ℕ
  unfolding own_channel_status_get sdi_sfp_channel_status_get
  sdi_qsfp_channel_status_get channel flags status =
      on_media mod_type sfp_device (λ sfp. sdi_sfp_channel_status_get bits sfp channel flags)
        (own_channel_status_get channel flags status)

  -- In QSFP-DD the code of the write for the transmitter is overwritten.
  unfoldable pub write_cdr : Category → ℕ → Bool → Bool × Bool → Io W (Unit {0})
  unfolding read_byte write_byte set_cdr
  write_cdr qsfpdd channel enable (tx, rx) = do
    buf ← read_byte bits clock dev dd_tx_cdr_control
    rc ← catch (write_byte bits clock dev dd_tx_cdr_control (set_cdr bits tx enable buf channel))
    buf ← read_byte bits clock dev dd_rx_cdr_control
    write_byte bits clock dev dd_rx_cdr_control (set_cdr bits rx enable buf channel)
  write_cdr _ channel enable (tx, rx) = do
    buf ← read_byte bits clock dev cdr_control
    write_byte bits clock dev cdr_control
        (set_cdr bits rx enable (set_cdr bits tx enable buf (channel + 4)) channel)

  abbrev pub if_any_cdr : {A : Type 0} → Bool × Bool → (Bool × Bool → Io W A) → Io W A
  if_any_cdr (tx, rx) k = if tx || rx then k (tx, rx) else fail (errcode eopnotsupp)

  abbrev pub without_adapter : {A : Type 0} → ModType → Io W A → Io W A
  without_adapter media_default call = call
  without_adapter qsa_adapter call = fail (errcode eopnotsupp)

  unfoldable pub change_cdr : ℕ → Bool → Io W (Unit {0})
  unfolding sdi_is_cdr_control_supported write_cdr
  change_cdr channel enable = sdi_is_cdr_control_supported bits clock dev >>= λ support.
      if_any_cdr support (write_cdr mod_category channel enable)

  unfoldable pub sdi_qsfp_cdr_status_set : ℕ → Bool → Io W (Unit {0})
  unfolding selected change_cdr on_channel
  sdi_qsfp_cdr_status_set channel enable =
      without_adapter mod_type
        (on_channel bits clock dev channel (selected bits clock dev (change_cdr channel enable)))

  -- In QSFP-DD the code of the first read is overwritten; `buf` is then 0.
  unfoldable pub read_cdr : Category → Io W (ℕ × ℕ)
  unfolding read_byte
  read_cdr qsfpdd = do
    buf ← catch (read_byte bits clock dev dd_tx_cdr_control)
    buf1 ← read_byte bits clock dev dd_rx_cdr_control
    pure (value_or 0 buf, buf1)
  read_cdr _ = do buf ← read_byte bits clock dev cdr_control; pure (buf, buf)

  unfoldable pub cdr_bytes : Io W (ℕ × ℕ)
  unfolding sdi_is_cdr_control_supported read_cdr
  cdr_bytes = sdi_is_cdr_control_supported bits clock dev >>= λ support.
      if_any_cdr support (λ _. read_cdr mod_category)

  abbrev pub cdr_of_bytes : ℕ → ℕ × ℕ → Bool
  cdr_of_bytes channel (buf, buf1) =
      bits.test buf (for_dd mod_category channel (channel + 4)) || bits.test buf1 channel

  unfoldable pub sdi_qsfp_cdr_status_get : ℕ → Io W Bool
  unfolding selected cdr_bytes on_channel
  sdi_qsfp_cdr_status_get channel = without_adapter mod_type (
      on_channel bits clock dev channel
        (selected bits clock dev cdr_bytes >>= λ bufs. pure (cdr_of_bytes channel bufs)))
