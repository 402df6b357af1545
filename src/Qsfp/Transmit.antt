-- ===== src/Qsfp/Transmit.antt =====
-- src/drivers/sdi_qsfp_eeprom.c: the transmitter of a channel, set and read back.
use opx_sdi_sys.Base.{
  ◌==◌, ℕ, ◌<◌, ◌≡◌, refl, ap, ◌∙◌, Bool, true, false, not, some, arith, if◌then◌else◌, Io, ok,
  pure, catch,
}
use opx_sdi_sys.Base.StdBits.{StdBits}
use opx_sdi_sys.I2c.Device.{Gives, Gives-eq, Gives-then}
use opx_sdi_sys.Media.{Clock, set_disable, add_flag, txdisable}
use opx_sdi_sys.Media.Paged.{cell-store_self, Memory, cell, store}
use opx_sdi_sys.Qsfp.{
  QsfpDevice, media_default, Category, qsfp, qsfpplus, qsfp28, qsfpdd, options4, on_channel,
  selected, read_byte, write_byte, sdi_qsfp_validate_channel, sdi_is_tx_control_supported,
}
use opx_sdi_sys.Qsfp.Channel.{
  tx_control, tx_delay, write_tx_control, own_tx_control, own_tx_control_status_get,
  own_channel_status_get, channel_bit, all_flags, change_tx_control, tx_if_supported, losses,
  sdi_qsfp_tx_control, sdi_qsfp_tx_control_status_get, sdi_qsfp_channel_status_get,
}
use opx_sdi_sys.Qsfp.Plugged.{IsPlugged, Acts, Gives-catch, read-Acts, write-Acts, selected-Gives}

-- The memory after the transmitter is set.
abbrev pub tx_set : StdBits → Category → ℕ → Bool → Memory → Memory
tx_set bits category channel enable m =
    store (tx_control category) (set_disable bits enable (cell m (tx_control category)) channel) m

tx_control_low : (category : Category) → tx_control category < 127
tx_control_low qsfp = omega arith
tx_control_low qsfpplus = omega arith
tx_control_low qsfp28 = omega arith
tx_control_low qsfpdd = omega arith

test-set_disable :
    (bits : StdBits) (enable : Bool) (buf k j : ℕ)
    → bits.test (set_disable bits enable buf k) j ≡ (if k == j then not enable else bits.test buf j)
unfolding set_disable
test-set_disable bits true buf k j = bits.test-clear buf k j
test-set_disable bits false buf k j = bits.test-set buf k j

module _ {W : Type 0} (bits : StdBits) (clock : Clock W) (dev : QsfpDevice W) {view : W → Memory}
    (plugged : IsPlugged clock dev view) where
  open dev use {mod_type, mod_category}

  write_tx_control-Acts :
      (channel : ℕ) (enable : Bool)
      → Acts view
          (write_tx_control bits clock dev channel enable)
          (λ m. tt)
          (tx_set bits mod_category channel enable)
  unfolding write_tx_control
  write_tx_control-Acts channel enable w m at =
      Gives-then (read_byte bits clock dev (tx_control mod_category)) _
        (read-Acts bits clock dev plugged (tx_control mod_category) w m at)
        λ w1 at1.
          Gives-then (catch (write_byte bits clock dev (tx_control mod_category) _)) _
            (Gives-catch (write_byte bits clock dev (tx_control mod_category) _) w1 tt _
              (write-Acts bits clock dev plugged (tx_control mod_category) _ w1 m at1))
            λ w2 at2. (
              clock.std_usleep (tx_delay enable) w2,
              refl,
              plugged.sleeps (tx_delay enable) w2 ∙ at2,
            )

  module _ (channel : ℕ) (valid : sdi_qsfp_validate_channel channel mod_category ≡ true) where
    tx_control-Gives :
        (enable : Bool) (w : W)
        → bits.test (cell (view w) options4) 4 ≡ true
        → Gives view
            (own_tx_control bits clock dev channel enable)
            w
            tt
            (tx_set bits mod_category channel enable (view w))
    unfolding own_tx_control sdi_is_tx_control_supported on_channel change_tx_control
        tx_if_supported
    tx_control-Gives enable w supported = rw valid (
        selected-Gives bits clock dev plugged (change_tx_control bits clock dev channel enable) w tt
          (tx_set bits mod_category channel enable (view w))
          λ w1 at1.
            Gives-then (sdi_is_tx_control_supported bits clock dev)
              (tx_if_supported bits clock dev channel enable)
              (Gives-then (read_byte bits clock dev options4) (λ buf. pure (bits.test buf 4))
                (read-Acts bits clock dev plugged options4 w1 (view w) at1)
                λ w2 at2. (w2, ap (λ b. (ok b, w2)) supported, at2))
              λ w2 at2. write_tx_control-Acts channel enable w2 (view w) at2)

    tx_status-Gives :
        (w : W) (m : Memory)
        → view w ≡ m
        → Gives view
            (own_tx_control_status_get bits clock dev channel)
            w
            (some (not (bits.test (cell m (tx_control mod_category)) channel)))
            m
    unfolding own_tx_control_status_get on_channel
    tx_status-Gives w m at = rw valid (
        Gives-then (selected bits clock dev (read_byte bits clock dev (tx_control mod_category))) _
          (selected-Gives bits clock dev plugged _ w (cell m (tx_control mod_category)) m
            λ w1 at1. read-Acts bits clock dev plugged (tx_control mod_category) w1 m (at1 ∙ at))
          λ w2 at2. (w2, refl, at2))

    rest :
        (category : Category) (status : ℕ) (w : W)
        → losses bits clock dev category channel txdisable status w ≡ (ok status, w)
    unfolding losses
    rest qsfp status w = refl
    rest qsfpplus status w = refl
    rest qsfp28 status w = refl
    rest qsfpdd status w = refl

    -- `*status` of a call that asks for the transmitter only.
    tx_disable-Gives :
        (w : W) (m : Memory)
        → view w ≡ m
        → Gives view
            (own_channel_status_get bits clock dev channel txdisable 0)
            w
            (add_flag (bits.test (cell m (tx_control mod_category)) channel) txdisable 0)
            m
    unfolding own_channel_status_get on_channel channel_bit all_flags
    tx_disable-Gives w m at = rw valid (
        selected-Gives bits clock dev plugged (all_flags bits clock dev channel txdisable 0) w _ m
          λ w1 at1.
            let (w2, got, at2) =
              read-Acts bits clock dev plugged (tx_control mod_category) w1 m (at1 ∙ at) in
            (w2, rw got (rest mod_category _ w2), at2))

not-not : (b : Bool) → not (not b) ≡ b
not-not true = refl
not-not false = refl

disable_flag : (enable : Bool) → add_flag (not enable) txdisable 0 ≡ (if enable then 0 else 1)
disable_flag true = refl
disable_flag false = refl

module _ {W : Type 0} (bits : StdBits) (clock : Clock W) (dev : QsfpDevice W) where
  -- On a plugged QSFP module that is in no adapter and supports the control, for a channel that the
  -- category has: sdi_qsfp_tx_control succeeds and changes only the control byte, where the bit of the
  -- channel becomes the opposite of what was asked and every other bit is kept; sdi_qsfp_tx_control_status_get then gives what was set, and sdi_qsfp_channel_status_get with
  -- the flag SDI_MEDIA_STATUS_TXDISABLE and a cleared status gives the flag exactly when the
  -- transmitter was disabled. Neither changes the memory of the module.
  pub status_get-tx_control :
      (view : W → Memory) (serdes_control : Bool → Io W (Unit {0})) (channel j : ℕ) (enable : Bool)
      (w : W)
      → IsPlugged clock dev view
      → dev.mod_type ≡ media_default
      → sdi_qsfp_validate_channel channel dev.mod_category ≡ true
      → bits.test (cell (view w) options4) 4 ≡ true
      → (w' : W) × (sdi_qsfp_tx_control bits clock dev serdes_control channel enable w
          ≡ (ok tt, w'))
        × (view w' ≡ tx_set bits dev.mod_category channel enable (view w))
        × (bits.test (cell (view w') (tx_control dev.mod_category)) j ≡ (
            if channel == j
            then not enable
            else bits.test (cell (view w) (tx_control dev.mod_category)) j))
        × Gives view
            (sdi_qsfp_tx_control_status_get bits clock dev channel)
            w'
            (some enable)
            (view w')
        × Gives view
            (sdi_qsfp_channel_status_get bits clock dev channel txdisable 0)
            w'
            (if enable then 0 else 1)
            (view w')
  unfolding sdi_qsfp_tx_control sdi_qsfp_tx_control_status_get sdi_qsfp_channel_status_get
  status_get-tx_control view serdes_control channel j enable w plugged own valid supported =
      let (w', done, after) =
        tx_control-Gives bits clock dev plugged channel valid enable w supported in
      let bit_at : (k : ℕ)
          → bits.test (cell (view w') (tx_control dev.mod_category)) k ≡ (
              if channel == k
              then not enable
              else bits.test (cell (view w) (tx_control dev.mod_category)) k) =
        λ k.
          ap (λ m. bits.test (cell m (tx_control dev.mod_category)) k) after
          ∙ ap (λ b. bits.test b k)
              (cell-store_self (tx_control dev.mod_category) _ (view w)
                (tx_control_low dev.mod_category))
          ∙ test-set_disable bits enable _ channel k in
      let byte : bits.test (cell (view w') (tx_control dev.mod_category)) channel ≡ not enable =
        bit_at channel ∙ ground arith in
      (
        w',
        rw own done,
        after,
        bit_at j,
        rw own (
            Gives-eq w' (own_tx_control_status_get bits clock dev channel) refl
              (ap (λ b. some (not b)) byte ∙ ap some (not-not enable)) refl
              (tx_status-Gives bits clock dev plugged channel valid w' (view w') refl)),
        rw own (
            Gives-eq w' (own_channel_status_get bits clock dev channel txdisable 0) refl
              (ap (λ b. add_flag b txdisable 0) byte ∙ disable_flag enable) refl
              (tx_disable-Gives bits clock dev plugged channel valid w' (view w') refl)),
      )
