-- ===== src/Qsfp/Recovery.antt =====
-- src/drivers/sdi_qsfp_eeprom.c: the clock recovery of a channel, set and read back.
use opx_sdi_sys.Base.{
  ℕ, ◌+◌, ◌<◌, ◌≡◌, refl, ap, ap₂, ◌∙◌, Bool, true, false, ◌||◌, arith, ◌==◌, if◌then◌else◌, Io, ok,
  pure, catch, ◌>>=◌,
}
use opx_sdi_sys.Base.StdBits.{StdBits}
use opx_sdi_sys.I2c.Device.{Gives, Gives-then}
use opx_sdi_sys.Media.{Clock}
use opx_sdi_sys.Media.Paged.{cell-store_self, cell-store_other, Memory, cell, store}
use opx_sdi_sys.Qsfp.{
  QsfpDevice, ModType, media_default, Category, qsfp, qsfpplus, qsfp28, qsfpdd, options3, for_dd,
  selected, read_byte, write_byte, on_channel, sdi_qsfp_validate_channel,
  sdi_is_cdr_control_supported,
}
use opx_sdi_sys.Qsfp.Channel.{
  cdr_control, dd_tx_cdr_control, dd_rx_cdr_control, set_cdr, write_cdr, change_cdr, read_cdr,
  cdr_bytes, cdr_of_bytes, without_adapter, if_any_cdr, sdi_qsfp_cdr_status_set,
  sdi_qsfp_cdr_status_get,
}
use opx_sdi_sys.Qsfp.Plugged.{IsPlugged, Acts, Gives-catch, read-Acts, write-Acts, selected-Gives}

-- The bytes that `cdr_status_get` reads.
abbrev cdr_view : Category → Memory → ℕ × ℕ
cdr_view qsfpdd m = (cell m dd_tx_cdr_control, cell m dd_rx_cdr_control)
cdr_view _ m = (cell m cdr_control, cell m cdr_control)

-- The memory after the clock recovery is set where the module supports both directions.
abbrev cdr_set : StdBits → Category → ℕ → Bool → Memory → Memory
cdr_set bits qsfpdd channel enable m =
    let m1 =
      store dd_tx_cdr_control (set_cdr bits true enable (cell m dd_tx_cdr_control) channel) m in
    store dd_rx_cdr_control (set_cdr bits true enable (cell m1 dd_rx_cdr_control) channel) m1
cdr_set bits _ channel enable m =
    store cdr_control
      (set_cdr bits true enable (set_cdr bits true enable (cell m cdr_control) (channel + 4))
        channel)
      m

test-set_cdr :
    (bits : StdBits) (enable : Bool) (buf k j : ℕ)
    → bits.test (set_cdr bits true enable buf k) j ≡ (if k == j then enable else bits.test buf j)
unfolding set_cdr
test-set_cdr bits true buf k j = bits.test-set buf k j
test-set_cdr bits false buf k j = bits.test-clear buf k j

module _ {W : Type 0} (bits : StdBits) (clock : Clock W) (dev : QsfpDevice W) {view : W → Memory}
    (plugged : IsPlugged clock dev view) where
  -- One byte is read and written back with a bit changed.
  write_cdr-Acts :
      (category : Category) (channel : ℕ) (enable : Bool)
      → Acts view
          (write_cdr bits clock dev category channel enable (true, true))
          (λ m. tt)
          (cdr_set bits category channel enable)
  unfolding write_cdr
  write_cdr-Acts qsfpdd channel enable w m at =
      let v = set_cdr bits true enable (cell m dd_tx_cdr_control) channel in
      let m1 = store dd_tx_cdr_control v m in
      Gives-then (read_byte bits clock dev dd_tx_cdr_control) _
        (read-Acts bits clock dev plugged dd_tx_cdr_control w m at)
        λ w1 at1.
          Gives-then (catch (write_byte bits clock dev dd_tx_cdr_control v)) _
            (Gives-catch (write_byte bits clock dev dd_tx_cdr_control v) w1 tt m1
              (write-Acts bits clock dev plugged dd_tx_cdr_control v w1 m at1))
            λ w2 at2.
              Gives-then (read_byte bits clock dev dd_rx_cdr_control) _
                (read-Acts bits clock dev plugged dd_rx_cdr_control w2 m1 at2)
                λ w3 at3.
                  write-Acts bits clock dev plugged dd_rx_cdr_control
                    (set_cdr bits true enable (cell m1 dd_rx_cdr_control) channel) w3 m1 at3
  write_cdr-Acts qsfp channel enable w m at =
      Gives-then (read_byte bits clock dev cdr_control) _
        (read-Acts bits clock dev plugged cdr_control w m at)
        λ w1 at1. write-Acts bits clock dev plugged cdr_control _ w1 m at1
  write_cdr-Acts qsfpplus channel enable w m at =
      Gives-then (read_byte bits clock dev cdr_control) _
        (read-Acts bits clock dev plugged cdr_control w m at)
        λ w1 at1. write-Acts bits clock dev plugged cdr_control _ w1 m at1
  write_cdr-Acts qsfp28 channel enable w m at =
      Gives-then (read_byte bits clock dev cdr_control) _
        (read-Acts bits clock dev plugged cdr_control w m at)
        λ w1 at1. write-Acts bits clock dev plugged cdr_control _ w1 m at1

  read_cdr-Acts :
      (category : Category)
      → Acts view (read_cdr bits clock dev category) (cdr_view category) (λ m. m)
  unfolding read_cdr
  read_cdr-Acts qsfpdd w m at =
      Gives-then (catch (read_byte bits clock dev dd_tx_cdr_control)) _
        (Gives-catch (read_byte bits clock dev dd_tx_cdr_control) w (cell m dd_tx_cdr_control) m
          (read-Acts bits clock dev plugged dd_tx_cdr_control w m at))
        λ w1 at1.
          Gives-then (read_byte bits clock dev dd_rx_cdr_control) _
            (read-Acts bits clock dev plugged dd_rx_cdr_control w1 m at1) λ w2 at2. (w2, refl, at2)
  read_cdr-Acts qsfp w m at =
      Gives-then (read_byte bits clock dev cdr_control) _
        (read-Acts bits clock dev plugged cdr_control w m at) λ w1 at1. (w1, refl, at1)
  read_cdr-Acts qsfpplus w m at =
      Gives-then (read_byte bits clock dev cdr_control) _
        (read-Acts bits clock dev plugged cdr_control w m at) λ w1 at1. (w1, refl, at1)
  read_cdr-Acts qsfp28 w m at =
      Gives-then (read_byte bits clock dev cdr_control) _
        (read-Acts bits clock dev plugged cdr_control w m at) λ w1 at1. (w1, refl, at1)

  -- The module supports the clock recovery of both directions.
  abbrev pub SupportsCdr : Memory → Type 0
  SupportsCdr m = (bits.test (cell m options3) 7 ≡ true) × (bits.test (cell m options3) 6 ≡ true)

  support-Gives :
      (w : W) (m : Memory)
      → view w ≡ m
      → SupportsCdr m
      → Gives view (sdi_is_cdr_control_supported bits clock dev) w (true, true) m
  unfolding sdi_is_cdr_control_supported
  support-Gives w m at (tx, rx) =
      Gives-then (read_byte bits clock dev options3) _
        (read-Acts bits clock dev plugged options3 w m at)
        λ w1 at1. (w1, ap₂ (λ t r. (ok (t, r), w1)) tx rx, at1)

  SupportsCdr-store : (a v : ℕ) (m : Memory) → a < 127 → SupportsCdr m → SupportsCdr (store a v m)
  SupportsCdr-store a v m low (tx, rx) =
      let same : cell (store a v m) options3 ≡ cell m options3 =
        cell-store_other a options3 v m low (ground arith) in
      (ap (λ b. bits.test b 7) same ∙ tx, ap (λ b. bits.test b 6) same ∙ rx)

  SupportsCdr-cdr_set :
      (category : Category) (channel : ℕ) (enable : Bool) (m : Memory)
      → SupportsCdr m
      → SupportsCdr (cdr_set bits category channel enable m)
  SupportsCdr-cdr_set qsfpdd channel enable m sup =
      SupportsCdr-store dd_rx_cdr_control _ _ (omega arith)
        (SupportsCdr-store dd_tx_cdr_control _ m (omega arith) sup)
  SupportsCdr-cdr_set qsfp channel enable m sup =
      SupportsCdr-store cdr_control _ m (omega arith) sup
  SupportsCdr-cdr_set qsfpplus channel enable m sup =
      SupportsCdr-store cdr_control _ m (omega arith) sup
  SupportsCdr-cdr_set qsfp28 channel enable m sup =
      SupportsCdr-store cdr_control _ m (omega arith) sup

  both_shown :
      (channel : ℕ) (enable : Bool) (m : Memory)
      → (bits.test (cell (cdr_set bits qsfp channel enable m) cdr_control) (channel + 4)
          || bits.test (cell (cdr_set bits qsfp channel enable m) cdr_control) channel)
        ≡ enable
  both_shown channel enable m =
      let x = set_cdr bits true enable (cell m cdr_control) (channel + 4) in
      rw
        (
          cell-store_self cdr_control (set_cdr bits true enable x channel) m (omega arith),
          test-set_cdr bits enable x channel (channel + 4),
          test-set_cdr bits enable x channel channel,
          test-set_cdr bits enable (cell m cdr_control) (channel + 4) (channel + 4),
        )
        (ground arith)

  shown_after :
      (category : Category) (channel : ℕ) (enable : Bool) (m : Memory)
      → (bits.test
            (cdr_view category (cdr_set bits category channel enable m)).0
            (for_dd category channel (channel + 4))
          || bits.test (cdr_view category (cdr_set bits category channel enable m)).1 channel)
        ≡ enable
  shown_after qsfpdd channel enable m =
      let v = set_cdr bits true enable (cell m dd_tx_cdr_control) channel in
      let m1 = store dd_tx_cdr_control v m in
      let u = set_cdr bits true enable (cell m1 dd_rx_cdr_control) channel in
      rw
        (
          cell-store_other dd_rx_cdr_control dd_tx_cdr_control u m1 (omega arith) refl,
          cell-store_self dd_tx_cdr_control v m (omega arith),
          cell-store_self dd_rx_cdr_control u m1 (omega arith),
          test-set_cdr bits enable (cell m dd_tx_cdr_control) channel channel,
          test-set_cdr bits enable (cell m1 dd_rx_cdr_control) channel channel,
        )
        (ground arith)
  shown_after qsfp channel enable m = both_shown channel enable m
  shown_after qsfpplus channel enable m = both_shown channel enable m
  shown_after qsfp28 channel enable m = both_shown channel enable m

  module _ (channel : ℕ) (enable : Bool) (own : dev.mod_type ≡ media_default)
      (valid : sdi_qsfp_validate_channel channel dev.mod_category ≡ true) where
    own_call :
        {A : Type 0} (type : ModType) (call : Io W A) (w : W) (a : A) (m : Memory)
        → type ≡ media_default
        → Gives view call w a m
        → Gives view
            (without_adapter bits clock dev type (on_channel bits clock dev channel call))
            w
            a
            m
    unfolding on_channel
    own_call type call w a m own gives = rw (own, valid) gives

    set-Gives :
        (w : W)
        → SupportsCdr (view w)
        → Gives view
            (sdi_qsfp_cdr_status_set bits clock dev channel enable)
            w
            tt
            (cdr_set bits dev.mod_category channel enable (view w))
    unfolding sdi_qsfp_cdr_status_set change_cdr
    set-Gives w sup =
        own_call dev.mod_type (selected bits clock dev (change_cdr bits clock dev channel enable)) w
          tt (cdr_set bits dev.mod_category channel enable (view w)) own
          (selected-Gives bits clock dev plugged (change_cdr bits clock dev channel enable) w tt _
            λ w1 at1.
              Gives-then (sdi_is_cdr_control_supported bits clock dev)
                (λ support.
                  if_any_cdr bits clock dev support
                    (write_cdr bits clock dev dev.mod_category channel enable))
                (support-Gives w1 (view w) at1 sup)
                λ w2 at2. write_cdr-Acts dev.mod_category channel enable w2 (view w) at2)

    get-Gives :
        (w : W) (m : Memory)
        → view w ≡ m
        → SupportsCdr m
        → Gives view
            (sdi_qsfp_cdr_status_get bits clock dev channel)
            w
            (cdr_of_bytes bits clock dev channel (cdr_view dev.mod_category m))
            m
    unfolding sdi_qsfp_cdr_status_get cdr_bytes
    get-Gives w m at sup =
        own_call dev.mod_type
          (selected bits clock dev (cdr_bytes bits clock dev) >>= λ bufs.
            pure (cdr_of_bytes bits clock dev channel bufs))
          w (cdr_of_bytes bits clock dev channel (cdr_view dev.mod_category m)) m own
          (Gives-then (selected bits clock dev (cdr_bytes bits clock dev)) _
            (selected-Gives bits clock dev plugged (cdr_bytes bits clock dev) w
              (cdr_view dev.mod_category m) m
              λ w1 at1.
                Gives-then (sdi_is_cdr_control_supported bits clock dev)
                  (λ support.
                    if_any_cdr bits clock dev support
                      (λ _. read_cdr bits clock dev dev.mod_category))
                  (support-Gives w1 m (at1 ∙ at) sup)
                  λ w2 at2. read_cdr-Acts dev.mod_category w2 m at2)
            λ w3 at3. (w3, refl, at3))

    -- For a module that can be selected, is not in an adapter and supports the clock recovery of both
    -- directions, and a valid channel: setting the clock recovery of the channel succeeds, and reading
    -- its state afterwards gives what was set.
    pub cdr_status_get-cdr_status_set :
        (w : W)
        → SupportsCdr (view w)
        → ((sdi_qsfp_cdr_status_set bits clock dev channel enable w).0 ≡ ok tt)
          × ((sdi_qsfp_cdr_status_get bits clock dev channel
                (sdi_qsfp_cdr_status_set bits clock dev channel enable w).1).0
              ≡ ok enable)
    cdr_status_get-cdr_status_set w sup =
        let (w1, done, at1) = set-Gives w sup in
        let (w2, read, at2) =
          get-Gives w1 (cdr_set bits dev.mod_category channel enable (view w)) at1
            (SupportsCdr-cdr_set dev.mod_category channel enable (view w) sup) in
        (
          ap (λ r. r.0) done,
          ap (λ r. (sdi_qsfp_cdr_status_get bits clock dev channel r.1).0) done
              ∙ ap (λ r. r.0) read
              ∙ ap ok (shown_after dev.mod_category channel enable (view w)),
        )
