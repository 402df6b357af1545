-- ===== src/Qsfp/Locks.antt =====
-- src/drivers/sdi_qsfp_eeprom.c: the locks of the pin groups that select a QSFP module.
use opx_sdi_sys.Base.{
  ℕ, ◌≡◌, ap, ◌∙◌, Bool, true, false, not, inl, inr, List, Io, pure, fail, param, errcode, einval,
  Option, none, some, std_assert, value_or, ltb, length, catch, ◌>>=◌,
}
use opx_sdi_sys.Base.StdBits.{StdBits}
use opx_sdi_sys.Bus.Mutex.{released}
use opx_sdi_sys.Media.{Clock, EepromAddr, IntArgument, minus_one, below, number, i2c_address}
use opx_sdi_sys.Media.Selection.{IsSelectionLock, released-selection}
use opx_sdi_sys.EntityReset.Keeps.{Keeps, both_branches}
use opx_sdi_sys.I2c.{flag_none, sdi_smbus_read_multi_byte, sdi_smbus_write_multi_byte}
use opx_sdi_sys.Sfp.{
  sdi_sfp_read_generic, sdi_sfp_write_generic, SfpDevice, sdi_sfp_feature_support_status_get,
}
use opx_sdi_sys.Sfp.Channel.{
  sdi_sfp_tx_control, sdi_sfp_tx_control_status_get, sdi_sfp_channel_status_get,
}
use opx_sdi_sys.Sfp.Monitor.{sdi_sfp_module_monitor_status_get, sdi_sfp_channel_monitor_status_get}
use opx_sdi_sys.Qsfp.{
  ModType, on_media, QsfpDevice, media_default, read_byte, selected, on_channel,
  sdi_qsfp_validate_channel, sdi_is_paging_supported,
}
use opx_sdi_sys.Qsfp.Channel.{
  change_tx_control, tx_control, all_flags, change_cdr, cdr_bytes, cdr_of_bytes, own_tx_control,
  own_tx_control_status_get, own_channel_status_get, sdi_qsfp_tx_control,
  sdi_qsfp_tx_control_status_get, sdi_qsfp_channel_status_get, sdi_qsfp_cdr_status_set,
  sdi_qsfp_cdr_status_get,
}
use opx_sdi_sys.Qsfp.Power.{
  FwRev, own_feature_support, feature_flags, change_power_class, change_rates,
  sdi_qsfp_feature_support_status_get, sdi_qsfp_media_force_power_mode_set,
  sdi_qsfp_ext_rate_select,
}
use opx_sdi_sys.Qsfp.Monitor.{
  read_monitors, temp_interrupt, volt_interrupt, rx_power_interrupt, tx_bias_interrupt,
  own_module_monitor_status_get, own_channel_monitor_status_get, sdi_qsfp_module_monitor_status_get,
  sdi_qsfp_channel_monitor_status_get,
}
use opx_sdi_sys.Qsfp.Raw.{
  page_select_if, access_after, default_page_after, paged_access, on_page, on_address,
  sdi_qsfp_read_generic, sdi_qsfp_write_generic,
}
use opx_sdi_sys.Qsfp.Frees.{
  Frees, fail-Frees, pure-Frees, keep-Frees, caught-Keeps, std_assert-Keeps,
}

module _ {W : Type 0} (held : W → Bool) (bits : StdBits) (clock : Clock W) (dev : QsfpDevice W)
    (lock : IsSelectionLock held dev.selector) where
  selected-Frees : {A : Type 0} (body : Io W A) → Frees held (selected bits clock dev body)
  unfolding selected
  selected-Frees body w free = released-selection held dev.selector lock _ w free

  channel-Frees :
      {A : Type 0} (channel : ℕ) (call : Io W A)
      → Frees held call
      → Frees held (on_channel bits clock dev channel call)
  unfolding on_channel
  channel-Frees {A} channel call frees w free =
      both_branches (λ (c : Io W A). released held (c w) ≡ true)
        (sdi_qsfp_validate_channel channel dev.mod_category) call (fail param) (frees w free)
        (ap not free)

  module _ {A : Type 0} (stale : A)
      (probes : Keeps held (sdi_is_paging_supported bits clock dev)) where
    paged-Frees :
        (flag : Bool) (page : ℕ) (access : Io W A)
        → Frees held (paged_access bits clock dev stale flag page access)
    unfolding paged_access
    paged-Frees flag page access = selected-Frees (
        catch (page_select_if bits clock dev flag page)
        >>= access_after bits clock dev stale flag access
        >>= default_page_after bits clock dev stale)

    page-Frees :
        (page : IntArgument) (access : Io W A)
        → Frees held (on_page bits clock dev stale page access)
    unfolding on_page
    page-Frees minus_one access = paged-Frees false 0 access
    page-Frees below access = fail-Frees held A (errcode einval)
    page-Frees (number page) access =
        keep-Frees held (catch (sdi_is_paging_supported bits clock dev)) _
          (λ w. caught-Keeps held (sdi_is_paging_supported bits clock dev w) ∙ probes w)
          λ flag. paged-Frees (value_or false flag) page access

    address-Frees :
        (address : Option ℕ) (page : IntArgument) (access : ℕ → Io W A)
        → Frees held (on_address bits clock dev stale address page access)
    unfolding on_address
    address-Frees none page access = fail-Frees held A (errcode einval)
    address-Frees (some address) page access = page-Frees page (access address)

  media-Frees :
      {A : Type 0} (type : ModType) (pass : SfpDevice W → Io W A) (call : Io W A)
      → type ≡ media_default
      → Frees held call
      → Frees held (on_media type dev.sfp_device pass call)
  media-Frees type pass call own frees w free = rw own (frees w free)

  module _ (own : dev.mod_type ≡ media_default) where
    tx_calls-Frees :
        (serdes_control : Bool → Io W (Unit {0})) (channel flags status : ℕ) (enable : Bool)
        → Frees held (sdi_qsfp_tx_control bits clock dev serdes_control channel enable)
          × Frees held (sdi_qsfp_tx_control_status_get bits clock dev channel)
          × Frees held (sdi_qsfp_channel_status_get bits clock dev channel flags status)
    unfolding sdi_qsfp_tx_control sdi_qsfp_tx_control_status_get sdi_qsfp_channel_status_get
        own_tx_control own_tx_control_status_get own_channel_status_get
    tx_calls-Frees serdes_control channel flags status enable = (
      media-Frees dev.mod_type (λ sfp. sdi_sfp_tx_control bits sfp serdes_control channel enable)
          (own_tx_control bits clock dev channel enable) own
          (channel-Frees channel
            (selected bits clock dev (change_tx_control bits clock dev channel enable))
            (selected-Frees (change_tx_control bits clock dev channel enable))),
      media-Frees dev.mod_type (λ sfp. sdi_sfp_tx_control_status_get bits sfp channel)
          (own_tx_control_status_get bits clock dev channel) own
          (channel-Frees channel
            (selected bits clock dev tx_byte >>= λ buf. pure (some (not (bits.test buf channel))))
            (pure-Frees held (selected bits clock dev tx_byte)
              (λ buf. some (not (bits.test buf channel))) (selected-Frees tx_byte))),
      media-Frees dev.mod_type (λ sfp. sdi_sfp_channel_status_get bits sfp channel flags)
          (own_channel_status_get bits clock dev channel flags status) own
          (channel-Frees channel
            (selected bits clock dev (all_flags bits clock dev channel flags status))
            (selected-Frees (all_flags bits clock dev channel flags status))),
    )
      where
        tx_byte : Io W ℕ
        tx_byte = read_byte bits clock dev (tx_control dev.mod_category)

    status_calls-Frees :
        (channel flags status : ℕ)
        → Frees held (sdi_qsfp_module_monitor_status_get bits clock dev flags status)
          × Frees held (sdi_qsfp_channel_monitor_status_get bits clock dev channel flags status)
          × Frees held (sdi_qsfp_feature_support_status_get bits clock dev)
    unfolding sdi_qsfp_module_monitor_status_get sdi_qsfp_channel_monitor_status_get
        sdi_qsfp_feature_support_status_get own_module_monitor_status_get
        own_channel_monitor_status_get own_feature_support
    status_calls-Frees channel flags status = (
      media-Frees dev.mod_type (λ sfp. sdi_sfp_module_monitor_status_get bits sfp flags)
          (own_module_monitor_status_get bits clock dev flags status) own
          (pure-Frees held (selected bits clock dev module_bufs) _ (selected-Frees module_bufs)),
      media-Frees dev.mod_type (λ sfp. sdi_sfp_channel_monitor_status_get bits sfp channel flags)
          (own_channel_monitor_status_get bits clock dev channel flags status) own
          (channel-Frees channel _ (
            pure-Frees held (selected bits clock dev channel_bufs) _
              (selected-Frees channel_bufs))),
      media-Frees dev.mod_type
          (λ sfp. sdi_sfp_feature_support_status_get bits sfp >>= λ f. pure (inl f))
          (own_feature_support bits clock dev >>= λ f. pure (inr f)) own
          (pure-Frees held (own_feature_support bits clock dev) inr
            (selected-Frees (feature_flags bits clock dev))),
    )
      where
        module_bufs : Io W (ℕ × ℕ)
        module_bufs =
            read_monitors bits clock dev flags (temp_interrupt dev.mod_category)
              (volt_interrupt dev.mod_category)

        channel_bufs : Io W (ℕ × ℕ)
        channel_bufs =
            read_monitors bits clock dev flags (rx_power_interrupt channel)
              (tx_bias_interrupt channel)

    control_calls-Frees :
        (channel : ℕ) (enable : Bool) (rev : FwRev)
        → Frees held (sdi_qsfp_cdr_status_set bits clock dev channel enable)
          × Frees held (sdi_qsfp_cdr_status_get bits clock dev channel)
          × Frees held (sdi_qsfp_media_force_power_mode_set bits clock dev enable)
          × Frees held (sdi_qsfp_ext_rate_select bits clock dev channel rev enable)
    unfolding sdi_qsfp_cdr_status_set sdi_qsfp_cdr_status_get sdi_qsfp_media_force_power_mode_set
        sdi_qsfp_ext_rate_select
    control_calls-Frees channel enable rev = (
      (λ w free. rw own (
          channel-Frees channel (selected bits clock dev (change_cdr bits clock dev channel enable))
            (selected-Frees (change_cdr bits clock dev channel enable)) w free)),
      (λ w free. rw own (
          channel-Frees channel
            (selected bits clock dev (cdr_bytes bits clock dev) >>= λ bufs.
              pure (cdr_of_bytes bits clock dev channel bufs))
            (pure-Frees held (selected bits clock dev (cdr_bytes bits clock dev)) _
              (selected-Frees (cdr_bytes bits clock dev)))
            w free)),
      (λ w free. rw own (selected-Frees (change_power_class bits clock dev enable) w free)),
      (λ w free. rw own (
          channel-Frees channel (selected bits clock dev (change_rates bits clock dev rev enable))
            (selected-Frees (change_rates bits clock dev rev enable)) w free)),
    )

    generic_calls-Frees :
        (probes : Keeps held (sdi_is_paging_supported bits clock dev)) (addr : EepromAddr)
        (data_len : ℕ) (buffer stale : List ℕ)
        → Frees held (sdi_qsfp_read_generic bits clock dev stale addr data_len)
          × Frees held (sdi_qsfp_write_generic bits clock dev addr buffer)
    unfolding sdi_qsfp_read_generic sdi_qsfp_write_generic
    generic_calls-Frees probes addr data_len buffer stale = (
      keep-Frees held (std_assert (ltb 0 data_len)) _ (std_assert-Keeps held (ltb 0 data_len)) λ _.
          media-Frees dev.mod_type (λ sfp. sdi_sfp_read_generic bits sfp addr data_len) _ own
            (address-Frees stale probes (i2c_address addr.device_addr dev.i2c_addr) addr.page
              λ address.
                sdi_smbus_read_multi_byte dev.bus_hdl address addr.offset data_len flag_none),
      keep-Frees held (std_assert (ltb 0 (length buffer))) _
          (std_assert-Keeps held (ltb 0 (length buffer)))
          λ _.
            media-Frees dev.mod_type (λ sfp. sdi_sfp_write_generic bits sfp addr buffer) _ own
              (address-Frees tt probes (i2c_address addr.device_addr dev.i2c_addr) addr.page
                λ address.
                  sdi_smbus_write_multi_byte dev.bus_hdl address addr.offset buffer flag_none),
    )

    -- Where the module is not in an adapter, the lock belongs to a group that selects it and is free,
    -- and reading the status byte does not touch the lock: after a call that returns, with or without
    -- an error, the lock is free again, for the calls that set and get the state of the transmitter,
    -- of the clock recovery, of the flags and the monitors, of the power mode and the rates, and for
    -- the reads and writes of the memory.
    pub module_calls_release :
        (probes : Keeps held (sdi_is_paging_supported bits clock dev))
        (serdes_control : Bool → Io W (Unit {0})) (channel flags status data_len : ℕ)
        (enable : Bool) (rev : FwRev) (addr : EepromAddr) (buffer stale : List ℕ) (w : W)
        → held w ≡ false
        → (released held (sdi_qsfp_tx_control bits clock dev serdes_control channel enable w)
            ≡ true)
          × (released held (sdi_qsfp_tx_control_status_get bits clock dev channel w) ≡ true)
          × (released held (sdi_qsfp_channel_status_get bits clock dev channel flags status w)
              ≡ true)
          × (released held (sdi_qsfp_module_monitor_status_get bits clock dev flags status w)
              ≡ true)
          × (released held
                (sdi_qsfp_channel_monitor_status_get bits clock dev channel flags status w)
              ≡ true)
          × (released held (sdi_qsfp_feature_support_status_get bits clock dev w) ≡ true)
          × (released held (sdi_qsfp_cdr_status_set bits clock dev channel enable w) ≡ true)
          × (released held (sdi_qsfp_cdr_status_get bits clock dev channel w) ≡ true)
          × (released held (sdi_qsfp_media_force_power_mode_set bits clock dev enable w) ≡ true)
          × (released held (sdi_qsfp_ext_rate_select bits clock dev channel rev enable w) ≡ true)
          × (released held (sdi_qsfp_read_generic bits clock dev stale addr data_len w) ≡ true)
          × (released held (sdi_qsfp_write_generic bits clock dev addr buffer w) ≡ true)
    module_calls_release probes serdes_control channel flags status data_len enable rev addr buffer
          stale w free =
        let (tx, tx_get, status_get) = tx_calls-Frees serdes_control channel flags status enable in
        let (module_monitor, channel_monitor, features) = status_calls-Frees channel flags status in
        let (cdr, cdr_get, power, rates) = control_calls-Frees channel enable rev in
        let (reads, writes) = generic_calls-Frees probes addr data_len buffer stale in
        (
          tx w free,
          tx_get w free,
          status_get w free,
          module_monitor w free,
          channel_monitor w free,
          features w free,
          cdr w free,
          cdr_get w free,
          power w free,
          rates w free,
          reads w free,
          writes w free,
        )
