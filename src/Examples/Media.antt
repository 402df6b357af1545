-- ===== src/Examples/Media.antt =====
-- The theorems on QSFP and SFP modules at the modules of Examples/Modules.
use opx_sdi_sys.Base.{
  is_ok, ℕ, ◌≡◌, refl, ◌∙◌, arith, Bool, true, false, not, some, [], ◌∷◌, Io, ok, err, pure, errno,
}
use opx_sdi_sys.Base.StdBits.{binary_bits, binary-test, test_bit}
use opx_sdi_sys.Bus.Mutex.{released, with_lock}
use opx_sdi_sys.Bus.Group.{
  sdi_pin_group_acquire_bus, sdi_pin_group_release_bus, sdi_pin_group_write_level,
}
use opx_sdi_sys.EntityReset.Keeps.{Keeps}
use opx_sdi_sys.I2c.{sdi_smbus_read_byte, sdi_smbus_read_multi_byte, read_bytes, on_bus, flag_none}
use opx_sdi_sys.I2c.Device.{Gives, overlay}
use opx_sdi_sys.Media.{
  number, module_select, module_deselect, select_mux, select_module, release_group, any_bit,
  txdisable,
}
use opx_sdi_sys.Media.Paged.{cell, store, change_page}
use opx_sdi_sys.Sfp.{SfpDevice, feature_bit, sdi_is_alarm_flags_supported}
use opx_sdi_sys.Sfp
use opx_sdi_sys.Sfp.Monitor
use opx_sdi_sys.Sfp.Monitor.{sdi_sfp_channel_monitor_status_get, if_alarms, channel_flags}
use opx_sdi_sys.Sfp.Rx.{rx_low_unreported}
use opx_sdi_sys.Qsfp.{
  qsfp28, read_byte, ext_identifier, status_indicator, sdi_qsfp_validate_channel, options3,
  options4,
}
use opx_sdi_sys.Qsfp.Channel.{
  sdi_qsfp_tx_control, sdi_qsfp_tx_control_status_get, sdi_qsfp_channel_status_get,
  sdi_qsfp_cdr_status_set, sdi_qsfp_cdr_status_get,
}
use opx_sdi_sys.Qsfp.Monitor.{
  sdi_qsfp_module_monitor_status_get, sdi_qsfp_channel_monitor_status_get,
}
use opx_sdi_sys.Qsfp.Power.{
  rev0, sdi_qsfp_feature_support_status_get, sdi_qsfp_media_force_power_mode_set,
  sdi_qsfp_media_max_power_get, sdi_qsfp_ext_rate_select,
}
use opx_sdi_sys.Qsfp.Raw.{sdi_qsfp_read_generic, sdi_qsfp_write_generic}
use opx_sdi_sys.Qsfp.Locks.{module_calls_release}
use opx_sdi_sys.Qsfp.MaxPower.{max_power_get-held}
use opx_sdi_sys.Qsfp.Modes.{power_mode_bits}
use opx_sdi_sys.Qsfp.Paging.{read_generic-write_generic, read_error_is_lost, at_page}
use opx_sdi_sys.Qsfp.PagedAccess.{on}
use opx_sdi_sys.Qsfp.Recovery.{cdr_status_get-cdr_status_set}
use opx_sdi_sys.Qsfp.Transmit.{status_get-tx_control, tx_set}
use opx_sdi_sys.Examples.{is_held}
use opx_sdi_sys.Examples.Modules.{
  World, view, bus, selector, clock, module_at, qsfp_module, start, selection_lock, plugged, probes,
  sfp_module, dark,
}

tested : (x k : ℕ) (b : Bool) → test_bit x k ≡ b → binary_bits.test x k ≡ b
tested x k b e = binary-test x k ∙ e

has_pages : binary_bits.test (cell start.0 status_indicator) 2 ≡ false
unfolding test_bit cell
has_pages = tested 0 2 false refl

tx_supported : binary_bits.test (cell start.0 options4) 4 ≡ true
unfolding test_bit cell
tx_supported = tested 16 4 true refl

cdr_supported :
    (binary_bits.test (cell start.0 options3) 7 ≡ true)
    × (binary_bits.test (cell start.0 options3) 6 ≡ true)
unfolding test_bit cell
cdr_supported = (tested 0xC0 7 true refl, tested 0xC0 6 true refl)

no_serdes : Bool → Io World (Unit {0})
no_serdes enable = pure tt

module_calls_release_example :
    (released is_held (sdi_qsfp_tx_control binary_bits clock qsfp_module no_serdes 1 false start)
      ≡ true)
    × (released is_held (sdi_qsfp_tx_control_status_get binary_bits clock qsfp_module 1 start)
        ≡ true)
    × (released is_held (sdi_qsfp_channel_status_get binary_bits clock qsfp_module 1 15 0 start)
        ≡ true)
    × (released is_held
          (sdi_qsfp_module_monitor_status_get binary_bits clock qsfp_module 15 0 start)
        ≡ true)
    × (released is_held
          (sdi_qsfp_channel_monitor_status_get binary_bits clock qsfp_module 1 15 0 start)
        ≡ true)
    × (released is_held (sdi_qsfp_feature_support_status_get binary_bits clock qsfp_module start)
        ≡ true)
    × (released is_held (sdi_qsfp_cdr_status_set binary_bits clock qsfp_module 1 false start)
        ≡ true)
    × (released is_held (sdi_qsfp_cdr_status_get binary_bits clock qsfp_module 1 start) ≡ true)
    × (released is_held
          (sdi_qsfp_media_force_power_mode_set binary_bits clock qsfp_module false start)
        ≡ true)
    × (released is_held (sdi_qsfp_ext_rate_select binary_bits clock qsfp_module 1 rev0 false start)
        ≡ true)
    × (released is_held
          (sdi_qsfp_read_generic binary_bits clock qsfp_module [] (at_page 2 130) 3 start)
        ≡ true)
    × (released is_held
          (sdi_qsfp_write_generic binary_bits clock qsfp_module (at_page 2 130) (7 ∷ []) start)
        ≡ true)
module_calls_release_example =
    module_calls_release is_held binary_bits clock qsfp_module selection_lock refl probes no_serdes
      1 15 0 3 false rev0 (at_page 2 130) (7 ∷ []) [] start refl

status_get-tx_control_example :
    (w' : World) × (sdi_qsfp_tx_control binary_bits clock qsfp_module no_serdes 1 false start
      ≡ (ok tt, w'))
    × (view w' ≡ tx_set binary_bits qsfp28 1 false start.0)
    × (binary_bits.test (cell (view w') 86) 2 ≡ binary_bits.test (cell (view start) 86) 2)
    × Gives view
        (sdi_qsfp_tx_control_status_get binary_bits clock qsfp_module 1)
        w'
        (some false)
        (view w')
    × Gives view
        (sdi_qsfp_channel_status_get binary_bits clock qsfp_module 1 txdisable 0)
        w'
        1
        (view w')
unfolding sdi_qsfp_validate_channel
status_get-tx_control_example =
    status_get-tx_control binary_bits clock qsfp_module view no_serdes 1 2 false start plugged refl
      refl tx_supported

cdr_status_get-cdr_status_set_example :
    ((sdi_qsfp_cdr_status_set binary_bits clock qsfp_module 1 true start).0 ≡ ok tt)
    × ((sdi_qsfp_cdr_status_get binary_bits clock qsfp_module 1
          (sdi_qsfp_cdr_status_set binary_bits clock qsfp_module 1 true start).1).0
        ≡ ok true)
unfolding sdi_qsfp_validate_channel
cdr_status_get-cdr_status_set_example =
    cdr_status_get-cdr_status_set binary_bits clock qsfp_module plugged 1 true refl refl start
      cdr_supported

power_mode_bits_example :
    ((sdi_qsfp_media_force_power_mode_set binary_bits clock qsfp_module true start).0 ≡ ok tt)
    × (binary_bits.test
          (cell
            (view (sdi_qsfp_media_force_power_mode_set binary_bits clock qsfp_module true start).1)
            93)
          1
        ≡ false)
unfolding cell store
power_mode_bits_example =
    power_mode_bits binary_bits clock qsfp_module plugged true start 1 refl has_pages refl

read_generic-write_generic_example :
    (w' : World) × (sdi_qsfp_write_generic binary_bits clock qsfp_module
        (at_page 2 130)
        (7 ∷ 8 ∷ [])
        start
      ≡ (ok tt, w'))
    × (view w' ≡ on 0 (change_page 2 (overlay 130 (7 ∷ 8 ∷ [])) start.0))
    × Gives view
        (sdi_qsfp_read_generic binary_bits clock qsfp_module [] (at_page 2 130) 2)
        w'
        (7 ∷ 8 ∷ [])
        (view w')
read_generic-write_generic_example =
    read_generic-write_generic binary_bits clock qsfp_module view 2 130 (7 ∷ 8 ∷ []) [] start
      plugged refl has_pages (omega arith) (omega arith) (omega arith) (omega arith)

no_answer :
    (w : World)
    → (w' : World) × (sdi_smbus_read_multi_byte bus 0x52 130 2 flag_none w ≡ (err errno, w'))
      × (view w' ≡ view w)
unfolding sdi_smbus_read_multi_byte read_bytes on_bus with_lock
no_answer w = (w, refl, refl)

read_error_is_lost_example :
    Gives view
      (sdi_qsfp_read_generic binary_bits clock qsfp_module
        (0 ∷ 0 ∷ [])
        (record { device_addr = number 0x52; page = number 2; offset = 130 })
        2)
      start
      (0 ∷ 0 ∷ [])
      (on 0 start.0)
read_error_is_lost_example =
    read_error_is_lost binary_bits clock qsfp_module view 0x52 2 130 2 (0 ∷ 0 ∷ []) errno start
      plugged refl has_pages (omega arith) (omega arith) no_answer

-- The read of the byte fails.
silent_keeps : Keeps is_held (read_byte binary_bits clock (module_at 0x52) ext_identifier)
unfolding read_byte sdi_smbus_read_byte with_lock on_bus
silent_keeps w = refl

silent_selects : module_select selector start ≡ (ok tt, (start.0, true))
unfolding module_select select_mux select_module sdi_pin_group_acquire_bus sdi_pin_group_write_level
silent_selects = refl

max_power_get-held_example :
    is_held (sdi_qsfp_media_max_power_get binary_bits clock (module_at 0x52) start).1
    ≡ not (is_ok (sdi_qsfp_media_max_power_get binary_bits clock (module_at 0x52) start).0)
max_power_get-held_example =
    max_power_get-held is_held binary_bits clock (module_at 0x52) selection_lock (λ micro u. refl)
      silent_keeps start (start.0, true) refl silent_selects refl

dark_run : sdi_sfp_channel_monitor_status_get binary_bits sfp_module 0 15 dark ≡ (ok 0, dark)
unfolding sdi_sfp_channel_monitor_status_get Sfp.selected if_alarms Monitor.read_channel
    Monitor.read_if channel_flags sdi_is_alarm_flags_supported feature_bit module_select
    module_deselect select_mux select_module release_group sdi_pin_group_acquire_bus
    sdi_pin_group_release_bus sdi_pin_group_write_level sdi_smbus_read_byte on_bus with_lock cell
    test_bit
dark_run = rw (binary-test 0xF0 7) refl

rx_low_unreported_example : any_bit 0 0xA ≡ false
rx_low_unreported_example =
    rx_low_unreported binary_bits sfp_module 15 refl refl 0 0 dark dark dark_run
