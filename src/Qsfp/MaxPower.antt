-- ===== src/Qsfp/MaxPower.antt =====
-- src/drivers/sdi_qsfp_eeprom.c: the locks of the pin groups that select a QSFP module, while its
-- maximum power is read.
use opx_sdi_sys.Base.{is_ok, ℕ, ◌≡◌, ◌∙◌, Bool, true, not, Result, ok, err, abort}
use opx_sdi_sys.Base.StdBits.{StdBits}
use opx_sdi_sys.EntityReset.Keeps.{Keeps}
use opx_sdi_sys.Media.{Clock, module_select}
use opx_sdi_sys.Media.Selection.{IsSelectionLock, deselect_frees}
use opx_sdi_sys.Qsfp.{
  QsfpDevice, media_default, read_byte, ext_identifier, sdi_qsfp_module_select,
  sdi_qsfp_module_deselect,
}
use opx_sdi_sys.Qsfp.Power.{after_class, own_max_power_get, sdi_qsfp_media_max_power_get}

module _ {W : Type 0} (held : W → Bool) (bits : StdBits) (clock : Clock W) (dev : QsfpDevice W)
    (lock : IsSelectionLock held dev.selector) where
  after_class-held :
      (r : Result ℕ × W)
      → held r.1 ≡ true
      → held (after_class bits clock dev r).1 ≡ not (is_ok (after_class bits clock dev r).0)
  unfolding after_class sdi_qsfp_module_deselect
  after_class-held (ok buf, w) h = deselect_frees held dev.selector w lock
  after_class-held (err e, w) h = h
  after_class-held (abort, w) h = h

  -- Where the module is not in an adapter, its selection succeeds and takes the lock, and neither the
  -- wait nor the read of the byte touches the lock: the call leaves the lock held exactly where it
  -- does not succeed.
  pub max_power_get-held :
      (sleeps : (micro : ℕ) (u : W) → held (clock.std_usleep micro u) ≡ held u)
      (reads : Keeps held (read_byte bits clock dev ext_identifier)) (w w1 : W)
      → dev.mod_type ≡ media_default
      → module_select dev.selector w ≡ (ok tt, w1)
      → held w1 ≡ true
      → held (sdi_qsfp_media_max_power_get bits clock dev w).1
        ≡ not (is_ok (sdi_qsfp_media_max_power_get bits clock dev w).0)
  unfolding sdi_qsfp_media_max_power_get own_max_power_get sdi_qsfp_module_select
  max_power_get-held sleeps reads w w1 own selects taken =
      rw (own, selects)
        (after_class-held (read_byte bits clock dev ext_identifier w2)
          (reads w2 ∙ sleeps micro w1 ∙ taken))
    where
      micro : ℕ
      micro = clock.milli_to_micro dev.delay

      w2 : W
      w2 = clock.std_usleep micro w1
