-- ===== src/Qsfp/Modes.antt =====
-- src/drivers/sdi_qsfp_eeprom.c: the power mode of a QSFP module.
use opx_sdi_sys.Base.{
  ℕ, ◌<◌, ◌≡◌, refl, ap, ◌∙◌, Bool, true, false, not, arith, ◌==◌, if◌then◌else◌, bit_and, Io, ok,
  catch,
}
use opx_sdi_sys.Base.StdBits.{StdBits}
use opx_sdi_sys.I2c.Device.{Gives, Gives-then}
use opx_sdi_sys.Media.{Clock, nap}
use opx_sdi_sys.Media.Paged.{cell-store_self, Memory, cell, store, page_select_byte}
use opx_sdi_sys.Qsfp.{
  QsfpDevice, ModType, media_default, ext_identifier, page_default, default_page_if, selected,
  read_byte, write_byte, sdi_qsfp_page_select, sdi_is_paging_supported,
  sdi_is_software_controlled_power_mode_supported,
}
use opx_sdi_sys.Qsfp.Power.{
  power_class_control, power_bits, no_adapter, set_power_class, change_power_class,
  sdi_qsfp_media_force_power_mode_set,
}
use opx_sdi_sys.Qsfp.Plugged.{
  IsPlugged, HasPages, Gives-catch, nap-Acts, read-Acts, write-Acts, selected-Gives,
  page_select-Gives, paging-Gives,
}

-- The bits of the power class byte.
test-power_bits :
    (bits : StdBits) (state : Bool) (buf j : ℕ)
    → bits.test (power_bits bits state buf) j ≡ (
        if j == 0
        then true
        else if j == 1
        then not state
        else if j == 2
        then state
        else bits.test buf j)
unfolding power_bits
test-power_bits bits true buf j =
    rw
      (
        bits.test-set (bits.clear (bits.set buf 2) 1) 0 j,
        bits.test-clear (bits.set buf 2) 1 j,
        bits.test-set buf 2 j,
      )
      (ground arith)
test-power_bits bits false buf j =
    rw
      (
        bits.test-set (bits.set (bits.clear buf 2) 1) 0 j,
        bits.test-set (bits.clear buf 2) 1 j,
        bits.test-clear buf 2 j,
      )
      (ground arith)

-- The module with page 0 on show.
abbrev pub at_default : Memory → Memory
at_default m = store page_select_byte page_default m

cell-at_default : (a : ℕ) (m : Memory) → a < 127 → cell (at_default m) a ≡ cell m a
unfolding cell store
cell-at_default a m low = ground arith

module _ {W : Type 0} (bits : StdBits) (clock : Clock W) (dev : QsfpDevice W) {view : W → Memory}
    (plugged : IsPlugged clock dev view) where
  support-Gives :
      (w : W) (m : Memory)
      → view w ≡ m
      → HasPages bits m
      → (bit_and (cell (at_default m) ext_identifier) 3 == 0) ≡ false
      → Gives view
          (sdi_is_software_controlled_power_mode_supported bits clock dev)
          w
          true
          (at_default m)
  unfolding sdi_is_software_controlled_power_mode_supported default_page_if
  support-Gives w m at pages sup =
      Gives-then (catch (sdi_is_paging_supported bits clock dev)) _
        (Gives-catch (sdi_is_paging_supported bits clock dev) w true m
          (paging-Gives bits clock dev plugged w m at pages))
        λ w1 at1.
          Gives-then (default_page_if bits clock dev true) _
            (Gives-then (catch (sdi_qsfp_page_select bits clock dev page_default)) _
              (Gives-catch (sdi_qsfp_page_select bits clock dev page_default) w1 tt (at_default m)
                (page_select-Gives bits clock dev plugged page_default w1 m at1 pages))
              λ w2 at2. (w2, refl, at2))
            λ w2 at2.
              Gives-then (read_byte bits clock dev ext_identifier) _
                (read-Acts bits clock dev plugged ext_identifier w2 (at_default m) at2)
                λ w3 at3. (w3, ap (λ b. (ok (not b), w3)) sup, at3)

  -- The memory after the power mode is set.
  abbrev mode_set : Bool → Memory → Memory
  mode_set state m =
      store power_class_control (power_bits bits state (cell m power_class_control)) m

  set-Gives :
      (state : Bool) (w : W) (m : Memory)
      → view w ≡ m
      → Gives view (set_power_class bits clock dev state true) w tt (mode_set state m)
  unfolding set_power_class
  set-Gives state w m at =
      Gives-then (read_byte bits clock dev power_class_control) _
        (read-Acts bits clock dev plugged power_class_control w m at)
        λ w1 at1.
          Gives-then (nap clock (clock.milli_to_micro dev.delay))
            (λ _.
              write_byte bits clock dev power_class_control
                (power_bits bits state (cell m power_class_control)))
            (nap-Acts bits clock dev plugged (clock.milli_to_micro dev.delay) w1 m at1)
            λ w2 at2.
              write-Acts bits clock dev plugged power_class_control
                (power_bits bits state (cell m power_class_control)) w2 m at2

  own-Gives :
      (type : ModType) (call : Io W (Unit {0})) (w : W) (m : Memory)
      → type ≡ media_default
      → Gives view call w tt m
      → Gives view (no_adapter bits clock dev type call) w tt m
  own-Gives type call w m own gives = rw own gives

  mode-Gives :
      (state : Bool) (w : W)
      → dev.mod_type ≡ media_default
      → HasPages bits (view w)
      → (bit_and (cell (at_default (view w)) ext_identifier) 3 == 0) ≡ false
      → Gives view
          (sdi_qsfp_media_force_power_mode_set bits clock dev state)
          w
          tt
          (mode_set state (at_default (view w)))
  unfolding sdi_qsfp_media_force_power_mode_set change_power_class
  mode-Gives state w own pages sup =
      own-Gives dev.mod_type (selected bits clock dev (change_power_class bits clock dev state)) w
        (mode_set state (at_default (view w))) own
        (selected-Gives bits clock dev plugged (change_power_class bits clock dev state) w tt
          (mode_set state (at_default (view w)))
          λ w1 at1.
            Gives-then (sdi_is_software_controlled_power_mode_supported bits clock dev)
              (set_power_class bits clock dev state) (support-Gives w1 (view w) at1 pages sup)
              λ w2 at2. set-Gives state w2 (at_default (view w)) at2)

  -- For a module that can be selected, is not in an adapter, has pages and lets the software control
  -- its power class: the call succeeds, and of the power class byte it sets bit 0, stores the
  -- opposite of the state in bit 1 and the state in bit 2, and keeps every other bit.
  pub power_mode_bits :
      (state : Bool) (w : W) (j : ℕ)
      → dev.mod_type ≡ media_default
      → HasPages bits (view w)
      → (bit_and (cell (at_default (view w)) ext_identifier) 3 == 0) ≡ false
      → ((sdi_qsfp_media_force_power_mode_set bits clock dev state w).0 ≡ ok tt)
        × (bits.test
              (cell
                (view (sdi_qsfp_media_force_power_mode_set bits clock dev state w).1)
                power_class_control)
              j
            ≡ (if j == 0
                then true
                else if j == 1
                then not state
                else if j == 2
                then state
                else bits.test (cell (view w) power_class_control) j))
  power_mode_bits state w j own pages sup =
      let (w', done, at) = mode-Gives state w own pages sup in
      (
        ap (λ r. r.0) done,
        ap (λ r. bits.test (cell (view r.1) power_class_control) j) done
            ∙ ap (λ m. bits.test (cell m power_class_control) j) at
            ∙ ap (λ v. bits.test v j)
                (cell-store_self power_class_control _ (at_default (view w)) (omega arith))
            ∙ test-power_bits bits state (cell (at_default (view w)) power_class_control) j
            ∙ ap
                (λ v.
                  if j == 0
                  then true
                  else if j == 1
                  then not state
                  else if j == 2
                  then state
                  else bits.test v j)
                (cell-at_default power_class_control (view w) (omega arith)),
      )
