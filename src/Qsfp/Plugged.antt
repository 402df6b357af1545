-- ===== src/Qsfp/Plugged.antt =====
-- A QSFP module with a paged memory that can be selected: what its drivers rely on, and the steps
-- that the operations share.
use opx_sdi_sys.Base.{
  ℕ, ◌%◌, ◌^◌, ◌≡◌, refl, ap, ◌∙◌, true, false, not, inr, Io, ok, catch, caught, ◌>>◌, and_then,
}
use opx_sdi_sys.Base.StdBits.{StdBits}
use opx_sdi_sys.Bus.Mutex.{with_lock, then_unlock}
use opx_sdi_sys.I2c.Device.{Gives, Gives-eq, Gives-then}
use opx_sdi_sys.Media.{Clock, nap, module_select, module_deselect, selection}
use opx_sdi_sys.Media.Paged.{
  Memory, cell, store, page_select_byte, IsPagedModule, read_byte-Gives, write_byte-Gives,
}
use opx_sdi_sys.Qsfp.{
  QsfpDevice, status_indicator, selected, read_byte, write_byte, sdi_qsfp_page_select,
  sdi_is_paging_supported,
}

pub record IsPlugged {W : Type 0} (clock : Clock W) (dev : QsfpDevice W) (view : W → Memory)
    : Type 0 where
  pub paged : IsPagedModule dev.bus_hdl dev.i2c_addr view
  pub selects : (w : W) → Gives view (module_select dev.selector) w tt (view w)
  pub deselects : (w : W) → view (module_deselect dev.selector w) ≡ view w
  pub sleeps : (micro : ℕ) (w : W) → view (clock.std_usleep micro w) ≡ view w

-- The module has pages.
abbrev pub HasPages : StdBits → Memory → Type 0
HasPages bits m = bits.test (cell m status_indicator) 2 ≡ false

-- A call that succeeds on every memory, and what it gives and leaves.
abbrev pub Acts : {W A : Type 0} → (W → Memory) → Io W A → (Memory → A) → (Memory → Memory) → Type 0
Acts {W} view call value next =
    (w : W) (m : Memory) → view w ≡ m → Gives view call w (value m) (next m)

module _ {W : Type 0} {view : W → Memory} where
  pub Gives-catch :
      {A : Type 0} (call : Io W A) (w : W) (a : A) (m : Memory)
      → Gives view call w a m
      → Gives view (catch call) w (inr a) m
  Gives-catch call w a m (w', e, at) = (w', ap caught e, at)

module _ {W : Type 0} (bits : StdBits) (clock : Clock W) (dev : QsfpDevice W) {view : W → Memory}
    (plugged : IsPlugged clock dev view) where
  pub nap-Acts : (micro : ℕ) → Acts view (nap clock micro) (λ m. tt) (λ m. m)
  nap-Acts micro w m at = (clock.std_usleep micro w, refl, plugged.sleeps micro w ∙ at)

  pub read-Acts : (a : ℕ) → Acts view (read_byte bits clock dev a) (λ m. cell m a) (λ m. m)
  unfolding read_byte
  read-Acts a w m at =
      Gives-eq w (read_byte bits clock dev a) refl (ap (λ m. cell m a) at) at
        (read_byte-Gives plugged.paged w a)

  pub write-Acts : (a v : ℕ) → Acts view (write_byte bits clock dev a v) (λ m. tt) (store a v)
  unfolding write_byte
  write-Acts a v w m at =
      Gives-eq w (write_byte bits clock dev a v) refl refl (ap (store a v) at)
        (write_byte-Gives plugged.paged w a v)

  pub selected-Gives :
      {A : Type 0} (body : Io W A) (w : W) (a : A) (m : Memory)
      → ((w' : W) → view w' ≡ view w → Gives view body w' a m)
      → Gives view (selected bits clock dev body) w a m
  unfolding selected with_lock
  selected-Gives body w a m inner =
      let (w1, chosen, at1) = plugged.selects w in
      let w2 = clock.std_usleep (clock.milli_to_micro dev.delay) w1 in
      let (w3, done, at3) = inner w2 (plugged.sleeps _ w1 ∙ at1) in
      (
        module_deselect dev.selector w3,
        ap
              (λ r. and_then r (λ _ u.
                then_unlock (selection dev.selector)
                  ((nap clock (clock.milli_to_micro dev.delay) >> body) u)))
              chosen
            ∙ ap (then_unlock (selection dev.selector)) done,
        plugged.deselects w3 ∙ at3,
      )

  pub page_select-Gives :
      (page : ℕ) (w : W) (m : Memory)
      → view w ≡ m
      → HasPages bits m
      → Gives view
          (sdi_qsfp_page_select bits clock dev page)
          w
          tt
          (store page_select_byte (page % 2 ^ 8) m)
  unfolding sdi_qsfp_page_select
  page_select-Gives page w m at pages =
      Gives-then (read_byte bits clock dev status_indicator) _ (read-Acts status_indicator w m at)
        λ w' at'. rw pages (write-Acts page_select_byte (page % 2 ^ 8) w' m at')

  pub paging-Gives :
      (w : W) (m : Memory)
      → view w ≡ m
      → HasPages bits m
      → Gives view (sdi_is_paging_supported bits clock dev) w true m
  unfolding sdi_is_paging_supported
  paging-Gives w m at pages =
      Gives-then (read_byte bits clock dev status_indicator) _ (read-Acts status_indicator w m at)
        λ w' at'. (w', ap (λ b. (ok (not b), w')) pages, at')
