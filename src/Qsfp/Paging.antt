-- ===== src/Qsfp/Paging.antt =====
-- src/drivers/sdi_qsfp_eeprom.c: raw reads and writes on a page of a QSFP module.
use opx_sdi_sys.Base.{
  ℕ, ◌+◌, ◌≤◌, ◌<◌, ◌≡◌, refl, sym, ap, subst, ◌∙◌, true, List, arith, ltb, ◌==◌, length, inl, inr,
  StdError, Io, ok, err, caught,
}
use opx_sdi_sys.Base.StdBits.{StdBits}
use opx_sdi_sys.I2c.{flag_none, sdi_smbus_read_multi_byte, sdi_smbus_write_multi_byte}
use opx_sdi_sys.I2c.Device.{Gives, Gives-eq, overlay, window, window-overlay}
use opx_sdi_sys.Media.{Clock, EepromAddr, minus_one, number}
use opx_sdi_sys.Media.Paged.{
  Memory, cell, store_all, change_page, page_select_byte, window-cell, store_all_above, put-put,
  read_multi_byte-Gives, write_multi_byte-Gives,
}
use opx_sdi_sys.Qsfp.{QsfpDevice, media_default}
use opx_sdi_sys.Qsfp.Raw.{on_page, on_address, sdi_qsfp_read_generic, sdi_qsfp_write_generic}
use opx_sdi_sys.Qsfp.Plugged.{IsPlugged, HasPages, Gives-catch}
use opx_sdi_sys.Qsfp.PagedAccess.{on, pages_still, pages_changed, on_page-Gives}

on-on : (p q : ℕ) (m : Memory) → on p (on q m) ≡ on p m
on-on p q m = ap (λ f. record m { lower = f }) (put-put page_select_byte p q m.lower)

change_page_self :
    (page : ℕ) (f : (ℕ → ℕ) → ℕ → ℕ) (m : Memory)
    → (change_page page f m).upper page ≡ f (m.upper page)
change_page_self page f m = let same : (page == page) ≡ true = ground arith in rw same

-- What is written to a page is read back from it.
window-page :
    (page offset : ℕ) (buffer : List ℕ) (m : Memory)
    → 128 ≤ offset
    → window
        (cell (on page (on 0 (change_page page (overlay offset buffer) m))))
        offset
        (length buffer)
      ≡ buffer
window-page page offset buffer m above =
    window-cell (on page (on 0 (change_page page (overlay offset buffer) m))) offset (length buffer)
      above
    ∙ ap (λ f. window f offset (length buffer)) (change_page_self page (overlay offset buffer) m)
    ∙ window-overlay offset buffer (m.upper page)

-- The address of an access with the device's own I2C address.
abbrev pub at_page : ℕ → ℕ → EepromAddr
at_page page offset = record { device_addr = minus_one; page = number page; offset = offset }

module _ {W : Type 0} (bits : StdBits) (clock : Clock W) (dev : QsfpDevice W) where
  module _ {view : W → Memory} (plugged : IsPlugged clock dev view)
      (own : dev.mod_type ≡ media_default) (page offset : ℕ) (buffer : List ℕ) (small : page < 256)
      (above : 128 ≤ offset) (inside : offset + length buffer ≤ 256)
      (some_bytes : 0 < length buffer) where
    write-Gives :
        (w : W)
        → HasPages bits (view w)
        → Gives view
            (sdi_qsfp_write_generic bits clock dev (at_page page offset) buffer)
            w
            tt
            (on 0 (change_page page (overlay offset buffer) (view w)))
    unfolding sdi_qsfp_write_generic on_address
    write-Gives w pages =
        let yes : ltb 0 (length buffer) ≡ true = ground arith in
        rw (yes, own)
          (Gives-eq w (on_page bits clock dev tt (number page) write) refl refl
            (ap (on 0) (store_on (view w))
              ∙ on-on 0 page (change_page page (overlay offset buffer) (view w)))
            (on_page-Gives bits clock dev plugged tt page write (inr tt) (store_all offset buffer) w
              (view w) refl pages small (store_pages (view w) pages)
              λ w' at. Gives-catch write w' tt _ (
                Gives-eq w' write refl refl (ap (store_all offset buffer) at)
                  (write_multi_byte-Gives plugged.paged w' offset buffer inside))))
      where
        write : Io W (Unit {0})
        write = sdi_smbus_write_multi_byte dev.bus_hdl dev.i2c_addr offset buffer flag_none

        store_on :
            (m : Memory)
            → store_all offset buffer (on page m)
              ≡ on page (change_page page (overlay offset buffer) m)
        store_on m = store_all_above offset buffer (on page m) above

        store_pages :
            (m : Memory) → HasPages bits m → HasPages bits (store_all offset buffer (on page m))
        store_pages m pages = subst (HasPages bits) (sym (store_on m)) (
            pages_still bits page (change_page page (overlay offset buffer) m)
              (pages_changed bits page (overlay offset buffer) m pages))

    read-Gives :
        (stale : List ℕ) (w : W) (m : Memory)
        → view w ≡ on 0 (change_page page (overlay offset buffer) m)
        → HasPages bits m
        → Gives view
            (sdi_qsfp_read_generic bits clock dev stale (at_page page offset) (length buffer))
            w
            buffer
            (view w)
    unfolding sdi_qsfp_read_generic on_address
    read-Gives stale w m at pages =
        let yes : ltb 0 (length buffer) ≡ true = ground arith in
        rw (yes, own)
          (Gives-eq w (on_page bits clock dev stale (number page) read) refl refl
            (on-on 0 page (on 0 after) ∙ on-on 0 0 after ∙ sym at)
            (on_page-Gives bits clock dev plugged stale page read (inr buffer) (λ m. m) w
              (on 0 after) at
              (pages_still bits 0 after (pages_changed bits page (overlay offset buffer) m pages))
              small
              (pages_still bits page (on 0 after) (
                pages_still bits 0 after (pages_changed bits page (overlay offset buffer) m pages)))
              λ w' at'. Gives-catch read w' buffer (on page (on 0 after)) (
                Gives-eq w' read refl
                  (ap (λ m. window (cell m) offset (length buffer)) at'
                    ∙ window-page page offset buffer m above)
                  at' (read_multi_byte-Gives plugged.paged w' offset (length buffer) inside))))
      where
        read : Io W (List ℕ)
        read = sdi_smbus_read_multi_byte dev.bus_hdl dev.i2c_addr offset (length buffer) flag_none

        after : Memory
        after = change_page page (overlay offset buffer) m

  -- On a plugged QSFP module with pages that is in no adapter, for bytes of the upper half of a page:
  -- sdi_qsfp_write_generic with the device's own address succeeds, and the memory afterwards shows
  -- page 0 and has the bytes on that page, every other byte of every page being as it was;
  -- sdi_qsfp_read_generic of the same page then gives the bytes and leaves the memory as it is.
  pub read_generic-write_generic :
      (view : W → Memory) (page offset : ℕ) (buffer stale : List ℕ) (w : W)
      → IsPlugged clock dev view
      → dev.mod_type ≡ media_default
      → HasPages bits (view w)
      → page < 256
      → 128 ≤ offset
      → offset + length buffer ≤ 256
      → 0 < length buffer
      → (w' : W) × (sdi_qsfp_write_generic bits clock dev (at_page page offset) buffer w
          ≡ (ok tt, w'))
        × (view w' ≡ on 0 (change_page page (overlay offset buffer) (view w)))
        × Gives view
            (sdi_qsfp_read_generic bits clock dev stale (at_page page offset) (length buffer))
            w'
            buffer
            (view w')
  read_generic-write_generic view page offset buffer stale w plugged own pages small above inside
        n =
      let (w', done, after) =
        write-Gives plugged own page offset buffer small above inside n w pages in
      (
        w',
        done,
        after,
        read-Gives plugged own page offset buffer small above inside n stale w' (view w) after
            pages,
      )

  -- On a plugged QSFP module with pages that is in no adapter: where a read from another I2C address
  -- fails, with any error and each time, sdi_qsfp_read_generic from that address and a page still
  -- succeeds, and its buffer is what a failed read leaves; only page 0 is selected afterwards.
  pub read_error_is_lost :
      (view : W → Memory) (address page offset data_len : ℕ) (stale : List ℕ) (e : StdError) (w : W)
      → IsPlugged clock dev view
      → dev.mod_type ≡ media_default
      → HasPages bits (view w)
      → page < 256
      → 0 < data_len
      → ((w : W)
          → (w' : W) × (sdi_smbus_read_multi_byte dev.bus_hdl address offset data_len flag_none w
              ≡ (err e, w'))
            × (view w' ≡ view w))
      → Gives view
          (sdi_qsfp_read_generic bits clock dev stale
            (record { device_addr = number address; page = number page; offset = offset })
            data_len)
          w
          stale
          (on 0 (view w))
  unfolding sdi_qsfp_read_generic on_address
  read_error_is_lost view address page offset data_len stale e w plugged own pages small n fails =
      let yes : ltb 0 data_len ≡ true = ground arith in
      rw (yes, own)
        (Gives-eq w (on_page bits clock dev stale (number page) read) refl refl
          (on-on 0 page (view w))
          (on_page-Gives bits clock dev plugged stale page read (inl e) (λ m. m) w (view w) refl
            pages small (pages_still bits page (view w) pages)
            λ w' at. let (w'', failed, same) = fails w' in (w'', ap caught failed, same ∙ at)))
    where
      read : Io W (List ℕ)
      read = sdi_smbus_read_multi_byte dev.bus_hdl address offset data_len flag_none
