-- ===== src/Qsfp/PagedAccess.antt =====
-- src/drivers/sdi_qsfp_eeprom.c: an access to a page of a QSFP module, which is selected before it.
use opx_sdi_sys.Base.{
  ℕ, ◌%◌, ◌^◌, ◌<◌, ◌≡◌, refl, ap, ◌∙◌, true, arith, ◌⊎◌, StdError, Io, catch, pure, ◌>>=◌,
  value_or,
}
use opx_sdi_sys.Base.StdBits.{StdBits}
use opx_sdi_sys.I2c.Device.{Gives, Gives-eq, Gives-then}
use opx_sdi_sys.I2c.Registers.{put}
use opx_sdi_sys.Media.{Clock, number}
use opx_sdi_sys.Media.Paged.{Memory, cell, store, change_page, page_select_byte}
use opx_sdi_sys.Qsfp.{QsfpDevice, page_default, sdi_qsfp_page_select, sdi_is_paging_supported}
use opx_sdi_sys.Qsfp.Raw.{page_select_if, access_after, default_page_after, paged_access, on_page}
use opx_sdi_sys.Qsfp.Plugged.{
  IsPlugged, HasPages, Gives-catch, selected-Gives, page_select-Gives, paging-Gives,
}

-- The memory with a page selected.
abbrev pub on : ℕ → Memory → Memory
on page m = record m { lower = put page_select_byte page m.lower }

pub select_stores : (page : ℕ) (m : Memory) → store page_select_byte page m ≡ on page m
unfolding store
select_stores page m = refl

pub pages_still :
    (bits : StdBits) (page : ℕ) (m : Memory) → HasPages bits m → HasPages bits (on page m)
unfolding cell
pages_still bits page m pages = pages

pub pages_changed :
    (bits : StdBits) (page : ℕ) (f : (ℕ → ℕ) → ℕ → ℕ) (m : Memory)
    → HasPages bits m
    → HasPages bits (change_page page f m)
unfolding cell
pages_changed bits page f m pages = pages

module _ {W : Type 0} (bits : StdBits) (clock : Clock W) (dev : QsfpDevice W) {view : W → Memory}
    (plugged : IsPlugged clock dev view) {A : Type 0} (stale : A) where
  -- An access to a page, after which page 0 is selected again; `r` is what the access ends with.
  paged-Gives :
      (page : ℕ) (access : Io W A) (r : StdError ⊎ A) (next : Memory → Memory) (w : W) (m : Memory)
      → view w ≡ m
      → HasPages bits m
      → page < 256
      → HasPages bits (next (on page m))
      → ((w' : W) → view w' ≡ on page m → Gives view (catch access) w' r (next (on page m)))
      → Gives view
          (paged_access bits clock dev stale true page access)
          w
          (value_or stale r)
          (on 0 (next (on page m)))
  unfolding paged_access page_select_if default_page_after
  paged-Gives page access r next w m at pages small pages' acts =
      selected-Gives bits clock dev plugged
        (catch (page_select_if bits clock dev true page)
          >>= access_after bits clock dev stale true access
          >>= default_page_after bits clock dev stale)
        w (value_or stale r) (on 0 (next (on page m)))
        λ w1 at1.
          Gives-then
            (catch (page_select_if bits clock dev true page)
              >>= access_after bits clock dev stale true access)
            (default_page_after bits clock dev stale)
            (Gives-then (catch (page_select_if bits clock dev true page))
              (access_after bits clock dev stale true access)
              (Gives-catch (sdi_qsfp_page_select bits clock dev page) w1 tt (on page m) (
                Gives-eq w1 (sdi_qsfp_page_select bits clock dev page) refl refl
                  (to_page page small)
                  (page_select-Gives bits clock dev plugged page w1 m (at1 ∙ at) pages)))
              λ w2 at2.
                Gives-then (catch access) (λ r. pure (true, r)) (acts w2 at2)
                  λ w3 at3. (w3, refl, at3))
            λ w3 at3.
              Gives-then (sdi_qsfp_page_select bits clock dev page_default)
                (λ _. pure (value_or stale r))
                (page_select-Gives bits clock dev plugged page_default w3 (next (on page m)) at3
                  pages')
                λ w4 at4. (w4, refl, at4 ∙ select_stores 0 (next (on page m)))
    where
      to_page : (page : ℕ) → page < 256 → store page_select_byte (page % 2 ^ 8) m ≡ on page m
      to_page page small =
          let whole : page % 2 ^ 8 ≡ page = omega arith in
          ap (λ p. store page_select_byte p m) whole ∙ select_stores page m

  -- The page is probed first.
  pub on_page-Gives :
      (page : ℕ) (access : Io W A) (r : StdError ⊎ A) (next : Memory → Memory) (w : W) (m : Memory)
      → view w ≡ m
      → HasPages bits m
      → page < 256
      → HasPages bits (next (on page m))
      → ((w' : W) → view w' ≡ on page m → Gives view (catch access) w' r (next (on page m)))
      → Gives view
          (on_page bits clock dev stale (number page) access)
          w
          (value_or stale r)
          (on 0 (next (on page m)))
  unfolding on_page
  on_page-Gives page access r next w m at pages small pages' acts =
      Gives-then (catch (sdi_is_paging_supported bits clock dev)) _
        (Gives-catch (sdi_is_paging_supported bits clock dev) w true m
          (paging-Gives bits clock dev plugged w m at pages))
        λ w1 at1. paged-Gives page access r next w1 m at1 pages small pages' acts
