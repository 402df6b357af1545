-- ===== src/Qsfp/Raw.antt =====
-- src/drivers/sdi_qsfp_eeprom.c: the raw reads and writes of the memory of a QSFP module.
use opx_sdi_sys.Base.{
  ℕ, Bool, true, false, Option, none, some, ◌⊎◌, inl, inr, List, ltb, if◌then◌else◌, length, Io,
  StdError, errcode, enotsup, einval, pure, fail, std_assert, catch, value_or, ◌>>=◌, ◌>>◌,
}
use opx_sdi_sys.Base.StdBits.{StdBits}
use opx_sdi_sys.I2c.{flag_none, sdi_smbus_read_multi_byte, sdi_smbus_write_multi_byte}
use opx_sdi_sys.Media.{
  Clock, EepromAddr, IntArgument, minus_one, below, number, auto_address, i2c_address,
}
use opx_sdi_sys.Sfp.{sdi_sfp_read_generic, sdi_sfp_write_generic}
use opx_sdi_sys.Qsfp.{
  QsfpDevice, page_default, on_media, selected, sdi_qsfp_page_select, sdi_is_paging_supported,
}

-- `rc == SDI_DEVICE_ERRCODE(ENOTSUP)`
abbrev is_enotsup : StdError → Bool
is_enotsup (errcode enotsup) = true
is_enotsup _ = false

module _ {W : Type 0} (bits : StdBits) (clock : Clock W) (dev : QsfpDevice W) where
  open dev use {bus_hdl, i2c_addr, mod_type, sfp_device}

  unfoldable pub page_select_if : Bool → ℕ → Io W (Unit {0})
  unfolding sdi_qsfp_page_select
  page_select_if true page = sdi_qsfp_page_select bits clock dev page
  page_select_if false page = pure tt

  module _ {A : Type 0} (stale : A) where
    -- The do-while: paging_support_flag, and the code or the value.
    abbrev pub access_after : Bool → Io W A → StdError ⊎ Unit {0} → Io W (Bool × (StdError ⊎ A))
    access_after flag access (inl e) = pure (if is_enotsup e then false else flag, inl e)
    access_after flag access (inr tt) = catch access >>= λ r. pure (flag, r)

    -- Page 0 is selected again, and the code of that is the code of the call, whatever came before;
    -- `stale` is what the buffer of the caller holds after a failed access.
    unfoldable pub default_page_after : Bool × (StdError ⊎ A) → Io W A
    unfolding sdi_qsfp_page_select
    default_page_after (true, r) =
        sdi_qsfp_page_select bits clock dev page_default >> pure (value_or stale r)
    default_page_after (false, inl e) = fail e
    default_page_after (false, inr a) = pure a

    unfoldable pub paged_access : Bool → ℕ → Io W A → Io W A
    unfolding page_select_if default_page_after selected
    paged_access flag page access =
        selected bits clock dev
          (catch (page_select_if flag page) >>= access_after flag access >>= default_page_after)

    -- The test of the page; the module is not selected yet when its status byte is read, and a failed
    -- read counts as no paging.
    unfoldable pub on_page : IntArgument → Io W A → Io W A
    unfolding paged_access sdi_is_paging_supported
    on_page minus_one access = paged_access false page_default access
    on_page below access = fail (errcode einval)
    on_page (number page) access = do
      flag ← catch (sdi_is_paging_supported bits clock dev)
      paged_access (value_or false flag) page access

    unfoldable pub on_address : Option ℕ → IntArgument → (ℕ → Io W A) → Io W A
    unfolding on_page
    on_address none page access = fail (errcode einval)
    on_address (some address) page access = on_page page (access address)

  unfoldable pub sdi_qsfp_read_generic : List ℕ → EepromAddr → ℕ → Io W (List ℕ)
  unfolding on_address sdi_sfp_read_generic sdi_smbus_read_multi_byte
  sdi_qsfp_read_generic stale addr data_len =
      std_assert (ltb 0 data_len)
      >> on_media mod_type sfp_device (λ sfp. sdi_sfp_read_generic bits sfp addr data_len)
          (on_address stale (i2c_address addr.device_addr i2c_addr) addr.page
            λ address. sdi_smbus_read_multi_byte bus_hdl address addr.offset data_len flag_none)

  unfoldable pub sdi_qsfp_write_generic : EepromAddr → List ℕ → Io W (Unit {0})
  unfolding on_address sdi_sfp_write_generic sdi_smbus_write_multi_byte
  sdi_qsfp_write_generic addr buffer =
      std_assert (ltb 0 (length buffer))
      >> on_media mod_type sfp_device (λ sfp. sdi_sfp_write_generic bits sfp addr buffer)
          (on_address tt (i2c_address addr.device_addr i2c_addr) addr.page
            λ address. sdi_smbus_write_multi_byte bus_hdl address addr.offset buffer flag_none)

  pub sdi_qsfp_read : List ℕ → ℕ → ℕ → Io W (List ℕ)
  unfolding sdi_qsfp_read_generic
  sdi_qsfp_read stale offset = sdi_qsfp_read_generic stale (auto_address offset)

  pub sdi_qsfp_write : ℕ → List ℕ → Io W (Unit {0})
  unfolding sdi_qsfp_write_generic
  sdi_qsfp_write offset = sdi_qsfp_write_generic (auto_address offset)
