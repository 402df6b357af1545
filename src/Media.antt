-- ===== src/Media.antt =====
-- What the drivers of pluggable media share: the selection of a module, which
-- src/drivers/sdi_sfp_eeprom.c and src/drivers/sdi_qsfp_eeprom.c each write out in the same words,
-- and the addresses of inc/opx/sdi_media.h.
pub mod Selection
pub mod Paged
use opx_sdi_sys.Base.StdBits.{StdBits}
use opx_sdi_sys.Base.{
  ℕ, bit_and, bit_or, ◌==◌, not, Bool, true, false, Option, none, some, Io, Result, ok, err, abort,
  pure, ◌>>◌, and_then,
}
use opx_sdi_sys.Bus.Mutex.{Mutex}
use opx_sdi_sys.Bus.Group.{
  GroupBus, sdi_pin_group_acquire_bus, sdi_pin_group_release_bus, sdi_pin_group_write_level,
}

-- The first four fields of sfp_device_t and qsfp_device_t; `none` is a NULL handle.
pub record Selector (W : Type 0) : Type 0 where
  pub mux_sel_hdl : Option (GroupBus W)
  pub mux_sel_value : ℕ
  pub mod_sel_hdl : Option (GroupBus W)
  pub mod_sel_value : ℕ

-- std_usleep and MILLI_TO_MICRO of the common library.
pub record Clock (W : Type 0) : Type 0 where
  pub std_usleep : ℕ → W → W
  pub milli_to_micro : ℕ → ℕ

abbrev pub nap : {W : Type 0} → Clock W → ℕ → Io W (Unit {0})
nap clock micro w = (ok tt, clock.std_usleep micro w)

-- sdi_media_device_addr_t and sdi_media_page_t: a C int is -1 for the first constructor, any other
-- negative value for the second, and else the number.
pub data IntArgument : Type 0 where
  minus_one below : IntArgument
  number : ℕ → IntArgument

-- sdi_media_eeprom_addr_t
pub record EepromAddr : Type 0 where
  pub device_addr : IntArgument
  pub page : IntArgument
  pub offset : ℕ

-- SDI_MEDIA_DEVICE_ADDR_AUTO and SDI_MEDIA_PAGE_SELECT_IGNORE
abbrev pub auto_address : ℕ → EepromAddr
auto_address offset = record { device_addr = minus_one; page = minus_one; offset = offset }

-- The address of the caller, or that of the device; `none` for a value that is refused.
abbrev pub i2c_address : IntArgument → ℕ → Option ℕ
i2c_address minus_one addr = some addr
i2c_address below addr = none
i2c_address (number n) addr = some n

-- SDI_MEDIA_STATUS_TXDISABLE and the other three
abbrev pub txdisable : ℕ
txdisable = 1

abbrev pub txfault : ℕ
txfault = 2

abbrev pub txloss : ℕ
txloss = 4

abbrev pub rxloss : ℕ
rxloss = 8

-- `if (...) *status |= flag;`
abbrev pub add_flag : Bool → ℕ → ℕ → ℕ
add_flag true flag status = bit_or status flag
add_flag false flag status = status

abbrev pub any_bit : ℕ → ℕ → Bool
any_bit buf mask = not (bit_and buf mask == 0)

-- `if (a) *status |= f; else if (b) *status |= g;`
abbrev pub first_flag : Bool → ℕ → Bool → ℕ → ℕ → ℕ
first_flag true f b g status = bit_or status f
first_flag false f b g status = add_flag b g status

-- STD_BIT_CLEAR to enable, STD_BIT_SET to disable
unfoldable pub set_disable : StdBits → Bool → ℕ → ℕ → ℕ
set_disable bits true buf k = bits.clear buf k
set_disable bits false buf k = bits.set buf k

module _ {W : Type 0} where
  -- What is given back where a step has failed.
  abbrev pub unless_ok : {A : Type 0} → (W → W) → Result A × W → Result A × W
  unless_ok undo (ok a, w) = (ok a, w)
  unless_ok undo (err e, w) = (err e, undo w)
  unless_ok undo (abort, w) = (abort, w)

  unfoldable pub release_group : Option (GroupBus W) → W → W
  unfolding sdi_pin_group_release_bus
  release_group none w = w
  release_group (some group) w = (sdi_pin_group_release_bus group w).1

  unfoldable pub select_mux : Option (GroupBus W) → ℕ → Io W (Unit {0})
  unfolding sdi_pin_group_acquire_bus sdi_pin_group_write_level release_group
  select_mux none value w = (ok tt, w)
  select_mux (some mux) value w =
      and_then (sdi_pin_group_acquire_bus mux w)
        (λ _ w'. unless_ok (release_group (some mux)) (sdi_pin_group_write_level mux value w'))

  unfoldable pub select_module : Option (GroupBus W) → Option (GroupBus W) → ℕ → Io W (Unit {0})
  unfolding sdi_pin_group_acquire_bus sdi_pin_group_write_level release_group
  select_module mux none value w = (ok tt, w)
  select_module mux (some mod_sel) value w =
      and_then (unless_ok (release_group mux) (sdi_pin_group_acquire_bus mod_sel w)) (λ _ w'.
        unless_ok (λ u. release_group (some mod_sel) (release_group mux u))
          (sdi_pin_group_write_level mod_sel value w'))

module _ {W : Type 0} (s : Selector W) where
  open s use {mux_sel_hdl, mux_sel_value, mod_sel_hdl, mod_sel_value}

  unfoldable pub module_select : Io W (Unit {0})
  unfolding select_mux select_module
  module_select =
      select_mux mux_sel_hdl mux_sel_value >> select_module mux_sel_hdl mod_sel_hdl mod_sel_value

  unfoldable pub module_deselect : W → W
  unfolding release_group
  module_deselect w = release_group mod_sel_hdl (release_group mux_sel_hdl w)

  -- The selection is taken before the accesses to a module, and given back after them.
  abbrev pub selection : Mutex W
  selection = record { lock = module_select; unlock = module_deselect }
