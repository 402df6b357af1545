-- ===== src/Examples/Modules.antt =====
-- A QSFP and an SFP module behind one pin group that selects them; the world is the memory of the
-- module and the lock of the group.
use opx_sdi_sys.Base.{
  ℕ, ◌*◌, refl, true, false, none, some, inr, List, [], ◌∷◌, ◌==◌, if◌then◌else◌, Io, ok, err, fail,
  pure, errcode, enotsup, errno,
}
use opx_sdi_sys.Base.StdBits.{binary_bits}
use opx_sdi_sys.Bus.{i2c_bus, pin_group_bus}
use opx_sdi_sys.Bus.Mutex.{Mutex, with_lock}
use opx_sdi_sys.Bus.Group.{
  GroupBus, sdi_pin_group_acquire_bus, sdi_pin_group_release_bus, sdi_pin_group_write_level,
}
use opx_sdi_sys.Bus.Pin.{output, normal}
use opx_sdi_sys.EntityReset.Keeps.{Keeps}
use opx_sdi_sys.I2c.{I2cBus, sdi_smbus_read_byte, on_bus}
use opx_sdi_sys.Media.{
  Selector, Clock, module_select, module_deselect, select_mux, select_module, release_group,
}
use opx_sdi_sys.Media.Selection.{IsSelectionLock}
use opx_sdi_sys.Media.Paged.{Memory, cell, store, IsPagedModule}
use opx_sdi_sys.Sfp.{SfpDevice}
use opx_sdi_sys.Qsfp.{QsfpDevice, media_default, qsfp28, sdi_is_paging_supported, read_byte}
use opx_sdi_sys.Qsfp.Plugged.{IsPlugged}
use opx_sdi_sys.Examples.{Locked, lock_of, is_held, lock_of-IsMutex}

abbrev pub World : Type 0
World = Locked Memory

abbrev pub view : World → Memory
view w = w.0

abbrev pub free_lock : Mutex World
free_lock = record { lock = pure tt; unlock = λ w. w }

-- The address 0x52 does not answer.
abbrev pub bus : I2cBus World
bus = record {
  bus_type = i2c_bus;
  ops = record {
    smbus_read =
        λ addr type cmd flags w. if addr == 0x52 then (err errno, w) else (ok (cell w.0 cmd), w);
    smbus_write = λ addr type cmd bytes flags. write cmd bytes;
    i2c_read = λ addr cmd n flags. fail (errcode enotsup);
    i2c_write = λ addr cmd b n flags. fail (errcode enotsup);
  };
  mutex = free_lock;
}
  where
    write : ℕ → List ℕ → Io World (Unit {0})
    write cmd [] w = (err (errcode enotsup), w)
    write cmd (v ∷ vs) w = (ok tt, (store cmd v w.0, w.1))

abbrev pub select_pins : GroupBus World
select_pins = record {
  bus_type = pin_group_bus;
  ops = record {
    read_level = pure 0;
    write_level = λ v. pure tt;
    set_direction = λ d. fail (errcode enotsup);
    get_direction = pure output;
    set_polarity = λ p. fail (errcode enotsup);
    get_polarity = pure normal;
  };
  mutex = lock_of;
}

abbrev pub selector : Selector World
selector = record {
  mux_sel_hdl = none;
  mux_sel_value = 0;
  mod_sel_hdl = some select_pins;
  mod_sel_value = 3;
}

abbrev pub clock : Clock World
clock = record { std_usleep = λ micro w. w; milli_to_micro = λ milli. milli * 1000 }

abbrev pub module_at : ℕ → QsfpDevice World
module_at addr = record {
  bus_hdl = bus;
  i2c_addr = addr;
  selector = selector;
  mod_reset_hdl = none;
  mod_reset_bitmask = 0;
  mod_reset_delay_ms = 10;
  delay = 10;
  mod_type = media_default;
  sfp_device = none;
  mod_category = qsfp28;
}

abbrev pub qsfp_module : QsfpDevice World
qsfp_module = module_at 0x50

-- The optional features are there, the software controls the power class, and page 3 is on show.
abbrev pub start : World
start = (
  record {
    lower = λ a. if a == 127 then 3 else 0;
    upper = λ q a. if a == 195 then 16 else if a == 194 then 0xC0 else if a == 129 then 1 else q;
  },
  false,
)

pub selection_lock : IsSelectionLock is_held selector
selection_lock = inr (tt, lock_of-IsMutex)

pub bus-IsPagedModule : IsPagedModule bus 0x50 view
bus-IsPagedModule = record {
  i2c = refl;
  locks = λ w. (w, refl, refl);
  view-unlock = λ w. refl;
  reads = λ w a. (w, refl, refl);
  writes = λ w a v. ((store a v w.0, w.1), refl, refl);
}

pub plugged : IsPlugged clock qsfp_module view
unfolding module_select module_deselect select_mux select_module release_group
    sdi_pin_group_acquire_bus sdi_pin_group_release_bus sdi_pin_group_write_level
plugged = record {
  paged = bus-IsPagedModule;
  selects = λ w. ((w.0, true), refl, refl);
  deselects = λ w. refl;
  sleeps = λ micro w. refl;
}

pub probes : Keeps is_held (sdi_is_paging_supported binary_bits clock qsfp_module)
unfolding sdi_is_paging_supported read_byte sdi_smbus_read_byte with_lock on_bus
probes w = refl

abbrev pub sfp_module : SfpDevice World
sfp_module = record {
  bus_hdl = bus;
  i2c_addr = 0x50;
  selector = selector;
  mod_tx_control_hdl = none;
  mod_tx_control_bitmask = 0;
  mod_sfp_rx_los_hdl = none;
  mod_sfp_rx_los_bitmask = 0;
  mod_sfp_tx_fault_hdl = none;
  mod_sfp_tx_fault_bitmask = 0;
}

-- The module supports the alarms, and its received power is too low.
abbrev pub dark : World
dark = (
  record { lower = λ a. if a == 93 then 0xF0 else if a == 113 then 0x40 else 0; upper = λ q a. 0 },
  false,
)
