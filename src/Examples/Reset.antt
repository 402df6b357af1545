-- ===== src/Examples/Reset.antt =====
-- An entity with two levels of reset and a power pin; its world counts the initialisations, and has a
-- lock for the pins. The driver of one of its resources fails when it is initialised.
use opx_sdi_sys.Base.{
  ℕ, ◌+◌, ◌≡◌, refl, true, false, some, Io, err, errno, errcode, enotsup, inl, fail, pure,
}
use opx_sdi_sys.Base.StdBits.{binary_bits}
use opx_sdi_sys.Bus.{pin_bus, pin_group_bus}
use opx_sdi_sys.Bus.Mutex.{released}
use opx_sdi_sys.Bus.Group.{GroupBus}
use opx_sdi_sys.Bus.Pin.{PinBus, output, normal, low}
use opx_sdi_sys.EntityReset.{Entity, sdi_entity_reset, sdi_entity_power_status_control}
use opx_sdi_sys.EntityReset.Locks.{reset_releases}
use opx_sdi_sys.EntityReset.Again.{Inits, initialises_again}
use opx_sdi_sys.Examples.{Locked, lock_of, is_held, lock_of-IsMutex}

-- The count and the lock.
abbrev Tray : Type 0
Tray = Locked ℕ

abbrev reset_group : GroupBus Tray
reset_group = record {
  bus_type = pin_group_bus;
  ops = record {
    read_level = pure 0;
    write_level = λ v. pure tt;
    set_direction = λ d. fail (errcode enotsup);
    get_direction = pure output;
    set_polarity = λ p. fail (errcode enotsup);
    get_polarity = pure normal;
  };
  mutex = lock_of;
}

abbrev power_switch : PinBus Tray
power_switch = record {
  bus_type = pin_bus;
  ops = record {
    read_level = pure low;
    write_level = λ v. pure tt;
    set_direction = λ d. fail (errcode enotsup);
    get_direction = pure output;
    set_polarity = λ p. fail (errcode enotsup);
    get_polarity = pure normal;
  };
  mutex = lock_of;
}

abbrev tray : Entity Tray
tray = record {
  oper_support_flag = 11;
  reset_value = λ type. type + 1;
  delay = 50;
  power_pin_hdl = some power_switch;
  reset_pin_grp_hdl = λ type. some reset_group;
  reset_pin_grp_hdl_l1 = some reset_group;
  reset_value_l1 = 3;
}

abbrev no_sleep : ℕ → Tray → Tray
no_sleep ms w = w

abbrev failing_init : Io Tray (Unit {0})
failing_init w = (err errno, (w.0 + 1, w.1))

reset_releases_example :
    released is_held (sdi_entity_reset binary_bits no_sleep failing_init tray 1 (4, false)) ≡ true
reset_releases_example =
    reset_releases binary_bits no_sleep failing_init tray is_held 1 (4, false) (λ ms w. refl)
      (λ w. refl) (λ type. inl lock_of-IsMutex) (inl lock_of-IsMutex) refl

initialises_again_example :
    Inits (λ w. w.0) 4 1 (sdi_entity_reset binary_bits no_sleep failing_init tray 1 (4, false))
    × Inits
        (λ w. w.0)
        4
        1
        (sdi_entity_power_status_control binary_bits no_sleep failing_init tray true (4, false))
initialises_again_example =
    initialises_again binary_bits no_sleep failing_init tray (λ w. w.0) 1 true (4, false)
      (λ ms w. refl) (λ w. refl) (λ type value. ((λ w. refl), (λ w. refl), (λ w. refl)))
      (λ value. ((λ w. refl), (λ w. refl), (λ w. refl)))
      (λ level. ((λ w. refl), (λ w. refl), (λ w. refl)))
