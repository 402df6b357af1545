-- ===== src/Examples/Mux.antt =====
-- A channel whose I2C bus cannot be acquired.
use opx_sdi_sys.Base.{◌≡◌, refl, true, false, ok, err, errno, errcode, enotsup, fail, pure}
use opx_sdi_sys.Bus.{pin_group_bus, i2c_bus}
use opx_sdi_sys.Bus.Group.{GroupOps}
use opx_sdi_sys.Bus.Pin.{output, normal}
use opx_sdi_sys.I2cMux.{Channel, sdi_i2cmux_pin_chan_acquire_bus, sdi_i2cmux_pin_chan_release_bus}
use opx_sdi_sys.I2cMux.Rollback.{Locks, IsChannel, all_or_none, acquires_all_or_none}

abbrev pins : GroupOps Locks
pins = record {
  read_level = pure 0;
  write_level = λ v. pure tt;
  set_direction = λ d. fail (errcode enotsup);
  get_direction = pure output;
  set_polarity = λ p. fail (errcode enotsup);
  get_polarity = pure normal;
}

abbrev stuck_channel : Channel Locks
stuck_channel = record {
  mux_lock = record { lock = λ w. (ok tt, (true, w.1, w.2)); unlock = λ w. (false, w.1, w.2) };
  pingroup = record {
    bus_type = pin_group_bus;
    ops = pins;
    mutex = record { lock = λ w. (ok tt, (w.0, true, w.2)); unlock = λ w. (w.0, false, w.2) };
  };
  i2cbus = record {
    bus_type = i2c_bus;
    ops = record {
      smbus_read = λ addr type cmd flags. fail (errcode enotsup);
      smbus_write = λ addr type cmd bytes flags. fail (errcode enotsup);
      i2c_read = λ addr cmd n flags. fail (errcode enotsup);
      i2c_write = λ addr cmd b n flags. fail (errcode enotsup);
    };
    mutex = record { lock = λ w. (err errno, w); unlock = λ w. (w.0, w.1, false) };
  };
  i2c_mux_channel = 2;
}

stuck_channel-IsChannel : IsChannel stuck_channel (λ w. w)
stuck_channel-IsChannel = record {
  group = refl;
  mux-lock = λ w. refl;
  mux-unlock = λ w. refl;
  group-lock = λ w. refl;
  group-unlock = λ w. refl;
  i2c-lock = λ w. refl;
  i2c-unlock = λ w. refl;
  level-keeps = λ w v. refl;
}

acquires_all_or_none_example :
    (all_or_none (λ w. w) (sdi_i2cmux_pin_chan_acquire_bus stuck_channel (false, false, false))
      ≡ true)
    × (sdi_i2cmux_pin_chan_release_bus stuck_channel (true, true, true) ≡ (false, false, false))
acquires_all_or_none_example =
    acquires_all_or_none stuck_channel (λ w. w) (false, false, false) (true, true, true)
      stuck_channel-IsChannel refl
