-- ===== src/I2cMux.antt =====
-- src/drivers/sdi_i2cmux_pin.c: the channels of an I2C multiplexer that a pin group selects. To
-- acquire a channel takes three locks: of the multiplexer, of the pin group and of the I2C bus
-- behind it.
pub mod Rollback
use opx_sdi_sys.Base.{
  Rc, catch, rc_of, ℕ, Bool, true, false, Option, none, some, ◌⊎◌, inl, inr, Io, Result, ok,
  StdError, err, abort, errno, pure, fail, ◌>>=◌, ◌>>◌, and_then,
}
use opx_sdi_sys.Bus.Mutex.{Mutex}
use opx_sdi_sys.Bus.Group.{
  GroupBus, sdi_pin_group_acquire_bus, sdi_pin_group_release_bus, sdi_pin_group_write_level,
}
use opx_sdi_sys.I2c.{I2cBus}

-- A channel of a multiplexer: sdi_i2cmux_pin_chan_bus_t with what it uses of its sdi_i2cmux_pin_t.
pub record Channel (W : Type 0) : Type 0 where
  pub mux_lock : Mutex W
  pub pingroup : GroupBus W
  pub i2cbus : I2cBus W
  pub i2c_mux_channel : ℕ

module _ {W : Type 0} (chan : Channel W) where
  open chan use {mux_lock, pingroup, i2cbus, i2c_mux_channel}

  -- The body of the do-while: is_pin_group_bus_acquired, and the error.
  abbrev pub after_select : StdError ⊎ Unit {0} → Io W (Bool × Rc)
  after_select (inl e) = pure (true, some e)
  after_select (inr tt) = catch i2cbus.mutex.lock >>= λ r. pure (true, rc_of r)

  abbrev pub after_group : StdError ⊎ Unit {0} → Io W (Bool × Rc)
  after_group (inl e) = pure (false, some e)
  after_group (inr tt) = catch (sdi_pin_group_write_level pingroup i2c_mux_channel) >>= after_select

  -- What is given back where a step has failed.
  abbrev pub roll_back : Bool × Rc → Io W (Unit {0})
  roll_back (acquired, none) w = (ok tt, w)
  roll_back (true, some e) w = (err e, mux_lock.unlock (sdi_pin_group_release_bus pingroup w).1)
  roll_back (false, some e) w = (err e, mux_lock.unlock w)

  abbrev pub after_lock : StdError ⊎ Unit {0} → Io W (Unit {0})
  after_lock (inl e) = fail errno
  after_lock (inr tt) = catch (sdi_pin_group_acquire_bus pingroup) >>= after_group >>= roll_back

  pub sdi_i2cmux_pin_chan_acquire_bus : Io W (Unit {0})
  unfolding sdi_pin_group_acquire_bus sdi_pin_group_release_bus sdi_pin_group_write_level
  sdi_i2cmux_pin_chan_acquire_bus = catch mux_lock.lock >>= after_lock

  pub sdi_i2cmux_pin_chan_release_bus : W → W
  unfolding sdi_pin_group_release_bus
  sdi_i2cmux_pin_chan_release_bus w =
      mux_lock.unlock (sdi_pin_group_release_bus pingroup (i2cbus.mutex.unlock w)).1
