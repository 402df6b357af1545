-- ===== src/Bus/Pin/Locking.antt =====
-- The lock of a pin bus around every call of src/framework/sdi_pin_bus_api.c.
use opx_sdi_sys.Base.{◌≡◌, Bool, true, false}
use opx_sdi_sys.Bus.{pin_bus}
use opx_sdi_sys.Bus.Mutex.{IsMutex, released, released-with_lock}
use opx_sdi_sys.Bus.Pin.{
  PinBus, Level, Direction, Polarity, sdi_pin_read_level, sdi_pin_write_level,
  sdi_pin_set_direction, sdi_pin_get_direction, sdi_pin_set_polarity, sdi_pin_get_polarity,
}

module _ {W : Type 0} (bus : PinBus W) (v : Level) (d : Direction) (p : Polarity) where
  -- On a handle of a pin bus, whose lock is free before the call: after each of the six calls the
  -- lock is free again, whatever the driver returned, unless a failed STD_ASSERT ended the process.
  pub pin_calls_release :
      (held : W → Bool) (w : W)
      → bus.bus_type ≡ pin_bus
      → IsMutex bus.mutex held
      → held w ≡ false
      → (released held (sdi_pin_read_level bus w) ≡ true)
        × (released held (sdi_pin_write_level bus v w) ≡ true)
        × (released held (sdi_pin_set_direction bus d w) ≡ true)
        × (released held (sdi_pin_get_direction bus w) ≡ true)
        × (released held (sdi_pin_set_polarity bus p w) ≡ true)
        × (released held (sdi_pin_get_polarity bus w) ≡ true)
  unfolding sdi_pin_read_level sdi_pin_write_level sdi_pin_set_direction sdi_pin_get_direction
      sdi_pin_set_polarity sdi_pin_get_polarity
  pin_calls_release held w pin mutex free = rw pin (
    released-with_lock mutex _ w free,
    released-with_lock mutex _ w free,
    released-with_lock mutex _ w free,
    released-with_lock mutex _ w free,
    released-with_lock mutex _ w free,
    released-with_lock mutex _ w free,
  )
