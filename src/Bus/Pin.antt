-- ===== src/Bus/Pin.antt =====
-- src/framework/sdi_pin_bus_api.c and inc/opx/private/sdi_pin.h: the API of a single pin. Each call
-- checks the bus type, takes the bus lock, calls the driver and gives the lock back.
pub mod Locking
use opx_sdi_sys.Base.{◌≡◌, refl, Bool, true, false, arith, Io, ok, std_assert, ◌>>=◌, ◌>>◌}
use opx_sdi_sys.Bus.{BusType, pin_bus}
use opx_sdi_sys.Bus.Mutex.{Mutex, with_lock}

-- sdi_pin_bus_direction_t
pub data Direction : Type 0 where
  input output : Direction

-- sdi_pin_bus_polarity_t
pub data Polarity : Type 0 where
  normal inverted : Polarity

-- sdi_pin_bus_level_t
pub data Level : Type 0 where
  low high : Level

-- sdi_pin_bus_ops_t, for one pin
pub record PinOps (W : Type 0) : Type 0 where
  pub read_level : Io W Level
  pub write_level : Level → Io W (Unit {0})
  pub set_direction : Direction → Io W (Unit {0})
  pub get_direction : Io W Direction
  pub set_polarity : Polarity → Io W (Unit {0})
  pub get_polarity : Io W Polarity

-- What the API uses of an sdi_pin_bus_t.
pub record PinBus (W : Type 0) : Type 0 where
  pub bus_type : BusType
  pub ops : PinOps W
  pub mutex : Mutex W

abbrev is_pin_bus : BusType → Bool
is_pin_bus pin_bus = true
is_pin_bus _ = false

module _ {W : Type 0} (bus : PinBus W) where
  pub sdi_validate_pin_bus_handle : Io W (Unit {0})
  sdi_validate_pin_bus_handle = std_assert (is_pin_bus bus.bus_type)

  pub sdi_pin_read_level : Io W Level
  unfolding sdi_validate_pin_bus_handle
  sdi_pin_read_level = sdi_validate_pin_bus_handle >> with_lock bus.mutex bus.ops.read_level

  unfoldable pub sdi_pin_write_level : Level → Io W (Unit {0})
  unfolding sdi_validate_pin_bus_handle
  sdi_pin_write_level value =
      sdi_validate_pin_bus_handle >> with_lock bus.mutex (bus.ops.write_level value)

  pub sdi_pin_set_direction : Direction → Io W (Unit {0})
  unfolding sdi_validate_pin_bus_handle
  sdi_pin_set_direction direction =
      sdi_validate_pin_bus_handle >> with_lock bus.mutex (bus.ops.set_direction direction)

  pub sdi_pin_get_direction : Io W Direction
  unfolding sdi_validate_pin_bus_handle
  sdi_pin_get_direction = sdi_validate_pin_bus_handle >> with_lock bus.mutex bus.ops.get_direction

  pub sdi_pin_set_polarity : Polarity → Io W (Unit {0})
  unfolding sdi_validate_pin_bus_handle
  sdi_pin_set_polarity polarity =
      sdi_validate_pin_bus_handle >> with_lock bus.mutex (bus.ops.set_polarity polarity)

  pub sdi_pin_get_polarity : Io W Polarity
  unfolding sdi_validate_pin_bus_handle
  sdi_pin_get_polarity = sdi_validate_pin_bus_handle >> with_lock bus.mutex bus.ops.get_polarity
