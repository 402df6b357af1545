-- ===== src/Bus/Group.antt =====
-- src/framework/sdi_pin_group_bus_api.c: the API of a group of pins. The caller takes the bus lock
-- by sdi_pin_group_acquire_bus; the calls themselves only check the bus type.
use opx_sdi_sys.Base.{ℕ, Bool, true, false, Io, std_assert, ◌>>◌, ok}
use opx_sdi_sys.Bus.{BusType, pin_group_bus}
use opx_sdi_sys.Bus.Mutex.{Mutex}
use opx_sdi_sys.Bus.Pin.{Direction, Polarity}

-- sdi_pin_group_bus_ops_t, for one group
pub record GroupOps (W : Type 0) : Type 0 where
  pub read_level : Io W ℕ
  pub write_level : ℕ → Io W (Unit {0})
  pub set_direction : Direction → Io W (Unit {0})
  pub get_direction : Io W Direction
  pub set_polarity : Polarity → Io W (Unit {0})
  pub get_polarity : Io W Polarity

pub record GroupBus (W : Type 0) : Type 0 where
  pub bus_type : BusType
  pub ops : GroupOps W
  pub mutex : Mutex W

abbrev is_pin_group_bus : BusType → Bool
is_pin_group_bus pin_group_bus = true
is_pin_group_bus _ = false

module _ {W : Type 0} (bus : GroupBus W) where
  pub sdi_validate_pin_group_bus_handle : Io W (Unit {0})
  sdi_validate_pin_group_bus_handle = std_assert (is_pin_group_bus bus.bus_type)

  unfoldable pub sdi_pin_group_acquire_bus : Io W (Unit {0})
  sdi_pin_group_acquire_bus = bus.mutex.lock

  unfoldable pub sdi_pin_group_release_bus : Io W (Unit {0})
  sdi_pin_group_release_bus w = (ok tt, bus.mutex.unlock w)

  unfoldable pub sdi_pin_group_read_level : Io W ℕ
  unfolding sdi_validate_pin_group_bus_handle
  sdi_pin_group_read_level = sdi_validate_pin_group_bus_handle >> bus.ops.read_level

  unfoldable pub sdi_pin_group_write_level : ℕ → Io W (Unit {0})
  unfolding sdi_validate_pin_group_bus_handle
  sdi_pin_group_write_level value = sdi_validate_pin_group_bus_handle >> bus.ops.write_level value

  unfoldable pub sdi_pin_group_set_direction : Direction → Io W (Unit {0})
  unfolding sdi_validate_pin_group_bus_handle
  sdi_pin_group_set_direction direction =
      sdi_validate_pin_group_bus_handle >> bus.ops.set_direction direction

  unfoldable pub sdi_pin_group_get_direction : Io W Direction
  unfolding sdi_validate_pin_group_bus_handle
  sdi_pin_group_get_direction = sdi_validate_pin_group_bus_handle >> bus.ops.get_direction

  unfoldable pub sdi_pin_group_set_polarity : Polarity → Io W (Unit {0})
  unfolding sdi_validate_pin_group_bus_handle
  sdi_pin_group_set_polarity polarity =
      sdi_validate_pin_group_bus_handle >> bus.ops.set_polarity polarity

  unfoldable pub sdi_pin_group_get_polarity : Io W Polarity
  unfolding sdi_validate_pin_group_bus_handle
  sdi_pin_group_get_polarity = sdi_validate_pin_group_bus_handle >> bus.ops.get_polarity
