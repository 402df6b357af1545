-- ===== src/I2c/Locking.antt =====
-- The lock of an I2C bus around every call of src/framework/sdi_i2c_bus_api.c.
use opx_sdi_sys.Base.{ℕ, List, ◌≡◌, Bool, true, false, Io, StdError, err}
use opx_sdi_sys.Bus.{i2c_bus}
use opx_sdi_sys.Bus.Mutex.{IsMutex, released, released-with_lock, with_lock_failed}
use opx_sdi_sys.I2c.{
  I2cBus, on_bus, sdi_smbus_recv_byte, sdi_smbus_send_byte, sdi_smbus_read_byte,
  sdi_smbus_write_byte, sdi_i2c_read, sdi_i2c_write, sdi_smbus_read_multi_byte,
  sdi_smbus_write_multi_byte, sdi_smbus_read_word, sdi_smbus_write_word,
  sdi_smbus_write_i2c_block_data,
}

module _ {W A : Type 0} (bus : I2cBus W) (i2c : bus.bus_type ≡ i2c_bus) (call : Io W A) where
  released-on_bus :
      {held : W → Bool}
      → IsMutex bus.mutex held
      → (w : W) → held w ≡ false
      → released held (on_bus bus call w) ≡ true
  unfolding on_bus
  released-on_bus mutex w free = rw i2c (released-with_lock mutex call w free)

  on_bus_failed :
      (w w' : W) (e : StdError) → bus.mutex.lock w ≡ (err e, w') → on_bus bus call w ≡ (err e, w')
  unfolding on_bus
  on_bus_failed w w' e failed = rw i2c (with_lock_failed bus.mutex call w w' e failed)

module _ {W : Type 0} (bus : I2cBus W) (addr cmd v n flags : ℕ) (values : List ℕ) where
  -- On a handle of an I2C bus, whose lock is free before the call: after each of the eleven calls
  -- the lock is free again, whatever the adapter returned, unless a failed STD_ASSERT ended the
  -- process.
  pub calls_release :
      (held : W → Bool) (w : W)
      → bus.bus_type ≡ i2c_bus
      → IsMutex bus.mutex held
      → held w ≡ false
      → (released held (sdi_smbus_recv_byte bus addr flags w) ≡ true)
        × (released held (sdi_smbus_send_byte bus addr v flags w) ≡ true)
        × (released held (sdi_smbus_read_byte bus addr cmd flags w) ≡ true)
        × (released held (sdi_smbus_write_byte bus addr cmd v flags w) ≡ true)
        × (released held (sdi_i2c_read bus addr values n flags w) ≡ true)
        × (released held (sdi_i2c_write bus addr values v n flags w) ≡ true)
        × (released held (sdi_smbus_read_multi_byte bus addr cmd n flags w) ≡ true)
        × (released held (sdi_smbus_write_multi_byte bus addr cmd values flags w) ≡ true)
        × (released held (sdi_smbus_read_word bus addr cmd flags w) ≡ true)
        × (released held (sdi_smbus_write_word bus addr cmd v flags w) ≡ true)
        × (released held (sdi_smbus_write_i2c_block_data bus addr cmd values flags w) ≡ true)
  unfolding sdi_smbus_recv_byte sdi_smbus_send_byte sdi_smbus_read_byte sdi_smbus_write_byte
      sdi_i2c_read sdi_i2c_write sdi_smbus_read_multi_byte sdi_smbus_write_multi_byte
      sdi_smbus_read_word sdi_smbus_write_word sdi_smbus_write_i2c_block_data
  calls_release held w i2c mutex free = (
    released-on_bus bus i2c _ mutex w free,
    released-on_bus bus i2c _ mutex w free,
    released-on_bus bus i2c _ mutex w free,
    released-on_bus bus i2c _ mutex w free,
    released-on_bus bus i2c _ mutex w free,
    released-on_bus bus i2c _ mutex w free,
    released-on_bus bus i2c _ mutex w free,
    released-on_bus bus i2c _ mutex w free,
    released-on_bus bus i2c _ mutex w free,
    released-on_bus bus i2c _ mutex w free,
    released-on_bus bus i2c _ mutex w free,
  )

  -- On a handle of an I2C bus whose acquire fails: each of the eleven calls returns the error of the
  -- acquire and does nothing else.
  acquire_failed :
      (w w' : W) (e : StdError)
      → bus.bus_type ≡ i2c_bus
      → bus.mutex.lock w ≡ (err e, w')
      → (sdi_smbus_recv_byte bus addr flags w ≡ (err e, w'))
        × (sdi_smbus_send_byte bus addr v flags w ≡ (err e, w'))
        × (sdi_smbus_read_byte bus addr cmd flags w ≡ (err e, w'))
        × (sdi_smbus_write_byte bus addr cmd v flags w ≡ (err e, w'))
        × (sdi_i2c_read bus addr values n flags w ≡ (err e, w'))
        × (sdi_i2c_write bus addr values v n flags w ≡ (err e, w'))
        × (sdi_smbus_read_multi_byte bus addr cmd n flags w ≡ (err e, w'))
        × (sdi_smbus_write_multi_byte bus addr cmd values flags w ≡ (err e, w'))
        × (sdi_smbus_read_word bus addr cmd flags w ≡ (err e, w'))
        × (sdi_smbus_write_word bus addr cmd v flags w ≡ (err e, w'))
        × (sdi_smbus_write_i2c_block_data bus addr cmd values flags w ≡ (err e, w'))
  unfolding sdi_smbus_recv_byte sdi_smbus_send_byte sdi_smbus_read_byte sdi_smbus_write_byte
      sdi_i2c_read sdi_i2c_write sdi_smbus_read_multi_byte sdi_smbus_write_multi_byte
      sdi_smbus_read_word sdi_smbus_write_word sdi_smbus_write_i2c_block_data
  acquire_failed w w' e i2c failed = (
    on_bus_failed bus i2c _ w w' e failed,
    on_bus_failed bus i2c _ w w' e failed,
    on_bus_failed bus i2c _ w w' e failed,
    on_bus_failed bus i2c _ w w' e failed,
    on_bus_failed bus i2c _ w w' e failed,
    on_bus_failed bus i2c _ w w' e failed,
    on_bus_failed bus i2c _ w w' e failed,
    on_bus_failed bus i2c _ w w' e failed,
    on_bus_failed bus i2c _ w w' e failed,
    on_bus_failed bus i2c _ w w' e failed,
    on_bus_failed bus i2c _ w w' e failed,
  )
