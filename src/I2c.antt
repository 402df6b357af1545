-- ===== src/I2c.antt =====
-- src/framework/sdi_i2c_bus_api.c and inc/opx/private/sdi_i2c.h: the SMBus and I2C API. Each call
-- checks the bus type, acquires the bus of the adapter, executes and releases the bus. The null
-- checks have no counterpart: a handle or a buffer is a value.
pub mod Locking
pub mod Device
pub mod MultiByte
pub mod Registers
use opx_sdi_sys.Base.{
  ℕ, zero, suc, ◌+◌, ◌/◌, ◌%◌, ◌^◌, Bool, true, false, List, [], ◌∷◌, bit_and, min, length, take,
  Io, Result, ok, err, pure, std_assert, ◌>>=◌, ◌>>◌, and_then,
}
use opx_sdi_sys.Bus.{BusType, i2c_bus}
use opx_sdi_sys.Bus.Mutex.{Mutex, with_lock, then_unlock}

-- sdi_smbus_data_type_t
pub data DataType : Type 0 where
  byte byte_data word_data block_data : DataType

-- SDI_SMBUS_OFFSET_NON_CMD, the command of a transaction that has none, and SDI_I2C_FLAG_NONE
abbrev pub offset_non_cmd : ℕ
offset_non_cmd = 0

abbrev pub flag_none : ℕ
flag_none = 0

-- sdi_i2c_bus_ops_t without acquire and release. The arguments are the slave address, the type of
-- data, the command and the flags, and for a write the buffer: one byte, one word, or the block of
-- union i2c_smbus_data. A read gives its value; where it fails the buffer is as it was.
pub record I2cOps (W : Type 0) : Type 0 where
  pub smbus_read : ℕ → DataType → ℕ → ℕ → Io W ℕ
  pub smbus_write : ℕ → DataType → ℕ → List ℕ → ℕ → Io W (Unit {0})
  pub i2c_read : ℕ → List ℕ → ℕ → ℕ → Io W (List ℕ)
  pub i2c_write : ℕ → List ℕ → ℕ → ℕ → ℕ → Io W (Unit {0})

-- sdi_i2c_bus_t: sdi_i2c_acquire_bus and sdi_i2c_release_bus are the lock.
pub record I2cBus (W : Type 0) : Type 0 where
  pub bus_type : BusType
  pub ops : I2cOps W
  pub mutex : Mutex W

abbrev pub is_i2c_bus : BusType → Bool
is_i2c_bus i2c_bus = true
is_i2c_bus _ = false

-- I2C_SMBUS_BLOCK_MAX / 2, with the value of linux/i2c.h
abbrev pub half_block_max : ℕ
half_block_max = 16

-- The block of sdi_smbus_write_i2c_block_data: the length, with one more byte for the high half of
-- the command, that half, and the values.
unfoldable pub block_of : ℕ → List ℕ → List ℕ
block_of cmd values =
    (min (length values) half_block_max + 1)
    ∷ bit_and (cmd / 2 ^ 8) 0xff
    ∷ take half_block_max values

module _ {W : Type 0} (bus : I2cBus W) where
  open bus use {ops}

  -- The shape of every call.
  unfoldable pub on_bus : {A : Type 0} → Io W A → Io W A
  on_bus call = std_assert (is_i2c_bus bus.bus_type) >> with_lock bus.mutex call

  unfoldable pub sdi_smbus_recv_byte : ℕ → ℕ → Io W ℕ
  unfolding on_bus
  sdi_smbus_recv_byte addr flags = on_bus (ops.smbus_read addr byte offset_non_cmd flags)

  pub sdi_smbus_send_byte : ℕ → ℕ → ℕ → Io W (Unit {0})
  unfolding on_bus
  sdi_smbus_send_byte addr buffer flags =
      on_bus (ops.smbus_write addr byte offset_non_cmd (buffer ∷ []) flags)

  unfoldable pub sdi_smbus_read_byte : ℕ → ℕ → ℕ → Io W ℕ
  unfolding on_bus
  sdi_smbus_read_byte addr cmd flags = on_bus (ops.smbus_read addr byte_data cmd flags)

  unfoldable pub sdi_smbus_write_byte : ℕ → ℕ → ℕ → ℕ → Io W (Unit {0})
  unfolding on_bus
  sdi_smbus_write_byte addr cmd buffer flags =
      on_bus (ops.smbus_write addr byte_data cmd (buffer ∷ []) flags)

  pub sdi_i2c_read : ℕ → List ℕ → ℕ → ℕ → Io W (List ℕ)
  unfolding on_bus
  sdi_i2c_read addr cmd buflen flags = on_bus (ops.i2c_read addr cmd buflen flags)

  pub sdi_i2c_write : ℕ → List ℕ → ℕ → ℕ → ℕ → Io W (Unit {0})
  unfolding on_bus
  sdi_i2c_write addr cmd buffer buflen flags = on_bus (ops.i2c_write addr cmd buffer buflen flags)

  -- The loops over `count`; `cmd` has `count` added, in a 32-bit uint_t. The first error ends them.
  unfoldable pub read_bytes : ℕ → ℕ → ℕ → ℕ → Io W (List ℕ)
  read_bytes addr cmd zero flags = pure []
  read_bytes addr cmd (suc left) flags = do
    b ← ops.smbus_read addr byte_data (cmd % 2 ^ 32) flags
    bs ← read_bytes addr (cmd + 1) left flags
    pure (b ∷ bs)

  unfoldable pub write_bytes : ℕ → ℕ → List ℕ → ℕ → Io W (Unit {0})
  write_bytes addr cmd [] flags = pure tt
  write_bytes addr cmd (b ∷ bs) flags = do
    ops.smbus_write addr byte_data (cmd % 2 ^ 32) (b ∷ []) flags
    write_bytes addr (cmd + 1) bs flags

  unfoldable pub sdi_smbus_read_multi_byte : ℕ → ℕ → ℕ → ℕ → Io W (List ℕ)
  unfolding on_bus read_bytes
  sdi_smbus_read_multi_byte addr cmd byte_count flags =
      on_bus (read_bytes addr cmd byte_count flags)

  unfoldable pub sdi_smbus_write_multi_byte : ℕ → ℕ → List ℕ → ℕ → Io W (Unit {0})
  unfolding on_bus write_bytes
  sdi_smbus_write_multi_byte addr cmd buffer flags = on_bus (write_bytes addr cmd buffer flags)

  unfoldable pub sdi_smbus_read_word : ℕ → ℕ → ℕ → Io W ℕ
  unfolding on_bus
  sdi_smbus_read_word addr cmd flags = on_bus (ops.smbus_read addr word_data cmd flags)

  unfoldable pub sdi_smbus_write_word : ℕ → ℕ → ℕ → ℕ → Io W (Unit {0})
  unfolding on_bus
  sdi_smbus_write_word addr cmd buffer flags =
      on_bus (ops.smbus_write addr word_data cmd (buffer ∷ []) flags)

  -- `length` is the number of values.
  unfoldable pub sdi_smbus_write_i2c_block_data : ℕ → ℕ → List ℕ → ℕ → Io W (Unit {0})
  unfolding on_bus block_of
  sdi_smbus_write_i2c_block_data addr cmd values flags =
      on_bus (ops.smbus_write addr block_data (bit_and cmd 0xff) (block_of cmd values) flags)
