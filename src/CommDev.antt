-- ===== src/CommDev.antt =====
-- src/drivers/sdi_comm_dev_driver.c, inc/opx/private/sdi_comm_dev_attr.h: the communication device
-- (an EC on the chassis side), reached over I2C. Here: the transfers that all its operations use.
-- The static device_i2c_addr is set before every use, so it is an argument.
pub mod Control
pub mod Mailbox
pub mod Steps
pub mod Transfer
pub mod LastError
use opx_sdi_sys.Base.{
  Rc, caught, catch, unless_error, rc_of, value_or, ℕ, zero, suc, ◌+◌, ◌/◌, ◌%◌, ◌^◌, ◌⊎◌, inl, inr,
  Bool, true, false, Option, none, some, List, [], ◌∷◌, bit_and, length, ltb, if◌then◌else◌, take,
  drop, Io, Result, StdError, ok, err, abort, pure, fail, errcode, eperm, ◌>>=◌, ◌>>◌, and_then,
}
use opx_sdi_sys.I2c.{
  I2cBus, flag_none, half_block_max, sdi_smbus_write_byte, sdi_smbus_recv_byte,
  sdi_smbus_write_i2c_block_data,
}

-- sdi_resource_type_t of inc/opx/sdi_entity.h
pub data ResourceType : Type 0 where
  temperature fan led digit_display_led entity_info upgradable_pld media nvram comm_dev :
      ResourceType
  host_system power_monitor bmc_dev ext_control : ResourceType

module _ {W : Type 0} (bus : I2cBus W) where
  -- The loop of sdi_comm_dev_recv_byte. The list is the rest of the buffer; a byte whose read fails
  -- stays as it was, and each round sets `rc` anew.
  unfoldable pub recv_bytes : ℕ → Rc → List ℕ → Io W (Rc × List ℕ)
  recv_bytes addr rc [] = pure (rc, [])
  recv_bytes addr rc (old ∷ buffer) = do
    r ← catch (sdi_smbus_recv_byte bus addr flag_none)
    rest ← recv_bytes addr (rc_of r) buffer
    pure (rest.0, value_or old r ∷ rest.1)

  abbrev pub recv_after : ℕ → List ℕ → StdError ⊎ Unit {0} → Io W (Rc × List ℕ)
  recv_after addr buffer (inl e) = pure (some e, buffer)
  recv_after addr buffer (inr tt) = recv_bytes addr none buffer

  -- `buffer` is the `len` bytes at `regData`; the result is the code and what the buffer then holds.
  unfoldable pub sdi_comm_dev_recv_byte : ℕ → ℕ → List ℕ → Io W (Rc × List ℕ)
  unfolding recv_bytes
  sdi_comm_dev_recv_byte addr reg_offset buffer = do
    r ←
        catch
          (sdi_smbus_write_byte bus addr (bit_and reg_offset 0xff) (reg_offset / 2 ^ 8) flag_none)
    recv_after addr buffer r

  unfoldable pub sdi_comm_dev_write_block : ℕ → ℕ → List ℕ → Io W (Unit {0})
  sdi_comm_dev_write_block addr reg_offset values =
      sdi_smbus_write_i2c_block_data bus addr reg_offset values flag_none

  unfoldable pub sdi_comm_dev_read : ResourceType → ℕ → ℕ → List ℕ → Io W (Rc × List ℕ)
  unfolding sdi_comm_dev_recv_byte
  sdi_comm_dev_read comm_dev addr offset buffer = sdi_comm_dev_recv_byte addr offset buffer
  sdi_comm_dev_read _ addr offset buffer = pure (some (errcode eperm), buffer)

  -- The loop over blocks of at most 16 bytes. The first argument is fuel, of which the number of
  -- bytes is enough. The register offset is a uint16_t.
  unfoldable pub write_chunks : ℕ → ℕ → ℕ → List ℕ → Io W (Unit {0})
  unfolding sdi_comm_dev_write_block
  write_chunks fuel addr offset [] = pure tt
  write_chunks zero addr offset (b ∷ bs) = pure tt
  write_chunks (suc fuel) addr offset (b ∷ bs) =
      let left = length (b ∷ bs) in
      let n = if ltb half_block_max left then half_block_max else left in
      sdi_comm_dev_write_block addr (offset % 2 ^ 16) (take n (b ∷ bs))
      >> write_chunks fuel addr (offset + half_block_max) (drop half_block_max (b ∷ bs))

  unfoldable pub sdi_comm_dev_write : ResourceType → ℕ → ℕ → List ℕ → Io W (Unit {0})
  unfolding write_chunks
  sdi_comm_dev_write comm_dev addr offset values = write_chunks (length values) addr offset values
  sdi_comm_dev_write _ addr offset values = fail (errcode eperm)
