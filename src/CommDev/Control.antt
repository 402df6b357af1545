-- ===== src/CommDev/Control.antt =====
-- src/drivers/sdi_comm_dev_driver.c: the registers of the communication device.
pub mod Registers
use opx_sdi_sys.Base.{
  Rc, unless_error, catch, ℕ, zero, suc, ◌+◌, ◌*◌, ◌/◌, ◌%◌, ◌^◌, Bool, true, false, not, List, [],
  ◌∷◌, ◌++◌, bit_and, replicate, Io, Result, ok, err, abort, StdError, pure, fail, ◌>>=◌, ◌>>◌,
  and_then, if◌then◌else◌,
}
use opx_sdi_sys.Base.StdBits.{StdBits}
use opx_sdi_sys.I2c.{I2cBus}
use opx_sdi_sys.CommDev.{ResourceType, sdi_comm_dev_read, sdi_comm_dev_write}

-- sdi_comm_dev_attr.h
abbrev pub comm_dev_i2c_addr : ℕ
comm_dev_i2c_addr = 0x32

abbrev pub mailbox_control : ℕ
mailbox_control = 0x7C92

abbrev pub status_register : ℕ
status_register = 0x7C90

abbrev mailbox_enable_reg : ℕ
mailbox_enable_reg = 0x7B7E

abbrev chassis_service_tag : ℕ
chassis_service_tag = 0x7402

abbrev iom_vendor_fw_rev : ℕ
iom_vendor_fw_rev = 0x7800

abbrev sensor_06_telemetry : ℕ
sensor_06_telemetry = 0x7C7A

abbrev sensor_07_telemetry : ℕ
sensor_07_telemetry = 0x7C7C

abbrev management_fw_revs : ℕ
management_fw_revs = 0x7C96

abbrev iom_slot_occupation : ℕ
iom_slot_occupation = 0x7CD6

abbrev northbound_mailbox_status : ℕ
northbound_mailbox_status = 0x7CD8

-- sdi_platform_info_t
pub record PlatformInfo : Type 0 where
  pub service_tag : List ℕ
  pub comm_dev_fw_ver : List ℕ
  pub slot_occupation : ℕ

-- A uint16_t in the memory of the host, which has the low byte first.
unfoldable pub bytes_of : ℕ → List ℕ
bytes_of x = (x % 2 ^ 8) ∷ (x / 2 ^ 8 % 2 ^ 8) ∷ []

-- The first byte of a buffer.
abbrev pub first : List ℕ → ℕ
first [] = 0
first (b ∷ bs) = b

-- STD_BIT_SET on the first byte of a buffer of uint8_t.
pub set_in_first : StdBits → ℕ → List ℕ → List ℕ
set_in_first bits k [] = []
set_in_first bits k (b ∷ bs) = (bits.set b k % 2 ^ 8) ∷ bs

module _ {W : Type 0} (bits : StdBits) (bus : I2cBus W) (type : ResourceType) where
  -- sdi_comm_dev_read into a buffer of zeros, with the error passed on.
  unfoldable pub read_register : ℕ → ℕ → Io W (List ℕ)
  unfolding sdi_comm_dev_read
  read_register offset size =
      sdi_comm_dev_read bus type comm_dev_i2c_addr offset (replicate size 0) >>= unless_error

  unfoldable pub write_register : ℕ → List ℕ → Io W (Unit {0})
  unfolding sdi_comm_dev_write
  write_register offset values = sdi_comm_dev_write bus type comm_dev_i2c_addr offset values

  pub sdi_package_read_and_verified : Io W (Unit {0})
  unfolding read_register write_register set_in_first
  sdi_package_read_and_verified = do
    mbox_control ← read_register mailbox_control 2
    write_register mailbox_control (set_in_first bits 1 mbox_control)

  -- The time threshold, 3, is the register after the control register.
  pub sdi_package_download_complete : Io W (Unit {0})
  unfolding read_register write_register set_in_first bytes_of
  sdi_package_download_complete = do
    mbox_control ← read_register mailbox_control 2
    write_register mailbox_control (set_in_first bits 2 mbox_control ++ bytes_of 3)

  unfoldable pub sdi_comm_dev_read_svc_tag : Io W (List ℕ)
  unfolding read_register
  sdi_comm_dev_read_svc_tag = read_register chassis_service_tag 34

  -- The read fills the caller's buffer of 32 bytes.
  unfoldable pub sdi_read_write_iom_fw_revision : Bool → List ℕ → Io W (List ℕ)
  unfolding write_register
  sdi_read_write_iom_fw_revision true regData =
      write_register iom_vendor_fw_rev regData >> pure regData
  sdi_read_write_iom_fw_revision false regData =
      sdi_comm_dev_read bus type comm_dev_i2c_addr iom_vendor_fw_rev regData >>= unless_error

  unfoldable pub sdi_mailbox_enable : Bool → Io W (Unit {0})
  unfolding write_register bytes_of
  sdi_mailbox_enable true = write_register mailbox_enable_reg (bytes_of 0x3)
  sdi_mailbox_enable false = write_register mailbox_enable_reg (bytes_of 0x0)

  abbrev pub enable_if : Bool → Io W (Unit {0})
  enable_if true = write_register mailbox_enable_reg (bytes_of 0x3)
  enable_if false = pure tt

  -- Bit 0 of the status is tested as the code does it: a 0 stands for a reset.
  unfoldable pub sdi_comm_dev_reset_refresh : Io W (Unit {0})
  unfolding read_register write_register
  sdi_comm_dev_reset_refresh = do
    comm_dev_status ← read_register status_register 2
    enable_if (not (bits.test (first comm_dev_status) 0))
    write_register status_register (bytes_of 0x00)

  -- Tenths of a degree; the int `input_temperature` is its 32-bit word.
  unfoldable pub sdi_write_sensor_06_telemetry : ℕ → Io W (Unit {0})
  unfolding sdi_comm_dev_reset_refresh
  sdi_write_sensor_06_telemetry input_temperature = do
    sdi_comm_dev_reset_refresh
    write_register sensor_06_telemetry (bytes_of (input_temperature * 10 % 2 ^ 16))

  unfoldable pub sdi_write_sensor_07_telemetry : ℕ → Io W (Unit {0})
  sdi_write_sensor_07_telemetry input_temperature =
      write_register sensor_07_telemetry (bytes_of (input_temperature * 10 % 2 ^ 16))

  unfoldable pub sdi_comm_dev_read_fw_rev : Io W (List ℕ)
  sdi_comm_dev_read_fw_rev = read_register management_fw_revs 64

  unfoldable pub sdi_comm_dev_read_iom_slot : Io W ℕ
  sdi_comm_dev_read_iom_slot = do
    slot_occupation ← read_register iom_slot_occupation 2
    pure (bit_and (first slot_occupation) 0x2F)

  -- The two texts lie in fields one byte longer, which memset has cleared.
  unfoldable pub sdi_read_platform_info : Io W PlatformInfo
  unfolding sdi_comm_dev_read_iom_slot
  sdi_read_platform_info = do
    tag ← sdi_comm_dev_read_svc_tag
    version ← sdi_comm_dev_read_fw_rev
    slot ← sdi_comm_dev_read_iom_slot
    pure (record {
      service_tag = tag ++ (0 ∷ []);
      comm_dev_fw_ver = version ++ (0 ∷ []);
      slot_occupation = slot;
    })

  unfoldable pub sdi_flush_msg_buffer : Io W (Unit {0})
  unfolding read_register write_register set_in_first
  sdi_flush_msg_buffer = do
    mbox_control ← read_register mailbox_control 2
    write_register mailbox_control (set_in_first bits 0 mbox_control)

  unfoldable pub sdi_is_buffer_ready : Io W Bool
  sdi_is_buffer_ready = do
    mbox_status ← read_register northbound_mailbox_status 4
    pure (not (bits.test (first mbox_status) 0))

  -- The status bits are only logged. The code of the clearing write is replaced by that of the flush.
  unfoldable pub sdi_comm_dev_status_check_and_clear : Io W (Unit {0})
  unfolding sdi_flush_msg_buffer
  sdi_comm_dev_status_check_and_clear = do
    comm_dev_status ← read_register status_register 2
    cleared ← catch (write_register status_register (bytes_of 0x00))
    sdi_flush_msg_buffer
