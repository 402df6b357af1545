-- ===== src/Bus.antt =====
-- src/framework/sdi_bus_api.c and inc/opx/private/sdi_bus.h: the kinds of bus, and the two byte
-- operations that a device driver uses whatever bus its device hangs on.
pub mod Mutex
pub mod Pin
pub mod Group
pub mod Memory
pub mod Latch
use opx_sdi_sys.Base.{ℕ, ◌%◌, ◌^◌, Io, fail, errcode, enotsup}

-- sdi_bus_type_t
pub data BusType : Type 0 where
  i2c_bus pin_bus pin_group_bus pseudo_bus io_bus sf_io_bus bmc_io_bus fpga_pci_bus : BusType

-- The byte operations of one transport: smbus byte data, an I/O port, SmartFusion or FPGA PCI.
-- As what a driver calls, `read_byte a` is sdi_bus_read_byte for the driver's bus and device.
pub record ByteBus (W : Type 0) : Type 0 where
  pub read_byte : ℕ → Io W ℕ
  pub write_byte : ℕ → ℕ → Io W (Unit {0})

-- The transports that the switch statements of sdi_bus_api.c call, for one bus and device address.
pub record Transports (W : Type 0) : Type 0 where
  pub smbus : ByteBus W
  pub io_port : ByteBus W
  pub sf_io : ByteBus W
  pub fpga_pci : ByteBus W

module _ {W : Type 0} (t : Transports W) where
  -- The port address of an I/O bus is a uint16_t.
  pub sdi_bus_read_byte : BusType → ℕ → Io W ℕ
  sdi_bus_read_byte i2c_bus offset = t.smbus.read_byte offset
  sdi_bus_read_byte io_bus offset = t.io_port.read_byte (offset % 2 ^ 16)
  sdi_bus_read_byte sf_io_bus offset = t.sf_io.read_byte offset
  sdi_bus_read_byte fpga_pci_bus offset = t.fpga_pci.read_byte offset
  sdi_bus_read_byte _ offset = fail (errcode enotsup)

  pub sdi_bus_write_byte : BusType → ℕ → ℕ → Io W (Unit {0})
  sdi_bus_write_byte i2c_bus offset v = t.smbus.write_byte offset v
  sdi_bus_write_byte io_bus offset v = t.io_port.write_byte (offset % 2 ^ 16) v
  sdi_bus_write_byte sf_io_bus offset v = t.sf_io.write_byte offset v
  sdi_bus_write_byte fpga_pci_bus offset v = t.fpga_pci.write_byte offset v
  sdi_bus_write_byte _ offset v = fail (errcode enotsup)

  -- What a driver on a bus of the given type calls.
  unfoldable pub sdi_bus_bytes : BusType → ByteBus W
  unfolding sdi_bus_read_byte sdi_bus_write_byte
  sdi_bus_bytes type = record {
    read_byte = sdi_bus_read_byte type;
    write_byte = sdi_bus_write_byte type;
  }
