-- ===== src/Examples/Runs.antt =====
-- Runs of the operations at fixed inputs.
use opx_sdi_sys.Base.{◌≡◌, refl, true, ok, err, errcode, enotsup, eperm, pure}
use opx_sdi_sys.Base.StdBits.{binary_bits}
use opx_sdi_sys.Bus.{io_bus, pin_bus, pin_group_bus, Transports, sdi_bus_bytes}
use opx_sdi_sys.Bus.Pin.{input, inverted}
use opx_sdi_sys.Bus.Group.{GroupBus, sdi_pin_group_set_direction, sdi_pin_group_get_polarity}
use opx_sdi_sys.Cpld.Pin.{sdi_cpld_pin_driver_init}
use opx_sdi_sys.Cpld.Group.{
  sdi_cpld_pin_group_ops, sdi_cpld_pin_group_set_direction, sdi_cpld_pin_group_get_polarity,
}
use opx_sdi_sys.Bus.Mutex.{with_lock}
use opx_sdi_sys.I2c.{
  sdi_smbus_recv_byte, sdi_smbus_write_byte, sdi_smbus_write_i2c_block_data, block_of,
}
use opx_sdi_sys.I2c.Device.{overlay}
use opx_sdi_sys.CommDev.{
  comm_dev, temperature, sdi_comm_dev_read, sdi_comm_dev_recv_byte, recv_bytes, sdi_comm_dev_write,
  write_chunks, sdi_comm_dev_write_block,
}
use opx_sdi_sys.CommDev.Control.{
  sdi_mailbox_enable, read_register, write_register, bytes_of, sdi_is_buffer_ready,
  sdi_comm_dev_read_iom_slot, sdi_write_sensor_07_telemetry,
}
use opx_sdi_sys.Examples.{Memory, memory_bus, lock_of, device_bus, device_view}
use opx_sdi_sys.Examples.Cpld.{cpld, present_pin, led_group, start}
use opx_sdi_sys.Examples.Comm.{fresh}

abbrev transports : Transports Memory
transports = record {
  smbus = memory_bus;
  io_port = memory_bus;
  sf_io = memory_bus;
  fpga_pci = memory_bus;
}

abbrev led_bus : GroupBus Memory
led_bus = record {
  bus_type = pin_group_bus;
  ops = sdi_cpld_pin_group_ops memory_bus cpld led_group;
  mutex = lock_of;
}

io_port_address : (sdi_bus_bytes transports io_bus).read_byte 0x10210 start ≡ (ok 0x5A, start)
unfolding sdi_bus_bytes
io_port_address = refl

no_transport :
    (sdi_bus_bytes transports pin_bus).read_byte 0x210 start ≡ (err (errcode enotsup), start)
unfolding sdi_bus_bytes
no_transport = refl

led_direction_fixed :
    sdi_pin_group_set_direction led_bus input start ≡ (err (errcode enotsup), start)
unfolding sdi_pin_group_set_direction sdi_cpld_pin_group_ops sdi_cpld_pin_group_set_direction
led_direction_fixed = refl

led_polarity : sdi_pin_group_get_polarity led_bus start ≡ (ok inverted, start)
unfolding sdi_pin_group_get_polarity sdi_cpld_pin_group_ops sdi_cpld_pin_group_get_polarity
led_polarity = refl

-- Every register of the device holds 1.
iom_slot : (sdi_comm_dev_read_iom_slot binary_bits device_bus comm_dev fresh).0 ≡ ok 1
unfolding sdi_comm_dev_read_iom_slot read_register sdi_comm_dev_read sdi_comm_dev_recv_byte
    recv_bytes sdi_smbus_recv_byte sdi_smbus_write_byte with_lock
iom_slot = refl

not_a_buffer :
    sdi_is_buffer_ready binary_bits device_bus temperature fresh ≡ (err (errcode eperm), fresh)
unfolding sdi_is_buffer_ready read_register sdi_comm_dev_read
not_a_buffer = refl

wrong_resource :
    sdi_mailbox_enable binary_bits device_bus temperature true fresh ≡ (err (errcode eperm), fresh)
unfolding sdi_mailbox_enable write_register sdi_comm_dev_write
wrong_resource = refl

-- 25 degrees are 250 tenths.
sensor_tenths :
    (device_view (sdi_write_sensor_07_telemetry binary_bits device_bus comm_dev 25 fresh).1).0
      0x7C7C
    ≡ 250
unfolding sdi_write_sensor_07_telemetry bytes_of write_register sdi_comm_dev_write write_chunks
    sdi_comm_dev_write_block sdi_smbus_write_i2c_block_data block_of with_lock overlay
sensor_tenths = refl

-- The driver writes nothing for an input pin.
pin_init :
    sdi_cpld_pin_driver_init binary_bits memory_bus cpld present_pin (pure tt) io_bus start
    ≡ (ok tt, start)
unfolding sdi_cpld_pin_driver_init
pin_init = refl
