-- ===== src/Lib.antt =====
-- Verification of opx-sdi-sys, the system device interface of OPX: the C library that reads and drives
-- the hardware of a switch, from buses over device drivers to the entities of the platform.
--
-- Parts and files
--   Base             results of C calls (ok, an error code, a failed STD_ASSERT), lists, binary digits, and
--                    STD_BIT_TEST, STD_BIT_SET and STD_BIT_CLEAR as parameters with their laws
--   Bus              src/framework/sdi_bus_api.c: byte reads and writes by the type of the bus
--   Bus/Mutex        std_mutex_lock and std_mutex_unlock as parameters, and the shape of a locked call
--   Bus/Pin          src/framework/sdi_pin_bus_api.c, inc/opx/private/sdi_pin.h
--   Bus/Group        src/framework/sdi_pin_group_bus_api.c, inc/opx/private/sdi_pin_group.h
--   Bus/Memory       registers that behave as memory: what the CPLD drivers rely on
--   Cpld             inc/opx/private/sdi_cpld.h
--   Cpld/Pin         src/drivers/sdi_cpld_pin.c; proofs in Cpld/Pin/Levels
--   Cpld/Group       src/drivers/sdi_cpld_pin_group.c; proofs in Cpld/Group/Field, Byte, Single,
--                    Wide and Latch
--   I2c              src/framework/sdi_i2c_bus_api.c, inc/opx/private/sdi_i2c.h; proofs in I2c/Locking
--                    and MultiByte
--   I2c/Device       a device with registers and a read pointer: what its drivers rely on
--   CommDev          src/drivers/sdi_comm_dev_driver.c: transfers; proofs in CommDev/Steps, Transfer and
--                    LastError
--   CommDev/Control  the registers of the same driver; proofs in CommDev/Control/Registers
--   CommDev/Mailbox  its messages; proofs in CommDev/Mailbox/Header and Delivery
--   Bus/Latch        a pin group that keeps its level: what the display relies on
--   Display          src/drivers/sdi_segment_display.c; proofs in Display/Shown
--   I2cMux           src/drivers/sdi_i2cmux_pin.c; proofs in I2cMux/Rollback
--   DeviceData       src/drivers/sdi_platform_util.c, and the data of a driver beside the hardware
--   Registry         src/framework/sdi_bus_framework.c: the lists of registered buses; proofs in
--                    Registry/Lookup, Typed and Reachable
--   I2c/Registers    a device with a byte for each command: what the drivers of such devices rely on
--   Max6620          src/drivers/sdi_max6620.c, inc/opx/private/sdi_max6620.h: registers and counts; the
--                    callbacks in Max6620/Fan, proofs in Max6620/Tach, Speed, Setting, Faults and Setup
--   Tmp75            src/drivers/sdi_tmp75.c; proofs in Tmp75/Limits and Setup
--   Eeprom           src/drivers/sdi_eeprom.c; proofs in Eeprom/Offsets and Cells
--   Onie             src/drivers/sdi_onie_eeprom.c, inc/opx/private/sdi_onie_eeprom.h: strings; the vendor
--                    extension in Onie/Vendor, the fields and the reads in Onie/Fill, proofs in
--                    Onie/Image, Parse, Text, Checks and Reading
--   EntityReset      src/hwcore/sdi_entity_reset.c: reset and power control; proofs in EntityReset/Keeps,
--                    Locks and Again
--   Media            what inc/opx/sdi_media.h and the two drivers below share: addresses, flags, and the
--                    selection of a module through its pin groups; its locks in Media/Selection
--   Media/Paged      the memory of a module with pages: what the QSFP driver relies on
--   Sfp              src/drivers/sdi_sfp_eeprom.c; the channel in Sfp/Channel, the alarms in
--                    Sfp/Monitor, proofs in Sfp/Rx
--   Qsfp             src/drivers/sdi_qsfp_eeprom.c; the operations in Qsfp/Channel, Raw, Power and
--                    Monitor, proofs in Qsfp/Plugged, Transmit, Recovery, Modes, PagedAccess, Paging, Frees,
--                    Locks and MaxPower
--   Examples         concrete hardware, and the theorems and the operations at concrete inputs
--
-- A device driver fills a table of operations (PinOps, GroupOps), an API call checks the type of the
-- bus, takes the lock and calls the table, and the driver in turn calls the byte operations of the bus
-- its device hangs on (ByteBus) or the SMBus calls of I2c. A call is a function from a world, the
-- hardware and the locks, to a result and the next world; it keeps the name of its C function.
--
-- Bounds and fuel
--   uint8_t, uint16_t, uint_t and uint64_t are natural numbers, reduced modulo their size where the code
--   stores or casts. The loops of sdi_comm_dev_write and sdi_write_mailbox run on fuel, the number of bytes,
--   of which a round sends at least one. The loop of sdi_onie_fill_tlv_entity_info has the remaining length
--   as its fuel, from which each round takes at least one. The other loops recurse on their count or on the buffer.
--
-- Not modelled
--   What a memory access outside a buffer gives is a parameter (the bytes behind an EEPROM image). crc32
--   of zlib and std_parse_string, std_parse_string_next and safestrncpy of the common library are
--   parameters.
--   Null checks of handles and buffers (a handle is a value), log messages, registration of drivers from
--   configuration nodes, memory allocation. Of the SFP and QSFP drivers the conversions to floating
--   point (monitors, thresholds), the vendor fields, the initialisation of a module and the tuning of the
--   wavelength; std_usleep, MILLI_TO_MICRO and the control of the PHY are parameters. Adapters, transports, locks and the device registers are
--   parameters, with their behaviour as hypotheses, and so are the sign of a char and the memory behind
--   the map of the segment display; Examples has functions that meet these. The other
--   drivers, the entity and resource frameworks and the database back end are outside this library.
mod Base
pub mod Bus
pub mod Cpld
pub mod I2c
pub mod CommDev
pub mod DeviceData
pub mod Registry
pub mod Max6620
pub mod Tmp75
pub mod Eeprom
pub mod Onie
pub mod Display
pub mod I2cMux
pub mod EntityReset
pub mod Media
pub mod Sfp
pub mod Qsfp
mod Examples
