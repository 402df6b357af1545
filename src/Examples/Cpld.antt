-- ===== src/Examples/Cpld.antt =====
-- The theorems on CPLD pins, at concrete pins and registers.
use opx_sdi_sys.Base.{leb, ◌&&◌, if◌then◌else◌, ◌-◌, ◌≡◌, refl, arith, inr, bit, true, false, ok}
use opx_sdi_sys.Base.StdBits.{binary_bits}
use opx_sdi_sys.Bus.{pin_bus}
use opx_sdi_sys.Bus.Pin.{
  PinBus, input, output, normal, inverted, low, high, sdi_pin_write_level, sdi_pin_read_level,
  sdi_pin_set_direction, sdi_pin_get_direction, sdi_pin_set_polarity, sdi_pin_get_polarity,
}
use opx_sdi_sys.Bus.Mutex.{released}
use opx_sdi_sys.Bus.Pin.Locking.{pin_calls_release}
use opx_sdi_sys.Cpld.{CpldDevice}
use opx_sdi_sys.Cpld.Pin.{
  CpldPin, sdi_cpld_pin_ops, sdi_cpld_pin_write_level, sdi_cpld_pin_read_level,
}
use opx_sdi_sys.Cpld.Pin.Levels.{pin_read-write}
use opx_sdi_sys.Cpld.Group.{
  CpldPinGroup, sdi_cpld_pin_group_write_level, sdi_cpld_pin_group_read_level,
}
use opx_sdi_sys.Cpld.Group.Single.{group_read-write}
use opx_sdi_sys.Cpld.Group.Wide.{write_level_drops}
use opx_sdi_sys.Examples.{
  Memory, memory_bus, memory_peek, memory_bus-IsMemory, lock_of, lock_of-IsMutex, is_held,
}

abbrev pub cpld : CpldDevice
cpld = record { width = 1; start_addr = 0x200; end_addr = 0x2FF }

-- A reset line that is active low, at bit 3 of register 0x210.
abbrev reset_pin : CpldPin
reset_pin = record {
  addr = 0x210;
  offset = 3;
  default_direction = output;
  default_level = low;
  default_polarity = inverted;
}

abbrev pub present_pin : CpldPin
present_pin = record {
  addr = 0x211;
  offset = 0;
  default_direction = input;
  default_level = low;
  default_polarity = normal;
}

-- An LED in bits 2 to 4 of register 0x220, inverted.
abbrev pub led_group : CpldPinGroup
led_group = record {
  start_addr = 0x220;
  start_offset = 2;
  end_addr = 0x220;
  end_offset = 4;
  length = 1;
  default_direction = output;
  default_level = 0;
  default_polarity = inverted;
}

-- A field from bit 4 of register 0x230 to bit 3 of register 0x231.
abbrev wide_group : CpldPinGroup
wide_group = record {
  start_addr = 0x230;
  start_offset = 4;
  end_addr = 0x231;
  end_offset = 3;
  length = 2;
  default_direction = output;
  default_level = 0;
  default_polarity = normal;
}

abbrev pub start : Memory
start = ((λ a. 0x5A), false)

abbrev reset_bus : PinBus Memory
reset_bus = record {
  bus_type = pin_bus;
  ops = sdi_cpld_pin_ops binary_bits memory_bus cpld reset_pin;
  mutex = lock_of;
}

pin_read-write_example :
    (w' : Memory) × (sdi_cpld_pin_write_level binary_bits memory_bus cpld reset_pin high start
      ≡ (ok tt, w'))
    × (sdi_cpld_pin_read_level binary_bits memory_bus cpld reset_pin w' ≡ (ok high, w'))
    × (binary_bits.test (memory_peek w' 0x210) 4 ≡ binary_bits.test (memory_peek start 0x210) 4)
pin_read-write_example =
    pin_read-write binary_bits memory_bus memory_peek memory_bus-IsMemory cpld reset_pin high start
      0x210 4 refl refl (omega arith) (inr (omega arith))

group_read-write_example :
    (w' : Memory) × (sdi_cpld_pin_group_write_level memory_bus cpld led_group 5 start ≡ (ok tt, w'))
    × (sdi_cpld_pin_group_read_level memory_bus cpld led_group w' ≡ (ok 5, w'))
    × (memory_peek w' 0x221 ≡ memory_peek start 0x221)
    × (bit (memory_peek w' 0x220) 3
        ≡ (if leb 2 3 && leb 3 4 then 1 - bit 5 (3 - 2) else bit (memory_peek start 0x220) 3))
group_read-write_example =
    group_read-write memory_bus memory_peek memory_bus-IsMemory cpld led_group refl refl
      (omega arith) (omega arith) 5 start 0x221 3 (omega arith) (omega arith) (omega arith)

-- 0x0F and 0xFF differ in bits 4 to 7.
write_level_drops_example :
    sdi_cpld_pin_group_write_level memory_bus cpld wide_group 0x0F start
    ≡ sdi_cpld_pin_group_write_level memory_bus cpld wide_group 0xFF start
write_level_drops_example =
    write_level_drops wide_group 0 refl refl memory_bus cpld 0x0F 0xFF start (omega arith) refl refl

pin_calls_release_example :
    (released is_held (sdi_pin_read_level reset_bus start) ≡ true)
    × (released is_held (sdi_pin_write_level reset_bus high start) ≡ true)
    × (released is_held (sdi_pin_set_direction reset_bus output start) ≡ true)
    × (released is_held (sdi_pin_get_direction reset_bus start) ≡ true)
    × (released is_held (sdi_pin_set_polarity reset_bus normal start) ≡ true)
    × (released is_held (sdi_pin_get_polarity reset_bus start) ≡ true)
pin_calls_release_example =
    pin_calls_release reset_bus high output normal is_held start refl lock_of-IsMutex refl
