-- ===== src/Cpld/Group.antt =====
-- src/drivers/sdi_cpld_pin_group.c: a pin group over a run of bits of one or more CPLD registers.
-- Shift counts stay below the width of the shifted type wherever the offsets are bit positions of a
-- register and a group has at most four registers; beyond that C leaves the result open.
pub mod Field
pub mod Byte
pub mod Single
pub mod Latch
pub mod Wide
use opx_sdi_sys.Base.{
  ℕ, zero, suc, ◌+◌, ◌-◌, ◌*◌, ◌/◌, ◌%◌, ◌^◌, bit_and, bit_or, Bool, true, false, Io, ok, err, pure,
  fail, std_assert, ◌>>=◌, ◌>>◌, errcode, enotsup, and_then, ◌==◌, leb, if◌then◌else◌,
}
use opx_sdi_sys.Bus.{ByteBus, BusType, io_bus}
use opx_sdi_sys.Bus.Pin.{Direction, input, output, Polarity, normal, inverted}
use opx_sdi_sys.Bus.Group.{GroupOps}
use opx_sdi_sys.Cpld.{CpldDevice, default_register_width}

-- sdi_cpld_pin_group_t, with the default settings of its sdi_pin_group_bus_t
pub record CpldPinGroup : Type 0 where
  pub start_addr : ℕ
  pub start_offset : ℕ
  pub end_addr : ℕ
  pub end_offset : ℕ
  pub length : ℕ
  pub default_direction : Direction
  pub default_level : ℕ
  pub default_polarity : Polarity

-- (1 << ((end - start) + 1)) - 1
pub field_mask : ℕ → ℕ → ℕ
field_mask start end = 2 ^ (end - start + 1) - 1

-- SDI_CPLD_TOGGLE_AND_MASK: the complement in a type of `w` bits, then the mask.
pub toggle_and_mask : ℕ → ℕ → ℕ → ℕ → ℕ
unfolding field_mask
toggle_and_mask w x start end = bit_and (2 ^ w - 1 - x) (field_mask start end)

-- The result is stored in a uint8_t.
pub toggle_if : Polarity → ℕ → ℕ → ℕ → ℕ → ℕ
unfolding toggle_and_mask
toggle_if normal w x start end = x
toggle_if inverted w x start end = toggle_and_mask w x start end % 2 ^ 8

-- Bits `start` to `end - 1` of `dst` replaced by `src`, in uint64_t.
pub sdi_cpld_bit_set_sub_bitstream : ℕ → ℕ → ℕ → ℕ → ℕ
sdi_cpld_bit_set_sub_bitstream dst src start end =
    let left = 2 ^ 64 - 1 - (2 ^ end - 1) in
    let right = 2 ^ start - 1 in
    let mask = bit_or left right in bit_or (bit_and dst mask) (src * 2 ^ start % 2 ^ 64)

-- offset-- or offset++, in a 32-bit uint_t
pub step_offset : Bool → ℕ → ℕ
step_offset true offset = (offset + (2 ^ 32 - 1)) % 2 ^ 32
step_offset false offset = (offset + 1) % 2 ^ 32

-- ~level, in uint8_t
pub complement_if : Polarity → ℕ → ℕ
complement_if normal x = x
complement_if inverted x = 2 ^ 8 - 1 - x

module _ (group : CpldPinGroup) where
  open group use {start_offset, end_offset, length, default_polarity}

  pub dec_counter_flag : Bool
  dec_counter_flag = leb group.end_addr group.start_addr

  -- The level after one more register, the `reg_count`th, whose content is `buffer`.
  pub accumulate : ℕ → ℕ → ℕ → ℕ
  unfolding field_mask toggle_if
  accumulate reg_count level buffer =
      if length == 1
      then toggle_if default_polarity 32
          (bit_and (buffer / 2 ^ start_offset) (field_mask start_offset end_offset)) start_offset
          end_offset
      else if reg_count == length
      then bit_or level (
          toggle_if default_polarity 32 (bit_and buffer (2 ^ (end_offset + 1) - 1)) 0 end_offset
          * 2 ^ ((reg_count - 1) * 8)
          % 2 ^ 32)
        / 2 ^ start_offset
      else if reg_count == 1
      then toggle_if default_polarity 32 buffer start_offset 7
      else bit_or level
          (toggle_if default_polarity 32 buffer 0 7 * 2 ^ ((reg_count - 1) * 8) % 2 ^ 32)

  -- The new content of a register, when `reg_count` registers are still to be written.
  pub change_register : ℕ → ℕ → ℕ → ℕ
  change_register reg_count level buffer =
      if length == 1
      then sdi_cpld_bit_set_sub_bitstream buffer
          (toggle_if default_polarity 8 level start_offset end_offset) start_offset (end_offset + 1)
        % 2 ^ 8
      else if reg_count == length
      then sdi_cpld_bit_set_sub_bitstream buffer (toggle_if default_polarity 8 level start_offset 7)
          start_offset 8
        % 2 ^ 8
      else if reg_count == 1
      then sdi_cpld_bit_set_sub_bitstream buffer (toggle_if default_polarity 8 level 0 end_offset) 0
          (end_offset + 1)
        % 2 ^ 8
      else sdi_cpld_bit_set_sub_bitstream buffer (complement_if default_polarity level) 0 8 % 2 ^ 8

module _ {W : Type 0} (bus : ByteBus W) (dev : CpldDevice) (group : CpldPinGroup) where
  -- `left` more registers, of which the next is the `reg_count`th.
  pub read_registers : ℕ → ℕ → ℕ → ℕ → Io W ℕ
  unfolding accumulate dec_counter_flag step_offset
  read_registers zero reg_count offset level = pure level
  read_registers (suc left) reg_count offset level = do
    buffer ← bus.read_byte offset
    read_registers left (reg_count + 1) (step_offset (dec_counter_flag group) offset)
        (accumulate group reg_count level buffer)

  pub sdi_cpld_pin_group_read_level : Io W ℕ
  unfolding read_registers
  sdi_cpld_pin_group_read_level = do
    std_assert (dev.width == default_register_width)
    read_registers group.length 1 group.start_addr 0

  -- The loop of the write: `reg_count` counts down.
  pub write_registers : ℕ → ℕ → ℕ → Io W (Unit {0})
  unfolding change_register dec_counter_flag step_offset
  write_registers zero offset value = pure tt
  write_registers (suc reg_count) offset value = do
    buffer ← bus.read_byte offset
    bus.write_byte offset (change_register group (suc reg_count) (bit_and value 0xff) buffer)
    write_registers reg_count (step_offset (dec_counter_flag group) offset) (value / 2 ^ 8)

  pub sdi_cpld_pin_group_write_level : ℕ → Io W (Unit {0})
  unfolding write_registers
  sdi_cpld_pin_group_write_level value = do
    std_assert (dev.width == default_register_width)
    write_registers group.length group.start_addr value

  unfoldable pub sdi_cpld_pin_group_set_direction : Direction → Io W (Unit {0})
  sdi_cpld_pin_group_set_direction direction = fail (errcode enotsup)

  unfoldable pub sdi_cpld_pin_group_get_direction : Io W Direction
  sdi_cpld_pin_group_get_direction = pure group.default_direction

  unfoldable pub sdi_cpld_pin_group_set_polarity : Polarity → Io W (Unit {0})
  sdi_cpld_pin_group_set_polarity polarity = fail (errcode enotsup)

  unfoldable pub sdi_cpld_pin_group_get_polarity : Io W Polarity
  sdi_cpld_pin_group_get_polarity = pure group.default_polarity

  unfoldable pub sdi_cpld_pin_group_ops : GroupOps W
  sdi_cpld_pin_group_ops = record {
    read_level = sdi_cpld_pin_group_read_level;
    write_level = sdi_cpld_pin_group_write_level;
    set_direction = sdi_cpld_pin_group_set_direction;
    get_direction = sdi_cpld_pin_group_get_direction;
    set_polarity = sdi_cpld_pin_group_set_polarity;
    get_polarity = sdi_cpld_pin_group_get_polarity;
  }
