-- ===== src/Cpld/Pin.antt =====
-- src/drivers/sdi_cpld_pin.c: a pin that is one bit of a CPLD register.
pub mod Levels
use opx_sdi_sys.Base.{
  ℕ, ◌%◌, ◌^◌, Bool, true, false, Io, ok, err, pure, fail, std_assert, ◌>>=◌, ◌>>◌, errcode,
  enotsup, and_then, ◌==◌, if◌then◌else◌,
}
use opx_sdi_sys.Base.StdBits.{StdBits}
use opx_sdi_sys.Bus.{ByteBus, BusType, io_bus}
use opx_sdi_sys.Bus.Pin.{
  Direction, input, output, Polarity, normal, inverted, Level, low, high, PinOps,
}
use opx_sdi_sys.Cpld.{CpldDevice, default_register_width}

-- sdi_cpld_pin_t, with the default settings of its sdi_pin_bus_t
pub record CpldPin : Type 0 where
  pub addr : ℕ
  pub offset : ℕ
  pub default_direction : Direction
  pub default_level : Level
  pub default_polarity : Polarity

-- The level that a register bit stands for.
pub level_of_bit : Polarity → Bool → Level
level_of_bit normal true = high
level_of_bit normal false = low
level_of_bit inverted true = low
level_of_bit inverted false = high

-- The register with the bit of the pin changed; `buffer` is a uint8_t.
pub change_pin_bit : StdBits → ℕ → Polarity → Level → ℕ → ℕ
change_pin_bit bits offset normal high buffer = bits.set buffer offset % 2 ^ 8
change_pin_bit bits offset normal low buffer = bits.clear buffer offset % 2 ^ 8
change_pin_bit bits offset inverted high buffer = bits.clear buffer offset % 2 ^ 8
change_pin_bit bits offset inverted low buffer = bits.set buffer offset % 2 ^ 8

module _ {W : Type 0} (bits : StdBits) (bus : ByteBus W) (dev : CpldDevice) (pin : CpldPin) where
  pub sdi_cpld_pin_read_level : Io W Level
  unfolding level_of_bit
  sdi_cpld_pin_read_level = do
    std_assert (dev.width == default_register_width)
    buffer ← bus.read_byte pin.addr
    pure (level_of_bit pin.default_polarity (bits.test buffer pin.offset))

  pub write_checked : Direction → Level → Io W (Unit {0})
  unfolding change_pin_bit
  write_checked input value = fail (errcode enotsup)
  write_checked output value = do
    buffer ← bus.read_byte pin.addr
    bus.write_byte pin.addr (change_pin_bit bits pin.offset pin.default_polarity value buffer)

  pub sdi_cpld_pin_write_level : Level → Io W (Unit {0})
  unfolding write_checked
  sdi_cpld_pin_write_level value = do
    std_assert (dev.width == default_register_width)
    write_checked pin.default_direction value

  unfoldable pub sdi_cpld_pin_set_direction : Direction → Io W (Unit {0})
  sdi_cpld_pin_set_direction direction = fail (errcode enotsup)

  unfoldable pub sdi_cpld_pin_get_direction : Io W Direction
  sdi_cpld_pin_get_direction = pure pin.default_direction

  unfoldable pub sdi_cpld_pin_set_polarity : Polarity → Io W (Unit {0})
  sdi_cpld_pin_set_polarity polarity = fail (errcode enotsup)

  unfoldable pub sdi_cpld_pin_get_polarity : Io W Polarity
  sdi_cpld_pin_get_polarity = pure pin.default_polarity

  unfoldable pub sdi_cpld_pin_ops : PinOps W
  sdi_cpld_pin_ops = record {
    read_level = sdi_cpld_pin_read_level;
    write_level = sdi_cpld_pin_write_level;
    set_direction = sdi_cpld_pin_set_direction;
    get_direction = sdi_cpld_pin_get_direction;
    set_polarity = sdi_cpld_pin_set_polarity;
    get_polarity = sdi_cpld_pin_get_polarity;
  }

  init_level : Direction → Io W (Unit {0})
  init_level output = sdi_cpld_pin_write_level pin.default_level
  init_level input = pure tt

  -- `ioperm` asks the system for access to one I/O port; only a CPLD on an I/O bus needs it.
  unfoldable pub sdi_cpld_pin_driver_init : Io W (Unit {0}) → BusType → Io W (Unit {0})
  unfolding init_level
  sdi_cpld_pin_driver_init ioperm io_bus = ioperm >> init_level pin.default_direction
  sdi_cpld_pin_driver_init ioperm _ = init_level pin.default_direction
