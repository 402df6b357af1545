-- ===== src/Cpld/Pin/Levels.antt =====
-- Writing and reading the level of a CPLD pin.
use opx_sdi_sys.Base.{
  ℕ, ◌%◌, ◌^◌, ◌<◌, ◌≡◌, ◌≢◌, arith, ok, err, errcode, enotsup, ◌==◌, if◌then◌else◌, ◌⊎◌, ap, ◌∙◌,
}
use opx_sdi_sys.Base.StdBits.{StdBits}
use opx_sdi_sys.Bus.{ByteBus}
use opx_sdi_sys.Bus.Memory.{IsMemory, write_lem}
use opx_sdi_sys.Bus.Pin.{input, output, Polarity, normal, inverted, Level, low, high}
use opx_sdi_sys.Cpld.{CpldDevice, default_register_width}
use opx_sdi_sys.Cpld.Pin.{
  CpldPin, sdi_cpld_pin_read_level, sdi_cpld_pin_write_level, level_of_bit, change_pin_bit,
}

module _ (bits : StdBits) (k : ℕ) (fits : k < 8) where
  change-lt : (p : Polarity) (v : Level) (b : ℕ) → change_pin_bit bits k p v b < 256
  unfolding change_pin_bit
  change-lt normal high b = omega arith
  change-lt normal low b = omega arith
  change-lt inverted high b = omega arith
  change-lt inverted low b = omega arith

  -- No bit is cut off by the cast to uint8_t.
  change_uncut :
      (v : Level) (b : ℕ)
      → b < 256
      → (bits.set b k % 2 ^ 8 ≡ bits.set b k) × (bits.clear b k % 2 ^ 8 ≡ bits.clear b k)
  change_uncut v b h = (omega (arith, bits.set-lt b k fits h), omega (arith, bits.clear-lt b k h))

  -- The bit of the pin reads back as the level.
  level_of-change :
      (p : Polarity) (v : Level) (b : ℕ)
      → b < 256
      → level_of_bit p (bits.test (change_pin_bit bits k p v b) k) ≡ v
  unfolding change_pin_bit level_of_bit
  level_of-change normal high b h = rw ((change_uncut high b h).0, bits.test-set) (ground arith)
  level_of-change normal low b h = rw ((change_uncut high b h).1, bits.test-clear) (ground arith)
  level_of-change inverted high b h = rw ((change_uncut high b h).1, bits.test-clear) (ground arith)
  level_of-change inverted low b h = rw ((change_uncut high b h).0, bits.test-set) (ground arith)

  -- No other bit of the register changes.
  test-change :
      (p : Polarity) (v : Level) (b j : ℕ)
      → b < 256
      → k ≢ j
      → bits.test (change_pin_bit bits k p v b) j ≡ bits.test b j
  unfolding change_pin_bit
  test-change normal high b j h ne = rw ((change_uncut high b h).0, bits.test-set) (ground arith)
  test-change normal low b j h ne = rw ((change_uncut high b h).1, bits.test-clear) (ground arith)
  test-change inverted high b j h ne =
      rw ((change_uncut high b h).1, bits.test-clear) (ground arith)
  test-change inverted low b j h ne = rw ((change_uncut high b h).0, bits.test-set) (ground arith)

module _ {W : Type 0} (bits : StdBits) (bus : ByteBus W) (peek : W → ℕ → ℕ)
    (memory : IsMemory bus peek) (dev : CpldDevice) (pin : CpldPin)
    (width_one : dev.width ≡ default_register_width) where
  abbrev written : Level → W → W
  written v w =
      (bus.write_byte pin.addr
        (change_pin_bit bits pin.offset pin.default_polarity v (peek w pin.addr)) w).1

  write_output :
      (v : Level) (w : W)
      → pin.default_direction ≡ output
      → sdi_cpld_pin_write_level bits bus dev pin v w ≡ (ok tt, written v w)
  unfolding sdi_cpld_pin_write_level
  write_output v w out = rw (width_one, out, memory.read_lem) (write_lem memory w pin.addr _)

  read_level_lem :
      (w : W)
      → sdi_cpld_pin_read_level bits bus dev pin w
        ≡ (ok (level_of_bit pin.default_polarity (bits.test (peek w pin.addr) pin.offset)), w)
  unfolding sdi_cpld_pin_read_level
  read_level_lem w = rw (width_one, memory.read_lem)

module _ {W : Type 0} (bits : StdBits) (bus : ByteBus W) (peek : W → ℕ → ℕ)
    (memory : IsMemory bus peek) (dev : CpldDevice) (pin : CpldPin) where
  -- On a CPLD whose registers behave as memory, with registers of one byte, and for an output pin at
  -- an offset below 8: a write succeeds, a read after it returns the level that was written, in both
  -- polarities, and any bit of any register other than the pin's has not changed.
  pub pin_read-write :
      (v : Level) (w : W) (a j : ℕ)
      → dev.width ≡ default_register_width
      → pin.default_direction ≡ output
      → pin.offset < 8
      → (pin.addr ≢ a) ⊎ (pin.offset ≢ j)
      → (w' : W) × (sdi_cpld_pin_write_level bits bus dev pin v w ≡ (ok tt, w'))
        × (sdi_cpld_pin_read_level bits bus dev pin w' ≡ (ok v, w'))
        × (bits.test (peek w' a) j ≡ bits.test (peek w a) j)
  pin_read-write v w a j width_one out fits other = (
    w',
    write_output bits bus peek memory dev pin width_one v w out,
    rw (read_level_lem bits bus peek memory dev pin width_one, here)
        (ap (λ l. (ok l, w'))
          (level_of-change bits pin.offset fits pin.default_polarity v (peek w pin.addr)
            (memory.peek-lt w pin.addr))),
    rw (after a) (
        ground (
          arith,
          test-change bits pin.offset fits pin.default_polarity v (peek w pin.addr) j
              (memory.peek-lt w pin.addr),
        )),
  )
    where
      w' : W
      w' = written bits bus peek memory dev pin width_one v w

      new : ℕ
      new = change_pin_bit bits pin.offset pin.default_polarity v (peek w pin.addr)

      after : (a : ℕ) → peek w' a ≡ (if pin.addr == a then new else peek w a)
      after a =
          memory.peek-write w pin.addr new a
            (change-lt bits pin.offset fits pin.default_polarity v (peek w pin.addr))

      here : peek w' pin.addr ≡ new
      here = after pin.addr ∙ ground arith

  -- A write to an input pin is refused with ENOTSUP and leaves the hardware as it was.
  write_level-input :
      (v : Level) (w : W)
      → dev.width ≡ default_register_width
      → pin.default_direction ≡ input
      → sdi_cpld_pin_write_level bits bus dev pin v w ≡ (err (errcode enotsup), w)
  unfolding sdi_cpld_pin_write_level
  write_level-input v w width_one e = rw (width_one, e)
