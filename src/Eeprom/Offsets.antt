-- ===== src/Eeprom/Offsets.antt =====
-- src/drivers/sdi_eeprom.c: which cells of an EEPROM of 8192 bytes are read.
use opx_sdi_sys.Base.{
  ℕ, zero, suc, ◌+◌, ◌*◌, ◌%◌, ◌^◌, ◌<◌, ◌≡◌, refl, ap, ap₂, ◌∙◌, subst, arith, bit_and,
  bit_and-mask, mod-mod_pow, List, [], ◌∷◌, ok, leb, false,
}
use opx_sdi_sys.Bus.{i2c_bus}
use opx_sdi_sys.I2c.{
  I2cBus, byte, byte_data, offset_non_cmd, flag_none, on_bus, sdi_smbus_write_byte,
  sdi_smbus_recv_byte,
}
use opx_sdi_sys.I2c.Device.{View, Gives, Gives-eq, Gives-on_bus_of}
use opx_sdi_sys.Eeprom.{EntityInfoDevice, read_cells, sdi_eeprom_read}

-- The random read of the chip's datasheet, which the source describes: a byte with a command sets the
-- pointer, the command being its high half, and a byte that is received comes from the pointer, which
-- moves on.
pub record IsEeprom {W : Type 0} (bus : I2cBus W) (addr : ℕ) (view : W → View) : Type 0 where
  pub i2c : bus.bus_type ≡ i2c_bus
  pub locks : (w : W) → Gives view bus.mutex.lock w tt (view w)
  pub view-unlock : (w : W) → view (bus.mutex.unlock w) ≡ view w
  pub points :
      (w : W) (hi lo : ℕ)
      → Gives view
          (bus.ops.smbus_write addr byte_data hi (lo ∷ []) flag_none)
          w
          tt
          ((view w).0, hi * 2 ^ 8 + lo)
  pub receives :
      (w : W)
      → Gives view
          (bus.ops.smbus_read addr byte offset_non_cmd flag_none)
          w
          ((view w).0 (view w).1)
          ((view w).0, (view w).1 + 1)

-- The cells at the offsets from `offset` on, modulo 256.
unfoldable pub low_window : (ℕ → ℕ) → ℕ → ℕ → List ℕ
low_window f offset zero = []
low_window f offset (suc n) = f (offset % 2 ^ 8) ∷ low_window f (offset + 1) n

-- The pointer after `n` cells.
unfoldable pub pointer_after : ℕ → ℕ → ℕ → ℕ
pointer_after offset zero p = p
pointer_after offset (suc n) p = pointer_after (offset + 1) n (offset % 2 ^ 8 + 1)

module _ {W : Type 0} (bus : I2cBus W) (addr : ℕ) (view : W → View)
    (eeprom : IsEeprom bus addr view) where
  seek :
      (w : W) (lo : ℕ)
      → Gives view (sdi_smbus_write_byte bus addr 0 lo flag_none) w tt ((view w).0, lo)
  unfolding sdi_smbus_write_byte on_bus
  seek w lo =
      Gives-on_bus_of bus view eeprom.i2c eeprom.locks eeprom.view-unlock
        (bus.ops.smbus_write addr byte_data 0 (lo ∷ []) flag_none) w tt ((view w).0, lo)
        λ w' same.
          Gives-eq w' (bus.ops.smbus_write addr byte_data 0 (lo ∷ []) flag_none) refl refl
            (ap₂ (λ f p. (f, p)) (ap (λ v. v.0) same) (omega arith)) (eeprom.points w' 0 lo)

  fetch :
      (w : W)
      → Gives view
          (sdi_smbus_recv_byte bus addr flag_none)
          w
          ((view w).0 (view w).1)
          ((view w).0, (view w).1 + 1)
  unfolding sdi_smbus_recv_byte on_bus
  fetch w =
      Gives-on_bus_of bus view eeprom.i2c eeprom.locks eeprom.view-unlock
        (bus.ops.smbus_read addr byte offset_non_cmd flag_none) w ((view w).0 (view w).1)
        ((view w).0, (view w).1 + 1)
        λ w' same.
          subst
            (λ v.
              Gives view (bus.ops.smbus_read addr byte offset_non_cmd flag_none) w' (v.0 v.1)
                (v.0, v.1 + 1))
            same (eeprom.receives w')

  read_cells_lem :
      (offset n : ℕ) (w : W)
      → Gives view
          (read_cells bus addr offset n)
          w
          (low_window (view w).0 offset n)
          ((view w).0, pointer_after offset n (view w).1)
  unfolding read_cells low_window pointer_after
  read_cells_lem offset zero w = (w, refl, refl)
  read_cells_lem offset (suc n) w =
      let lo = bit_and (offset % 2 ^ 32) 0xff in
      let low : lo ≡ offset % 2 ^ 8 =
        bit_and-mask 8 (offset % 2 ^ 32) ∙ mod-mod_pow 8 32 offset (omega arith) in
      let one = seek w lo in
      let two = fetch one.0 in
      let rest = read_cells_lem (offset + 1) n two.0 in
      let at : view one.0 ≡ ((view w).0, offset % 2 ^ 8) = one.2 ∙ ap (λ p. ((view w).0, p)) low in
      let after : view two.0 ≡ ((view w).0, offset % 2 ^ 8 + 1) =
        two.2 ∙ ap (λ v. (v.0, v.1 + 1)) at in
      (
        rest.0,
        rw (one.1, two.1, rest.1)
            (ap₂ (λ b bs. (ok (b ∷ bs), rest.0)) (ap (λ v. v.0 v.1) at)
              (ap (λ v. low_window v.0 (offset + 1) n) after)),
        rest.2 ∙ ap (λ v. (v.0, pointer_after (offset + 1) n v.1)) after,
      )

-- On an EEPROM of 8192 bytes with the random read of its datasheet: sdi_eeprom_read of `len` cells
-- from an offset in the device succeeds with the cells at these offsets modulo 256, since the high
-- half of the offset that it sends is always 0, and it leaves the memory as it is.
pub eeprom_read_wraps :
    {W : Type 0} (bus : I2cBus W) (addr : ℕ) (view : W → View) (device : EntityInfoDevice)
    (offset len flags : ℕ) (w : W)
    → IsEeprom bus addr view
    → device.entity_size ≡ 8192
    → offset < 8192
    → Gives view
        (sdi_eeprom_read bus addr device offset len flags)
        w
        (low_window (view w).0 offset len)
        ((view w).0, pointer_after offset len (view w).1)
unfolding sdi_eeprom_read
eeprom_read_wraps bus addr view device offset len flags w eeprom size inside =
    let fits : leb device.entity_size offset ≡ false = ground arith in
    rw (fits, size) (read_cells_lem bus addr view eeprom offset len w)
