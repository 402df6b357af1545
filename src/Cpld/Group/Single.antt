-- ===== src/Cpld/Group/Single.antt =====
-- A pin group in one register: what a write leaves there, and that a read gives it back.
use opx_sdi_sys.Base.{
  ℕ, ◌+◌, ◌-◌, ◌/◌, ◌^◌, ◌≤◌, ◌<◌, ◌≡◌, ◌≢◌, ◌⊎◌, inl, inr, ap, ◌∙◌, arith, ok, leb, ◌&&◌,
  if◌then◌else◌, dec_le, bit_and, bit, bit_high, bit_and-mask, pow-le,
}
use opx_sdi_sys.Bus.{ByteBus}
use opx_sdi_sys.Bus.Memory.{IsMemory, write_lem}
use opx_sdi_sys.Cpld.{CpldDevice, default_register_width}
use opx_sdi_sys.Cpld.Group.{
  CpldPinGroup, toggle_if, sdi_cpld_pin_group_read_level, sdi_cpld_pin_group_write_level,
}
use opx_sdi_sys.Cpld.Group.Byte.{
  width_of, shown_bit, bit-toggle, toggle_toggle, toggle-lt, stored, field-stored, stored_below,
  stored_inside, stored_above,
}

module _ {W : Type 0} (bus : ByteBus W) (peek : W → ℕ → ℕ) (memory : IsMemory bus peek)
    (dev : CpldDevice) (group : CpldPinGroup) (width_one : dev.width ≡ default_register_width)
    (single : group.length ≡ 1) (order : group.start_offset ≤ group.end_offset)
    (small : group.end_offset < 8) where
  open group use {start_addr, start_offset, end_offset, default_polarity}

  -- The byte that is written: the level is a uint8_t.
  new_byte : ℕ → W → ℕ
  new_byte v w =
      stored start_offset end_offset order small (peek w start_addr)
        (toggle_if default_polarity 8 (bit_and v 0xff) start_offset end_offset)

  write_single :
      (v : ℕ) (w : W)
      → sdi_cpld_pin_group_write_level bus dev group v w
        ≡ (ok tt, (bus.write_byte start_addr (new_byte v w) w).1)
  unfolding sdi_cpld_pin_group_write_level new_byte
  write_single v w = rw (width_one, single, memory.read_lem, write_lem memory)

  pub read_single :
      (w : W)
      → sdi_cpld_pin_group_read_level bus dev group w ≡ (
        ok (
            toggle_if default_polarity 32
              (bit_and
                (peek w start_addr / 2 ^ start_offset)
                (2 ^ width_of start_offset end_offset - 1))
              start_offset
              end_offset),
        w,
      )
  unfolding sdi_cpld_pin_group_read_level
  read_single w = rw (width_one, single, memory.read_lem)

  -- On a CPLD whose registers behave as memory, for a group in one register of one byte (length 1,
  -- start_offset ≤ end_offset < 8), in both polarities, and for a value that fits the field: a write
  -- succeeds, a read after it returns the value, any other register keeps its content, and the register
  -- holds in the field the bits of the value, or for an inverted group their opposites, and its old bits
  -- elsewhere.
  pub group_read-write :
      (v : ℕ) (w : W) (a k : ℕ)
      → v < 2 ^ (end_offset - start_offset + 1)
      → start_addr ≢ a
      → k < 8
      → (w' : W) × (sdi_cpld_pin_group_write_level bus dev group v w ≡ (ok tt, w'))
        × (sdi_cpld_pin_group_read_level bus dev group w' ≡ (ok v, w'))
        × (peek w' a ≡ peek w a)
        × (bit (peek w' start_addr) k ≡ (
            if leb start_offset k && leb k end_offset
            then shown_bit default_polarity (bit v (k - start_offset))
            else bit (peek w start_addr) k))
  group_read-write v w a k fits other lt =
      (w', write_single v w, read_back, others a other, register k lt)
    where
      w' : W
      w' = (bus.write_byte start_addr (new_byte v w) w).1

      src : ℕ
      src = toggle_if default_polarity 8 v start_offset end_offset

      level : bit_and v 0xff ≡ v
      level =
          omega (arith, bit_and-mask 8 v, pow-le (width_of start_offset end_offset) 8 (omega arith))

      byte : new_byte v w ≡ stored start_offset end_offset order small (peek w start_addr) src
      byte = unfold new_byte in rw level

      here : peek w' start_addr ≡ stored start_offset end_offset order small (peek w start_addr) src
      here =
          memory.peek-write w start_addr (new_byte v w) start_addr (rw byte (omega arith))
          ∙ (ground arith)
          ∙ byte

      others : (a : ℕ) → start_addr ≢ a → peek w' a ≡ peek w a
      others a ne =
          memory.peek-write w start_addr (new_byte v w) a (rw byte (omega arith)) ∙ ground arith

      read_back : sdi_cpld_pin_group_read_level bus dev group w' ≡ (ok v, w')
      read_back =
          read_single w'
          ∙ rw
              (
                here,
                field-stored start_offset end_offset order small (peek w start_addr) src
                    (toggle-lt default_polarity start_offset end_offset v small fits),
              )
              (ap (λ l. (ok l, w'))
                (toggle_toggle default_polarity start_offset end_offset v order small fits))

      outside :
          (k : ℕ)
          → k < 8
          → (k < start_offset) ⊎ (end_offset < k)
          → bit (peek w' start_addr) k ≡ bit (peek w start_addr) k
      outside k lt (inl low) =
          rw here (stored_below start_offset end_offset order small (peek w start_addr) src k low)
      outside k lt (inr high) =
          let f : bit src (k - start_offset) ≡ 0 =
            bit_high (width_of start_offset end_offset) src (k - start_offset)
              (toggle-lt default_polarity start_offset end_offset v small fits) (omega arith) in
          rw here (
            omega (
              arith,
              stored_above start_offset end_offset order small (peek w start_addr) src k high lt,
            ))

      inside :
          (k : ℕ)
          → start_offset ≤ k
          → k ≤ end_offset
          → bit (peek w' start_addr) k ≡ shown_bit default_polarity (bit v (k - start_offset))
      inside k low high = rw here (
          stored_inside start_offset end_offset order small (peek w start_addr) src k low high
          ∙ bit-toggle default_polarity start_offset end_offset v (k - start_offset) small fits
              (omega arith))

      register :
          (k : ℕ)
          → k < 8
          → bit (peek w' start_addr) k ≡ (
              if leb start_offset k && leb k end_offset
              then shown_bit default_polarity (bit v (k - start_offset))
              else bit (peek w start_addr) k)
      register k lt = elim (dec_le start_offset k) [
        | yes low ↦ elim (dec_le k end_offset) [
          | yes high ↦ ground (arith, inside k low high)
          | no high ↦ ground (arith, outside k lt (inr (omega arith)))
        ]
        | no low ↦ ground (arith, outside k lt (inl (omega arith)))
      ]
