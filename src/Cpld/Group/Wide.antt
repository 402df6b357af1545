-- ===== src/Cpld/Group/Wide.antt =====
-- src/drivers/sdi_cpld_pin_group.c: writes to a group of several registers whose field does not start
-- at bit 0 of the first.
use opx_sdi_sys.Base.{
  ℕ, suc, ◌+◌, ◌-◌, ◌/◌, ◌%◌, ◌^◌, ◌≤◌, ◌≡◌, ap, ◌∙◌, arith, ◌==◌, bit_and, bit, bit-mod,
  bit_and-mask, eq_of_bits, sym, subst, std_assert, mod-mod_pow, dec_le, ◌>>=◌, ◌>>◌,
}
use opx_sdi_sys.Bus.{ByteBus}
use opx_sdi_sys.Bus.Pin.{normal}
use opx_sdi_sys.Cpld.{CpldDevice, default_register_width}
use opx_sdi_sys.Cpld.Group.{
  CpldPinGroup, toggle_if, sdi_cpld_bit_set_sub_bitstream, change_register,
  sdi_cpld_pin_group_write_level, write_registers, step_offset, dec_counter_flag,
}
use opx_sdi_sys.Cpld.Group.Field.{sub_bitstream_below, sub_bitstream_inside}

-- What the first register of several gets depends on the low `8 - start` bits of the level only.
sub_bitstream_cut :
    (dst a b start : ℕ)
    → start ≤ 8
    → a % 2 ^ (8 - start) ≡ b % 2 ^ (8 - start)
    → sdi_cpld_bit_set_sub_bitstream dst a start 8 % 2 ^ 8
      ≡ sdi_cpld_bit_set_sub_bitstream dst b start 8 % 2 ^ 8
sub_bitstream_cut dst a b start small same =
    eq_of_bits 8 (sdi_cpld_bit_set_sub_bitstream dst a start 8 % 2 ^ 8)
      (sdi_cpld_bit_set_sub_bitstream dst b start 8 % 2 ^ 8) (omega arith) (omega arith)
      λ k h. elim (dec_le start k) [
        | yes le ↦
            (let e : start + (k - start) ≡ k = omega arith in
              let low : bit a (k - start) ≡ bit b (k - start) =
                sym (bit-mod (8 - start) a (k - start) (omega arith))
                ∙ ap (λ t. bit t (k - start)) same
                ∙ bit-mod (8 - start) b (k - start) (omega arith) in
              bit-mod 8 (sdi_cpld_bit_set_sub_bitstream dst a start 8) k h
              ∙ rw e at (
                  sub_bitstream_inside dst a start 8 (omega arith) small (k - start) (omega arith)
                  ∙ low
                  ∙ sym (
                      sub_bitstream_inside dst b start 8 (omega arith) small (k - start)
                        (omega arith)))
              ∙ sym (bit-mod 8 (sdi_cpld_bit_set_sub_bitstream dst b start 8) k h))
        | no gt ↦ omega (
          arith,
          bit-mod 8 (sdi_cpld_bit_set_sub_bitstream dst a start 8) k h,
          bit-mod 8 (sdi_cpld_bit_set_sub_bitstream dst b start 8) k h,
          sub_bitstream_below dst a start 8 (omega arith) small k (omega arith),
          sub_bitstream_below dst b start 8 (omega arith) small k (omega arith),
        )
      ]

module _ (group : CpldPinGroup) (n : ℕ) (several : group.length ≡ suc (suc n))
    (plain : group.default_polarity ≡ normal) where
  first_of_several :
      (v buffer : ℕ)
      → change_register group (suc (suc n)) v buffer
        ≡ sdi_cpld_bit_set_sub_bitstream buffer v group.start_offset 8 % 2 ^ 8
  unfolding change_register toggle_if
  first_of_several v buffer = rw (several, plain) (ground arith)

  first_register :
      (v v' buffer : ℕ)
      → group.start_offset ≤ 8
      → v % 2 ^ (8 - group.start_offset) ≡ v' % 2 ^ (8 - group.start_offset)
      → change_register group (suc (suc n)) (bit_and v 0xff) buffer
        ≡ change_register group (suc (suc n)) (bit_and v' 0xff) buffer
  first_register v v' buffer small same =
      first_of_several (bit_and v 0xff) buffer
      ∙ sub_bitstream_cut buffer (bit_and v 0xff) (bit_and v' 0xff) group.start_offset small (
          ap (λ t. t % 2 ^ (8 - group.start_offset)) (bit_and-mask 8 v)
          ∙ mod-mod_pow (8 - group.start_offset) 8 v (omega arith)
          ∙ same
          ∙ sym (mod-mod_pow (8 - group.start_offset) 8 v' (omega arith))
          ∙ ap (λ t. t % 2 ^ (8 - group.start_offset)) (sym (bit_and-mask 8 v')))
      ∙ sym (first_of_several (bit_and v' 0xff) buffer)

  -- Two values whose first bytes have the same effect, and which agree beyond them.
  same_writes :
      {W : Type 0} (bus : ByteBus W) (dev : CpldDevice) (offset v v' : ℕ)
      → ((b : ℕ)
          → change_register group (suc (suc n)) (bit_and v 0xff) b
            ≡ change_register group (suc (suc n)) (bit_and v' 0xff) b)
      → v / 2 ^ 8 ≡ v' / 2 ^ 8
      → write_registers bus dev group (suc (suc n)) offset v
        ≡ write_registers bus dev group (suc (suc n)) offset v'
  unfolding write_registers
  same_writes bus dev offset v v' first rest = λ i. bus.read_byte offset >>= λ buffer.
      bus.write_byte offset (first buffer i)
      >> write_registers bus dev group (suc n) (step_offset (dec_counter_flag group) offset)
          (rest i)

  -- A group of two or more registers of normal polarity, whose field starts at bit `s` of its first
  -- register (`s` at most 8): two values that differ only in their bits `8 - s` to 7 are written
  -- alike, on any bus. So where 0 < s the write drops these bits, and no read can give them back.
  pub write_level_drops :
      {W : Type 0} (bus : ByteBus W) (dev : CpldDevice) (v v' : ℕ) (w : W)
      → group.start_offset ≤ 8
      → v % 2 ^ (8 - group.start_offset) ≡ v' % 2 ^ (8 - group.start_offset)
      → v / 2 ^ 8 ≡ v' / 2 ^ 8
      → sdi_cpld_pin_group_write_level bus dev group v w
        ≡ sdi_cpld_pin_group_write_level bus dev group v' w
  unfolding sdi_cpld_pin_group_write_level
  write_level_drops bus dev v v' w small same rest =
      λ i. (std_assert (dev.width == default_register_width) >> registers i) w
    where
      registers :
          write_registers bus dev group group.length group.start_addr v
          ≡ write_registers bus dev group group.length group.start_addr v'
      registers =
          subst
            (λ l.
              write_registers bus dev group l group.start_addr v
              ≡ write_registers bus dev group l group.start_addr v')
            (sym several)
            (same_writes bus dev group.start_addr v v' (λ b. first_register v v' b small same) rest)
