-- ===== src/Max6620/Setup.antt =====
-- src/drivers/sdi_max6620.c: the registers after the initialization of the chip and after the choice
-- of a speed range.
use opx_sdi_sys.Base.{
  ℕ, zero, suc, ◌+◌, ◌-◌, ◌*◌, ◌/◌, ◌%◌, ◌^◌, ◌≤◌, ◌<◌, ◌≡◌, refl, sym, ap, ap₂, ◌∙◌, subst, arith,
  Bool, true, false, ◌==◌, if◌then◌else◌, bit_and, bit_or, bit, bit-lt, bit-bit_and, bit-bit_or,
  bit_and-mask, bit_and-le, ok,
}
use opx_sdi_sys.Base.Fields.{bit_or-shl, bit_or-lt, bit_or_comm}
use opx_sdi_sys.I2c.{I2cBus, flag_none, sdi_smbus_read_byte, sdi_smbus_write_byte}
use opx_sdi_sys.I2c.Device.{Gives, Gives-then}
use opx_sdi_sys.I2c.Registers.{IsRegisterMap, read_byte-Gives, write_byte-Gives, put}
use opx_sdi_sys.Max6620.{
  Max6620Device, FanData, change_fan, globalcfg, fanfault, fandyn, fan_full_spd_mask, speed_range,
  speed_range_mask, write_speed_range, sdi_max6620_onfail_fullspeed_enable,
  sdi_max6620_clear_fan_fault, sdi_max6620_fan_tach_count_period_set,
}
use opx_sdi_sys.Max6620.Fan.{sdi_max6620_chip_init}
use opx_sdi_sys.Max6620.Tach.{high_bits}
use opx_sdi_sys.Max6620.Setting.{driven}

-- The value that sdi_max6620_onfail_fullspeed_enable writes over `buf`.
enabled : Bool → ℕ → ℕ
enabled enable buf =
    if enable then bit_and buf (2 ^ 8 - 1 - fan_full_spd_mask) else bit_or buf fan_full_spd_mask

enabled-lt : (enable : Bool) (buf : ℕ) → buf < 2 ^ 8 → enabled enable buf < 2 ^ 8
unfolding enabled
enabled-lt true buf small = omega (arith, bit_and-le buf 0xEF)
enabled-lt false buf small = bit_or-lt 8 buf fan_full_spd_mask small (omega arith)

bit-mask_off : (k : ℕ) → k < 8 → bit 0xEF k ≡ (if k == 4 then 0 else 1)
bit-mask_off zero h = refl
bit-mask_off (suc zero) h = refl
bit-mask_off (suc (suc zero)) h = refl
bit-mask_off (suc (suc (suc zero))) h = refl
bit-mask_off (suc (suc (suc (suc zero)))) h = refl
bit-mask_off (suc (suc (suc (suc (suc zero))))) h = refl
bit-mask_off (suc (suc (suc (suc (suc (suc zero)))))) h = refl
bit-mask_off (suc (suc (suc (suc (suc (suc (suc zero))))))) h = refl
bit-mask_off (suc (suc (suc (suc (suc (suc (suc (suc k)))))))) h = absurd (omega arith)

bit-mask_on : (k : ℕ) → k < 8 → bit fan_full_spd_mask k ≡ (if k == 4 then 1 else 0)
bit-mask_on zero h = refl
bit-mask_on (suc zero) h = refl
bit-mask_on (suc (suc zero)) h = refl
bit-mask_on (suc (suc (suc zero))) h = refl
bit-mask_on (suc (suc (suc (suc zero)))) h = refl
bit-mask_on (suc (suc (suc (suc (suc zero))))) h = refl
bit-mask_on (suc (suc (suc (suc (suc (suc zero)))))) h = refl
bit-mask_on (suc (suc (suc (suc (suc (suc (suc zero))))))) h = refl
bit-mask_on (suc (suc (suc (suc (suc (suc (suc (suc k)))))))) h = absurd (omega arith)

bit-enabled :
    (enable : Bool) (buf k : ℕ)
    → k < 8
    → bit (enabled enable buf) k ≡ (if k == 4 then (if enable then 0 else 1) else bit buf k)
unfolding enabled
bit-enabled true buf k small =
    ground (arith, bit-bit_and buf 0xEF k, bit-mask_off k small, bit-lt buf k)
bit-enabled false buf k small =
    ground (arith, bit-bit_or buf fan_full_spd_mask k, bit-mask_on k small, bit-lt buf k)

-- The write of the speed range keeps the five low bits.
range_value : ℕ → ℕ → ℕ
range_value field buf =
    bit_or (bit_and buf (2 ^ 8 - 1 - speed_range_mask))
      (bit_and (field * 2 ^ 5 % 2 ^ 8) speed_range_mask)

range_value_lem : (field buf : ℕ) → field < 8 → range_value field buf ≡ field * 2 ^ 5 + buf % 2 ^ 5
unfolding range_value
range_value_lem field buf small =
    bit_or_comm (bit_and buf 0x1F) (bit_and (field * 2 ^ 5 % 2 ^ 8) 0xE0)
    ∙ ap₂ bit_or (ap (λ x. bit_and x 0xE0) (omega arith) ∙ high_bits field small)
        (bit_and-mask 5 buf)
    ∙ bit_or-shl 5 field (buf % 32) (omega arith)

module _ {W : Type 0} (bus : I2cBus W) (addr : ℕ) (regs : W → ℕ → ℕ)
    (map : IsRegisterMap bus addr regs) where
  enable-Gives :
      (enable : Bool) (w : W)
      → Gives regs
          (sdi_max6620_onfail_fullspeed_enable bus addr enable)
          w
          tt
          (put globalcfg (enabled enable (regs w globalcfg)) (regs w))
  unfolding sdi_max6620_onfail_fullspeed_enable enabled
  enable-Gives enable w =
      Gives-then (sdi_smbus_read_byte bus addr globalcfg flag_none)
        (λ buf. sdi_smbus_write_byte bus addr globalcfg (enabled enable buf) flag_none)
        (read_byte-Gives map w globalcfg)
        λ w' same.
          subst
            (λ f.
              Gives regs
                (sdi_smbus_write_byte bus addr globalcfg (enabled enable (regs w globalcfg))
                  flag_none)
                w' tt (put globalcfg (enabled enable (regs w globalcfg)) f))
            same
            (write_byte-Gives map w' globalcfg (enabled enable (regs w globalcfg))
              (enabled-lt enable (regs w globalcfg) (map.bytes w globalcfg)))

  write_range-Gives :
      (fan_id field : ℕ) (w : W)
      → field < 8
      → Gives regs
          (write_speed_range bus addr fan_id field)
          w
          tt
          (put (fandyn fan_id) (range_value field (regs w (fandyn fan_id))) (regs w))
  unfolding write_speed_range range_value
  write_range-Gives fan_id field w small =
      let r = fandyn fan_id in
      let v = range_value field (regs w r) in
      Gives-then (sdi_smbus_read_byte bus addr r flag_none)
        (λ buf. sdi_smbus_write_byte bus addr r (range_value field buf) flag_none)
        (read_byte-Gives map w r)
        λ w' same.
          subst (λ f. Gives regs (sdi_smbus_write_byte bus addr r v flag_none) w' tt (put r v f))
            same
            (write_byte-Gives map w' r v (omega (arith, range_value_lem field (regs w r) small)))

-- On a device that keeps a byte for each command: sdi_max6620_chip_init succeeds and clears the fault
-- register; of the global configuration it clears bit 4 where the fans are to run at full speed on a
-- fault and sets it otherwise, and keeps the other bits.
chip_init_lem :
    {W : Type 0} (bus : I2cBus W) (addr : ℕ) (regs : W → ℕ → ℕ) (d : Max6620Device) (k : ℕ) (w : W)
    → IsRegisterMap bus addr regs
    → k < 8
    → (w' : W) × (sdi_max6620_chip_init bus addr (driven d w) ≡ (ok tt, driven d w'))
      × (regs w' fanfault ≡ 0)
      × (bit (regs w' globalcfg) k ≡ (
          if k == 4 then (if d.is_full_speed_on_fail then 0 else 1) else bit (regs w globalcfg) k))
unfolding sdi_max6620_chip_init sdi_max6620_clear_fan_fault
chip_init_lem bus addr regs d k w map small =
    let one = enable-Gives bus addr regs map d.is_full_speed_on_fail w in
    let two = write_byte-Gives map one.0 fanfault 0 (omega arith) in
    (
      two.0,
      rw (one.1, two.1),
      ap (λ f. f fanfault) two.2,
      ap (λ f. bit (f globalcfg) k) two.2
          ∙ ap (λ f. bit (f globalcfg) k) one.2
          ∙ bit-enabled d.is_full_speed_on_fail (regs w globalcfg) k small,
    )

range_field : (m : ℕ) → (speed_range m).1 < 8
unfolding speed_range
range_field m = ground arith

range_period : (m : ℕ) → (speed_range m).0 ≤ 32
unfolding speed_range
range_period m = ground arith

change_fan_same :
    (i : ℕ) (f : FanData → FanData) (d : Max6620Device)
    → (change_fan i f d).max6620_fan i ≡ f (d.max6620_fan i)
change_fan_same i f d = let e : (i == i) ≡ true = ground arith in rw e

range_power : (m : ℕ) → (speed_range m).0 ≡ 2 ^ (speed_range m).1
unfolding speed_range
range_power m = ground arith

-- On a device that keeps a byte for each command: sdi_max6620_fan_tach_count_period_set succeeds, the
-- period that the driver then has for the fan is 2 to the power of the field in bits 5 to 7 of the
-- fan's dynamics register, at most 32, the other bits of that register and the fan's maximum speed
-- are as they were.
tach_count_period_set_lem :
    {W : Type 0} (bus : I2cBus W) (addr : ℕ) (regs : W → ℕ → ℕ) (d : Max6620Device) (fan_id : ℕ)
    (w : W)
    → IsRegisterMap bus addr regs
    → (d' : Max6620Device) × (w' : W) × (sdi_max6620_fan_tach_count_period_set bus addr fan_id
          (driven d w)
        ≡ (ok tt, driven d' w'))
      × ((d'.max6620_fan fan_id).tach_count_period ≡ 2 ^ (regs w' (fandyn fan_id) / 2 ^ 5))
      × ((d'.max6620_fan fan_id).tach_count_period ≤ 32)
      × (regs w' (fandyn fan_id) % 2 ^ 5 ≡ regs w (fandyn fan_id) % 2 ^ 5)
      × ((d'.max6620_fan fan_id).max_speed ≡ (d.max6620_fan fan_id).max_speed)
unfolding sdi_max6620_fan_tach_count_period_set
tach_count_period_set_lem bus addr regs d fan_id w map =
    let m = (d.max6620_fan fan_id).max_speed in
    let d' =
      change_fan fan_id (λ f. record f { tach_count_period = (speed_range f.max_speed).0 }) d in
    let here : d'.max6620_fan fan_id
        ≡ record (d.max6620_fan fan_id) { tach_count_period = (speed_range m).0 } =
      change_fan_same fan_id (λ f. record f { tach_count_period = (speed_range f.max_speed).0 })
        d in
    let wrote = write_range-Gives bus addr regs map fan_id (speed_range m).1 w (range_field m) in
    let value : regs wrote.0 (fandyn fan_id)
        ≡ (speed_range m).1 * 2 ^ 5 + regs w (fandyn fan_id) % 2 ^ 5 =
      ap (λ f. f (fandyn fan_id)) wrote.2
      ∙ ground arith
      ∙ range_value_lem (speed_range m).1 (regs w (fandyn fan_id)) (range_field m) in
    let field : regs wrote.0 (fandyn fan_id) / 2 ^ 5 ≡ (speed_range m).1 = omega arith in
    (
      d',
      wrote.0,
      rw (wrote.1),
      ap (λ f. f.tach_count_period) here ∙ range_power m ∙ ap (λ k. 2 ^ k) (sym field),
      subst (λ f. f.tach_count_period ≤ 32) (sym here) (range_period m),
      omega arith,
      ap (λ f. f.max_speed) here,
    )

-- On a device that keeps a byte for each command. sdi_max6620_chip_init succeeds and clears the fault
-- register; of the global configuration it clears bit 4 where the fans are to run at full speed on a
-- fault and sets it otherwise, and keeps the other bits. sdi_max6620_fan_tach_count_period_set
-- succeeds, the period that the driver then has for the fan is 2 to the power of the field in bits 5
-- to 7 of the fan's dynamics register, at most 32, and the other bits of that register and the fan's
-- maximum speed are as they were.
pub setup_lem :
    {W : Type 0} (bus : I2cBus W) (addr : ℕ) (regs : W → ℕ → ℕ) (d : Max6620Device) (fan_id k : ℕ)
    (w : W)
    → IsRegisterMap bus addr regs
    → k < 8
    → ((w' : W) × (sdi_max6620_chip_init bus addr (driven d w) ≡ (ok tt, driven d w'))
        × (regs w' fanfault ≡ 0)
        × (bit (regs w' globalcfg) k ≡ (
            if k == 4
            then (if d.is_full_speed_on_fail then 0 else 1)
            else bit (regs w globalcfg) k)))
      × ((d' : Max6620Device) × (w' : W) × (sdi_max6620_fan_tach_count_period_set bus addr fan_id
              (driven d w)
            ≡ (ok tt, driven d' w'))
          × ((d'.max6620_fan fan_id).tach_count_period ≡ 2 ^ (regs w' (fandyn fan_id) / 2 ^ 5))
          × ((d'.max6620_fan fan_id).tach_count_period ≤ 32)
          × (regs w' (fandyn fan_id) % 2 ^ 5 ≡ regs w (fandyn fan_id) % 2 ^ 5)
          × ((d'.max6620_fan fan_id).max_speed ≡ (d.max6620_fan fan_id).max_speed))
setup_lem bus addr regs d fan_id k w map small = (
  chip_init_lem bus addr regs d k w map small,
  tach_count_period_set_lem bus addr regs d fan_id w map,
)
