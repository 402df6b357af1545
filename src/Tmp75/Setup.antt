-- ===== src/Tmp75/Setup.antt =====
-- src/drivers/sdi_tmp75.c: the registers after the initialization, and a threshold whose write fails.
use opx_sdi_sys.Base.{
  ℕ, ◌%◌, ◌^◌, ◌<◌, ◌≡◌, refl, ap, ◌∙◌, arith, ok, err, StdError, Bool, true, false, if◌then◌else◌,
}
use opx_sdi_sys.I2c.{I2cBus, flag_none, sdi_smbus_write_byte}
use opx_sdi_sys.I2c.Registers.{IsRegisterMap, write_byte-Gives, put}
use opx_sdi_sys.DeviceData.{Driven}
use opx_sdi_sys.Tmp75.{
  Tmp75Device, Threshold, low_threshold, high_threshold, tlow_reg, thigh_reg, store_threshold,
  sdi_tmp75_threshold_get, sdi_tmp75_threshold_set, sdi_tmp75_chip_init,
}
use opx_sdi_sys.Tmp75.Limits.{byte_passes}

-- On a device that keeps a byte for each command, where the default thresholds are bytes:
-- sdi_tmp75_chip_init succeeds, both registers and both thresholds of the driver have the defaults,
-- and all other registers are as they were.
chip_init_stores :
    {W : Type 0} (bus : I2cBus W) (addr : ℕ) (regs : W → ℕ → ℕ) (c : Driven Tmp75Device W)
    (other : ℕ)
    → IsRegisterMap bus addr regs
    → c.private_data.default_low < 256
    → c.private_data.default_high < 256
    → 3 < other
    → (c' : Driven Tmp75Device W) × (sdi_tmp75_chip_init bus addr c ≡ (ok tt, c'))
      × (regs c'.hardware tlow_reg ≡ c.private_data.default_low)
      × (regs c'.hardware thigh_reg ≡ c.private_data.default_high)
      × (c'.private_data.low ≡ c.private_data.default_low)
      × (c'.private_data.high ≡ c.private_data.default_high)
      × (regs c'.hardware other ≡ regs c.hardware other)
unfolding sdi_tmp75_chip_init sdi_tmp75_threshold_set store_threshold
chip_init_stores bus addr regs c other map low high above =
    let d = c.private_data in
    let one = write_byte-Gives map c.hardware tlow_reg (d.default_low % 2 ^ 8) (omega arith) in
    let two = write_byte-Gives map one.0 thigh_reg (d.default_high % 2 ^ 8) (omega arith) in
    let passes = byte_passes d.default_low low in
    let passes' = byte_passes d.default_high high in
    (
      record {
        private_data = record d { low = d.default_low; high = d.default_high };
        hardware = two.0;
      },
      rw (passes, one.1, passes', two.1) refl,
      ap (λ f. f tlow_reg) two.2 ∙ ap (λ f. f tlow_reg) one.2 ∙ omega arith,
      ap (λ f. f thigh_reg) two.2 ∙ omega arith,
      refl,
      refl,
      ap (λ f. f other) two.2
          ∙ other_register thigh_reg (d.default_high % 2 ^ 8) (regs one.0) (omega arith)
          ∙ ap (λ f. f other) one.2
          ∙ other_register tlow_reg (d.default_low % 2 ^ 8) (regs c.hardware) (omega arith),
    )
  where
    other_register : (r v : ℕ) (f : ℕ → ℕ) → r < other → put r v f other ≡ f other
    other_register r v f h = ground arith

-- The threshold that is set and its register: the high one or the low one.
abbrev pub limit : Bool → Threshold
limit is_high = if is_high then high_threshold else low_threshold

abbrev pub limit_reg : Bool → ℕ
limit_reg is_high = if is_high then 3 else 2

-- For the low and for the high threshold, at a value that is a byte and whose write to the chip's
-- register fails: sdi_tmp75_threshold_set returns the error of the write, and yet
-- sdi_tmp75_threshold_get then gives the new threshold.
pub threshold_get-threshold_set_failed :
    {W : Type 0} (bus : I2cBus W) (addr t : ℕ) (is_high : Bool) (e : StdError)
    (c : Driven Tmp75Device W) (w' : W)
    → t < 256
    → sdi_smbus_write_byte bus addr (limit_reg is_high) (t % 2 ^ 8) flag_none c.hardware
      ≡ (err e, w')
    → (c' : Driven Tmp75Device W) × (sdi_tmp75_threshold_set bus addr (limit is_high) t c
        ≡ (err e, c'))
      × (sdi_tmp75_threshold_get bus addr (limit is_high) c' ≡ (ok t, c'))
unfolding sdi_tmp75_threshold_set store_threshold sdi_tmp75_threshold_get
threshold_get-threshold_set_failed bus addr t false e c w' small fails =
    let passes = byte_passes t small in
    (
      record { private_data = record c.private_data { low = t }; hardware = w' },
      rw (passes, fails) refl,
      refl,
    )
threshold_get-threshold_set_failed bus addr t true e c w' small fails =
    let passes = byte_passes t small in
    (
      record { private_data = record c.private_data { high = t }; hardware = w' },
      rw (passes, fails) refl,
      refl,
    )
