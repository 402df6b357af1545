-- ===== src/Max6620/Tach.antt =====
-- src/drivers/sdi_max6620.c: the target tach count in its two registers.
use opx_sdi_sys.Base.{
  ℕ, zero, suc, ◌+◌, ◌*◌, ◌/◌, ◌%◌, ◌^◌, ◌<◌, ◌≡◌, ◌≢◌, refl, ap, subst, ap₂, ◌∙◌, arith, bit_and,
  bit_or, bit_and-mask, ok,
}
use opx_sdi_sys.Base.Fields.{bit_or-shl, bit_or_comm}
use opx_sdi_sys.I2c.{I2cBus, flag_none, sdi_smbus_read_word, sdi_smbus_write_word}
use opx_sdi_sys.I2c.Device.{Gives, Gives-then}
use opx_sdi_sys.I2c.Registers.{IsRegisterMap, put_word, word_at, read_word-Gives, write_word-Gives}
use opx_sdi_sys.DeviceData.{
  sdi_platform_util_convert_le_to_uint16, sdi_platform_util_write_16bit_to_bytearray_le,
}
use opx_sdi_sys.Max6620.{
  tach_count_val, target_bytes, fantgttachcnt, sdi_max6620_fan_target_tach_count_set,
}

-- The high three bits of a byte that has no others.
pub high_bits : (y : ℕ) → y < 8 → bit_and (y * 2 ^ 5) 0xE0 ≡ y * 2 ^ 5
high_bits zero h = refl
high_bits (suc zero) h = refl
high_bits (suc (suc zero)) h = refl
high_bits (suc (suc (suc zero))) h = refl
high_bits (suc (suc (suc (suc zero)))) h = refl
high_bits (suc (suc (suc (suc (suc zero))))) h = refl
high_bits (suc (suc (suc (suc (suc (suc zero)))))) h = refl
high_bits (suc (suc (suc (suc (suc (suc (suc zero))))))) h = refl
high_bits (suc (suc (suc (suc (suc (suc (suc (suc y)))))))) h = absurd (omega arith)

target_high : (t b0 b1 : ℕ) → (target_bytes t (b0, b1)).0 ≡ t % 2048 / 8
unfolding target_bytes
target_high t b0 b1 = bit_and-mask 8 (bit_and t 0x7FF / 2 ^ 3) ∙ omega (arith, bit_and-mask 11 t)

target_low : (t b0 b1 : ℕ) → (target_bytes t (b0, b1)).1 ≡ t % 8 * 32 + b1 % 32
unfolding target_bytes
target_low t b0 b1 =
    bit_or_comm (bit_and b1 0x1F) (bit_and (bit_and (bit_and t 0x7 * 2 ^ 5) 0xff) 0xE0)
    ∙ ap₂ bit_or field (bit_and-mask 5 b1)
    ∙ bit_or-shl 5 (t % 8) (b1 % 32) (omega arith)
  where
    seven : bit_and t 0x7 ≡ t % 8
    seven = bit_and-mask 3 t

    byte_of : bit_and (bit_and t 0x7 * 2 ^ 5) 0xff ≡ t % 8 * 2 ^ 5
    byte_of = bit_and-mask 8 (bit_and t 0x7 * 2 ^ 5) ∙ omega (arith, seven)

    field : bit_and (bit_and (bit_and t 0x7 * 2 ^ 5) 0xff) 0xE0 ≡ t % 8 * 2 ^ 5
    field = ap (λ x. bit_and x 0xE0) byte_of ∙ high_bits (t % 8) (omega arith)

tach_count_val_lem : (t r : ℕ) → r < 32 → tach_count_val (t % 8 * 32 + r) (t % 2048 / 8) ≡ t % 2048
unfolding tach_count_val
tach_count_val_lem t r small =
    bit_or-shl 3 (t % 2048 / 8) ((t % 8 * 32 + r) / 2 ^ 5) (omega arith) ∙ omega arith

-- The word that the driver writes for the target `t` where the register holds `old`.
abbrev pub target_word : ℕ → ℕ → ℕ
target_word t old =
    sdi_platform_util_convert_le_to_uint16
      (target_bytes t (sdi_platform_util_write_16bit_to_bytearray_le old))

target_word_lem :
    (t old : ℕ) → target_word t old ≡ t % 2048 / 8 + (t % 8 * 32 + old / 2 ^ 8 % 2 ^ 8 % 32) * 2 ^ 8
unfolding sdi_platform_util_convert_le_to_uint16 sdi_platform_util_write_16bit_to_bytearray_le
target_word_lem t old =
    ap₂ (λ x y. bit_or x (y * 2 ^ 8)) (target_high t (old % 2 ^ 8) (old / 2 ^ 8 % 2 ^ 8))
      (target_low t (old % 2 ^ 8) (old / 2 ^ 8 % 2 ^ 8))
    ∙ bit_or_comm (t % 2048 / 8) ((t % 8 * 32 + old / 2 ^ 8 % 2 ^ 8 % 32) * 2 ^ 8)
    ∙ bit_or-shl 8 (t % 8 * 32 + old / 2 ^ 8 % 2 ^ 8 % 32) (t % 2048 / 8) (omega arith)
    ∙ omega arith

pub put_word_at : (f : ℕ → ℕ) (a v : ℕ) → put_word a v f a ≡ v % 2 ^ 8
put_word_at f a v = ground arith

pub put_word_next : (f : ℕ → ℕ) (a v : ℕ) → put_word a v f (a + 1) ≡ v / 2 ^ 8 % 2 ^ 8
put_word_next f a v = ground arith

put_word_other : (f : ℕ → ℕ) (a v b : ℕ) → b ≢ a → b ≢ a + 1 → put_word a v f b ≡ f b
put_word_other f a v b off off' = ground arith

target_set-Gives :
    {W : Type 0} {bus : I2cBus W} {addr : ℕ} {regs : W → ℕ → ℕ} (map : IsRegisterMap bus addr regs)
    (fan_id t : ℕ) (w : W)
    → Gives regs (sdi_max6620_fan_target_tach_count_set bus addr fan_id t) w tt (
        put_word
          (fantgttachcnt fan_id)
          (target_word t (word_at (regs w) (fantgttachcnt fan_id)))
          (regs w))
unfolding sdi_max6620_fan_target_tach_count_set
target_set-Gives {W} {bus} {addr} {regs} map fan_id t w =
    let r = fantgttachcnt fan_id in
    let v = target_word t (word_at (regs w) r) in
    Gives-then (sdi_smbus_read_word bus addr r flag_none)
      (λ buf. sdi_smbus_write_word bus addr r (target_word t buf) flag_none)
      (read_word-Gives map w r)
      λ w' same.
        subst (λ f. Gives regs (sdi_smbus_write_word bus addr r v flag_none) w' tt (put_word r v f))
          same (write_word-Gives map w' r v (omega (arith, target_word_lem t (word_at (regs w) r))))

-- On a device that keeps a byte for each command: sdi_max6620_fan_target_tach_count_set succeeds,
-- the two target registers then hold the count modulo 2048 as TACH_COUNT_VAL decodes it, the five
-- low bits of the second one are as they were, and so are all other registers.
pub target_tach_count_set_lem :
    {W : Type 0} (bus : I2cBus W) (addr : ℕ) (regs : W → ℕ → ℕ) (fan_id t other : ℕ) (w : W)
    → IsRegisterMap bus addr regs
    → other ≢ fantgttachcnt fan_id
    → other ≢ fantgttachcnt fan_id + 1
    → (w' : W) × (sdi_max6620_fan_target_tach_count_set bus addr fan_id t w ≡ (ok tt, w'))
      × (tach_count_val (regs w' (fantgttachcnt fan_id + 1)) (regs w' (fantgttachcnt fan_id))
          ≡ t % 2048)
      × (regs w' (fantgttachcnt fan_id + 1) % 2 ^ 5 ≡ regs w (fantgttachcnt fan_id + 1) % 2 ^ 5)
      × (regs w' other ≡ regs w other)
target_tach_count_set_lem bus addr regs fan_id t other w map off off' =
    let r = fantgttachcnt fan_id in
    let old = word_at (regs w) r in
    let v = target_word t old in
    let done = target_set-Gives map fan_id t w in
    let parts = target_word_lem t old in
    let low : regs done.0 r ≡ t % 2048 / 8 =
      ap (λ f. f r) done.2 ∙ put_word_at (regs w) r v ∙ omega arith in
    let high : regs done.0 (r + 1) ≡ t % 8 * 32 + old / 2 ^ 8 % 2 ^ 8 % 32 =
      ap (λ f. f (r + 1)) done.2 ∙ put_word_next (regs w) r v ∙ omega arith in
    let kept : old / 2 ^ 8 % 2 ^ 8 % 32 ≡ regs w (r + 1) % 32 =
      omega (arith, map.bytes w r, map.bytes w (r + 1)) in
    (
      done.0,
      done.1,
      ap₂ tach_count_val high low ∙ tach_count_val_lem t (old / 2 ^ 8 % 2 ^ 8 % 32) (omega arith),
      omega arith,
      ap (λ f. f other) done.2 ∙ put_word_other (regs w) r v other off off',
    )
