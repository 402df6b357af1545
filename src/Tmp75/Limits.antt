-- ===== src/Tmp75/Limits.antt =====
-- src/drivers/sdi_tmp75.c: the thresholds of the driver, of the chip and of the status.
use opx_sdi_sys.Base.{
  ℕ, ◌+◌, ◌-◌, ◌%◌, ◌^◌, ◌≤◌, ◌<◌, ◌≡◌, refl, sym, ap, subst, ◌∙◌, arith, inl, inr, Bool, true,
  false, not, ◌||◌, leb, ◌==◌, ==_iff, Bool-cases, bit_and, bit, bit-bit_and, bit-complement,
  bit-mask, bit-zero, bit-mod, bit_high, eq_of_bits, dec_lt, List, [], ◌∷◌, All, ok,
}
use opx_sdi_sys.Base.Fields.{eq_of_all_bits}
use opx_sdi_sys.I2c.{I2cBus}
use opx_sdi_sys.I2c.Registers.{IsRegisterMap, read_byte-Gives}
use opx_sdi_sys.DeviceData.{Driven}
use opx_sdi_sys.Tmp75.{
  Tmp75Device, Threshold, low_threshold, high_threshold, critical_threshold, int_le,
  is_outside_byte, temp_reg, store_threshold, sdi_tmp75_temperature_get, sdi_tmp75_threshold_set,
  sdi_tmp75_status_get,
}

was_true : (b : Bool) → not b ≡ false → b ≡ true
was_true true e = refl
was_true false e = sym e

-- A 32-bit value that passes the test is a byte.
inside_byte : (t : ℕ) → t < 2 ^ 32 → is_outside_byte t ≡ false → t < 256
inside_byte t small passes = subst (λ x. x < 256) (sym whole) (omega arith)
  where
    none_set : bit_and t (2 ^ 32 - 1 - 0xff) ≡ 0
    none_set =
        (==_iff (bit_and t (2 ^ 32 - 1 - 0xff)) 0).0
          (was_true (bit_and t (2 ^ 32 - 1 - 0xff) == 0) passes)

    high : (k : ℕ) → k < 32 → 8 ≤ k → bit t k ≡ 0
    high k lt ge = omega (
      arith,
      bit-bit_and t (2 ^ 32 - 1 - 0xff) k,
      ap (λ x. bit x k) none_set,
      bit-zero k,
      bit-complement 32 0xff k (omega arith) lt,
      bit_high 8 0xff k (omega arith) ge,
    )

    digit : (k : ℕ) → k < 32 → bit t k ≡ bit (t % 2 ^ 8) k
    digit k lt = elim (dec_lt k 8) [
      | yes below ↦ sym (bit-mod 8 t k below)
      | no ge ↦ high k lt (omega arith) ∙ sym (bit_high 8 (t % 2 ^ 8) k (omega arith) (omega arith))
    ]

    whole : t ≡ t % 2 ^ 8
    whole = eq_of_bits 32 t (t % 2 ^ 8) small (omega arith) digit

-- A byte passes the test.
pub byte_passes : (t : ℕ) → t < 256 → is_outside_byte t ≡ false
byte_passes t small = ap (λ x. not (x == 0)) none_set
  where
    digit : (k : ℕ) → bit (bit_and t (2 ^ 32 - 1 - 0xff)) k ≡ bit 0 k
    digit k = elim (dec_lt k 8) [
      | yes below ↦ omega (
        arith,
        bit-bit_and t (2 ^ 32 - 1 - 0xff) k,
        bit-zero k,
        bit-complement 32 0xff k (omega arith) (omega arith),
        bit-mask 8 k below,
      )
      | no ge ↦ omega (
        arith,
        bit-bit_and t (2 ^ 32 - 1 - 0xff) k,
        bit-zero k,
        bit_high 8 t k small (omega arith),
      )
    ]

    none_set : bit_and t (2 ^ 32 - 1 - 0xff) ≡ 0
    none_set = eq_of_all_bits (bit_and t (2 ^ 32 - 1 - 0xff)) 0 digit

int_le_bytes : (a b : ℕ) → a < 256 → b < 256 → int_le a b ≡ leb a b
int_le_bytes a b small small' =
    let first : (a + 2 ^ 31) % 2 ^ 32 ≡ a + 2 ^ 31 = omega arith in
    let second : (b + 2 ^ 31) % 2 ^ 32 ≡ b + 2 ^ 31 = omega arith in
    rw (first, second) (ground arith)

-- The thresholds of the driver are bytes.
abbrev pub IsBounded : {W : Type 0} → Driven Tmp75Device W → Type 0
IsBounded c = (c.private_data.low < 256) × (c.private_data.high < 256)

module _ {W : Type 0} (bus : I2cBus W) (addr : ℕ) where
  store-IsBounded :
      (type : Threshold) (t : ℕ) (c : Driven Tmp75Device W)
      → t < 256
      → IsBounded c
      → IsBounded (store_threshold bus addr type t c).1
  unfolding store_threshold
  store-IsBounded low_threshold t c small bounded = (small, bounded.1)
  store-IsBounded high_threshold t c small bounded = (bounded.0, small)
  store-IsBounded critical_threshold t c small bounded = bounded

  threshold_set-IsBounded :
      (type : Threshold) (t : ℕ) (c : Driven Tmp75Device W)
      → t < 2 ^ 32
      → IsBounded c
      → IsBounded (sdi_tmp75_threshold_set bus addr type t c).1
  unfolding sdi_tmp75_threshold_set
  threshold_set-IsBounded type t c small bounded = elim (Bool-cases (is_outside_byte t)) [
    | inl e ↦ rw e bounded
    | inr e ↦ rw e (store-IsBounded type t c (inside_byte t small e) bounded)
  ]

-- What may happen to the driver and to its hardware: a threshold is set, with any outcome, or the
-- hardware changes.
pub data Event (W : Type 0) : Type 0 where
  sets : Threshold → ℕ → Event W
  changes : (W → W) → Event W

abbrev pub run :
    {W : Type 0} → I2cBus W → ℕ → List (Event W) → Driven Tmp75Device W → Driven Tmp75Device W
run bus addr [] c = c
run bus addr (sets type t ∷ events) c =
    run bus addr events (sdi_tmp75_threshold_set bus addr type t c).1
run bus addr (changes f ∷ events) c =
    run bus addr events record { private_data = c.private_data; hardware = f c.hardware }

-- The temperatures are values of type int.
abbrev pub IsEvent : {W : Type 0} → Event W → Type 0
IsEvent (sets type t) = t < 2 ^ 32
IsEvent (changes f) = Unit {0}

run-IsBounded :
    {W : Type 0} (bus : I2cBus W) (addr : ℕ) (events : List (Event W)) (c : Driven Tmp75Device W)
    → All IsEvent events
    → IsBounded c
    → IsBounded (run bus addr events c)
run-IsBounded bus addr [] c ints bounded = bounded
run-IsBounded bus addr (sets type t ∷ events) c ints bounded =
    run-IsBounded bus addr events _ ints.1
      (threshold_set-IsBounded bus addr type t c ints.0 bounded)
run-IsBounded bus addr (changes f ∷ events) c ints bounded =
    run-IsBounded bus addr events _ ints.1 bounded

-- From a driver whose thresholds are bytes, after any thresholds that were set, of any values of type
-- int and with any outcome on the bus, and any changes of the hardware: on a device that keeps a byte
-- for each command sdi_tmp75_status_get succeeds, and its status is true exactly where the
-- temperature register is at least the high or at most the low threshold, compared as natural
-- numbers.
pub status_get_lem :
    {W : Type 0} (bus : I2cBus W) (addr : ℕ) (regs : W → ℕ → ℕ) (events : List (Event W))
    (c : Driven Tmp75Device W)
    → IsRegisterMap bus addr regs
    → IsBounded c
    → All IsEvent events
    → (c' : Driven Tmp75Device W) × (sdi_tmp75_status_get bus addr (run bus addr events c) ≡ (
      ok (
          leb
            (run bus addr events c).private_data.high
            (regs (run bus addr events c).hardware temp_reg)
          || leb
              (regs (run bus addr events c).hardware temp_reg)
              (run bus addr events c).private_data.low),
      c',
    ))
unfolding sdi_tmp75_status_get sdi_tmp75_temperature_get
status_get_lem bus addr regs events c map bounded ints =
    let after = run bus addr events c in
    let bytes = run-IsBounded bus addr events c ints bounded in
    let got = read_byte-Gives map after.hardware temp_reg in
    let value = regs after.hardware temp_reg in
    let small = map.bytes after.hardware temp_reg in
    let upper : int_le after.private_data.high value ≡ leb after.private_data.high value =
      int_le_bytes after.private_data.high value bytes.1 small in
    let lower : int_le value after.private_data.low ≡ leb value after.private_data.low =
      int_le_bytes value after.private_data.low small bytes.0 in
    (record { private_data = after.private_data; hardware = got.0 }, rw (got.1, upper, lower) refl)
