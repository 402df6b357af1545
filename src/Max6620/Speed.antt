-- ===== src/Max6620/Speed.antt =====
-- src/drivers/sdi_max6620.c: fan speeds and the tach counts that stand for them.
use native.Mathlib.Nat.{
  div-mul-le_self, lt-div-mul-add, le-div_iff_mul-le, div-lt_iff_lt-mul, lt_of_mul-lt-mul_left,
  mul-le-mul_left, mul-pos, mod-le,
}
use opx_sdi_sys.Base.{
  ℕ, zero, suc, ◌+◌, ◌*◌, ◌/◌, ◌%◌, ◌^◌, ◌≤◌, ◌<◌, ◌≡◌, arith, ap, some, bit_or, ok, false, ◌==◌,
}
use opx_sdi_sys.DeviceData.{sdi_platform_util_write_16bit_to_bytearray_le}
use opx_sdi_sys.Base.Fields.{bit_or-shl}
use opx_sdi_sys.Max6620.{FanData, uint_quotient, speed_range, data_to_drv_volt, max_tach_count}
use opx_sdi_sys.Max6620.Fan.{tach_quotient, speed_of_count, count_of_speed, initial_rpm}

-- The clock counts of a fan at one revolution per minute.
abbrev pub clocks : FanData → ℕ
clocks f = f.tach_count_period * 491520

tach_quotient_lem :
    {W : Type 0} (f : FanData) (x : ℕ) (w : W)
    → f.tach_count_period ≤ 32
    → 0 < f.no_of_tach_pulse * x
    → f.no_of_tach_pulse * x ≤ clocks f
    → tach_quotient f x w ≡ (ok (clocks f / (f.no_of_tach_pulse * x)), w)
unfolding tach_quotient uint_quotient
tach_quotient_lem f x w period positive inside =
    let divisor : f.no_of_tach_pulse * x % 2 ^ 32 ≡ f.no_of_tach_pulse * x = omega arith in
    let dividend : clocks f % 2 ^ 32 ≡ clocks f = omega arith in
    let nonzero : (f.no_of_tach_pulse * x == 0) ≡ false = ground arith in
    rw (divisor, dividend, nonzero)

right_positive : (a b : ℕ) → 0 < a * b → 0 < b
right_positive a zero h = absurd (omega arith)
right_positive a (suc b) h = omega arith

left_positive : (a b : ℕ) → 0 < a * b → 0 < a
left_positive zero b h = absurd (omega arith)
left_positive (suc a) b h = omega arith

-- The count of a speed, and the speed of that count.
module _ (clock pulses speed : ℕ) (positive : 0 < pulses * speed)
    (inside : pulses * speed ≤ clock) where
  abbrev count : ℕ
  count = clock / (pulses * speed)

  count_positive : 0 < count
  count_positive = (le-div_iff_mul-le positive).1 (omega arith)

  below : speed * (pulses * count) ≤ clock
  below = omega (arith, div-mul-le_self clock (pulses * speed))

  count_inside : pulses * count ≤ clock
  count_inside = omega (
    arith,
    below,
    mul-le-mul_left {m = 1} {n = speed} (pulses * count) (right_positive pulses speed positive),
  )

  product_positive : 0 < pulses * count
  product_positive = mul-pos (left_positive pulses speed positive) count_positive

  pub speed_le : speed ≤ clock / (pulses * count)
  speed_le = (le-div_iff_mul-le product_positive).1 below

  pub speed_lt : clock / (pulses * count) * count < speed * (count + 1)
  speed_lt =
      lt_of_mul-lt-mul_left pulses
        (omega (arith, div-mul-le_self clock (pulses * count), lt-div-mul-add {a = clock} positive))

module _ {W : Type 0} (f : FanData) (speed : ℕ) (w : W) (period : f.tach_count_period ≤ 32)
    (positive : 0 < f.no_of_tach_pulse * speed)
    (inside : f.no_of_tach_pulse * speed ≤ clocks f) where
  abbrev pub target : ℕ
  target = clocks f / (f.no_of_tach_pulse * speed)

  pub count_of_speed_lem : count_of_speed f speed w ≡ (ok target, w)
  unfolding count_of_speed
  count_of_speed_lem =
      let nonzero : (speed == 0) ≡ false =
        ground (arith, right_positive f.no_of_tach_pulse speed positive) in
      rw nonzero (tach_quotient_lem f speed w period positive inside)

  pub speed_of_count_lem :
      target < max_tach_count
      → speed_of_count f target w ≡ (ok (some (clocks f / (f.no_of_tach_pulse * target))), w)
  unfolding speed_of_count
  speed_of_count_lem low =
      let above = count_positive (clocks f) f.no_of_tach_pulse speed positive inside in
      let nonzero : (target == 0) ≡ false = ground arith in
      let moving : (target == max_tach_count) ≡ false = ground arith in
      rw (
        nonzero,
        moving,
        tach_quotient_lem f target w period
            (product_positive (clocks f) f.no_of_tach_pulse speed positive inside)
            (count_inside (clocks f) f.no_of_tach_pulse speed positive inside),
      )

period_slow : (m : ℕ) → 250 < m → 250 * (speed_range m).0 < m
unfolding speed_range
period_slow m low = ground arith

period_fast : (m : ℕ) → m ≤ 2 ^ 20 → m ≤ (speed_range m).0 * 32768
unfolding speed_range
period_fast m high = ground arith

period_small : (m : ℕ) → (speed_range m).0 ≤ 32
unfolding speed_range
period_small m = ground arith

-- For a fan of two pulses per revolution and the tach count period that
-- sdi_max6620_fan_tach_count_period_set chooses for its maximum speed, which is above 250 and at
-- most 2 ^ 20: sdi_max6620_fan_speed_set computes for any speed from half the maximum to the maximum a
-- target count that is positive and below 2047, so that it fits its field and does not mean a fan
-- that stands still.
pub target_in_range :
    {W : Type 0} (f : FanData) (speed : ℕ) (w : W)
    → f.no_of_tach_pulse ≡ 2
    → f.tach_count_period ≡ (speed_range f.max_speed).0
    → 250 < f.max_speed
    → f.max_speed ≤ 2 ^ 20
    → f.max_speed ≤ 2 * speed
    → speed ≤ f.max_speed
    → (tgt_tach_count : ℕ) × (count_of_speed f speed w ≡ (ok tgt_tach_count, w))
      × (0 < tgt_tach_count)
      × (tgt_tach_count < 2047)
target_in_range f speed w two chosen low high half top =
    let slow = period_slow f.max_speed low in
    let fast = period_fast f.max_speed high in
    let few = period_small f.max_speed in
    let pulses : f.no_of_tach_pulse * speed ≡ 2 * speed = ap (λ p. p * speed) two in
    let positive : 0 < f.no_of_tach_pulse * speed = omega arith in
    (
      target f speed w (omega arith) positive (omega arith),
      count_of_speed_lem f speed w (omega arith) positive (omega arith),
      (le-div_iff_mul-le positive).1 (omega arith),
      (div-lt_iff_lt-mul positive).1 (omega arith),
    )

percent-le :
    (max_speed drv_volt : ℕ) → drv_volt ≤ 0x1ff → initial_rpm max_speed drv_volt ≤ max_speed
unfolding initial_rpm
percent-le max_speed drv_volt small =
    let percent : drv_volt * 100 / 511 ≤ 100 = omega arith in
    omega (
      arith,
      mul-le-mul_left {m = drv_volt * 100 / 511} {n = 100} max_speed percent,
      mod-le (max_speed * (drv_volt * 100 / 511)) (2 ^ 32),
    )

-- Whatever word the drive voltage register holds: the speed that sdi_max6620_init_fan computes from
-- it is not above the fan's maximum, so sdi_max6620_fan_speed_set does not refuse it.
initial_rpm-le :
    (max_speed word : ℕ)
    → initial_rpm max_speed (data_to_drv_volt (sdi_platform_util_write_16bit_to_bytearray_le word))
      ≤ max_speed
unfolding data_to_drv_volt sdi_platform_util_write_16bit_to_bytearray_le
initial_rpm-le max_speed word =
    percent-le max_speed (bit_or (word % 2 ^ 8 * 2 ^ 8) (word / 2 ^ 8 % 2 ^ 8) / 2 ^ 7)
      (omega (arith, bit_or-shl 8 (word % 2 ^ 8) (word / 2 ^ 8 % 2 ^ 8) (omega arith)))
