-- ===== src/Max6620/Setting.antt =====
-- src/drivers/sdi_max6620.c: a speed that is set, on a fan that turns as it was told.
use opx_sdi_sys.Base.{ℕ, ◌+◌, ◌*◌, ◌/◌, ◌%◌, ◌≤◌, ◌<◌, ◌≡◌, ap₂, ◌∙◌, arith, some, ok, false, ltb}
use opx_sdi_sys.I2c.{I2cBus}
use opx_sdi_sys.I2c.Registers.{IsRegisterMap, read_word-Gives, word_at}
use opx_sdi_sys.DeviceData.{Driven, sdi_platform_util_write_16bit_to_bytearray_le}
use opx_sdi_sys.Max6620.{
  Max6620Device, fantachcnt, fantgttachcnt, max_tach_count, tach_count_val,
  sdi_max6620_fan_tach_count_get,
}
use opx_sdi_sys.Max6620.Fan.{sdi_max6620_fan_speed_set, sdi_max6620_fan_speed_get}
use opx_sdi_sys.Max6620.Tach.{target_tach_count_set_lem}
use opx_sdi_sys.Max6620.Speed.{clocks, count_of_speed_lem, speed_of_count_lem, speed_le, speed_lt}

-- The regulation of the chip: with `spin` the fans have reached their targets, so that each of the
-- two registers of a tach count has the value of the target's.
pub record IsRegulated {W : Type 0} (regs : W → ℕ → ℕ) (spin : W → W) : Type 0 where
  pub first :
      (w : W) (fan_id : ℕ)
      → fan_id < 4
      → regs (spin w) (fantachcnt fan_id) ≡ regs w (fantgttachcnt fan_id)
  pub second :
      (w : W) (fan_id : ℕ)
      → fan_id < 4
      → regs (spin w) (fantachcnt fan_id + 1) ≡ regs w (fantgttachcnt fan_id + 1)

abbrev pub driven : {W : Type 0} → Max6620Device → W → Driven Max6620Device W
driven d w = record { private_data = d; hardware = w }

module _ {W : Type 0} {bus : I2cBus W} {addr : ℕ} {regs : W → ℕ → ℕ}
    (map : IsRegisterMap bus addr regs) where
  tach_count_get_lem :
      (fan_id : ℕ) (w : W)
      → (w' : W) × (sdi_max6620_fan_tach_count_get bus addr fan_id w
          ≡ (ok (tach_count_val (regs w (fantachcnt fan_id + 1)) (regs w (fantachcnt fan_id))), w'))
  unfolding sdi_max6620_fan_tach_count_get sdi_platform_util_write_16bit_to_bytearray_le
  tach_count_get_lem fan_id w =
      let r = fantachcnt fan_id in
      let got = read_word-Gives map w r in
      let low : word_at (regs w) r % 256 ≡ regs w r =
        omega (arith, map.bytes w r, map.bytes w (r + 1)) in
      let high : word_at (regs w) r / 256 % 256 ≡ regs w (r + 1) =
        omega (arith, map.bytes w r, map.bytes w (r + 1)) in
      (got.0, rw (got.1) (ap₂ (λ h l. (ok (tach_count_val h l), got.0)) high low))

-- On a device that keeps a byte for each command, for one of the four fans with a tach count period of at most 32,
-- and for a speed of at most its maximum whose target count is at least 1 and below 2047:
-- sdi_max6620_fan_speed_set succeeds; when the fan has reached the target,
-- sdi_max6620_fan_speed_get returns a speed that is not below the one that was set, and is above it
-- by less than one part in the target count.
pub speed_set-speed_get :
    {W : Type 0} (bus : I2cBus W) (addr : ℕ) (regs : W → ℕ → ℕ) (spin : W → W) (d : Max6620Device)
    (fan_id speed : ℕ) (w : W)
    → IsRegisterMap bus addr regs
    → IsRegulated regs spin
    → fan_id < 4
    → (d.max6620_fan fan_id).tach_count_period ≤ 32
    → speed ≤ (d.max6620_fan fan_id).max_speed
    → 0 < (d.max6620_fan fan_id).no_of_tach_pulse * speed
    → (d.max6620_fan fan_id).no_of_tach_pulse * speed ≤ clocks (d.max6620_fan fan_id)
    → clocks (d.max6620_fan fan_id) / ((d.max6620_fan fan_id).no_of_tach_pulse * speed)
      < max_tach_count
    → (w' w'' : W) × (got : ℕ) × (sdi_max6620_fan_speed_set bus addr fan_id speed (driven d w)
        ≡ (ok tt, driven d w'))
      × (sdi_max6620_fan_speed_get bus addr fan_id (driven d (spin w'))
          ≡ (ok (some got), driven d w''))
      × (speed ≤ got)
      × (got * (clocks (d.max6620_fan fan_id) / ((d.max6620_fan fan_id).no_of_tach_pulse * speed))
          < speed
            * (clocks (d.max6620_fan fan_id) / ((d.max6620_fan fan_id).no_of_tach_pulse * speed)
                + 1))
unfolding sdi_max6620_fan_speed_set sdi_max6620_fan_speed_get
speed_set-speed_get bus addr regs spin d fan_id speed w map turns small period top positive inside
      low =
    let f = d.max6620_fan fan_id in
    let t = clocks f / (f.no_of_tach_pulse * speed) in
    let set =
      target_tach_count_set_lem bus addr regs fan_id t 0 w map (omega arith) (omega arith) in
    let w' = set.0 in
    let get = tach_count_get_lem map fan_id (spin w') in
    let accepted : ltb f.max_speed speed ≡ false = ground arith in
    let count : tach_count_val (regs (spin w') (fantachcnt fan_id + 1))
          (regs (spin w') (fantachcnt fan_id))
        ≡ t =
      ap₂ tach_count_val (turns.second w' fan_id small) (turns.first w' fan_id small)
      ∙ set.2
      ∙ omega arith in
    (
      w',
      get.0,
      clocks f / (f.no_of_tach_pulse * t),
      rw (accepted, count_of_speed_lem f speed (driven d w) period positive inside, set.1),
      rw (get.1, count, speed_of_count_lem f speed (driven d get.0) period positive inside low),
      speed_le (clocks f) f.no_of_tach_pulse speed positive inside,
      speed_lt (clocks f) f.no_of_tach_pulse speed positive inside,
    )
