-- ===== src/Cpld/Group/Field.antt =====
-- sdi_cpld_bit_set_sub_bitstream and the mask and toggle macros, bit by bit.
use opx_sdi_sys.Base.{
  ℕ, ◌+◌, ◌-◌, ◌*◌, ◌%◌, ◌^◌, ◌≤◌, ◌<◌, ◌≡◌, arith, min, max, mask-lt, bit_and, bit_or, bit, bit-lt,
  bit-bit_and, bit-bit_or, bit-shl, bit-shl_low, bit-mask, bit-mod, bit_high, bit-complement,
  pow-le,
}
use opx_sdi_sys.Cpld.Group.{sdi_cpld_bit_set_sub_bitstream}

module _ (dst src start end : ℕ) (wide : end ≤ 64) (order : start ≤ end) where
  abbrev kept : ℕ
  kept = bit_or (2 ^ 64 - 1 - (2 ^ end - 1)) (2 ^ start - 1)

  kept_below : (k : ℕ) → k < start → bit kept k ≡ 1
  kept_below k h = omega (
    arith,
    bit-bit_or (2 ^ 64 - 1 - (2 ^ end - 1)) (2 ^ start - 1) k,
    bit-mask start k h,
    bit-lt (2 ^ 64 - 1 - (2 ^ end - 1)) k,
  )

  left_bit : (k : ℕ) → k < 64 → bit (2 ^ 64 - 1 - (2 ^ end - 1)) k ≡ 1 - bit (2 ^ end - 1) k
  left_bit k h =
      bit-complement 64 (2 ^ end - 1) k (omega (arith, pow-le end 64 wide, mask-lt end)) h

  kept_inside : (k : ℕ) → start ≤ k → k < end → bit kept k ≡ 0
  kept_inside k h lt = omega (
    arith,
    bit-bit_or (2 ^ 64 - 1 - (2 ^ end - 1)) (2 ^ start - 1) k,
    left_bit k (omega arith),
    bit-mask end k lt,
    bit_high start (2 ^ start - 1) k (mask-lt start) h,
  )

  kept_above : (k : ℕ) → end ≤ k → k < 64 → bit kept k ≡ 1
  kept_above k h lt = omega (
    arith,
    bit-bit_or (2 ^ 64 - 1 - (2 ^ end - 1)) (2 ^ start - 1) k,
    left_bit k lt,
    bit_high end (2 ^ end - 1) k (mask-lt end) h,
    bit-lt (2 ^ start - 1) k,
  )

  result_bit :
      (k : ℕ)
      → k < 64
      → bit (sdi_cpld_bit_set_sub_bitstream dst src start end) k
        ≡ max (min (bit dst k) (bit kept k)) (bit (src * 2 ^ start) k)
  unfolding sdi_cpld_bit_set_sub_bitstream
  result_bit k h = rw (
    bit-bit_or (bit_and dst kept) (src * 2 ^ start % 2 ^ 64) k,
    bit-bit_and,
    bit-mod 64 (src * 2 ^ start) k h,
  )

  -- Below the field the target keeps its bits.
  pub sub_bitstream_below :
      (k : ℕ) → k < start → bit (sdi_cpld_bit_set_sub_bitstream dst src start end) k ≡ bit dst k
  sub_bitstream_below k h =
      omega
        (arith, result_bit k (omega arith), kept_below k h, bit-shl_low start src k h, bit-lt dst k)

  -- In the field stand the bits of the source.
  pub sub_bitstream_inside :
      (j : ℕ)
      → start + j < end
      → bit (sdi_cpld_bit_set_sub_bitstream dst src start end) (start + j) ≡ bit src j
  sub_bitstream_inside j h = omega (
    arith,
    result_bit (start + j) (omega arith),
    kept_inside (start + j) (omega arith) h,
    bit-shl start src j,
  )

  -- Above the field the bits of a source that is too wide are added to those of the target.
  pub sub_bitstream_above :
      (j : ℕ)
      → end ≤ start + j
      → start + j < 64
      → bit (sdi_cpld_bit_set_sub_bitstream dst src start end) (start + j)
        ≡ max (bit dst (start + j)) (bit src j)
  sub_bitstream_above j h lt = omega (
    arith,
    result_bit (start + j) lt,
    kept_above (start + j) h lt,
    bit-shl start src j,
    bit-lt dst (start + j),
  )
