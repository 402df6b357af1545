-- ===== src/Cpld/Group/Byte.antt =====
-- The bits of a field that lies in one byte: toggled, stored by the bit stream function, and read.
use opx_sdi_sys.Base.{
  ℕ, ◌+◌, ◌-◌, ◌/◌, ◌%◌, ◌^◌, ◌≤◌, ◌<◌, ◌≡◌, refl, ◌∙◌, arith, max, bit_and, bit, bit-lt, bit-shr,
  bit-mod, bit-bit_and, bit-complement, bit-mask, mask-lt, bit_and-le, pow-le, eq_of_bits,
}
use opx_sdi_sys.Bus.Pin.{Polarity, normal, inverted}
use opx_sdi_sys.Cpld.Group.{toggle_if, toggle_and_mask, sdi_cpld_bit_set_sub_bitstream}
use opx_sdi_sys.Cpld.Group.Field.{sub_bitstream_below, sub_bitstream_inside, sub_bitstream_above}

-- The width of the field.
abbrev pub width_of : ℕ → ℕ → ℕ
width_of start end = end - start + 1

-- One toggle flips each bit of the field.
pub toggle_bit :
    (w start end v k : ℕ)
    → v < 2 ^ w
    → k < w
    → k < width_of start end
    → bit (toggle_and_mask w v start end) k ≡ 1 - bit v k
unfolding toggle_and_mask
toggle_bit w start end v k fits lt inside = omega (
  arith,
  bit-bit_and (2 ^ w - 1 - v) (2 ^ width_of start end - 1) k,
  bit-mask (width_of start end) k inside,
  bit-complement w v k fits lt,
)

pub toggle_masked-lt : (w start end v : ℕ) → toggle_and_mask w v start end < 2 ^ width_of start end
unfolding toggle_and_mask
toggle_masked-lt w start end v =
    omega
      (arith, bit_and-le (2 ^ w - 1 - v) (2 ^ width_of start end - 1), mask-lt (width_of start end))

-- The field of a byte is not cut off.
pub toggle_uncut :
    (w start end v : ℕ)
    → end < 8
    → toggle_and_mask w v start end % 2 ^ 8 ≡ toggle_and_mask w v start end
toggle_uncut w start end v small =
    omega (arith, toggle_masked-lt w start end v, pow-le (width_of start end) 8 (omega arith))

-- Toggling twice in a field, first as uint8_t and then as uint_t, gives a value of the field back.
pub toggle_toggle :
    (p : Polarity) (start end v : ℕ)
    → start ≤ end
    → end < 8
    → v < 2 ^ width_of start end
    → toggle_if p 32 (toggle_if p 8 v start end) start end ≡ v
unfolding toggle_if
toggle_toggle normal start end v order small fits = refl
toggle_toggle inverted start end v order small fits =
    rw (toggle_uncut 8 start end v small, toggle_uncut 32 start end t small)
      (eq_of_bits (width_of start end) (toggle_and_mask 32 t start end) v
        (toggle_masked-lt 32 start end t) fits
        λ k h. omega (
          arith,
          toggle_bit 32 start end t k (omega (arith, toggle_masked-lt 8 start end v, narrow))
              (omega arith) h,
          toggle_bit 8 start end v k (omega (arith, narrow)) (omega arith) h,
          bit-lt v k,
        ))
  where
    t : ℕ
    t = toggle_and_mask 8 v start end

    narrow : 2 ^ width_of start end ≤ 2 ^ 8
    narrow = pow-le (width_of start end) 8 (omega arith)

pub toggle-lt :
    (p : Polarity) (start end v : ℕ)
    → end < 8
    → v < 2 ^ width_of start end
    → toggle_if p 8 v start end < 2 ^ width_of start end
unfolding toggle_if
toggle-lt normal start end v small fits = fits
toggle-lt inverted start end v small fits =
    rw (toggle_uncut 8 start end v small) (toggle_masked-lt 8 start end v)

-- A bit of a field in a register of the polarity: for an inverted one the opposite of the level's.
abbrev pub shown_bit : Polarity → ℕ → ℕ
shown_bit normal b = b
shown_bit inverted b = 1 - b

pub bit-toggle :
    (p : Polarity) (start end v k : ℕ)
    → end < 8
    → v < 2 ^ width_of start end
    → k < width_of start end
    → bit (toggle_if p 8 v start end) k ≡ shown_bit p (bit v k)
unfolding toggle_if
bit-toggle normal start end v k small fits inside = refl
bit-toggle inverted start end v k small fits inside = rw (toggle_uncut 8 start end v small) (
    toggle_bit 8 start end v k (omega (arith, pow-le (width_of start end) 8 (omega arith)))
      (omega arith) inside)

module _ (start end : ℕ) (order : start ≤ end) (small : end < 8) where
  abbrev pub stored : ℕ → ℕ → ℕ
  stored dst src = sdi_cpld_bit_set_sub_bitstream dst src start (end + 1) % 2 ^ 8

  -- The field of the stored byte is the source.
  pub field-stored :
      (dst src : ℕ)
      → src < 2 ^ width_of start end
      → bit_and (stored dst src / 2 ^ start) (2 ^ width_of start end - 1) ≡ src
  field-stored dst src fits =
      eq_of_bits (width_of start end)
        (bit_and (stored dst src / 2 ^ start) (2 ^ width_of start end - 1)) src
        (omega (
          arith,
          bit_and-le (stored dst src / 2 ^ start) (2 ^ width_of start end - 1),
          mask-lt (width_of start end),
        ))
        fits
        λ k h. omega (
          arith,
          bit-bit_and (stored dst src / 2 ^ start) (2 ^ width_of start end - 1) k,
          bit-mask (width_of start end) k h,
          bit-shr start (stored dst src) k,
          bit-mod 8 (sdi_cpld_bit_set_sub_bitstream dst src start (end + 1)) (start + k)
              (omega arith),
          sub_bitstream_inside dst src start (end + 1) (omega arith) (omega arith) k (omega arith),
          bit-lt src k,
        )

  pub stored_below : (dst src k : ℕ) → k < start → bit (stored dst src) k ≡ bit dst k
  stored_below dst src k h = omega (
    arith,
    bit-mod 8 (sdi_cpld_bit_set_sub_bitstream dst src start (end + 1)) k (omega arith),
    sub_bitstream_below dst src start (end + 1) (omega arith) (omega arith) k h,
  )

  pub stored_inside :
      (dst src k : ℕ) → start ≤ k → k ≤ end → bit (stored dst src) k ≡ bit src (k - start)
  stored_inside dst src k low high = rw position at (
      bit-mod 8 (sdi_cpld_bit_set_sub_bitstream dst src start (end + 1)) (start + (k - start))
        (omega arith)
      ∙ sub_bitstream_inside dst src start (end + 1) (omega arith) (omega arith) (k - start)
          (omega arith))
    where
      position : start + (k - start) ≡ k
      position = omega arith

  -- Above the field a source that is too wide is added to what was there.
  pub stored_above :
      (dst src k : ℕ)
      → end < k
      → k < 8
      → bit (stored dst src) k ≡ max (bit dst k) (bit src (k - start))
  stored_above dst src k h lt = rw position at (
      bit-mod 8 (sdi_cpld_bit_set_sub_bitstream dst src start (end + 1)) (start + (k - start))
        (omega arith)
      ∙ sub_bitstream_above dst src start (end + 1) (omega arith) (omega arith) (k - start)
          (omega arith) (omega arith))
    where
      position : start + (k - start) ≡ k
      position = omega arith
