-- ===== src/Onie/Image.antt =====
-- src/drivers/sdi_onie_eeprom.c: images of fields in the ONIE format, and what the loop over them
-- does.
use opx_sdi_sys.Base.{
  ℕ, zero, suc, ◌+◌, ◌-◌, ◌*◌, ◌≤◌, ◌<◌, ◌≡◌, ◌≢◌, ◌⊎◌, inl, inr, refl, ap₂, ◌∙◌, subst, arith,
  true, false, Bool-cases, List, [], ◌∷◌, ◌++◌, length, ◌==◌, some,
}
use opx_sdi_sys.I2c.Device.{window}
use opx_sdi_sys.Eeprom.{EntityParser}
use opx_sdi_sys.Onie.{Library, no_info}
use opx_sdi_sys.Onie.Fill.{
  Filled, apply_field, fill_fields, total_len, sdi_onie_fill_tlv_entity_info, tlv_crc_size,
  tlv_field_size, tl_field_size, crc32_tag, onie_crc_size, header_size,
}

-- A tag and its value.
abbrev pub Field : Type 0
Field = ℕ × List ℕ

-- The bytes of the fields.
abbrev pub encode : List Field → List ℕ
encode [] = []
encode ((tag, value) ∷ fs) = tag ∷ length value ∷ (value ++ encode fs)

-- The memory has the bytes from `at` on.
abbrev pub Holds : (ℕ → ℕ) → ℕ → List ℕ → Type 0
Holds mem at [] = Unit {0}
Holds mem at (b ∷ bs) = (mem at ≡ b) × Holds mem (at + 1) bs

-- The number of MAC addresses has two bytes.
abbrev pub IsField : Field → Type 0
IsField (tag, value) = (2 ≤ length value) ⊎ (tag ≢ 0x2a)

abbrev pub byte_or_zero : List ℕ → ℕ → ℕ
byte_or_zero [] i = 0
byte_or_zero (b ∷ bs) zero = b
byte_or_zero (b ∷ bs) (suc i) = byte_or_zero bs i

module _ (lib : Library) (parser_type : EntityParser) where
  -- The fields one after the other, each by itself.
  unfoldable pub apply_fields : List Field → Filled → Filled
  unfolding apply_field
  apply_fields [] s = s
  apply_fields ((tag, value) ∷ fs) s =
      apply_fields fs
        (apply_field lib parser_type tag value (byte_or_zero value 0) (byte_or_zero value 1) s)

pub window-Holds :
    (mem : ℕ → ℕ) (at : ℕ) (bs : List ℕ) → Holds mem at bs → window mem at (length bs) ≡ bs
unfolding window
window-Holds mem at [] holds = refl
window-Holds mem at (b ∷ bs) (here, there) =
    ap₂ (λ x xs. x ∷ xs) here (window-Holds mem (at + 1) bs there)

pub Holds-left : (mem : ℕ → ℕ) (at : ℕ) (xs ys : List ℕ) → Holds mem at (xs ++ ys) → Holds mem at xs
Holds-left mem at [] ys holds = tt
Holds-left mem at (x ∷ xs) ys (here, there) = (here, Holds-left mem (at + 1) xs ys there)

pub Holds-right :
    (mem : ℕ → ℕ) (at : ℕ) (xs ys : List ℕ)
    → Holds mem at (xs ++ ys)
    → Holds mem (at + length xs) ys
Holds-right mem at [] ys holds = subst (λ a. Holds mem a ys) (omega arith) holds
Holds-right mem at (x ∷ xs) ys (here, there) =
    subst (λ a. Holds mem a ys) (omega arith) (Holds-right mem (at + 1) xs ys there)

module _ (lib : Library) (parser_type : EntityParser) where
  -- Whatever the memory is, the loop ends.
  fill_fields_returns :
      (mem : ℕ → ℕ) (fuel at tlv_len : ℕ) (s : Filled)
      → tlv_len ≤ fuel
      → (t : Filled) × (fill_fields lib fuel parser_type mem at tlv_len s ≡ some t)
  unfolding fill_fields
  fill_fields_returns mem zero at tlv_len s enough =
      let e : (tlv_len == 0) ≡ true = ground arith in (s, rw e)
  fill_fields_returns mem (suc fuel) at tlv_len s enough =
      let next = at + (mem (at + 1) + tlv_field_size) in
      let rest =
        fill_fields_returns mem fuel next (tlv_len - mem (next + 1) - tl_field_size)
          (apply_field lib parser_type (mem at) (window mem (at + 2) (mem (at + 1))) (mem (at + 2))
            (mem (at + 3)) s)
          (omega arith) in
      elim (Bool-cases (tlv_len == 0)) [ inl e ↦ (s, rw e) | inr e ↦ (rest.0, rw e (rest.1)) ]

  -- For any memory: sdi_onie_fill_tlv_entity_info returns.
  pub fill_tlv_returns :
      (mem : ℕ → ℕ) (part_number : List ℕ)
      → (s : Filled) × (sdi_onie_fill_tlv_entity_info lib mem parser_type part_number ≡ some s)
  unfolding sdi_onie_fill_tlv_entity_info
  fill_tlv_returns mem part_number =
      let tlv_len = total_len mem - tlv_crc_size in
      fill_fields_returns mem tlv_len header_size tlv_len
        record { entity_data = no_info; system_part_number = part_number } (omega arith)

  pub fill_done :
      (mem : ℕ → ℕ) (fuel at : ℕ) (s : Filled)
      → fill_fields lib fuel parser_type mem at 0 s ≡ some s
  unfolding fill_fields
  fill_done mem zero at s = refl
  fill_done mem (suc fuel) at s = refl

  -- One round.
  pub fill_step :
      (mem : ℕ → ℕ) (fuel at tlv_len tag len next_len : ℕ) (s : Filled)
      → 0 < tlv_len
      → mem at ≡ tag
      → mem (at + 1) ≡ len
      → mem (at + (len + 2) + 1) ≡ next_len
      → fill_fields lib (suc fuel) parser_type mem at tlv_len s
        ≡ fill_fields lib fuel parser_type mem (at + (len + 2)) (tlv_len - next_len - 1) (
            apply_field lib parser_type tag
              (window mem (at + 2) len)
              (mem (at + 2))
              (mem (at + 3))
              s)
  unfolding fill_fields
  fill_step mem fuel at tlv_len tag len next_len s positive here length_here length_next =
      let e : (tlv_len == 0) ≡ false = ground arith in rw (e, here, length_here, length_next)

  -- The loop behind the image, where the memory is 0.
  fill_zeros :
      (mem : ℕ → ℕ) (fuel at tlv_len : ℕ) (s : Filled)
      → tlv_len ≤ fuel
      → ((a : ℕ) → at ≤ a → a < at + 2 * tlv_len + 2 → mem a ≡ 0)
      → fill_fields lib fuel parser_type mem at tlv_len s ≡ some s
  unfolding fill_fields apply_field
  fill_zeros mem fuel at zero s enough zeros = fill_done mem fuel at s
  fill_zeros mem zero at (suc tlv_len) s enough zeros = absurd (omega arith)
  fill_zeros mem (suc fuel) at (suc tlv_len) s enough zeros =
      fill_step mem fuel at (suc tlv_len) 0 0 0 s (omega arith)
        (zeros at (omega arith) (omega arith)) (zeros (at + 1) (omega arith) (omega arith))
        (zeros (at + (0 + 2) + 1) (omega arith) (omega arith))
      ∙ fill_zeros mem fuel (at + 2) (suc tlv_len - 0 - 1) s (omega arith)
          λ a low high. zeros a (omega arith) (omega arith)

  -- The loop at the field of the checksum.
  pub fill_crc :
      (mem : ℕ → ℕ) (fuel at tlv_len : ℕ) (s : Filled)
      → tlv_len ≤ fuel
      → mem at ≡ crc32_tag
      → mem (at + 1) ≡ onie_crc_size
      → ((a : ℕ) → at + 6 ≤ a → a < at + 6 + 2 * tlv_len → mem a ≡ 0)
      → fill_fields lib fuel parser_type mem at tlv_len s ≡ some s
  unfolding apply_field
  fill_crc mem fuel at zero s enough tag len zeros = fill_done mem fuel at s
  fill_crc mem zero at (suc tlv_len) s enough tag len zeros = absurd (omega arith)
  fill_crc mem (suc fuel) at (suc tlv_len) s enough tag len zeros =
      fill_step mem fuel at (suc tlv_len) 0xfe 4 0 s (omega arith) tag len
        (zeros (at + (4 + 2) + 1) (omega arith) (omega arith))
      ∙ fill_zeros mem fuel (at + 6) (suc tlv_len - 0 - 1) s (omega arith)
          λ a low high. zeros a (omega arith) (omega arith)
