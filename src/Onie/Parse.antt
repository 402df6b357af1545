-- ===== src/Onie/Parse.antt =====
-- src/drivers/sdi_onie_eeprom.c: the loop over the fields of a whole image.
use opx_sdi_sys.Base.{
  ℕ, zero, suc, ◌+◌, ◌-◌, ◌*◌, ◌≤◌, ◌<◌, ◌≡◌, inl, inr, ap, ◌∙◌, subst, arith, false, List, [], ◌∷◌,
  length, length-append, All, ◌==◌, some,
}
use opx_sdi_sys.I2c.Device.{window}
use opx_sdi_sys.Eeprom.{EntityParser}
use opx_sdi_sys.Onie.{Library, no_info}
use opx_sdi_sys.Onie.Fill.{
  Filled, apply_field, fill_fields, total_len, sdi_onie_fill_tlv_entity_info, tlv_crc_size,
  crc32_tag, onie_crc_size, header_size,
}
use opx_sdi_sys.Onie.Image.{
  Field, encode, Holds, IsField, byte_or_zero, apply_fields, window-Holds, Holds-left, Holds-right,
  fill_step, fill_crc, fill_done,
}

-- What the rounds after the first one subtract from tlv_len.
abbrev weight : List Field → ℕ
weight [] = 0
weight ((tag, value) ∷ fs) = length value + 1 + weight fs

length-encode_more :
    (f : Field) (fs : List Field) → length (encode (f ∷ fs)) ≡ 2 + length f.1 + length (encode fs)
length-encode_more (tag, value) fs = omega (arith, length-append value (encode fs))

value-Holds :
    (mem : ℕ → ℕ) (at tag : ℕ) (value : List ℕ) (fs : List Field)
    → Holds mem at (encode ((tag, value) ∷ fs))
    → Holds mem (at + 2) value
value-Holds mem at tag value fs holds =
    subst (λ a. Holds mem a value) (omega arith)
      (Holds-left mem (at + 1 + 1) value (encode fs) (holds.1).1)

rest-Holds :
    (mem : ℕ → ℕ) (at tag : ℕ) (value : List ℕ) (fs : List Field)
    → Holds mem at (encode ((tag, value) ∷ fs))
    → Holds mem (at + (length value + 2)) (encode fs)
rest-Holds mem at tag value fs holds =
    subst (λ a. Holds mem a (encode fs)) (omega arith)
      (Holds-right mem (at + 1 + 1) value (encode fs) (holds.1).1)

module _ (lib : Library) (parser_type : EntityParser) where
  apply_here :
      (mem : ℕ → ℕ) (at tag : ℕ) (value : List ℕ) (s : Filled)
      → IsField (tag, value)
      → Holds mem (at + 2) value
      → apply_field lib parser_type tag
          (window mem (at + 2) (length value))
          (mem (at + 2))
          (mem (at + 3))
          s
        ≡ apply_field lib parser_type tag value (byte_or_zero value 0) (byte_or_zero value 1) s
  unfolding apply_field
  apply_here mem at tag value s (inr other) holds =
      let e : (tag == 0x2a) ≡ false = ground arith in rw (e, window-Holds mem (at + 2) value holds)
  apply_here mem at tag [] s (inl two) holds = absurd (omega arith)
  apply_here mem at tag (b ∷ []) s (inl two) holds = absurd (omega arith)
  apply_here mem at tag (b ∷ c ∷ value) s (inl two) holds =
      let first : mem (at + 2) ≡ b = holds.0 in
      let second : mem (at + 3) ≡ c = ap mem (omega arith) ∙ (holds.1).0 in
      let all = window-Holds mem (at + 2) (b ∷ c ∷ value) holds in rw (all, first, second)

  pub fill_every :
      (mem : ℕ → ℕ) (fuel at tlv_len tag : ℕ) (value : List ℕ) (fs : List Field) (s : Filled)
      → tlv_len ≤ fuel
      → weight fs < tlv_len
      → Holds mem at (encode ((tag, value) ∷ fs))
      → mem (at + length (encode ((tag, value) ∷ fs))) ≡ crc32_tag
      → mem (at + length (encode ((tag, value) ∷ fs)) + 1) ≡ onie_crc_size
      → ((a : ℕ)
          → at + length (encode ((tag, value) ∷ fs)) + 6 ≤ a
          → a < at + length (encode ((tag, value) ∷ fs)) + 6 + 2 * (tlv_len - weight fs)
          → mem a ≡ 0)
      → All IsField ((tag, value) ∷ fs)
      → fill_fields lib fuel parser_type mem at tlv_len s
        ≡ some (apply_fields lib parser_type ((tag, value) ∷ fs) s)
  unfolding apply_fields
  fill_every mem zero at tlv_len tag value fs s enough more holds crc four zeros fields =
      absurd (omega arith)
  fill_every mem (suc fuel) at tlv_len tag value [] s enough more holds crc four zeros fields =
      let size = length-encode_more (tag, value) [] in
      let here : mem (at + (length value + 2)) ≡ crc32_tag = ap mem (omega arith) ∙ crc in
      let four' : mem (at + (length value + 2) + 1) ≡ onie_crc_size = ap mem (omega arith) ∙ four in
      fill_step lib parser_type mem fuel at tlv_len tag (length value) 4 s (omega arith) holds.0
        (holds.1).0 four'
      ∙ fill_crc lib parser_type mem fuel (at + (length value + 2)) (tlv_len - 4 - 1) _
          (omega arith) here four' (λ a low high. zeros a (omega arith) (omega arith))
      ∙ ap some (apply_here mem at tag value s fields.0 (value-Holds mem at tag value [] holds))
  fill_every mem (suc fuel) at tlv_len tag value ((tag', value') ∷ fs) s enough more holds crc four
        zeros fields =
      let size = length-encode_more (tag, value) ((tag', value') ∷ fs) in
      let rest = rest-Holds mem at tag value ((tag', value') ∷ fs) holds in
      fill_step lib parser_type mem fuel at tlv_len tag (length value) (length value') s
        (omega arith) holds.0 (holds.1).0 (rest.1).0
      ∙ fill_every mem fuel (at + (length value + 2)) (tlv_len - length value' - 1) tag' value' fs _
          (omega arith) (omega arith) rest (ap mem (omega arith) ∙ crc)
          (ap mem (omega arith) ∙ four) (λ a low high. zeros a (omega arith) (omega arith)) fields.1
      ∙ ap (λ t. some (apply_fields lib parser_type ((tag', value') ∷ fs) t))
          (apply_here mem at tag value s fields.0
            (value-Holds mem at tag value ((tag', value') ∷ fs) holds))

-- The length of the bytes behind the image that the loop may read, two at a time.
abbrev pub overrun : List Field → ℕ
overrun [] = 0
overrun ((tag, value) ∷ fs) = 2 * (length value + length fs + 2)

length-encode : (fs : List Field) → length (encode fs) ≡ weight fs + length fs
length-encode [] = omega arith
length-encode ((tag, value) ∷ fs) =
    omega (arith, length-encode_more (tag, value) fs, length-encode fs)

-- For a memory with fields, the tag and the length of the checksum behind them, the length of both in
-- the header, and zeros behind the image: sdi_onie_fill_tlv_entity_info returns what the fields give
-- when they are applied one after the other, and nothing else.
pub fill_tlv-image :
    (lib : Library) (parser_type : EntityParser) (mem : ℕ → ℕ) (part_number : List ℕ)
    (fs : List Field)
    → Holds mem header_size (encode fs)
    → mem (header_size + length (encode fs)) ≡ crc32_tag
    → mem (header_size + length (encode fs) + 1) ≡ onie_crc_size
    → total_len mem ≡ length (encode fs) + 6
    → ((a : ℕ)
        → header_size + length (encode fs) + 6 ≤ a
        → a < header_size + length (encode fs) + 6 + overrun fs
        → mem a ≡ 0)
    → All IsField fs
    → sdi_onie_fill_tlv_entity_info lib mem parser_type part_number
      ≡ some (
          apply_fields lib parser_type fs
            record { entity_data = no_info; system_part_number = part_number })
unfolding sdi_onie_fill_tlv_entity_info apply_fields
fill_tlv-image lib parser_type mem part_number [] holds crc four total zeros fields =
    let e : total_len mem - tlv_crc_size ≡ 0 = omega arith in
    rw e (fill_done lib parser_type mem 0 header_size _)
fill_tlv-image lib parser_type mem part_number ((tag, value) ∷ fs) holds crc four total zeros
      fields =
    let size = length-encode_more (tag, value) fs in
    let rest = length-encode fs in
    fill_every lib parser_type mem (total_len mem - tlv_crc_size) header_size
      (total_len mem - tlv_crc_size) tag value fs _ (omega arith) (omega arith) holds crc four
      (λ a low high. zeros a low (omega arith)) fields
