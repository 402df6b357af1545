-- ===== src/Onie/Checks.antt =====
-- src/drivers/sdi_onie_eeprom.c: the buffer after the reads, and the checks of an image in it.
use opx_sdi_sys.Base.{
  ℕ, zero, suc, ◌+◌, ◌-◌, ◌*◌, ◌/◌, ◌%◌, ◌^◌, ◌≤◌, ◌<◌, ◌≡◌, refl, ap, ap₂, ◌∙◌, arith, true,
  bit_or, List, [], ◌∷◌, ◌++◌, length, ◌==◌, leb, if◌then◌else◌, ok, dec_lt,
}
use opx_sdi_sys.Base.Fields.{bit_or-shl}
use opx_sdi_sys.Base.Strings.{same_string}
use opx_sdi_sys.I2c.Device.{overlay, window, overlay_below, overlay_above}
use opx_sdi_sys.Onie.{Library}
use opx_sdi_sys.Onie.Fill.{
  total_len, tlv_field_size, crc32_tag, onie_crc_size, header_size, hdr_id_string, hdr_version,
  allocated, big_endian, sdi_onie_validate_header, sdi_onie_validate_checksum,
}
use opx_sdi_sys.Onie.Image.{Holds}

-- The header of an image.
abbrev pub header_of_image : ℕ → List ℕ
header_of_image total = hdr_id_string ++ 0 ∷ hdr_version ∷ (total / 2 ^ 8) ∷ (total % 2 ^ 8) ∷ []

-- The field of the checksum.
abbrev pub crc_field : ℕ → List ℕ
crc_field crc =
    crc32_tag
    ∷ onie_crc_size
    ∷ (crc / 2 ^ 24)
    ∷ (crc / 2 ^ 16 % 2 ^ 8)
    ∷ (crc / 2 ^ 8 % 2 ^ 8)
    ∷ (crc % 2 ^ 8)
    ∷ []

pub overlay_inside :
    (f g : ℕ → ℕ) (base n a : ℕ)
    → base ≤ a
    → a < base + n
    → overlay base (window f base n) g a ≡ f a
unfolding overlay window
overlay_inside f g base zero a low high = absurd (omega arith)
overlay_inside f g base (suc n) a low high =
    let g' : ℕ → ℕ = λ x. if x == base then f base else g x in
    elim (dec_lt base a) [
      | yes lt ↦ overlay_inside f g' (base + 1) n a (omega arith) (omega arith)
      | no ge ↦
          let e : a ≡ base = omega arith in
          overlay_below (base + 1) (window f (base + 1) n) g' a (omega arith) ∙ ground arith
    ]

big_endian_lem :
    (mem : ℕ → ℕ) (at crc : ℕ)
    → crc < 2 ^ 32
    → mem at ≡ crc / 2 ^ 24
    → mem (at + 1) ≡ crc / 2 ^ 16 % 2 ^ 8
    → mem (at + 2) ≡ crc / 2 ^ 8 % 2 ^ 8
    → mem (at + 3) ≡ crc % 2 ^ 8
    → big_endian mem at ≡ crc
big_endian_lem mem at crc small e0 e1 e2 e3 =
    let c0 = mem at in
    let c1 = mem (at + 1) in
    let c2 = mem (at + 2) in
    let one : bit_or (c0 * 2 ^ 24) (c1 * 2 ^ 16) ≡ (c0 * 2 ^ 8 + c1) * 2 ^ 16 =
      bit_or-shl 24 c0 (c1 * 2 ^ 16) (omega arith) ∙ omega arith in
    let two : bit_or ((c0 * 2 ^ 8 + c1) * 2 ^ 16) (c2 * 2 ^ 8)
        ≡ ((c0 * 2 ^ 8 + c1) * 2 ^ 8 + c2) * 2 ^ 8 =
      bit_or-shl 16 (c0 * 2 ^ 8 + c1) (c2 * 2 ^ 8) (omega arith) ∙ omega arith in
    ap (λ x. bit_or (bit_or x (c2 * 2 ^ 8)) (mem (at + 3))) one
    ∙ ap (λ x. bit_or x (mem (at + 3))) two
    ∙ bit_or-shl 8 ((c0 * 2 ^ 8 + c1) * 2 ^ 8 + c2) (mem (at + 3)) (omega arith)
    ∙ omega arith

pub Holds-same :
    (mem cells : ℕ → ℕ) (at : ℕ) (bs : List ℕ)
    → ((a : ℕ) → at ≤ a → a < at + length bs → mem a ≡ cells a)
    → Holds cells at bs
    → Holds mem at bs
Holds-same mem cells at [] same holds = tt
Holds-same mem cells at (b ∷ bs) same (here, there) = (
  same at (omega arith) (omega arith) ∙ here,
  Holds-same mem cells (at + 1) bs (λ a low high. same a (omega arith) (omega arith)) there,
)

pub window-same :
    (mem cells : ℕ → ℕ) (at n : ℕ)
    → ((a : ℕ) → at ≤ a → a < at + n → mem a ≡ cells a)
    → window mem at n ≡ window cells at n
unfolding window
window-same mem cells at zero same = refl
window-same mem cells at (suc n) same =
    ap₂ (λ x xs. x ∷ xs) (same at (omega arith) (omega arith))
      (window-same mem cells (at + 1) n (λ a low high. same a (omega arith) (omega arith)))

length-window : (f : ℕ → ℕ) (base n : ℕ) → length (window f base n) ≡ n
unfolding window
length-window f base zero = refl
length-window f base (suc n) = ap suc (length-window f (base + 1) n)

-- The buffer after the two reads.
module _ (cells beyond : ℕ → ℕ) (size total : ℕ) where
  abbrev pub first_read : ℕ → ℕ
  first_read = overlay 0 (window cells 0 header_size) (allocated size beyond)

  abbrev pub second_read : ℕ → ℕ
  second_read = overlay header_size (window cells header_size total) first_read

  pub first_read-cells : (a : ℕ) → a < 11 → first_read a ≡ cells a
  first_read-cells a h =
      overlay_inside cells (allocated size beyond) 0 11 a (omega arith) (omega arith)

  pub second_read-cells : (a : ℕ) → a < 11 + total → second_read a ≡ cells a
  second_read-cells a h = elim (dec_lt a 11) [
    | yes lt ↦ overlay_below 11 (window cells 11 total) first_read a lt ∙ first_read-cells a lt
    | no ge ↦ overlay_inside cells first_read 11 total a (omega arith) (omega arith)
  ]

  pub second_read-zero : (a : ℕ) → 11 + total ≤ a → a < size → second_read a ≡ 0
  second_read-zero a low high =
      overlay_above 11 (window cells 11 total) first_read a
        (omega (arith, length-window cells 11 total))
      ∙ overlay_above 0 (window cells 0 11) (allocated size beyond) a
          (omega (arith, length-window cells 0 11))
      ∙ ground arith

pub total_len_lem :
    (mem : ℕ → ℕ) (total : ℕ) → Holds mem 0 (header_of_image total) → total_len mem ≡ total
unfolding total_len
total_len_lem mem total holds =
    let t3 = ((holds.1).1).1 in
    let t6 = ((t3.1).1).1 in let t9 = ((t6.1).1).1 in omega (arith, t9.0, (t9.1).0)

pub header_accepted :
    {W : Type 0} (mem : ℕ → ℕ) (total size : ℕ) (w : W)
    → Holds mem 0 (header_of_image total)
    → 11 + total ≤ size
    → size < 2 ^ 31
    → sdi_onie_validate_header mem size w ≡ (ok tt, w)
unfolding sdi_onie_validate_header total_len window same_string
header_accepted mem total size w holds fits small =
    let t1 = holds.1 in
    let t2 = t1.1 in
    let t3 = t2.1 in
    let t4 = t3.1 in
    let t5 = t4.1 in
    let t6 = t5.1 in
    let t7 = t6.1 in
    let t8 = t7.1 in
    let t9 = t8.1 in
    let t10 = t9.1 in
    let rest : (size + 2 ^ 64 - header_size) % 2 ^ 64 ≡ size - 11 = omega arith in
    let short : leb (mem 9 * 2 ^ 8 + mem 10) (size - 11) ≡ true = ground arith in
    rw (holds.0, t1.0, t2.0, t3.0, t4.0, t5.0, t6.0, t7.0, t8.0, rest, short)

pub checksum_accepted :
    {W : Type 0} (lib : Library) (mem : ℕ → ℕ) (total crc : ℕ) (w : W)
    → total_len mem ≡ total
    → 6 ≤ total
    → Holds mem (5 + total) (crc_field crc)
    → crc < 2 ^ 32
    → lib.crc32 0 (window mem 0 (7 + total)) ≡ crc
    → sdi_onie_validate_checksum lib mem w ≡ (ok tt, w)
unfolding sdi_onie_validate_checksum
checksum_accepted lib mem total crc w length_of big holds small agrees =
    let t1 = holds.1 in
    let t2 = t1.1 in
    let t3 = t2.1 in
    let t4 = t3.1 in
    let t5 = t4.1 in
    let offset : header_size + total_len mem - (tlv_field_size + onie_crc_size) ≡ 5 + total =
      omega arith in
    let covered : header_size + total_len mem - onie_crc_size ≡ 7 + total = omega arith in
    let stored : big_endian mem (5 + total + 2) ≡ crc =
      big_endian_lem mem (5 + total + 2) crc small (ap mem (omega arith) ∙ t2.0)
        (ap mem (omega arith) ∙ t3.0) (ap mem (omega arith) ∙ t4.0) (ap mem (omega arith) ∙ t5.0) in
    let equal : (crc == crc) ≡ true = ground arith in
    rw (offset, covered, holds.0, t1.0, agrees, stored, equal)
