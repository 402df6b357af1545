-- ===== src/Max6620/Faults.antt =====
-- src/drivers/sdi_max6620.c: the faults of fans that sdi_max6620_fan_status_get has read and not yet
-- returned.
use opx_sdi_sys.Base.{
  ℕ, ◌+◌, ◌-◌, ◌*◌, ◌^◌, ◌<◌, ◌≡◌, ◌≢◌, ap, ap₂, ◌∙◌, arith, true, not, List, [], ◌∷◌, ◌==◌,
  bit_and, bit_or, bit, bit-lt, bit-bit_and, bit-bit_or, bit-zero, bit-shl, bit-shl_low, bit_high,
  bit-complement, pow-le, ok, inl, inr, ==_iff, All, Bool-cases, dec_lt,
}
use opx_sdi_sys.I2c.{
  I2cBus, sdi_smbus_read_byte, flag_none, sdi_smbus_read_word, sdi_smbus_write_word,
}
use opx_sdi_sys.I2c.Registers.{
  IsRegisterMap, read_byte-Gives, read_word-Gives, write_word-Gives, word_at,
}
use opx_sdi_sys.DeviceData.{Driven, and_then_keeps, on_hardware}
use opx_sdi_sys.Max6620.{Max6620Device, set_fan_faults, fault_mask, fanfault, fantgttachcnt}
use opx_sdi_sys.Max6620.Fan.{is_faulty, cleared, after_fault, sdi_max6620_fan_status_get}

-- fan_faults has the bit of fan `j`.
abbrev pub Pending : {W : Type 0} → ℕ → Driven Max6620Device W → Type 0
Pending j c = bit c.private_data.fan_faults (j + 4) ≡ 1

bit-one : (k : ℕ) → 0 < k → bit 1 k ≡ 0
bit-one k h = bit_high 1 1 k (omega arith) (omega arith)

bit-fault_mask : (i : ℕ) → bit (fault_mask i) (i + 4) ≡ 1
bit-fault_mask i =
    let e : fault_mask i ≡ 1 * 2 ^ (i + 4) = omega arith in
    let f : i + 4 ≡ (i + 4) + 0 = omega arith in ap₂ bit e f ∙ bit-shl (i + 4) 1 0

bit-fault_mask_other : (i j : ℕ) → i ≢ j → bit (fault_mask i) (j + 4) ≡ 0
bit-fault_mask_other i j off =
    let e : fault_mask i ≡ 1 * 2 ^ (i + 4) = omega arith in
    elim (dec_lt j i) [
      | yes lt ↦ ap (λ x. bit x (j + 4)) e ∙ bit-shl_low (i + 4) 1 (j + 4) (omega arith)
      | no ge ↦
          let f : j + 4 ≡ (i + 4) + (j - i) = omega arith in
          ap₂ bit e f ∙ bit-shl (i + 4) 1 (j - i) ∙ bit-one (j - i) (omega arith)
    ]

bit-cleared :
    (x i j : ℕ) → i < 4 → j < 4 → i ≢ j → bit x (j + 4) ≡ 1 → bit (cleared x i) (j + 4) ≡ 1
bit-cleared x i j small small' off set = omega (
  arith,
  bit-bit_and x (2 ^ 32 - 1 - fault_mask i) (j + 4),
  bit-complement 32 (fault_mask i) (j + 4) (omega (arith, pow-le (i + 4) 7 (omega arith)))
      (omega arith),
  bit-fault_mask_other i j off,
)

is_faulty_lem : (x j : ℕ) → bit x (j + 4) ≡ 1 → is_faulty x j ≡ true
is_faulty_lem x j set =
    let one : bit (bit_and x (fault_mask j)) (j + 4) ≡ 1 =
      omega (arith, bit-bit_and x (fault_mask j) (j + 4), bit-fault_mask j) in
    elim (Bool-cases (bit_and x (fault_mask j) == 0)) [
      | inl e ↦
          let none_set : bit_and x (fault_mask j) ≡ 0 = (==_iff (bit_and x (fault_mask j)) 0).0 e in
          absurd (omega (arith, ap (λ y. bit y (j + 4)) none_set, bit-zero (j + 4)))
      | inr e ↦ ap not e
    ]

-- Steps that lose no fault of fan `j`.
module _ {W : Type 0} (j : ℕ) where
  after_fault-Pending :
      (bus : I2cBus W) (addr i : ℕ)
      → i < 4
      → j < 4
      → i ≢ j
      → (c : Driven Max6620Device W) → Pending j c
      → Pending j (after_fault bus addr i c).1
  unfolding after_fault
  after_fault-Pending bus addr i small small' off c here =
      and_then_keeps (Pending j)
        (on_hardware (sdi_smbus_read_word bus addr (fantgttachcnt i) flag_none) c) _ here
        λ tach c1 at.
          and_then_keeps (Pending j)
            (on_hardware (sdi_smbus_write_word bus addr (fantgttachcnt i) tach flag_none) c1) _ at
            λ _ c2 at'. bit-cleared c2.private_data.fan_faults i j small small' off at'

  poll-Pending :
      (bus : I2cBus W) (addr i : ℕ)
      → i < 4
      → j < 4
      → i ≢ j
      → (c : Driven Max6620Device W) → Pending j c
      → Pending j (sdi_max6620_fan_status_get bus addr i c).1
  unfolding sdi_max6620_fan_status_get
  poll-Pending bus addr i small small' off c here =
      and_then_keeps (Pending j) (on_hardware (sdi_smbus_read_byte bus addr fanfault flag_none) c) _
        here
        λ buf c1 at.
          let more : bit (bit_or c1.private_data.fan_faults buf) (j + 4) ≡ 1 =
            omega (arith, bit-bit_or c1.private_data.fan_faults buf (j + 4), bit-lt buf (j + 4)) in
          elim (Bool-cases (is_faulty (bit_or c1.private_data.fan_faults buf) i)) [
            | inl e ↦ rw e (after_fault-Pending bus addr i small small' off _ more)
            | inr e ↦ rw e more
          ]

-- Status calls for other fans, whose results are not looked at; the hardware may change in any way
-- before each of them.
abbrev pub polls :
    {W : Type 0}
    → I2cBus W
    → ℕ
    → List (ℕ × (W → W))
    → Driven Max6620Device W
    → Driven Max6620Device W
polls bus addr [] c = c
polls bus addr ((i, change) ∷ rest) c =
    polls bus addr rest
      (sdi_max6620_fan_status_get bus addr i
        record { private_data = c.private_data; hardware = change c.hardware }).1

abbrev pub OtherFan : {W : Type 0} → ℕ → ℕ × (W → W) → Type 0
OtherFan j (i, change) = (i < 4) × (i ≢ j)

polls-Pending :
    {W : Type 0} (bus : I2cBus W) (addr j : ℕ) (calls : List (ℕ × (W → W)))
    (c : Driven Max6620Device W)
    → j < 4
    → All (OtherFan j) calls
    → Pending j c
    → Pending j (polls bus addr calls c)
polls-Pending bus addr j [] c small others here = here
polls-Pending bus addr j ((i, change) ∷ rest) c small others here =
    polls-Pending bus addr j rest _ small others.1 (
      poll-Pending j bus addr i (others.0).0 small (others.0).1
        record { private_data = c.private_data; hardware = change c.hardware } here)

-- A call that returns true.
status_get-Pending :
    {W : Type 0} (bus : I2cBus W) (addr : ℕ) (regs : W → ℕ → ℕ) (j : ℕ) (c : Driven Max6620Device W)
    → IsRegisterMap bus addr regs
    → Pending j c
    → (c' : Driven Max6620Device W) × (sdi_max6620_fan_status_get bus addr j c ≡ (ok true, c'))
unfolding sdi_max6620_fan_status_get after_fault
status_get-Pending bus addr regs j c map here =
    let got = read_byte-Gives map c.hardware fanfault in
    let faults = bit_or c.private_data.fan_faults (regs c.hardware fanfault) in
    let faulty : is_faulty faults j ≡ true = is_faulty_lem faults j (
      omega (
        arith,
        bit-bit_or c.private_data.fan_faults (regs c.hardware fanfault) (j + 4),
        bit-lt (regs c.hardware fanfault) (j + 4),
      )) in
    let tach = read_word-Gives map got.0 (fantgttachcnt j) in
    let wrote =
      write_word-Gives map tach.0 (fantgttachcnt j) (word_at (regs got.0) (fantgttachcnt j))
        (omega (arith, map.bytes got.0 (fantgttachcnt j), map.bytes got.0 (fantgttachcnt j + 1))) in
    (
      record {
        private_data = set_fan_faults (cleared faults j) (set_fan_faults faults c.private_data);
        hardware = wrote.0;
      },
      rw (got.1, faulty, tach.1, wrote.1),
    )

-- A call for another fan that reads the fault.
status_get-reads :
    {W : Type 0} (bus : I2cBus W) (addr : ℕ) (regs : W → ℕ → ℕ) (i j : ℕ)
    (c : Driven Max6620Device W)
    → IsRegisterMap bus addr regs
    → i < 4
    → j < 4
    → i ≢ j
    → bit (regs c.hardware fanfault) (j + 4) ≡ 1
    → Pending j (sdi_max6620_fan_status_get bus addr i c).1
unfolding sdi_max6620_fan_status_get
status_get-reads bus addr regs i j c map small small' off set =
    let got = read_byte-Gives map c.hardware fanfault in
    let faults = bit_or c.private_data.fan_faults (regs c.hardware fanfault) in
    let more : bit faults (j + 4) ≡ 1 = omega (
      arith,
      bit-bit_or c.private_data.fan_faults (regs c.hardware fanfault) (j + 4),
      bit-lt c.private_data.fan_faults (j + 4),
    ) in
    elim (Bool-cases (is_faulty faults i)) [
      | inl e ↦ rw (got.1, e) (after_fault-Pending j bus addr i small small' off _ more)
      | inr e ↦ rw (got.1, e) more
    ]

-- On a device that keeps a byte for each command: where sdi_max6620_fan_status_get for fan `i` reads
-- a fault of another fan `j`, that fault is not lost. After any calls for fans other than `j`,
-- between which the hardware may change in any way, as when the chip clears the fault, a call for
-- fan `j` succeeds and returns true.
pub fault_is_reported :
    {W : Type 0} (bus : I2cBus W) (addr : ℕ) (regs : W → ℕ → ℕ) (i j : ℕ)
    (calls : List (ℕ × (W → W))) (c : Driven Max6620Device W)
    → IsRegisterMap bus addr regs
    → i < 4
    → j < 4
    → i ≢ j
    → All (OtherFan j) calls
    → bit (regs c.hardware fanfault) (j + 4) ≡ 1
    → (c' : Driven Max6620Device W) × (sdi_max6620_fan_status_get bus addr j
          (polls bus addr calls (sdi_max6620_fan_status_get bus addr i c).1)
        ≡ (ok true, c'))
fault_is_reported bus addr regs i j calls c map small small' off others set =
    status_get-Pending bus addr regs j _ map (
      polls-Pending bus addr j calls _ small' others
        (status_get-reads bus addr regs i j c map small small' off set))
