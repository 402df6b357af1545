-- ===== src/Base/Fields.antt =====
-- Numbers put together from bit fields with `bit_or`.
use native.Mathlib.Nat.{
  pow-suc, mul-add-div_right, mod-eq-sub-div-mul, div-eq_of_lt, mod-lt, one-le-pow,
}
use opx_sdi_sys.Base.{
  ℕ, zero, suc, ◌+◌, ◌-◌, ◌*◌, ◌/◌, ◌%◌, ◌^◌, ◌<◌, ◌≡◌, sym, ap, ◌∙◌, arith, subst, bit_or, bit,
  bit-bit_or, bit-shl, bit-shl_low, bit-shr, bit-mod, bit_high, eq_of_bits, pow-le, dec_lt,
}

lt-pow : (n : ℕ) → n < 2 ^ n
lt-pow zero = omega arith
lt-pow (suc n) = omega (arith, pow-suc 2 n, lt-pow n)

pub eq_of_all_bits : (a b : ℕ) → ((k : ℕ) → bit a k ≡ bit b k) → a ≡ b
eq_of_all_bits a b same =
    eq_of_bits (a + b) a b (omega (arith, lt-pow a, pow-le a (a + b) (omega arith)))
      (omega (arith, lt-pow b, pow-le b (a + b) (omega arith))) λ k lt. same k

pub bit_or_comm : (a b : ℕ) → bit_or a b ≡ bit_or b a
bit_or_comm a b =
    eq_of_all_bits (bit_or a b) (bit_or b a) λ k. omega (arith, bit-bit_or a b k, bit-bit_or b a k)

quotient_of_sum : (m a b : ℕ) → b < 2 ^ m → (a * 2 ^ m + b) / 2 ^ m ≡ a
quotient_of_sum m a b h =
    mul-add-div_right (one-le-pow m 2 (omega arith)) a b ∙ omega (arith, div-eq_of_lt h)

remainder_of_sum : (m a b : ℕ) → b < 2 ^ m → (a * 2 ^ m + b) % 2 ^ m ≡ b
remainder_of_sum m a b h = omega (
  arith,
  mod-eq-sub-div-mul (a * 2 ^ m + b) (2 ^ m),
  ap (λ (q : ℕ). q * 2 ^ m) (quotient_of_sum m a b h),
)

-- A field above bit `m` and one below it.
pub bit_or-shl : (m a b : ℕ) → b < 2 ^ m → bit_or (a * 2 ^ m) b ≡ a * 2 ^ m + b
bit_or-shl m a b h = eq_of_all_bits (bit_or (a * 2 ^ m) b) (a * 2 ^ m + b) digit
  where
    below : (k : ℕ) → k < m → bit (bit_or (a * 2 ^ m) b) k ≡ bit (a * 2 ^ m + b) k
    below k lt = omega (
      arith,
      bit-bit_or (a * 2 ^ m) b k,
      bit-shl_low m a k lt,
      bit-mod m (a * 2 ^ m + b) k lt,
      ap (λ x. bit x k) (remainder_of_sum m a b h),
    )

    above : (j : ℕ) → bit (bit_or (a * 2 ^ m) b) (m + j) ≡ bit (a * 2 ^ m + b) (m + j)
    above j = omega (
      arith,
      bit-bit_or (a * 2 ^ m) b (m + j),
      bit-shl m a j,
      bit_high m b (m + j) h (omega arith),
      bit-shr m (a * 2 ^ m + b) j,
      ap (λ x. bit x j) (quotient_of_sum m a b h),
    )

    digit : (k : ℕ) → bit (bit_or (a * 2 ^ m) b) k ≡ bit (a * 2 ^ m + b) k
    digit k = elim (dec_lt k m) [
      | yes lt ↦ below k lt
      | no ge ↦
          let e : m + (k - m) ≡ k = omega arith in
          subst (λ i. bit (bit_or (a * 2 ^ m) b) i ≡ bit (a * 2 ^ m + b) i) e (above (k - m))
    ]

pub bit_or-lt : (m a b : ℕ) → a < 2 ^ m → b < 2 ^ m → bit_or a b < 2 ^ m
bit_or-lt m a b small small' = subst (λ x. x < 2 ^ m) (sym whole) reduced
  where
    reduced : bit_or a b % 2 ^ m < 2 ^ m
    reduced = mod-lt (bit_or a b) (one-le-pow m 2 (omega arith))

    digit : (k : ℕ) → bit (bit_or a b) k ≡ bit (bit_or a b % 2 ^ m) k
    digit k = elim (dec_lt k m) [
      | yes lt ↦ sym (bit-mod m (bit_or a b) k lt)
      | no ge ↦ omega (
        arith,
        bit-bit_or a b k,
        bit_high m a k small (omega arith),
        bit_high m b k small' (omega arith),
        bit_high m (bit_or a b % 2 ^ m) k reduced (omega arith),
      )
    ]

    whole : bit_or a b ≡ bit_or a b % 2 ^ m
    whole = eq_of_all_bits (bit_or a b) (bit_or a b % 2 ^ m) digit
