-- ===== src/Base/Digits.antt =====
-- Binary digits of native numbers: what `bit_and` and `bit_or` do to each of them, and that the
-- digits determine the number.
use Prim.Native.Nat.{
  ℕ, zero, suc, ◌+◌, ◌-◌, ◌*◌, ◌/◌, ◌%◌, ◌^◌, ◌≤◌, ◌<◌, min, max, digits, bit_and, bit_or,
  bit_and-bitwise, bit_or-bitwise,
}
use mathlib.Core.Path.{◌≡◌, refl, ◌∙◌, ap}
use native.Mathlib.Nat.{
  pow-suc, one-le-pow, mod-lt, mul_comm, div-div-eq-div-mul, mod-eq-sub-div-mul, div-mul-le_self,
}
use native.Mathlib.Omega.{arith}

-- Digit `k` of `n`, counted from the lowest.
abbrev pub bit : ℕ → ℕ → ℕ
bit n zero = n % 2
bit n (suc k) = bit (n / 2) k

pub bit-lt : (n k : ℕ) → bit n k < 2
bit-lt n zero = omega arith
bit-lt n (suc k) = bit-lt (n / 2) k

pub bit-zero : (k : ℕ) → bit 0 k ≡ 0
bit-zero zero = refl
bit-zero (suc k) = bit-zero k

-- A number put together from a quotient by 2 and a lowest digit.
bit-suc-cons : (q d k : ℕ) → d < 2 → bit (q * 2 + d) (suc k) ≡ bit q k
bit-suc-cons q d k h = let e : (q * 2 + d) / 2 ≡ q = omega arith in rw e

and_digits-bit : (n a b k : ℕ) → a ≤ n → bit (digits (λ _. 0) min n a b) k ≡ min (bit a k) (bit b k)
and_digits-bit zero zero b k h = rw bit-zero (omega arith)
and_digits-bit zero (suc a) b k h = absurd (omega arith)
and_digits-bit (suc n) zero b k h = rw bit-zero (omega arith)
and_digits-bit (suc n) (suc a) b zero h = omega arith
and_digits-bit (suc n) (suc a) b (suc k) h =
    bit-suc-cons (digits (λ _. 0) min n (suc a / 2) (b / 2)) (min (suc a % 2) (b % 2)) k
      (omega arith)
    ∙ and_digits-bit n (suc a / 2) (b / 2) k (omega arith)

or_digits-bit : (n a b k : ℕ) → a ≤ n → bit (digits (λ y. y) max n a b) k ≡ max (bit a k) (bit b k)
or_digits-bit zero zero b k h = rw bit-zero (omega arith)
or_digits-bit zero (suc a) b k h = absurd (omega arith)
or_digits-bit (suc n) zero b k h = rw bit-zero (omega arith)
or_digits-bit (suc n) (suc a) b zero h = omega arith
or_digits-bit (suc n) (suc a) b (suc k) h =
    bit-suc-cons (digits (λ y. y) max n (suc a / 2) (b / 2)) (max (suc a % 2) (b % 2)) k
      (omega arith)
    ∙ or_digits-bit n (suc a / 2) (b / 2) k (omega arith)

pub bit-bit_and : (a b k : ℕ) → bit (bit_and a b) k ≡ min (bit a k) (bit b k)
bit-bit_and a b k = rw bit_and-bitwise (and_digits-bit a a b k (omega arith))

pub bit-bit_or : (a b k : ℕ) → bit (bit_or a b) k ≡ max (bit a k) (bit b k)
bit-bit_or a b k = rw bit_or-bitwise (or_digits-bit a a b k (omega arith))

-- Digits of shifted numbers and of masks.
pub bit-shl_low : (s n k : ℕ) → k < s → bit (n * 2 ^ s) k ≡ 0
bit-shl_low zero n k h = absurd (omega arith)
bit-shl_low (suc s) n zero h = omega (arith, ap (λ (t : ℕ). n * t) (pow-suc 2 s))
bit-shl_low (suc s) n (suc k) h =
    let e : n * 2 ^ suc s / 2 ≡ n * 2 ^ s = omega (arith, ap (λ (t : ℕ). n * t) (pow-suc 2 s)) in
    rw e (bit-shl_low s n k (omega arith))

pub bit-shl : (s n k : ℕ) → bit (n * 2 ^ s) (s + k) ≡ bit n k
bit-shl zero n k =
    let e : n * 2 ^ 0 ≡ n = omega arith in let f : 0 + k ≡ k = omega arith in rw (e, f)
bit-shl (suc s) n k =
    let e : n * 2 ^ suc s / 2 ≡ n * 2 ^ s = omega (arith, ap (λ (t : ℕ). n * t) (pow-suc 2 s)) in
    let f : suc s + k ≡ suc (s + k) = omega arith in
    let g : bit (n * 2 ^ suc s / 2) (s + k) ≡ bit n k = rw e (bit-shl s n k) in rw f g

half_then_shr : (n s : ℕ) → n / 2 ^ suc s ≡ n / 2 / 2 ^ s
half_then_shr n s = rw (div-div-eq-div-mul n 2 (2 ^ s), pow-suc 2 s, mul_comm (2 ^ s) 2)

-- The remainder by 2 ^ suc m, halved.
half-mod : (n m : ℕ) → n % 2 ^ suc m ≡ n / 2 % 2 ^ m * 2 + n % 2
half-mod n m = omega (
  arith,
  half_then_shr n m,
  mod-eq-sub-div-mul n (2 ^ suc m),
  mod-eq-sub-div-mul (n / 2) (2 ^ m),
  div-mul-le_self n (2 ^ suc m),
  div-mul-le_self (n / 2) (2 ^ m),
  ap (λ (t : ℕ). n / 2 ^ suc m * t) (pow-suc 2 m),
  ap (λ (t : ℕ). t * 2 ^ m) (half_then_shr n m),
)

pub bit-shr : (s n k : ℕ) → bit (n / 2 ^ s) k ≡ bit n (s + k)
bit-shr zero n k =
    let e : n / 2 ^ 0 ≡ n = omega arith in let f : 0 + k ≡ k = omega arith in rw (e, f)
bit-shr (suc s) n k =
    let e : n / 2 ^ suc s ≡ n / 2 / 2 ^ s = half_then_shr n s in
    let f : suc s + k ≡ suc (s + k) = omega arith in rw (f, e) (bit-shr s (n / 2) k)

pub bit-mask : (m k : ℕ) → k < m → bit (2 ^ m - 1) k ≡ 1
bit-mask zero k h = absurd (omega arith)
bit-mask (suc m) zero h = omega (arith, pow-suc 2 m, one-le-pow m 2)
bit-mask (suc m) (suc k) h =
    let e : (2 ^ suc m - 1) / 2 ≡ 2 ^ m - 1 = omega (arith, pow-suc 2 m, one-le-pow m 2) in
    rw e (bit-mask m k (omega arith))

-- There is no digit at or above `m` in a number below 2 ^ m.
pub bit_high : (m n k : ℕ) → n < 2 ^ m → m ≤ k → bit n k ≡ 0
bit_high zero n k h le = let e : n ≡ 0 = omega arith in rw (e, bit-zero)
bit_high (suc m) n zero h le = absurd (omega arith)
bit_high (suc m) n (suc k) h le = bit_high m (n / 2) k (omega (arith, pow-suc 2 m)) (omega arith)

pub bit-mod : (m n k : ℕ) → k < m → bit (n % 2 ^ m) k ≡ bit n k
bit-mod zero n k h = absurd (omega arith)
bit-mod (suc m) n zero h = omega (arith, half-mod n m)
bit-mod (suc m) n (suc k) h =
    let e : n % 2 ^ suc m / 2 ≡ n / 2 % 2 ^ m = omega (arith, half-mod n m) in
    rw e (bit-mod m (n / 2) k (omega arith))

-- Two numbers below 2 ^ m with the same digits are equal.
pub eq_of_bits : (m a b : ℕ) → a < 2 ^ m → b < 2 ^ m → ((k : ℕ) → k < m → bit a k ≡ bit b k) → a ≡ b
eq_of_bits zero a b p q h = omega arith
eq_of_bits (suc m) a b p q h =
    let halves : a / 2 ≡ b / 2 =
      eq_of_bits m (a / 2) (b / 2) (omega (arith, pow-suc 2 m)) (omega (arith, pow-suc 2 m))
        (λ k lt. h (suc k) (omega arith)) in
    omega (arith, h 0 (omega arith))

pub bit-complement : (w x k : ℕ) → x < 2 ^ w → k < w → bit (2 ^ w - 1 - x) k ≡ 1 - bit x k
bit-complement zero x k h lt = absurd (omega arith)
bit-complement (suc w) x zero h lt = omega (arith, pow-suc 2 w)
bit-complement (suc w) x (suc k) h lt =
    let e : (2 ^ suc w - 1 - x) / 2 ≡ 2 ^ w - 1 - x / 2 = omega (arith, pow-suc 2 w) in
    rw e (bit-complement w (x / 2) k (omega (arith, pow-suc 2 w)) (omega arith))

and_digits-le : (n a b : ℕ) → digits (λ _. 0) min n a b ≤ b
and_digits-le zero a b = omega arith
and_digits-le (suc n) zero b = omega arith
and_digits-le (suc n) (suc a) b = omega (arith, and_digits-le n (suc a / 2) (b / 2))

pub bit_and-le : (a b : ℕ) → bit_and a b ≤ b
bit_and-le a b = rw bit_and-bitwise (and_digits-le a a b)

pub mask-lt : (m : ℕ) → 2 ^ m - 1 < 2 ^ m
mask-lt m = omega (arith, one-le-pow m 2)

pub pow-le : (a b : ℕ) → a ≤ b → 2 ^ a ≤ 2 ^ b
pow-le zero b h = one-le-pow b 2 (omega arith)
pow-le (suc a) zero h = absurd (omega arith)
pow-le (suc a) (suc b) h = omega (arith, pow-suc 2 a, pow-suc 2 b, pow-le a b (omega arith))

-- A mask of `m` low bits is the remainder by 2 ^ m.
pub bit_and-mask : (m a : ℕ) → bit_and a (2 ^ m - 1) ≡ a % 2 ^ m
bit_and-mask m a =
    eq_of_bits m (bit_and a (2 ^ m - 1)) (a % 2 ^ m)
      (omega (arith, mask-lt m, bit_and-le a (2 ^ m - 1))) (mod-lt a (one-le-pow m 2 (omega arith)))
      λ k h. omega (arith, bit-bit_and a (2 ^ m - 1) k, bit-mask m k h, bit-mod m a k h, bit-lt a k)

pub mod-mod_pow : (m n a : ℕ) → m ≤ n → a % 2 ^ n % 2 ^ m ≡ a % 2 ^ m
mod-mod_pow m n a h =
    eq_of_bits m (a % 2 ^ n % 2 ^ m) (a % 2 ^ m) (mod-lt (a % 2 ^ n) (one-le-pow m 2 (omega arith)))
      (mod-lt a (one-le-pow m 2 (omega arith)))
      λ k lt.
        omega (arith, bit-mod m (a % 2 ^ n) k lt, bit-mod m a k lt, bit-mod n a k (omega arith))
