-- ===== src/Base/StdBits.antt =====
-- STD_BIT_TEST, STD_BIT_SET and STD_BIT_CLEAR of the common library (std_bit_ops.h), as parameters
-- with the laws that the drivers rely on, and functions that meet them.
use native.Mathlib.Nat.{pow-suc}
use opx_sdi_sys.Base.{
  ℕ, zero, suc, ◌+◌, ◌*◌, ◌/◌, ◌%◌, ◌^◌, ◌≤◌, ◌<◌, ◌≡◌, refl, Bool, true, false, arith, ◌==◌,
  if◌then◌else◌,
}

pub record StdBits : Type 0 where
  pub test : ℕ → ℕ → Bool
  pub set : ℕ → ℕ → ℕ
  pub clear : ℕ → ℕ → ℕ
  pub test-set : (x k j : ℕ) → test (set x k) j ≡ (if k == j then true else test x j)
  pub test-clear : (x k j : ℕ) → test (clear x k) j ≡ (if k == j then false else test x j)
  pub set-lt : (x k : ℕ) → k < 8 → x < 256 → set x k < 256
  pub clear-lt : (x k : ℕ) → x < 256 → clear x k < 256

unfoldable pub test_bit : ℕ → ℕ → Bool
test_bit x zero = x % 2 == 1
test_bit x (suc k) = test_bit (x / 2) k

set_bit : ℕ → ℕ → ℕ
set_bit x zero = x / 2 * 2 + 1
set_bit x (suc k) = set_bit (x / 2) k * 2 + x % 2

clear_bit : ℕ → ℕ → ℕ
clear_bit x zero = x / 2 * 2
clear_bit x (suc k) = clear_bit (x / 2) k * 2 + x % 2

halved : (y d : ℕ) → d < 2 → (y * 2 + d) / 2 ≡ y
halved y d h = omega arith

test_bit-set_bit : (x k j : ℕ) → test_bit (set_bit x k) j ≡ (if k == j then true else test_bit x j)
unfolding test_bit set_bit
test_bit-set_bit x zero zero = ground arith
test_bit-set_bit x zero (suc j) = rw (halved (x / 2) 1 (omega arith)) (ground arith)
test_bit-set_bit x (suc k) zero = ground arith
test_bit-set_bit x (suc k) (suc j) =
    rw (halved (set_bit (x / 2) k) (x % 2) (omega arith))
      (ground (arith, test_bit-set_bit (x / 2) k j))

test_bit-clear_bit :
    (x k j : ℕ) → test_bit (clear_bit x k) j ≡ (if k == j then false else test_bit x j)
unfolding test_bit clear_bit
test_bit-clear_bit x zero zero = ground arith
test_bit-clear_bit x zero (suc j) =
    let e : x / 2 * 2 / 2 ≡ x / 2 = omega arith in rw e (ground arith)
test_bit-clear_bit x (suc k) zero = ground arith
test_bit-clear_bit x (suc k) (suc j) =
    rw (halved (clear_bit (x / 2) k) (x % 2) (omega arith))
      (ground (arith, test_bit-clear_bit (x / 2) k j))

set_bit-lt : (n x k : ℕ) → k < n → x < 2 ^ n → set_bit x k < 2 ^ n
unfolding set_bit
set_bit-lt zero x k h lt = absurd (omega arith)
set_bit-lt (suc n) x zero h lt = omega (arith, pow-suc 2 n)
set_bit-lt (suc n) x (suc k) h lt =
    omega (arith, pow-suc 2 n, set_bit-lt n (x / 2) k (omega arith) (omega (arith, pow-suc 2 n)))

clear_bit-le : (x k : ℕ) → clear_bit x k ≤ x
unfolding clear_bit
clear_bit-le x zero = omega arith
clear_bit-le x (suc k) = omega (arith, clear_bit-le (x / 2) k)

pub binary_bits : StdBits
unfolding test_bit set_bit clear_bit
binary_bits = record {
  test = test_bit;
  set = set_bit;
  clear = clear_bit;
  test-set = test_bit-set_bit;
  test-clear = test_bit-clear_bit;
  set-lt = λ x k h lt. set_bit-lt 8 x k h lt;
  clear-lt = λ x k lt. omega (arith, clear_bit-le x k);
}

pub binary-test : (x k : ℕ) → binary_bits.test x k ≡ test_bit x k
unfolding binary_bits
binary-test x k = refl
