-- ===== src/Base/Results.antt =====
-- The outcome of a C call: a value with STD_ERR_OK, an error code, or a failed STD_ASSERT, and
-- calls that also change a world `W` (the hardware behind the drivers, a lock, a list).
use Prim.Native.Nat.{ℕ}
use mathlib.Core.Path.{◌≡◌, refl, fun_ext}
use mathlib.Core.Logic.{◌⊎◌, inl, inr}
use mathlib.Core.Option.{Option, none, some}
use mathlib.Core.Bool.{Bool, true, false}

-- The `errno` values that the modelled code passes to SDI_ERRCODE or SDI_DEVICE_ERRCODE, which are
-- one macro call.
pub data Errno : Type 0 where
  enotsup eopnotsupp einval eperm enxio enomem : Errno

-- `errno` stands for SDI_ERRNO and SDI_DEVICE_ERRNO, whose code depends on the C library's variable;
-- `param` is SDI_DEVICE_ERR_PARAM; `callee n` is a code that a called function outside the model returned.
pub data StdError : Type 0 where
  errcode : Errno → StdError
  errno : StdError
  param : StdError
  callee : ℕ → StdError

pub data Result {ℓ} (A : Type ℓ) : Type ℓ where
  ok : A → Result A
  err : StdError → Result A
  abort : Result A

abbrev pub Io : Type 0 → Type 0 → Type 0
Io W A = W → Result A × W

module _ {W : Type 0} where
  abbrev pub pure : {A : Type 0} → A → Io W A
  pure a w = (ok a, w)

  abbrev pub fail : {A : Type 0} → StdError → Io W A
  fail e w = (err e, w)

  -- STD_ASSERT
  abbrev pub std_assert : Bool → Io W (Unit {0})
  std_assert true w = (ok tt, w)
  std_assert false w = (abort, w)

  abbrev pub and_then : {A B : Type 0} → Result A × W → (A → Io W B) → Result B × W
  and_then (ok a, w) k = k a w
  and_then (err e, w) k = (err e, w)
  and_then (abort, w) k = (abort, w)

  infixl 5 ◌>>=◌ ◌>>◌
  abbrev pub ◌>>=◌ : {A B : Type 0} → Io W A → (A → Io W B) → Io W B
  ◌>>=◌ m k w = and_then (m w) k

  abbrev pub ◌>>◌ : {B : Type 0} → Io W (Unit {0}) → Io W B → Io W B
  m >> k = m >>= λ _. k

abbrev pub is_ok {ℓ} : {A : Type ℓ} → Result A → Bool
is_ok (ok a) = true
is_ok (err e) = false
is_ok abort = false

-- A variable `rc` of type t_std_error; `none` is STD_ERR_OK.
abbrev pub Rc : Type 0
Rc = Option StdError

module _ {W : Type 0} where
  abbrev pub caught : {A : Type 0} → Result A × W → Result (StdError ⊎ A) × W
  caught (ok a, w) = (ok (inr a), w)
  caught (err e, w) = (ok (inl e), w)
  caught (abort, w) = (abort, w)

  -- A call whose code is kept in a variable.
  abbrev pub catch : {A : Type 0} → Io W A → Io W (StdError ⊎ A)
  catch call w = caught (call w)

  -- `if (rc != STD_ERR_OK) return rc;` after a call that filled a buffer.
  abbrev pub unless_error : {A : Type 0} → Rc × A → Io W A
  unless_error (none, a) = pure a
  unless_error (some e, a) = fail e

abbrev pub rc_of : {A : Type 0} → StdError ⊎ A → Rc
rc_of (inl e) = some e
rc_of (inr a) = none

abbrev pub value_or : {A : Type 0} → A → StdError ⊎ A → A
value_or old (inl e) = old
value_or old (inr a) = a

-- Calls in sequence.
module _ {W A B C : Type 0} (k : A → Io W B) (l : B → Io W C) where
  and_then_assoc : (r : Result A × W) → and_then (and_then r k) l ≡ and_then r (λ a. k a >>= l)
  and_then_assoc (ok a, w) = refl
  and_then_assoc (err e, w) = refl
  and_then_assoc (abort, w) = refl

  pub bind_assoc : (m : Io W A) → ((m >>= k) >>= l) ≡ (m >>= λ a. k a >>= l)
  bind_assoc m = fun_ext λ w. and_then_assoc (m w)
