-- ===== src/Qsfp/Frees.antt =====
-- What the proofs on the locks of src/drivers/sdi_qsfp_eeprom.c share: calls that give a lock back.
use opx_sdi_sys.Base.{
  ◌≡◌, refl, ap, ◌∙◌, Bool, true, false, not, Io, Result, ok, err, abort, pure, fail, StdError,
  std_assert, caught, and_then, ◌>>=◌,
}
use opx_sdi_sys.Bus.Mutex.{released}
use opx_sdi_sys.EntityReset.Keeps.{Keeps}

module _ {W : Type 0} (held : W → Bool) where
  -- A call after which the lock is free where it was before.
  abbrev pub Frees : {A : Type 0} → Io W A → Type 0
  Frees call = (w : W) → held w ≡ false → released held (call w) ≡ true

  pub fail-Frees : (A : Type 0) (e : StdError) → Frees (fail {W = W} {A = A} e)
  fail-Frees A e w free = ap not free

  pub pure-Frees :
      {A B : Type 0} (call : Io W A) (f : A → B) → Frees call → Frees (call >>= λ a. pure (f a))
  pure-Frees {A} call f frees w free = after (call w) (frees w free)
    where
      after :
          (r : Result A × W)
          → released held r ≡ true
          → released held (and_then r (λ a. pure (f a))) ≡ true
      after (ok a, w) h = h
      after (err e, w) h = h
      after (abort, w) h = refl

  -- A call that does not touch the lock comes first.
  pub keep-Frees :
      {A B : Type 0} (call : Io W A) (k : A → Io W B)
      → Keeps held call
      → ((a : A) → Frees (k a))
      → Frees (call >>= k)
  keep-Frees {A} call k keeps frees w free = after (call w) (keeps w ∙ free)
    where
      after : (r : Result A × W) → held r.1 ≡ false → released held (and_then r k) ≡ true
      after (ok a, w) h = frees a w h
      after (err e, w) h = ap not h
      after (abort, w) h = refl

  pub caught-Keeps : {A : Type 0} (r : Result A × W) → held (caught r).1 ≡ held r.1
  caught-Keeps (ok a, w) = refl
  caught-Keeps (err e, w) = refl
  caught-Keeps (abort, w) = refl

  pub std_assert-Keeps : (b : Bool) → Keeps held (std_assert {W = W} b)
  std_assert-Keeps true w = refl
  std_assert-Keeps false w = refl
