-- ===== src/Bus/Mutex.antt =====
-- std_mutex_lock and std_mutex_unlock of the common library, as parameters, and the shape
-- "lock, return its error, call, unlock, return the call's error" of the bus APIs.
use opx_sdi_sys.Base.{
  ◌≡◌, refl, sym, ap, ◌∙◌, Bool, true, false, not, Io, Result, StdError, ok, err, abort, and_then,
}

pub record Mutex (W : Type 0) : Type 0 where
  pub lock : Io W (Unit {0})
  pub unlock : W → W

-- The documented behaviour: `held` tells whether the caller holds the lock. A lock that fails
-- leaves it as it was.
pub record IsMutex {W : Type 0} (m : Mutex W) (held : W → Bool) : Type 0 where
  pub lock-held : (w : W) → (m.lock w).0 ≡ ok tt → held (m.lock w).1 ≡ true
  pub lock_failed : (w : W) (e : _) → (m.lock w).0 ≡ err e → held (m.lock w).1 ≡ held w
  pub held-unlock : (w : W) → held (m.unlock w) ≡ false

module _ {W : Type 0} (m : Mutex W) where
  -- The result of the call comes back after the unlock; a failed STD_ASSERT ends the process.
  abbrev pub then_unlock : {A : Type 0} → Result A × W → Result A × W
  then_unlock (ok a, w) = (ok a, m.unlock w)
  then_unlock (err e, w) = (err e, m.unlock w)
  then_unlock (abort, w) = (abort, w)

  unfoldable pub with_lock : {A : Type 0} → Io W A → Io W A
  with_lock call w = and_then (m.lock w) (λ _ w'. then_unlock (call w'))

-- After a call the lock is free, or a failed STD_ASSERT has ended the process.
abbrev pub released : {W A : Type 0} → (W → Bool) → Result A × W → Bool
released held (ok a, w) = not (held w)
released held (err e, w) = not (held w)
released held (abort, w) = true

module _ {W A : Type 0} {m : Mutex W} {held : W → Bool} (mutex : IsMutex m held)
    (call : Io W A) where
  released-then_unlock : (r : Result A × W) → released held (then_unlock m r) ≡ true
  released-then_unlock (ok a, w) = ap not (mutex.held-unlock w)
  released-then_unlock (err e, w) = ap not (mutex.held-unlock w)
  released-then_unlock (abort, w) = refl

  released-and_then :
      (w : W) (l : Result (Unit {0}) × W)
      → m.lock w ≡ l
      → held w ≡ false
      → released held (and_then l (λ _ w'. then_unlock m (call w'))) ≡ true
  released-and_then w (ok tt, w') e free = released-then_unlock (call w')
  released-and_then w (err x, w') e free =
      ap not (ap (λ l. held l.1) (sym e) ∙ mutex.lock_failed w x (ap (λ l. l.0) e) ∙ free)
  released-and_then w (abort, w') e free = refl

  pub released-with_lock : (w : W) → held w ≡ false → released held (with_lock m call w) ≡ true
  unfolding with_lock
  released-with_lock w free = released-and_then w (m.lock w) refl free

module _ {W A : Type 0} (m : Mutex W) (call : Io W A) where
  -- Where the lock cannot be taken its error comes back, and the call is not made.
  pub with_lock_failed :
      (w w' : W) (e : StdError) → m.lock w ≡ (err e, w') → with_lock m call w ≡ (err e, w')
  unfolding with_lock
  with_lock_failed w w' e failed = rw failed
