-- ===== src/EntityReset/Keeps.antt =====
-- What a write to a pin group leaves as it was, for src/hwcore/sdi_entity_reset.c.
use opx_sdi_sys.Base.{
  ℕ, ◌≡◌, refl, ◌∙◌, Bool, true, false, Io, Result, ok, err, abort, and_then, std_assert, ◌>>◌,
  if◌then◌else◌,
}
use opx_sdi_sys.Bus.Mutex.{Mutex, with_lock, then_unlock}
use opx_sdi_sys.Bus.Group.{
  GroupBus, sdi_pin_group_acquire_bus, sdi_pin_group_release_bus, sdi_pin_group_write_level,
}
use opx_sdi_sys.Bus.Pin.{PinBus, Level, sdi_pin_write_level}
use opx_sdi_sys.EntityReset.{write_group}

-- What holds of both branches of an `if`.
pub both_branches {ℓ} :
    {A : Type 0} (P : A → Type ℓ) (b : Bool) (x y : A) → P x → P y → P (if b then x else y)
both_branches P true x y px py = px
both_branches P false x y px py = py

module _ {W V : Type 0} (view : W → V) where
  -- A call that does not touch what the view shows.
  abbrev pub Keeps : {A : Type 0} → Io W A → Type 0
  Keeps call = (w : W) → view (call w).1 ≡ view w

  -- A lock, and a write under it, that do not.
  abbrev pub KeepsUnder : Mutex W → Io W (Unit {0}) → Type 0
  KeepsUnder mutex call = Keeps mutex.lock × ((w : W) → view (mutex.unlock w) ≡ view w) × Keeps call

  pub and_then-Keeps :
      {A B : Type 0} (r : Result A × W) (k : A → Io W B)
      → ((a : A) → Keeps (k a))
      → view (and_then r k).1 ≡ view r.1
  and_then-Keeps (ok a, w) k next = next a w
  and_then-Keeps (err e, w) k next = refl
  and_then-Keeps (abort, w) k next = refl

  pub assert-Keeps : {A : Type 0} (b : Bool) (k : Io W A) → Keeps k → Keeps (std_assert b >> k)
  assert-Keeps true k h w = h w
  assert-Keeps false k h w = refl

  module _ (m : Mutex W) (call : Io W (Unit {0})) (keeps : KeepsUnder m call) where
    then_unlock-Keeps : (r : Result (Unit {0}) × W) → view (then_unlock m r).1 ≡ view r.1
    then_unlock-Keeps (ok a, w) = keeps.1 w
    then_unlock-Keeps (err e, w) = keeps.1 w
    then_unlock-Keeps (abort, w) = refl

    with_lock-Keeps : Keeps (with_lock m call)
    unfolding with_lock
    with_lock-Keeps w =
        and_then-Keeps (m.lock w) (λ _ w'. then_unlock m (call w'))
          (λ _ w'. then_unlock-Keeps (call w') ∙ keeps.2 w')
        ∙ keeps.0 w

  pub write_group-Keeps :
      (group : GroupBus W) (value : ℕ)
      → KeepsUnder group.mutex (group.ops.write_level value)
      → Keeps (write_group group value)
  unfolding sdi_pin_group_acquire_bus sdi_pin_group_release_bus sdi_pin_group_write_level
      write_group with_lock
  write_group-Keeps group value keeps =
      with_lock-Keeps group.mutex (sdi_pin_group_write_level group value)
        (keeps.0, keeps.1, assert-Keeps _ (group.ops.write_level value) keeps.2)

  pub pin_write-Keeps :
      (pin : PinBus W) (level : Level)
      → KeepsUnder pin.mutex (pin.ops.write_level level)
      → Keeps (sdi_pin_write_level pin level)
  unfolding sdi_pin_write_level
  pin_write-Keeps pin level keeps =
      assert-Keeps _ (with_lock pin.mutex (pin.ops.write_level level))
        (with_lock-Keeps pin.mutex (pin.ops.write_level level) keeps)
