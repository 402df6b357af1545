-- ===== src/EntityReset/Locks.antt =====
-- The locks of the pin groups around sdi_entity_reset.
use opx_sdi_sys.Base.{
  ℕ, ◌≡◌, refl, sym, ap, ◌∙◌, Bool, true, false, not, ◌⊎◌, inl, inr, Option, none, some, Io, Result,
  ok, err, abort, pure, and_then, caught, leb,
}
use opx_sdi_sys.Base.StdBits.{StdBits}
use opx_sdi_sys.Bus.Mutex.{IsMutex, with_lock, released, released-with_lock}
use opx_sdi_sys.Bus.Group.{
  GroupBus, sdi_pin_group_acquire_bus, sdi_pin_group_release_bus, sdi_pin_group_write_level,
}
use opx_sdi_sys.EntityReset.{Entity, write_group, write_second_level, reset_pins, sdi_entity_reset}
use opx_sdi_sys.EntityReset.Keeps.{Keeps, KeepsUnder, write_group-Keeps, both_branches}

false_of_not : (b : Bool) → not b ≡ true → b ≡ false
false_of_not true h = sym h
false_of_not false h = refl

module _ {W : Type 0} (held : W → Bool) where
  -- A group that has the lock as its own, or that does not touch it.
  abbrev pub RespectsLock : GroupBus W → Type 0
  RespectsLock group =
      IsMutex group.mutex held
      ⊎ ((value : ℕ) → KeepsUnder held group.mutex (group.ops.write_level value))

  abbrev pub AllRespectLock : Option (GroupBus W) → Type 0
  AllRespectLock none = Unit
  AllRespectLock (some group) = RespectsLock group

  -- From a result with the lock free, when a call would leave it free too.
  released-next :
      (r : Result (Unit {0}) × W) (k : Io W (Unit {0}))
      → released held r ≡ true
      → ((w : W) → held w ≡ false → released held (k w) ≡ true)
      → released held (and_then r (λ _. k)) ≡ true
  released-next (ok tt, w) k h next = next w (false_of_not (held w) h)
  released-next (err e, w) k h next = h
  released-next (abort, w) k h next = refl

  released_of_free : (r : Result (Unit {0}) × W) → held r.1 ≡ false → released held r ≡ true
  released_of_free (ok a, w) h = ap not h
  released_of_free (err e, w) h = ap not h
  released_of_free (abort, w) h = refl

  released-caught :
      (r : Result (Unit {0}) × W)
      → held r.1 ≡ false
      → released held (and_then (caught r) (λ _. pure tt)) ≡ true
  released-caught (ok a, w) h = ap not h
  released-caught (err e, w) h = ap not h
  released-caught (abort, w) h = refl

  released-write_group :
      (group : GroupBus W) (value : ℕ) (w : W)
      → RespectsLock group
      → held w ≡ false
      → released held (write_group group value w) ≡ true
  unfolding sdi_pin_group_acquire_bus sdi_pin_group_release_bus write_group with_lock
  released-write_group group value w (inl mutex) free =
      released-with_lock mutex (sdi_pin_group_write_level group value) w free
  released-write_group group value w (inr keeps) free =
      released_of_free (write_group group value w)
        (write_group-Keeps held group value (keeps value) w ∙ free)

  released-write_second_level :
      (group : Option (GroupBus W)) (value : ℕ) (w : W)
      → AllRespectLock group
      → held w ≡ false
      → released held (write_second_level group value w) ≡ true
  released-write_second_level none value w respect free = ap not free
  released-write_second_level (some group) value w respect free =
      released-write_group group value w respect free

module _ {W : Type 0} (bits : StdBits) (usleep_ms : ℕ → W → W) (init : Io W (Unit {0}))
    (entity : Entity W) where
  module _ {held : W → Bool} (sleeps : (ms : ℕ) (w : W) → held (usleep_ms ms w) ≡ held w)
      (inits : Keeps held init) (second : AllRespectLock held entity.reset_pin_grp_hdl_l1) where
    released-reset_pins :
        (group : Option (GroupBus W)) (value : ℕ) (w : W)
        → AllRespectLock held group
        → held w ≡ false
        → released held (reset_pins bits usleep_ms init entity group value w) ≡ true
    released-reset_pins none value w respect free = ap not free
    released-reset_pins (some group) value w respect free =
        released-next held (write_group group value w) _
          (released-write_group held group value w respect free)
          λ w1 free1.
            released-next held (write_second_level entity.reset_pin_grp_hdl_l1 _ w1) _
              (released-write_second_level held entity.reset_pin_grp_hdl_l1 _ w1 second free1)
              λ w2 free2.
                released-caught held (init (usleep_ms entity.delay w2))
                  (inits (usleep_ms entity.delay w2) ∙ sleeps entity.delay w2 ∙ free2)

  -- For any lock that each reset pin group of the entity has as its own or does not touch, and that
  -- std_usleep and sdi_entity_init leave as it was: where it is free before sdi_entity_reset it is
  -- free afterwards, whatever the type of reset, and whichever step failed, unless a failed
  -- STD_ASSERT ended the process.
  pub reset_releases :
      (held : W → Bool) (type : ℕ) (w : W)
      → ((ms : ℕ) (w : W) → held (usleep_ms ms w) ≡ held w)
      → Keeps held init
      → ((type : ℕ) → AllRespectLock held (entity.reset_pin_grp_hdl type))
      → AllRespectLock held entity.reset_pin_grp_hdl_l1
      → held w ≡ false
      → released held (sdi_entity_reset bits usleep_ms init entity type w) ≡ true
  unfolding sdi_entity_reset
  reset_releases held type w sleeps inits first second free =
      both_branches (λ (call : Io W (Unit {0})). released held (call w) ≡ true) (leb 2 type) _ _
        (ap not free)
        (both_branches (λ (call : Io W (Unit {0})). released held (call w) ≡ true)
          (bits.test entity.oper_support_flag type) _ _
          (released-reset_pins sleeps inits second (entity.reset_pin_grp_hdl type)
            (entity.reset_value type) w (first type) free)
          (ap not free))
