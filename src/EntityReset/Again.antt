-- ===== src/EntityReset/Again.antt =====
-- When sdi_entity_reset and sdi_entity_power_status_control initialise the entity again.
use opx_sdi_sys.Base.{
  ℕ, ◌+◌, ◌≡◌, refl, ap, ◌∙◌, Bool, true, false, Option, none, some, Io, Result, ok, err, abort,
  pure, and_then, caught, leb, if◌then◌else◌, arith,
}
use opx_sdi_sys.Base.StdBits.{StdBits}
use opx_sdi_sys.Bus.Group.{GroupBus}
use opx_sdi_sys.Bus.Pin.{PinBus, Level, sdi_pin_write_level}
use opx_sdi_sys.EntityReset.{
  Entity, level_of, write_group, write_second_level, init_again, reset_pins, power_pin,
  sdi_entity_reset, sdi_entity_power_status_control,
}
use opx_sdi_sys.EntityReset.Keeps.{
  Keeps, KeepsUnder, write_group-Keeps, pin_write-Keeps, both_branches,
}

module _ {W : Type 0} (inits : W → ℕ) where
  -- The number of initialisations after a call: `more` beyond those before it where it succeeded, the
  -- same where it returned an error; a failed STD_ASSERT ends the process.
  abbrev pub Inits : ℕ → ℕ → Result (Unit {0}) × W → Type 0
  Inits before more (ok tt, w) = inits w ≡ before + more
  Inits before more (err e, w) = inits w ≡ before
  Inits before more (abort, w) = Unit

  -- A group or a pin whose calls do not initialise the entity.
  abbrev pub GroupKeeps : Option (GroupBus W) → Type 0
  GroupKeeps none = Unit
  GroupKeeps (some group) = (value : ℕ) → KeepsUnder inits group.mutex (group.ops.write_level value)

  abbrev pub PinKeeps : Option (PinBus W) → Type 0
  PinKeeps none = Unit
  PinKeeps (some pin) = (level : Level) → KeepsUnder inits pin.mutex (pin.ops.write_level level)

  Inits-next :
      (n more : ℕ) (r : Result (Unit {0}) × W) (k : Io W (Unit {0}))
      → inits r.1 ≡ n
      → ((w : W) → inits w ≡ n → Inits n more (k w))
      → Inits n more (and_then r (λ _. k))
  Inits-next n more (ok tt, w) k h next = next w h
  Inits-next n more (err e, w) k h next = h
  Inits-next n more (abort, w) k h next = tt

  Inits-caught :
      (n : ℕ) (r : Result (Unit {0}) × W)
      → inits r.1 ≡ n + 1
      → Inits n 1 (and_then (caught r) (λ _. pure tt))
  Inits-caught n (ok tt, w) h = h
  Inits-caught n (err e, w) h = h
  Inits-caught n (abort, w) h = tt

  second_level-Keeps :
      (group : Option (GroupBus W)) (value : ℕ)
      → GroupKeeps group
      → Keeps inits (write_second_level group value)
  second_level-Keeps none value keeps w = refl
  second_level-Keeps (some group) value keeps w =
      write_group-Keeps inits group value (keeps value) w

module _ {W : Type 0} (bits : StdBits) (usleep_ms : ℕ → W → W) (init : Io W (Unit {0}))
    (entity : Entity W) where
  module _ {inits : W → ℕ} (sleeps : (ms : ℕ) (w : W) → inits (usleep_ms ms w) ≡ inits w)
      (counts : (w : W) → inits (init w).1 ≡ inits w + 1) where
    Inits-init_again :
        (n : ℕ) (w : W) → inits w ≡ n → Inits inits n 1 (init_again bits usleep_ms init entity w)
    Inits-init_again n w h =
        Inits-caught inits n (init (usleep_ms entity.delay w))
          (counts (usleep_ms entity.delay w) ∙ ap (λ k. k + 1) (sleeps entity.delay w ∙ h))

    Inits-reset_pins :
        (group : Option (GroupBus W)) (value : ℕ) (w : W)
        → GroupKeeps inits group
        → GroupKeeps inits entity.reset_pin_grp_hdl_l1
        → Inits inits (inits w) 1 (reset_pins bits usleep_ms init entity group value w)
    Inits-reset_pins none value w first second = refl
    Inits-reset_pins (some group) value w first second =
        Inits-next inits _ 1 (write_group group value w) _
          (write_group-Keeps inits group value (first value) w)
          λ w1 h1.
            Inits-next inits _ 1 (write_second_level entity.reset_pin_grp_hdl_l1 _ w1) _
              (second_level-Keeps inits entity.reset_pin_grp_hdl_l1 _ second w1 ∙ h1)
              (Inits-init_again _)

    Inits-power_pin :
        (pin : Option (PinBus W)) (enable : Bool) (w : W)
        → PinKeeps inits pin
        → Inits inits
            (inits w)
            (if enable then 1 else 0)
            (power_pin bits usleep_ms init entity pin enable w)
    unfolding power_pin
    Inits-power_pin none enable w keeps = refl
    Inits-power_pin (some pin) true w keeps =
        Inits-next inits _ 1 (sdi_pin_write_level pin (level_of true) w) _
          (pin_write-Keeps inits pin (level_of true) (keeps (level_of true)) w) (Inits-init_again _)
    Inits-power_pin (some pin) false w keeps =
        Inits-next inits _ 0 (sdi_pin_write_level pin (level_of false) w) _
          (pin_write-Keeps inits pin (level_of false) (keeps (level_of false)) w)
          λ w1 h. rw h (omega arith)

  -- Where each run of sdi_entity_init counts one, and neither std_usleep nor the calls of the pins and
  -- the pin groups of the entity change the count: a successful sdi_entity_reset has initialised the
  -- entity exactly once, and one that returns an error not at all; a successful
  -- sdi_entity_power_status_control has done so once when it switches on and not when it switches off,
  -- and one that returns an error not at all. Both hold unless a failed STD_ASSERT ended the process.
  pub initialises_again :
      (inits : W → ℕ) (type : ℕ) (enable : Bool) (w : W)
      → ((ms : ℕ) (w : W) → inits (usleep_ms ms w) ≡ inits w)
      → ((w : W) → inits (init w).1 ≡ inits w + 1)
      → ((type : ℕ) → GroupKeeps inits (entity.reset_pin_grp_hdl type))
      → GroupKeeps inits entity.reset_pin_grp_hdl_l1
      → PinKeeps inits entity.power_pin_hdl
      → Inits inits (inits w) 1 (sdi_entity_reset bits usleep_ms init entity type w)
        × Inits inits
            (inits w)
            (if enable then 1 else 0)
            (sdi_entity_power_status_control bits usleep_ms init entity enable w)
  unfolding sdi_entity_reset sdi_entity_power_status_control
  initialises_again inits type enable w sleeps counts first second pin = (
    both_branches (λ (call : Io W (Unit {0})). Inits inits (inits w) 1 (call w)) (leb 2 type) _ _
        refl
        (both_branches (λ (call : Io W (Unit {0})). Inits inits (inits w) 1 (call w))
          (bits.test entity.oper_support_flag type) _ _
          (Inits-reset_pins sleeps counts (entity.reset_pin_grp_hdl type) (entity.reset_value type)
            w (first type) second)
          refl),
    both_branches
        (λ (call : Io W (Unit {0})). Inits inits (inits w) (if enable then 1 else 0) (call w))
        (bits.test entity.oper_support_flag 3) _ _
        (Inits-power_pin sleeps counts entity.power_pin_hdl enable w pin) refl,
  )
