-- ===== src/EntityReset.antt =====
-- src/hwcore/sdi_entity_reset.c: reset and power control of an entity. What follows a reset is a
-- parameter: sdi_entity_init, which calls the drivers of the resources, and std_usleep.
pub mod Keeps
pub mod Locks
pub mod Again
use opx_sdi_sys.Base.{
  ℕ, Bool, true, false, Option, none, some, leb, if◌then◌else◌, Io, ok, pure, fail, errcode,
  enotsup, einval, catch, ◌>>◌, ◌>>=◌, and_then,
}
use opx_sdi_sys.Base.StdBits.{StdBits}
use opx_sdi_sys.Bus.Mutex.{Mutex, with_lock}
use opx_sdi_sys.Bus.Group.{
  GroupBus, sdi_pin_group_acquire_bus, sdi_pin_group_release_bus, sdi_pin_group_write_level,
}
use opx_sdi_sys.Bus.Pin.{PinBus, Level, low, high, sdi_pin_write_level}

-- What reset and power control use of a struct sdi_entity; `none` is a NULL handle.
pub record Entity (W : Type 0) : Type 0 where
  pub oper_support_flag : ℕ
  pub reset_value : ℕ → ℕ
  pub delay : ℕ
  pub power_pin_hdl : Option (PinBus W)
  pub reset_pin_grp_hdl : ℕ → Option (GroupBus W)
  pub reset_pin_grp_hdl_l1 : Option (GroupBus W)
  pub reset_value_l1 : ℕ

abbrev max_num_reset : ℕ
max_num_reset = 2

abbrev pwr_ctrl_support : ℕ
pwr_ctrl_support = 3

abbrev pub level_of : Bool → Level
level_of true = high
level_of false = low

module _ {W : Type 0} where
  -- The lock of a group, as its API gives it.
  abbrev pub group_lock : GroupBus W → Mutex W
  unfolding sdi_pin_group_acquire_bus sdi_pin_group_release_bus
  group_lock group = record {
    lock = sdi_pin_group_acquire_bus group;
    unlock = λ w. (sdi_pin_group_release_bus group w).1;
  }

  -- Acquire, write the level, release.
  abbrev pub write_group : GroupBus W → ℕ → Io W (Unit {0})
  unfolding with_lock sdi_pin_group_write_level
  write_group group value = with_lock (group_lock group) (sdi_pin_group_write_level group value)

  abbrev pub write_second_level : Option (GroupBus W) → ℕ → Io W (Unit {0})
  write_second_level none value = pure tt
  write_second_level (some group) value = write_group group value

-- The bit operations, std_usleep of a number of milliseconds, and sdi_entity_init of the entity.
module _ {W : Type 0} (bits : StdBits) (usleep_ms : ℕ → W → W) (init : Io W (Unit {0}))
    (entity : Entity W) where
  open entity use {
    oper_support_flag, reset_value, delay, power_pin_hdl, reset_pin_grp_hdl, reset_pin_grp_hdl_l1,
    reset_value_l1,
  }

  pub sdi_is_entity_feature_support : ℕ → Bool
  sdi_is_entity_feature_support type = bits.test oper_support_flag type

  -- The code of sdi_entity_init is not looked at.
  abbrev pub init_again : Io W (Unit {0})
  init_again w = and_then (catch init (usleep_ms delay w)) (λ _. pure tt)

  abbrev pub reset_pins : Option (GroupBus W) → ℕ → Io W (Unit {0})
  reset_pins none value = fail (errcode einval)
  reset_pins (some group) value =
      write_group group value
      >> (write_second_level reset_pin_grp_hdl_l1 reset_value_l1 >> init_again)

  pub sdi_entity_reset : ℕ → Io W (Unit {0})
  unfolding sdi_is_entity_feature_support
  sdi_entity_reset type =
      if leb max_num_reset type
      then fail (errcode enotsup)
      else if sdi_is_entity_feature_support type
      then reset_pins (reset_pin_grp_hdl type) (reset_value type)
      else fail (errcode enotsup)

  abbrev pub after_power : Bool → Io W (Unit {0})
  after_power true = init_again
  after_power false = pure tt

  abbrev pub power_pin : Option (PinBus W) → Bool → Io W (Unit {0})
  unfolding sdi_pin_write_level
  power_pin none enable = fail (errcode enotsup)
  power_pin (some pin) enable = sdi_pin_write_level pin (level_of enable) >> after_power enable

  pub sdi_entity_power_status_control : Bool → Io W (Unit {0})
  unfolding sdi_is_entity_feature_support
  sdi_entity_power_status_control enable =
      if sdi_is_entity_feature_support pwr_ctrl_support
      then power_pin power_pin_hdl enable
      else fail (errcode enotsup)
