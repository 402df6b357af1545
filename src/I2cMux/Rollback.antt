-- ===== src/I2cMux/Rollback.antt =====
-- src/drivers/sdi_i2cmux_pin.c: the locks of a channel after it is acquired and released.
use opx_sdi_sys.Base.{
  caught, rc_of, ℕ, ◌≡◌, refl, ap, ◌∙◌, Bool, true, false, not, ◌&&◌, Result, ok, err, abort, pure,
  and_then,
}
use opx_sdi_sys.Bus.{pin_group_bus}
use opx_sdi_sys.Bus.Group.{
  sdi_pin_group_acquire_bus, sdi_pin_group_release_bus, sdi_pin_group_write_level,
}
use opx_sdi_sys.I2cMux.{
  Channel, after_select, after_group, after_lock, roll_back, sdi_i2cmux_pin_chan_acquire_bus,
  sdi_i2cmux_pin_chan_release_bus,
}

-- The locks that are held: of the multiplexer, the pin group and the I2C bus.
abbrev pub Locks : Type 0
Locks = Bool × Bool × Bool

-- A lock that succeeds is held afterwards; one that fails changes nothing.
abbrev pub taken : Result (Unit {0}) → Locks → Locks → Locks
taken (ok tt) now before = now
taken _ now before = before

-- The three locks are independent, and setting the level of the pins touches none of them.
pub record IsChannel {W : Type 0} (chan : Channel W) (locks : W → Locks) : Type 0 where
  pub group : chan.pingroup.bus_type ≡ pin_group_bus
  pub mux-lock :
      (w : W)
      → locks (chan.mux_lock.lock w).1
        ≡ taken (chan.mux_lock.lock w).0 (true, (locks w).1, (locks w).2) (locks w)
  pub mux-unlock : (w : W) → locks (chan.mux_lock.unlock w) ≡ (false, (locks w).1, (locks w).2)
  pub group-lock :
      (w : W)
      → locks (chan.pingroup.mutex.lock w).1
        ≡ taken (chan.pingroup.mutex.lock w).0 ((locks w).0, true, (locks w).2) (locks w)
  pub group-unlock :
      (w : W) → locks (chan.pingroup.mutex.unlock w) ≡ ((locks w).0, false, (locks w).2)
  pub i2c-lock :
      (w : W)
      → locks (chan.i2cbus.mutex.lock w).1
        ≡ taken (chan.i2cbus.mutex.lock w).0 ((locks w).0, (locks w).1, true) (locks w)
  pub i2c-unlock : (w : W) → locks (chan.i2cbus.mutex.unlock w) ≡ ((locks w).0, (locks w).1, false)
  pub level-keeps : (w : W) (v : ℕ) → locks (chan.pingroup.ops.write_level v w).1 ≡ locks w

-- With success all locks are held, with an error none; a failed STD_ASSERT ends the process.
abbrev pub all_or_none : {W : Type 0} → (W → Locks) → Result (Unit {0}) × W → Bool
all_or_none locks (ok tt, w) = (locks w).0 && (locks w).1 && (locks w).2
all_or_none locks (err e, w) = not (locks w).0 && not (locks w).1 && not (locks w).2
all_or_none locks (abort, w) = true

module _ {W : Type 0} {chan : Channel W} {locks : W → Locks} (laws : IsChannel chan locks) where
  open chan use {mux_lock, pingroup, i2cbus, i2c_mux_channel}

  abbrev held : Result (Unit {0}) × W → Bool
  held = all_or_none locks

  abbrev none_held : Locks → Bool
  none_held l = not l.0 && not l.1 && not l.2

  -- After the group is released and the multiplexer unlocked.
  freed :
      (w : W)
      → (locks w).2 ≡ false
      → none_held (locks (mux_lock.unlock (pingroup.mutex.unlock w))) ≡ true
  freed w h = rw (laws.mux-unlock, laws.group-unlock, h)

  i2c_stage :
      (r : Result (Unit {0}) × W)
      → locks r.1 ≡ taken r.0 (true, true, true) (true, true, false)
      → held (and_then (and_then (caught r) (λ x. pure (true, rc_of x))) (roll_back chan)) ≡ true
  unfolding sdi_pin_group_release_bus
  i2c_stage (ok tt, w) h = rw h
  i2c_stage (err e, w) h = freed w (ap (λ l. l.2) h)
  i2c_stage (abort, w) h = refl

  select_stage :
      (r : Result (Unit {0}) × W)
      → locks r.1 ≡ (true, true, false)
      → held (and_then (and_then (caught r) (after_select chan)) (roll_back chan)) ≡ true
  unfolding sdi_pin_group_release_bus
  select_stage (ok tt, w) h =
      i2c_stage (i2cbus.mutex.lock w)
        (laws.i2c-lock w ∙ ap (λ l. taken (i2cbus.mutex.lock w).0 (l.0, l.1, true) l) h)
  select_stage (err e, w) h = freed w (ap (λ l. l.2) h)
  select_stage (abort, w) h = refl

  group_stage :
      (r : Result (Unit {0}) × W)
      → locks r.1 ≡ taken r.0 (true, true, false) (true, false, false)
      → held (and_then (and_then (caught r) (after_group chan)) (roll_back chan)) ≡ true
  unfolding sdi_pin_group_release_bus sdi_pin_group_write_level
  group_stage (ok tt, w) h = rw laws.group (
      select_stage (pingroup.ops.write_level i2c_mux_channel w)
        (laws.level-keeps w i2c_mux_channel ∙ h))
  group_stage (err e, w) h = rw (laws.mux-unlock, h)
  group_stage (abort, w) h = refl

  lock_stage :
      (r : Result (Unit {0}) × W)
      → locks r.1 ≡ taken r.0 (true, false, false) (false, false, false)
      → held (and_then (caught r) (after_lock chan)) ≡ true
  unfolding sdi_pin_group_acquire_bus
  lock_stage (ok tt, w) h =
      group_stage (pingroup.mutex.lock w)
        (laws.group-lock w ∙ ap (λ l. taken (pingroup.mutex.lock w).0 (l.0, true, l.2) l) h)
  lock_stage (err e, w) h = rw h
  lock_stage (abort, w) h = refl

module _ {W : Type 0} (chan : Channel W) (locks : W → Locks) where
  -- On a channel whose three locks are independent, and of which none is held: after
  -- sdi_i2cmux_pin_chan_acquire_bus all three are held where it succeeded and none where it returned
  -- an error, whichever step failed, unless a failed STD_ASSERT ended the process. After
  -- sdi_i2cmux_pin_chan_release_bus in any state none is held.
  pub acquires_all_or_none :
      (w w' : W)
      → IsChannel chan locks
      → locks w ≡ (false, false, false)
      → (all_or_none locks (sdi_i2cmux_pin_chan_acquire_bus chan w) ≡ true)
        × (locks (sdi_i2cmux_pin_chan_release_bus chan w') ≡ (false, false, false))
  unfolding sdi_i2cmux_pin_chan_acquire_bus sdi_i2cmux_pin_chan_release_bus
      sdi_pin_group_release_bus
  acquires_all_or_none w w' laws free = (
    lock_stage laws (chan.mux_lock.lock w)
        (laws.mux-lock w ∙ ap (λ l. taken (chan.mux_lock.lock w).0 (true, l.1, l.2) l) free),
    rw (laws.mux-unlock, laws.group-unlock, laws.i2c-unlock),
  )
