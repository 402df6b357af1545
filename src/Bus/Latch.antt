-- ===== src/Bus/Latch.antt =====
-- A pin group that keeps the level it is given: the interface between a driver of such a group and
-- the drivers of what hangs on it.
use opx_sdi_sys.Base.{ℕ, ◌<◌, ◌≡◌, ok}
use opx_sdi_sys.Bus.{pin_group_bus}
use opx_sdi_sys.Bus.Group.{GroupBus}

-- `level w` is what the pins show. Levels below `limit` fit the group.
pub record IsLatch {W : Type 0} (bus : GroupBus W) (level : W → ℕ) (limit : ℕ) : Type 0 where
  pub group : bus.bus_type ≡ pin_group_bus
  pub locks : (w : W) → (w' : W) × (bus.mutex.lock w ≡ (ok tt, w')) × (level w' ≡ level w)
  pub level-unlock : (w : W) → level (bus.mutex.unlock w) ≡ level w
  pub reads : (w : W) → bus.ops.read_level w ≡ (ok (level w), w)
  pub writes :
      (w : W) (v : ℕ)
      → v < limit
      → (w' : W) × (bus.ops.write_level v w ≡ (ok tt, w')) × (level w' ≡ v)
