-- ===== src/Bus/Memory.antt =====
-- A device whose registers behave as memory: the interface between a byte transport and the drivers
-- that do a read, a change and a write back.
use opx_sdi_sys.Base.{ℕ, ◌<◌, ◌≡◌, ok, ◌==◌, if◌then◌else◌}
use opx_sdi_sys.Bus.{ByteBus}

-- `peek w a` is the byte in register `a`. Every access succeeds, a read changes nothing, and a byte
-- written is there until the next write of its register.
pub record IsMemory {W : Type 0} (bus : ByteBus W) (peek : W → ℕ → ℕ) : Type 0 where
  pub peek-lt : (w : W) (a : ℕ) → peek w a < 256
  pub read_lem : (w : W) (a : ℕ) → bus.read_byte a w ≡ (ok (peek w a), w)
  pub write_ok : (w : W) (a v : ℕ) → (bus.write_byte a v w).0 ≡ ok tt
  pub peek-write :
      (w : W) (a v b : ℕ)
      → v < 256
      → peek (bus.write_byte a v w).1 b ≡ (if a == b then v else peek w b)

module _ {W : Type 0} {bus : ByteBus W} {peek : W → ℕ → ℕ} (memory : IsMemory bus peek) where
  pub write_lem : (w : W) (a v : ℕ) → bus.write_byte a v w ≡ (ok tt, (bus.write_byte a v w).1)
  write_lem w a v = λ i. (memory.write_ok w a v i, (bus.write_byte a v w).1)
