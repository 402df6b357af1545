-- ===== src/Examples.antt =====
-- Concrete hardware: a memory with a lock for the CPLD, and an I2C device with a register file.
pub mod Cpld
pub mod Fan
pub mod Comm
mod Runs
mod Onie
mod Registry
mod FanRuns
mod Sensor
mod Reset
mod Mux
mod MultiByte
mod Display
pub mod Modules
mod Media
use opx_sdi_sys.Base.{
  ℕ, zero, suc, ◌+◌, ◌*◌, ◌%◌, ◌^◌, ◌≤◌, ◌<◌, ◌≡◌, refl, ap, ap₂, arith, Bool, true, false, not,
  List, [], ◌∷◌, ◌==◌, if◌then◌else◌, Io, Result, StdError, ok, err, abort, errno, pure, fail,
  errcode, enotsup, length,
}
use opx_sdi_sys.Bus.{ByteBus, BusType, i2c_bus, pin_bus}
use opx_sdi_sys.Bus.Memory.{IsMemory}
use opx_sdi_sys.Bus.Mutex.{Mutex, IsMutex}
use opx_sdi_sys.I2c.{I2cBus, I2cOps, DataType, byte, byte_data, word_data, block_data}
use opx_sdi_sys.I2c.Device.{View, IsRegisterFile, overlay}

-- The registers and the lock.
abbrev pub Locked : Type 0 → Type 0
Locked A = A × Bool

abbrev pub lock_of : {A : Type 0} → Mutex (Locked A)
lock_of = record { lock = λ w. (ok tt, (w.0, true)); unlock = λ w. (w.0, false) }

abbrev pub broken_lock : {A : Type 0} → Mutex (Locked A)
broken_lock = record { lock = λ w. (err errno, w); unlock = λ w. (w.0, false) }

abbrev pub is_held : {A : Type 0} → Locked A → Bool
is_held w = w.1

pub lock_of-IsMutex : {A : Type 0} → IsMutex (lock_of {A = A}) is_held
lock_of-IsMutex = record {
  lock-held = λ w e. refl;
  lock_failed = λ w e f. absurd (ok_err f);
  held-unlock = λ w. refl;
}
  where
    ok_err : {e : StdError} → ◌≡◌ {A = Result (Unit {0})} (ok tt) (err e) → ⊥
    ok_err f = cc

abbrev pub Memory : Type 0
Memory = Locked (ℕ → ℕ)

abbrev pub memory_bus : ByteBus Memory
memory_bus = record {
  read_byte = λ a w. (ok (w.0 a % 256), w);
  write_byte = λ a v w. (ok tt, ((λ b. if a == b then v else w.0 b), w.1));
}

abbrev pub memory_peek : Memory → ℕ → ℕ
memory_peek w a = w.0 a % 256

pub memory_bus-IsMemory : IsMemory memory_bus memory_peek
memory_bus-IsMemory = record {
  peek-lt = λ w a. omega arith;
  read_lem = λ w a. refl;
  write_ok = λ w a v. refl;
  peek-write = λ w a v b h. ground arith;
}

-- What an I2C device does with the transactions that the driver uses.
abbrev pub device_read : DataType → Io (Locked View) ℕ
device_read byte w = (ok (w.0.0 w.0.1), ((w.0.0, w.0.1 + 1), w.1))
device_read _ w = (err (errcode enotsup), w)

abbrev device_write : DataType → ℕ → List ℕ → Io (Locked View) (Unit {0})
device_write byte_data lo (hi ∷ bytes) w = (ok tt, ((w.0.0, lo + hi * 2 ^ 8), w.1))
device_write block_data lo (n ∷ hi ∷ values) w =
    (ok tt, ((overlay (lo + hi * 2 ^ 8) values w.0.0, w.0.1), w.1))
device_write _ lo bytes w = (err (errcode enotsup), w)

abbrev pub device_ops : I2cOps (Locked View)
device_ops = record {
  smbus_read = λ addr type cmd flags. device_read type;
  smbus_write = λ addr type cmd bytes flags. device_write type cmd bytes;
  i2c_read = λ addr cmd n flags. fail (errcode enotsup);
  i2c_write = λ addr cmd b n flags. fail (errcode enotsup);
}

abbrev pub device_bus : I2cBus (Locked View)
device_bus = record { bus_type = i2c_bus; ops = device_ops; mutex = lock_of }

abbrev pub device_view : Locked View → View
device_view w = w.0

pub device_bus-IsRegisterFile : (addr : ℕ) → IsRegisterFile device_bus addr device_view
device_bus-IsRegisterFile addr = record {
  i2c = refl;
  locks = λ w. ((w.0, true), refl, refl);
  view-unlock = λ w. refl;
  points = λ w lo hi. (((w.0.0, lo + hi * 2 ^ 8), w.1), refl, refl);
  receives = λ w. (((w.0.0, w.0.1 + 1), w.1), refl, refl);
  stores =
      λ w lo hi values short. (((overlay (lo + hi * 2 ^ 8) values w.0.0, w.0.1), w.1), refl, refl);
}
