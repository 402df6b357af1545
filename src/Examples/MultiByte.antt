-- ===== src/Examples/MultiByte.antt =====
-- The calls for several bytes, on a memory of bytes and on one whose register 2 cannot be written.
use opx_sdi_sys.Base.{
  ℕ, ◌≡◌, refl, arith, List, [], ◌∷◌, ◌==◌, if◌then◌else◌, Io, ok, err, callee, fail, errcode,
  enotsup, true, false,
}
use opx_sdi_sys.Bus.{i2c_bus}
use opx_sdi_sys.I2c.{I2cBus, sdi_smbus_read_multi_byte, sdi_smbus_write_multi_byte}
use opx_sdi_sys.I2c.Device.{overlay}
use opx_sdi_sys.I2c.MultiByte.{IsByteMemory, read-write_multi_byte}
use opx_sdi_sys.Examples.{Memory, lock_of}

abbrev store : ℕ → List ℕ → Io Memory (Unit {0})
store cmd [] w = (err (errcode enotsup), w)
store cmd (v ∷ vs) w = (ok tt, ((λ a. if a == cmd then v else w.0 a), w.1))

abbrev pub byte_bus : I2cBus Memory
byte_bus = record {
  bus_type = i2c_bus;
  ops = record {
    smbus_read = λ addr type cmd flags w. (ok (w.0 cmd), w);
    smbus_write = λ addr type cmd bytes flags. store cmd bytes;
    i2c_read = λ addr cmd n flags. fail (errcode enotsup);
    i2c_write = λ addr cmd b n flags. fail (errcode enotsup);
  };
  mutex = lock_of;
}

abbrev stop_bus : I2cBus Memory
stop_bus = record {
  bus_type = i2c_bus;
  ops = record {
    smbus_read = λ addr type cmd flags w. (ok (w.0 cmd), w);
    smbus_write =
        λ addr type cmd bytes flags w. if cmd == 2 then (err (callee 5), w) else store cmd bytes w;
    i2c_read = λ addr cmd n flags. fail (errcode enotsup);
    i2c_write = λ addr cmd b n flags. fail (errcode enotsup);
  };
  mutex = lock_of;
}

abbrev pub registers : Memory → ℕ → ℕ
registers w = w.0

abbrev empty : Memory
empty = ((λ a. 0), false)

abbrev first_written : Memory
first_written = ((λ a. if a == 1 then 7 else 0), false)

pub byte_bus-IsByteMemory : IsByteMemory byte_bus 0x50 0 registers
byte_bus-IsByteMemory = record {
  i2c = refl;
  locks = λ w. ((w.0, true), refl, refl);
  regs-unlock = λ w. refl;
  reads = λ w cmd. refl;
  writes = λ w cmd v. (((λ a. if a == cmd then v else w.0 a), w.1), refl, refl);
}

read-write_multi_byte_example :
    (w' : Memory) × (sdi_smbus_write_multi_byte byte_bus 0x50 1 (7 ∷ 8 ∷ 9 ∷ []) 0 empty
      ≡ (ok tt, w'))
    × (registers w' ≡ overlay 1 (7 ∷ 8 ∷ 9 ∷ []) (registers empty))
    × (w'' : Memory) × (sdi_smbus_read_multi_byte byte_bus 0x50 1 3 0 w'
        ≡ (ok (7 ∷ 8 ∷ 9 ∷ []), w''))
read-write_multi_byte_example =
    read-write_multi_byte byte_bus 0x50 0 registers 1 (7 ∷ 8 ∷ 9 ∷ []) empty byte_bus-IsByteMemory
      (omega arith)
