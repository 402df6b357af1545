-- ===== src/Examples/Fan.antt =====
-- A MAX6620 at address 0x29 on a bus of registers, and the theorems on it.
use opx_sdi_sys.Base.{
  ℕ, ◌+◌, ◌*◌, ◌/◌, ◌%◌, ◌^◌, ◌≤◌, ◌<◌, ◌≡◌, refl, fun_ext, arith, List, [], ◌∷◌, ◌==◌, ltb, leb,
  ◌&&◌, if◌then◌else◌, Io, ok, err, fail, errcode, enotsup, true, false, bit, some,
}
use opx_sdi_sys.Bus.{i2c_bus}
use opx_sdi_sys.I2c.{I2cBus, DataType, byte, byte_data, word_data, block_data}
use opx_sdi_sys.I2c.Registers.{IsRegisterMap, put, put_word, word_at}
use opx_sdi_sys.DeviceData.{Driven}
use opx_sdi_sys.Max6620.{
  Max6620Device, FanData, tach_count_val, fanfault, globalcfg, fandyn, speed_range,
  sdi_max6620_fan_target_tach_count_set, sdi_max6620_fan_tach_count_period_set,
}
use opx_sdi_sys.Max6620.Fan.{
  count_of_speed, sdi_max6620_fan_speed_set, sdi_max6620_fan_speed_get, sdi_max6620_fan_status_get,
  sdi_max6620_chip_init,
}
use opx_sdi_sys.Max6620.Tach.{target_tach_count_set_lem}
use opx_sdi_sys.Max6620.Speed.{target_in_range}
use opx_sdi_sys.Max6620.Setting.{IsRegulated, driven, speed_set-speed_get}
use opx_sdi_sys.Max6620.Faults.{polls, fault_is_reported}
use opx_sdi_sys.Max6620.Setup.{setup_lem}
use opx_sdi_sys.Examples.{Memory, lock_of}

abbrev pub contents : Memory → ℕ → ℕ
contents w a = w.0 a % 2 ^ 8

abbrev answer : DataType → ℕ → Io Memory ℕ
answer byte_data cmd w = (ok (contents w cmd), w)
answer word_data cmd w = (ok (word_at (contents w) cmd), w)
answer byte cmd w = (err (errcode enotsup), w)
answer block_data cmd w = (err (errcode enotsup), w)

abbrev accept : DataType → ℕ → List ℕ → Io Memory (Unit {0})
accept byte_data cmd (v ∷ []) w = (ok tt, (put cmd v w.0, w.1))
accept word_data cmd (v ∷ []) w = (ok tt, (put_word cmd v w.0, w.1))
accept _ _ _ w = (err (errcode enotsup), w)

abbrev pub map_bus : I2cBus Memory
map_bus = record {
  bus_type = i2c_bus;
  ops = record {
    smbus_read = λ addr type cmd flags. answer type cmd;
    smbus_write = λ addr type cmd bytes flags. accept type cmd bytes;
    i2c_read = λ addr cmd n flags. fail (errcode enotsup);
    i2c_write = λ addr cmd b n flags. fail (errcode enotsup);
  };
  mutex = lock_of;
}

pub map_bus-IsRegisterMap : (addr : ℕ) → IsRegisterMap map_bus addr contents
map_bus-IsRegisterMap addr = record {
  i2c = refl;
  locks = λ w. ((w.0, true), refl, refl);
  regs-unlock = λ w. refl;
  bytes = λ w cmd. omega arith;
  reads = λ w cmd. (w, refl, refl);
  writes = λ w cmd v small. ((put cmd v w.0, w.1), refl, fun_ext λ a. ground arith);
  reads_word = λ w cmd. (w, refl, refl);
  writes_word = λ w cmd v small. ((put_word cmd v w.0, w.1), refl, fun_ext λ a. ground arith);
}

-- The fans turn as their target registers say.
abbrev spin : Memory → Memory
spin w = ((λ a. if leb 0x10 a && ltb a 0x18 then w.0 (a + 0x10) else w.0 a), w.1)

moved :
    (w : Memory) (a b : ℕ) → a + 0x10 ≡ b → 0x10 ≤ a → a < 0x18 → contents (spin w) a ≡ contents w b
moved w a b e low high =
    let inside : (leb 0x10 a && ltb a 0x18) ≡ true = ground arith in rw (inside, e)

spin-IsRegulated : IsRegulated contents spin
spin-IsRegulated = record {
  first = λ w fan_id small.
      moved w (0x10 + fan_id * 2) (0x20 + fan_id * 2) (omega arith) (omega arith) (omega arith);
  second = λ w fan_id small.
      moved w (0x10 + fan_id * 2 + 1) (0x20 + fan_id * 2 + 1) (omega arith) (omega arith)
        (omega arith);
}

abbrev pub fan : FanData
fan = record { no_of_tach_pulse = 2; tach_count_period = 32; max_speed = 16000 }

abbrev pub chip : Max6620Device
chip = record { is_full_speed_on_fail = true; max6620_fan = λ i. fan; fan_faults = 0 }

-- Fan 1 has failed.
abbrev pub failing : Memory
failing = ((λ a. if a == 1 then 0x20 else 0x5A), false)

abbrev dead : Memory → Memory
dead w = ((λ a. 0), false)

target_tach_count_set_lem_example :
    (w' : Memory) × (sdi_max6620_fan_target_tach_count_set map_bus 0x29 1 786 failing ≡ (ok tt, w'))
    × (tach_count_val (contents w' 0x23) (contents w' 0x22) ≡ 786 % 2048)
    × (contents w' 0x23 % 2 ^ 5 ≡ contents failing 0x23 % 2 ^ 5)
    × (contents w' 0x24 ≡ contents failing 0x24)
target_tach_count_set_lem_example =
    target_tach_count_set_lem map_bus 0x29 contents 1 786 0x24 failing (map_bus-IsRegisterMap 0x29)
      (omega arith) (omega arith)

speed_set-speed_get_example :
    (w' w'' : Memory) × (got : ℕ) × (sdi_max6620_fan_speed_set map_bus 0x29 1 10000
        (driven chip failing)
      ≡ (ok tt, driven chip w'))
    × (sdi_max6620_fan_speed_get map_bus 0x29 1 (driven chip (spin w'))
        ≡ (ok (some got), driven chip w''))
    × (10000 ≤ got)
    × (got * 786 < 10000 * (786 + 1))
speed_set-speed_get_example =
    speed_set-speed_get map_bus 0x29 contents spin chip 1 10000 failing (map_bus-IsRegisterMap 0x29)
      spin-IsRegulated (omega arith) (omega arith) (omega arith) (omega arith) (omega arith)
      (omega arith)

target_in_range_example :
    (tgt_tach_count : ℕ) × (count_of_speed fan 8000 failing ≡ (ok tgt_tach_count, failing))
    × (0 < tgt_tach_count)
    × (tgt_tach_count < 2047)
unfolding speed_range
target_in_range_example =
    target_in_range fan 8000 failing refl refl (omega arith) (omega arith) (omega arith)
      (omega arith)

fault_is_reported_example :
    (c' : Driven Max6620Device Memory) × (sdi_max6620_fan_status_get map_bus 0x29 1 (
        polls map_bus 0x29
          ((3, dead) ∷ (0, dead) ∷ [])
          (sdi_max6620_fan_status_get map_bus 0x29 0 (driven chip failing)).1)
      ≡ (ok true, c'))
fault_is_reported_example =
    fault_is_reported map_bus 0x29 contents 0 1 ((3, dead) ∷ (0, dead) ∷ []) (driven chip failing)
      (map_bus-IsRegisterMap 0x29) (omega arith) (omega arith) (omega arith)
      ((omega arith, omega arith), ((omega arith, omega arith), tt)) refl

setup_lem_example :
    ((w' : Memory) × (sdi_max6620_chip_init map_bus 0x29 (driven chip failing)
        ≡ (ok tt, driven chip w'))
      × (contents w' fanfault ≡ 0)
      × (bit (contents w' globalcfg) 4 ≡ 0))
    × ((d' : Max6620Device) × (w' : Memory) × (sdi_max6620_fan_tach_count_period_set map_bus 0x29 2
            (driven chip failing)
          ≡ (ok tt, driven d' w'))
        × ((d'.max6620_fan 2).tach_count_period ≡ 2 ^ (contents w' (fandyn 2) / 2 ^ 5))
        × ((d'.max6620_fan 2).tach_count_period ≤ 32)
        × (contents w' (fandyn 2) % 2 ^ 5 ≡ contents failing (fandyn 2) % 2 ^ 5)
        × ((d'.max6620_fan 2).max_speed ≡ 16000))
setup_lem_example =
    setup_lem map_bus 0x29 contents chip 2 4 failing (map_bus-IsRegisterMap 0x29) (omega arith)
