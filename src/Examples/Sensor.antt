-- ===== src/Examples/Sensor.antt =====
-- A TMP75 at address 0x48 on the bus of registers, and the theorems on it.
use opx_sdi_sys.Base.{
  true, ◌≡◌, refl, arith, List, [], ◌∷◌, false, leb, ◌||◌, ◌==◌, if◌then◌else◌, ok, err, errno,
}
use opx_sdi_sys.Bus.{i2c_bus}
use opx_sdi_sys.Bus.Mutex.{with_lock}
use opx_sdi_sys.I2c.{I2cBus, sdi_smbus_write_byte, on_bus}
use opx_sdi_sys.DeviceData.{Driven}
use opx_sdi_sys.Tmp75.{
  Tmp75Device, low_threshold, high_threshold, temp_reg, sdi_tmp75_threshold_get,
  sdi_tmp75_threshold_set, sdi_tmp75_status_get,
}
use opx_sdi_sys.Tmp75.Limits.{Event, sets, changes, run, status_get_lem}
use opx_sdi_sys.Tmp75.Setup.{threshold_get-threshold_set_failed}
use opx_sdi_sys.Examples.{Memory, broken_lock}
use opx_sdi_sys.Examples.Fan.{map_bus, contents, map_bus-IsRegisterMap}

abbrev sensor : Tmp75Device
sensor = record { low = 0; high = 0; default_low = 70; default_high = 80 }

-- 25 degrees
abbrev room : Driven Tmp75Device Memory
room = record { private_data = sensor; hardware = ((λ a. if a == 0 then 25 else 0), false) }

abbrev heat : Memory → Memory
heat w = ((λ a. if a == 0 then 90 else w.0 a), w.1)

abbrev events : List (Event Memory)
events =
    sets low_threshold 10
    ∷ sets high_threshold 85
    ∷ sets low_threshold 0xFFFFFFF0
    ∷ changes heat
    ∷ []

abbrev dead_bus : I2cBus Memory
dead_bus = record { bus_type = i2c_bus; ops = map_bus.ops; mutex = broken_lock }

status_get_lem_example :
    (c' : Driven Tmp75Device Memory) × (sdi_tmp75_status_get map_bus 0x48
        (run map_bus 0x48 events room)
      ≡ (
        ok (
            leb
              (run map_bus 0x48 events room).private_data.high
              (contents (run map_bus 0x48 events room).hardware temp_reg)
            || leb
                (contents (run map_bus 0x48 events room).hardware temp_reg)
                (run map_bus 0x48 events room).private_data.low),
        c',
      ))
status_get_lem_example =
    status_get_lem map_bus 0x48 contents events room (map_bus-IsRegisterMap 0x48)
      (omega arith, omega arith) (omega arith, (omega arith, (omega arith, (tt, tt))))

threshold_get-threshold_set_failed_example :
    (c' : Driven Tmp75Device Memory) × (sdi_tmp75_threshold_set dead_bus 0x48 high_threshold 20 room
      ≡ (err errno, c'))
    × (sdi_tmp75_threshold_get dead_bus 0x48 high_threshold c' ≡ (ok 20, c'))
unfolding sdi_smbus_write_byte on_bus with_lock
threshold_get-threshold_set_failed_example =
    threshold_get-threshold_set_failed dead_bus 0x48 20 true errno room room.hardware (omega arith)
      refl
