-- ===== src/Examples/Registry.antt =====
-- A registry with two I2C buses, and the theorems on it.
use opx_sdi_sys.Base.{
  ℕ, suc, ◌≡◌, refl, arith, [], ◌∷◌, some, Result, ◌+◌, ok, err, callee, ◌==◌, if◌then◌else◌,
}
use opx_sdi_sys.Base.Strings.{same_string}
use opx_sdi_sys.Bus.{i2c_bus}
use opx_sdi_sys.DeviceData.{Driven}
use opx_sdi_sys.Registry.{
  SdiBus, Registry, ListLocks, index, find_bus, run_each, sdi_bus_enqueue_list, sdi_bus_get_handle,
  sdi_bus_register, sdi_bus_unregister, sdi_bus_get_handle_by_id, sdi_bus_get_handle_by_name,
  sdi_attach_device_to_bus, sdi_bus_for_each, sdi_init_bus_for_each_bus_in_list,
}
use opx_sdi_sys.Registry.Lookup.{IsAvailable, get_handle-register, unregister-register}
use opx_sdi_sys.Registry.Reachable.{here, next, registers, attaches, empty_lists, found_is_typed}

-- The hardware counts the calls of the locks.
abbrev locks : ListLocks ℕ
locks = record {
  lock = λ t w. (ok tt, suc w);
  unlock = λ t w. (ok tt, suc w);
  lock_devices = λ b w. (ok tt, suc w);
  unlock_devices = λ b w. (ok tt, suc w);
}

locks-IsAvailable : IsAvailable locks
locks-IsAvailable = record {
  locks_list = λ t w. (suc w, refl);
  unlocks_list = λ t w. (suc w, refl);
}

-- Bus 7 has the identifier 1, all others 0.
abbrev buses : ℕ → SdiBus
buses b = record {
  bus_type = i2c_bus;
  bus_id = if b == 7 then 1 else 0;
  bus_name = 105 ∷ 50 ∷ 99 ∷ [];
  devices = [];
}

abbrev start : Driven Registry ℕ
start = record { private_data = empty_lists buses; hardware = 0 }

abbrev with_7 : Driven Registry ℕ
with_7 = (sdi_bus_register locks 7 start).1

get_handle-register_example :
    (c' c'' : Driven Registry ℕ) × (sdi_bus_register locks 7 start ≡ (ok tt, c'))
    × (sdi_bus_get_handle_by_id locks 1 i2c_bus c' ≡ (ok (some 7), c''))
unfolding find_bus
get_handle-register_example = get_handle-register locks 7 1 start locks-IsAvailable

unregister-register_example :
    (c' c'' : Driven Registry ℕ) × (sdi_bus_register locks 3 with_7 ≡ (ok tt, c'))
    × (sdi_bus_unregister locks 3 c' ≡ (ok tt, c''))
    × (c''.private_data.lists 0 ≡ 7 ∷ [])
unfolding sdi_bus_register sdi_bus_enqueue_list index
unregister-register_example =
    unregister-register locks 3 0 with_7 locks-IsAvailable (omega arith, tt)

abbrev found_after : Driven Registry ℕ
found_after =
    (sdi_bus_get_handle_by_id locks 1 i2c_bus (sdi_attach_device_to_bus locks 7 80 with_7).1).1

abbrev attached : Driven Registry ℕ
attached = (sdi_attach_device_to_bus locks 7 80 with_7).1

found_is_typed_example :
    ((attached.private_data.bus 7).bus_type ≡ i2c_bus) × ((attached.private_data.bus 7).bus_id ≡ 1)
unfolding sdi_bus_register sdi_bus_enqueue_list index sdi_attach_device_to_bus
    sdi_bus_get_handle_by_id sdi_bus_get_handle find_bus
found_is_typed_example =
    found_is_typed locks buses 0 attached found_after 1 7 i2c_bus
      (next (next here (registers start 7)) (attaches with_7 7 80)) refl

-- A bus whose initialization fails is handed to the handler, and the others are initialized.
abbrev log_init : ℕ → Driven Registry ℕ → Result (Unit {0}) × Driven Registry ℕ
log_init b c =
    if b == 7
    then (err (callee 5), c)
    else (ok tt, record { private_data = c.private_data; hardware = c.hardware + 100 })

abbrev log_failure : ℕ → Driven Registry ℕ → Result (Unit {0}) × Driven Registry ℕ
log_failure b c = (ok tt, record { private_data = c.private_data; hardware = c.hardware + 1000 })

failed_init_is_handled :
    (sdi_init_bus_for_each_bus_in_list locks 0
      (some log_init)
      (some log_failure)
      (sdi_bus_register locks 3 with_7).1).1.hardware
    ≡ 1106
unfolding sdi_init_bus_for_each_bus_in_list run_each sdi_bus_register sdi_bus_enqueue_list index
failed_init_is_handled = refl

each_bus :
    (sdi_bus_for_each locks i2c_bus log_failure (sdi_bus_register locks 3 with_7).1).1.hardware
    ≡ 2006
unfolding sdi_bus_for_each run_each sdi_bus_register sdi_bus_enqueue_list index
each_bus = refl

found_by_name :
    (sdi_bus_get_handle_by_name locks (105 ∷ 50 ∷ 99 ∷ []) i2c_bus with_7).0 ≡ ok (some 7)
unfolding sdi_bus_get_handle_by_name sdi_bus_get_handle sdi_bus_register sdi_bus_enqueue_list index
    find_bus same_string
found_by_name = refl
