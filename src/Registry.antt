-- ===== src/Registry.antt =====
-- src/framework/sdi_bus_framework.c: the lists of registered buses. A bus handle is a number, the
-- address of the bus, and the bus itself is in the registry's memory.
pub mod Lookup
pub mod Typed
pub mod Reachable
use opx_sdi_sys.Base.{
  ℕ, zero, suc, ◌+◌, Bool, true, false, List, [], ◌∷◌, ◌++◌, take, ◌==◌, if◌then◌else◌, Option,
  none, some, inl, inr, Io, Result, ok, err, abort, pure, std_assert, catch, ◌>>=◌, ◌>>◌, and_then,
}
use opx_sdi_sys.Base.Strings.{same_string}
use opx_sdi_sys.Bus.{
  BusType, i2c_bus, pin_bus, pin_group_bus, pseudo_bus, io_bus, sf_io_bus, bmc_io_bus, fpga_pci_bus,
}
use opx_sdi_sys.DeviceData.{Driven, on_hardware, get_data, set_data}

-- The value of the enumerator, the index in sdi_bus_lists; all are below SDI_MAX_BUS.
unfoldable pub index : BusType → ℕ
index i2c_bus = 0
index pin_bus = 1
index pin_group_bus = 2
index pseudo_bus = 3
index io_bus = 4
index sf_io_bus = 5
index bmc_io_bus = 6
index fpga_pci_bus = 7

abbrev pub max_name_len : ℕ
max_name_len = 64

-- struct sdi_bus; the devices are those of sdi_device_list, from the front.
pub record SdiBus : Type 0 where
  pub bus_type : BusType
  pub bus_id : ℕ
  pub bus_name : List ℕ
  pub devices : List ℕ

-- sdi_bus_lists, and the memory of the buses.
pub record Registry : Type 0 where
  pub lists : ℕ → List ℕ
  pub bus : ℕ → SdiBus

-- std_mutex_lock and std_mutex_unlock of the lists of buses, and of the list of devices of a bus.
pub record ListLocks (W : Type 0) : Type 0 where
  pub lock : ℕ → Io W (Unit {0})
  pub unlock : ℕ → Io W (Unit {0})
  pub lock_devices : ℕ → Io W (Unit {0})
  pub unlock_devices : ℕ → Io W (Unit {0})

abbrev pub change_list : ℕ → (List ℕ → List ℕ) → Registry → Registry
change_list t f r = record r { lists = λ i. if i == t then f (r.lists i) else r.lists i }

abbrev pub change_bus : ℕ → (SdiBus → SdiBus) → Registry → Registry
change_bus b f r = record r { bus = λ i. if i == b then f (r.bus i) else r.bus i }

-- The loops over the nodes of a list: the first bus, or the position of the first, that passes a test.
unfoldable pub find_bus : (ℕ → Bool) → List ℕ → Option ℕ
find_bus test [] = none
find_bus test (b ∷ bs) = let rest = find_bus test bs in if test b then some b else rest

abbrev pub step_node : Option ℕ → Option ℕ
step_node none = none
step_node (some n) = some (suc n)

unfoldable pub find_node : ℕ → List ℕ → Option ℕ
find_node b [] = none
find_node b (x ∷ xs) = let rest = step_node (find_node b xs) in if b == x then some zero else rest

-- std_dll_remove of the node at a position.
unfoldable pub remove_node : ℕ → List ℕ → List ℕ
remove_node n [] = []
remove_node zero (x ∷ xs) = xs
remove_node (suc n) (x ∷ xs) = x ∷ remove_node n xs

-- A NULL that stands for any error.
abbrev pub null_of_error : {W A : Type 0} → Result (Option A) × W → Result (Option A) × W
null_of_error (ok o, w) = (ok o, w)
null_of_error (err e, w) = (ok none, w)
null_of_error (abort, w) = (abort, w)

abbrev pub or_null : {W A : Type 0} → Io W (Option A) → Io W (Option A)
or_null call w = null_of_error (call w)

-- sdi_is_i2c_bus, sdi_is_pin_bus, sdi_is_pin_group_bus and sdi_is_io_bus
abbrev pub is_of_type : BusType → SdiBus → Bool
is_of_type t bus = index bus.bus_type == index t

-- strncmp over SDI_MAX_NAME_LEN characters
abbrev pub has_name : List ℕ → SdiBus → Bool
has_name name bus = same_string (take max_name_len name) (take max_name_len bus.bus_name)

abbrev pub has_id : ℕ → SdiBus → Bool
has_id id bus = id == bus.bus_id

-- A callback that may be NULL.
abbrev pub call_if : {W : Type 0} → Option (ℕ → Io W (Unit {0})) → ℕ → Io W (Unit {0})
call_if none b = pure tt
call_if (some fn) b = fn b

abbrev pub init_or_handle :
    {W : Type 0} → Option (ℕ → Io W (Unit {0})) → Option (ℕ → Io W (Unit {0})) → ℕ → Io W (Unit {0})
init_or_handle bus_init handler b =
    catch (call_if bus_init b) >>= λ r. elim r [ inl e ↦ call_if handler b | inr done ↦ pure tt ]

module _ {W : Type 0} (locks : ListLocks W) where
  unfoldable pub sdi_bus_enqueue_list : ℕ → ℕ → Io (Driven Registry W) (Unit {0})
  sdi_bus_enqueue_list t bus = do
    on_hardware (locks.lock t)
    r ← get_data
    set_data (change_list t (λ bs. bs ++ bus ∷ []) r)
    on_hardware (locks.unlock t)

  unfoldable pub sdi_bus_register : ℕ → Io (Driven Registry W) (Unit {0})
  unfolding sdi_bus_enqueue_list index
  sdi_bus_register bus = do
    r ← get_data
    set_data (change_bus bus (λ b. record b { devices = [] }) r)
    sdi_bus_enqueue_list (index (r.bus bus).bus_type) bus

  unfoldable pub sdi_bus_get_node : ℕ → Io (Driven Registry W) (Option ℕ)
  unfolding find_node index
  sdi_bus_get_node bus = get_data >>= λ r. or_null (
      on_hardware (locks.lock (index (r.bus bus).bus_type))
      >> (on_hardware (locks.unlock (index (r.bus bus).bus_type))
          >> pure (find_node bus (r.lists (index (r.bus bus).bus_type)))))

  unfoldable pub sdi_bus_dequeue_list : ℕ → ℕ → Io (Driven Registry W) (Unit {0})
  unfolding remove_node
  sdi_bus_dequeue_list t node = do
    on_hardware (locks.lock t)
    r ← get_data
    set_data (change_list t (remove_node node) r)
    on_hardware (locks.unlock t)

  -- STD_ASSERT(node != NULL)
  abbrev with_node :
      Option ℕ → (ℕ → Io (Driven Registry W) (Unit {0})) → Io (Driven Registry W) (Unit {0})
  with_node none k = std_assert false
  with_node (some node) k = k node

  unfoldable pub sdi_bus_unregister : ℕ → Io (Driven Registry W) (Unit {0})
  unfolding sdi_bus_get_node sdi_bus_dequeue_list index
  sdi_bus_unregister bus = do
    node ← sdi_bus_get_node bus
    r ← get_data
    with_node node (sdi_bus_dequeue_list (index (r.bus bus).bus_type))

  unfoldable pub sdi_bus_get_handle : BusType → (SdiBus → Bool) → Io (Driven Registry W) (Option ℕ)
  unfolding find_bus index
  sdi_bus_get_handle bus_type matches = get_data >>= λ r. or_null (
      on_hardware (locks.lock (index bus_type))
      >> (on_hardware (locks.unlock (index bus_type))
          >> pure (find_bus (λ b. matches (r.bus b)) (r.lists (index bus_type)))))

  unfoldable pub sdi_bus_get_handle_by_name : List ℕ → BusType → Io (Driven Registry W) (Option ℕ)
  unfolding sdi_bus_get_handle same_string
  sdi_bus_get_handle_by_name bus_name bus_type = sdi_bus_get_handle bus_type (has_name bus_name)

  unfoldable pub sdi_bus_get_handle_by_id : ℕ → BusType → Io (Driven Registry W) (Option ℕ)
  unfolding sdi_bus_get_handle
  sdi_bus_get_handle_by_id bus_id bus_type = sdi_bus_get_handle bus_type (has_id bus_id)

  -- The codes of the lock are not looked at.
  unfoldable pub sdi_attach_device_to_bus : ℕ → ℕ → Io (Driven Registry W) (Unit {0})
  sdi_attach_device_to_bus bus dev = do
    r1 ← catch (on_hardware (locks.lock_devices bus))
    r ← get_data
    set_data (change_bus bus (λ b. record b { devices = b.devices ++ dev ∷ [] }) r)
    r2 ← catch (on_hardware (locks.unlock_devices bus))
    pure tt

  -- `fn` runs while the list is locked, so that the list stays as it is.
  unfoldable pub run_each :
      (ℕ → Io (Driven Registry W) (Unit {0})) → List ℕ → Io (Driven Registry W) (Unit {0})
  run_each fn [] = pure tt
  run_each fn (b ∷ bs) = fn b >> run_each fn bs

  unfoldable pub sdi_bus_for_each :
      BusType → (ℕ → Io (Driven Registry W) (Unit {0})) → Io (Driven Registry W) (Unit {0})
  unfolding run_each index
  sdi_bus_for_each bus_type fn = do
    on_hardware (locks.lock (index bus_type))
    r ← get_data
    run_each fn (r.lists (index bus_type))
    on_hardware (locks.unlock (index bus_type))

  unfoldable pub sdi_init_bus_for_each_bus_in_list :
      ℕ
      → Option (ℕ → Io (Driven Registry W) (Unit {0}))
      → Option (ℕ → Io (Driven Registry W) (Unit {0}))
      → Io (Driven Registry W) (Unit {0})
  unfolding run_each
  sdi_init_bus_for_each_bus_in_list t bus_init handler = do
    r1 ← catch (on_hardware (locks.lock t))
    r ← get_data
    run_each (init_or_handle bus_init handler) (r.lists t)
    r2 ← catch (on_hardware (locks.unlock t))
    pure tt
