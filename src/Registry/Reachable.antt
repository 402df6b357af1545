-- ===== src/Registry/Reachable.antt =====
-- src/framework/sdi_bus_framework.c: the registries that the calls lead to, and what is found in them.
use mathlib.Core.Option.{none-ne-some, some-injective}
use opx_sdi_sys.Base.{
  ℕ, ◌≡◌, refl, sym, ap, subst, ◌∙◌, Bool, true, false, List, [], ◌∷◌, All, ◌==◌, ==_iff,
  if◌then◌else◌, Option, none, some, inl, inr, Bool-cases, Io, Result, ok, err, abort, and_then,
  pure, ◌>>◌,
}
use opx_sdi_sys.Bus.{
  BusType, i2c_bus, pin_bus, pin_group_bus, pseudo_bus, io_bus, sf_io_bus, bmc_io_bus, fpga_pci_bus,
}
use opx_sdi_sys.DeviceData.{Driven, on_hardware}
use opx_sdi_sys.Registry.{
  SdiBus, Registry, ListLocks, index, find_bus, has_id, sdi_bus_register, sdi_bus_unregister,
  sdi_attach_device_to_bus, null_of_error, sdi_bus_get_handle, sdi_bus_get_handle_by_id,
}
use opx_sdi_sys.Registry.Typed.{Typed, register-Typed, unregister-Typed, attach-Typed}

module _ {W : Type 0} (locks : ListLocks W) where
  -- A call with any outcome, or a change of the hardware by another part.
  pub data Step : Driven Registry W → Driven Registry W → Type 0 where
    registers : (c : Driven Registry W) (bus : ℕ) → Step c (sdi_bus_register locks bus c).1
    unregisters : (c : Driven Registry W) (bus : ℕ) → Step c (sdi_bus_unregister locks bus c).1
    attaches :
        (c : Driven Registry W) (bus dev : ℕ) → Step c (sdi_attach_device_to_bus locks bus dev c).1
    elsewhere :
        (c : Driven Registry W) (w : W)
        → Step c record { private_data = c.private_data; hardware = w }

  pub data Reach (start : Driven Registry W) : Driven Registry W → Type 0 where
    here : Reach start start
    next : {c d : Driven Registry W} → Reach start c → Step c d → Reach start d

  Step-Typed : {c d : Driven Registry W} → Step c d → Typed c → Typed d
  Step-Typed (registers c bus) typed = register-Typed locks bus c typed
  Step-Typed (unregisters c bus) typed = unregister-Typed locks bus c typed
  Step-Typed (attaches c bus dev) typed = attach-Typed locks bus dev c typed
  Step-Typed (elsewhere c w) typed = typed

  Reach-Typed : {start c : Driven Registry W} → Typed start → Reach start c → Typed c
  Reach-Typed typed here = typed
  Reach-Typed typed (next reach step) = Step-Typed step (Reach-Typed typed reach)

abbrev pub empty_lists : (ℕ → SdiBus) → Registry
empty_lists bus = record { lists = λ t. []; bus = bus }

type_of_index : ℕ → BusType
type_of_index n =
    if n == 0
    then i2c_bus
    else if n == 1
    then pin_bus
    else if n == 2
    then pin_group_bus
    else if n == 3
    then pseudo_bus
    else if n == 4
    then io_bus
    else if n == 5
    then sf_io_bus
    else if n == 6
    then bmc_io_bus
    else fpga_pci_bus

type_of_index-index : (t : BusType) → type_of_index (index t) ≡ t
unfolding type_of_index index
type_of_index-index i2c_bus = refl
type_of_index-index pin_bus = refl
type_of_index-index pin_group_bus = refl
type_of_index-index pseudo_bus = refl
type_of_index-index io_bus = refl
type_of_index-index sf_io_bus = refl
type_of_index-index bmc_io_bus = refl
type_of_index-index fpga_pci_bus = refl

index_injective : (s t : BusType) → index s ≡ index t → s ≡ t
index_injective s t e = sym (type_of_index-index s) ∙ ap type_of_index e ∙ type_of_index-index t

found :
    (P : ℕ → Type 0) (test : ℕ → Bool) (bs : List ℕ) (b : ℕ)
    → All P bs
    → find_bus test bs ≡ some b
    → P b × (test b ≡ true)
unfolding find_bus
found P test [] b all e = absurd (none-ne-some b e)
found P test (x ∷ bs) b all e = elim (Bool-cases (test x)) [
  | inl p ↦
      let same : x ≡ b = some-injective x b (sym (if_first p) ∙ e) in
      (subst P same all.0, subst (λ y. test y ≡ true) same p)
  | inr p ↦ found P test bs b all.1 (sym (if_rest p) ∙ e)
]
  where
    if_first : test x ≡ true → find_bus test (x ∷ bs) ≡ some x
    if_first p = rw p refl

    if_rest : test x ≡ false → find_bus test (x ∷ bs) ≡ find_bus test bs
    if_rest p = rw p refl

answer : Result (Option ℕ) → Option ℕ
answer (ok o) = o
answer (err e) = none
answer abort = none

module _ {W : Type 0} (o : Option ℕ) (b : ℕ) (after : Driven Registry W) where
  unlocked_found :
      (r : Result (Unit {0}) × Driven Registry W)
      → null_of_error (and_then r (λ _. pure o)) ≡ (ok (some b), after)
      → o ≡ some b
  unfolding answer
  unlocked_found (ok u, c) e = ap (λ x. answer x.0) e
  unlocked_found (err f, c) e = absurd (none-ne-some b (ap (λ x. answer x.0) e))
  unlocked_found (abort, c) e = absurd (none-ne-some b (ap (λ x. answer x.0) e))

  locked_found :
      (unlock : Io (Driven Registry W) (Unit {0})) (r : Result (Unit {0}) × Driven Registry W)
      → null_of_error (and_then r (λ _. unlock >> pure o)) ≡ (ok (some b), after)
      → o ≡ some b
  unfolding answer
  locked_found unlock (ok u, c) e = unlocked_found (unlock c) e
  locked_found unlock (err f, c) e = absurd (none-ne-some b (ap (λ x. answer x.0) e))
  locked_found unlock (abort, c) e = absurd (none-ne-some b (ap (λ x. answer x.0) e))

-- After any calls that register buses, unregister them and attach devices to them, whatever the locks
-- answer and the rest of the program does to the hardware, from empty lists on: a bus that
-- sdi_bus_get_handle_by_id finds has the type and the identifier that were asked for.
pub found_is_typed :
    {W : Type 0} (locks : ListLocks W) (memory : ℕ → SdiBus) (w : W) (c after : Driven Registry W)
    (id b : ℕ) (t : BusType)
    → Reach locks record { private_data = empty_lists memory; hardware = w } c
    → sdi_bus_get_handle_by_id locks id t c ≡ (ok (some b), after)
    → ((c.private_data.bus b).bus_type ≡ t) × ((c.private_data.bus b).bus_id ≡ id)
unfolding sdi_bus_get_handle_by_id sdi_bus_get_handle
found_is_typed locks memory w c after id b t reach e =
    let typed = Reach-Typed locks (λ i. tt) reach in
    let hit =
      found (λ x. index (c.private_data.bus x).bus_type ≡ index t)
        (λ x. has_id id (c.private_data.bus x)) (c.private_data.lists (index t)) b (typed (index t))
        (locked_found
          (find_bus (λ x. has_id id (c.private_data.bus x)) (c.private_data.lists (index t))) b
          after (on_hardware (locks.unlock (index t))) (on_hardware (locks.lock (index t)) c) e) in
    (
      index_injective (c.private_data.bus b).bus_type t hit.0,
      sym ((==_iff id (c.private_data.bus b).bus_id).0 hit.1),
    )
