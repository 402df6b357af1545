-- ===== src/Registry/Typed.antt =====
-- src/framework/sdi_bus_framework.c: the registries that the calls lead to.
use opx_sdi_sys.Base.{
  ℕ, zero, suc, ◌≡◌, refl, sym, ap, subst, ◌∙◌, arith, true, List, [], ◌∷◌, ◌++◌, All, ◌==◌, ==_iff,
  Option, none, some, inl, inr, Bool-cases, Result, ok, err, abort, catch, caught,
}
use opx_sdi_sys.DeviceData.{Driven, on_hardware, and_then_keeps}
use opx_sdi_sys.Registry.{
  SdiBus, Registry, ListLocks, index, change_list, change_bus, remove_node, sdi_bus_enqueue_list,
  sdi_bus_register, sdi_bus_unregister, sdi_bus_dequeue_list, sdi_bus_get_node,
  sdi_attach_device_to_bus, null_of_error, with_node,
}

-- The buses in each list have the type of the list.
abbrev pub IsTyped : Registry → Type 0
IsTyped r = (t : ℕ) → All (λ b. index (r.bus b).bus_type ≡ t) (r.lists t)

abbrev pub Typed : {W : Type 0} → Driven Registry W → Type 0
Typed c = IsTyped c.private_data

All-append_one : (P : ℕ → Type 0) (xs : List ℕ) (x : ℕ) → All P xs → P x → All P (xs ++ x ∷ [])
All-append_one P [] x all here = (here, tt)
All-append_one P (y ∷ ys) x (first, rest) here = (first, All-append_one P ys x rest here)

All-remove_node : (P : ℕ → Type 0) (n : ℕ) (xs : List ℕ) → All P xs → All P (remove_node n xs)
unfolding remove_node
All-remove_node P n [] all = tt
All-remove_node P zero (x ∷ xs) (first, rest) = rest
All-remove_node P (suc n) (x ∷ xs) (first, rest) = (first, All-remove_node P n xs rest)

All-imp : {P Q : ℕ → Type 0} (xs : List ℕ) → ((x : ℕ) → P x → Q x) → All P xs → All Q xs
All-imp [] imp all = tt
All-imp (x ∷ xs) imp (first, rest) = (imp x first, All-imp xs imp rest)

-- A change of a bus that keeps its type.
change_bus-IsTyped :
    (b : ℕ) (f : SdiBus → SdiBus) (r : Registry)
    → ((x : SdiBus) → (f x).bus_type ≡ x.bus_type)
    → IsTyped r
    → IsTyped (change_bus b f r)
change_bus-IsTyped b f r keeps typed t =
    All-imp (r.lists t) (λ x e. ap index (same x) ∙ e) (typed t)
  where
    same : (x : ℕ) → ((change_bus b f r).bus x).bus_type ≡ (r.bus x).bus_type
    same x = elim (Bool-cases (x == b)) [ inl e ↦ rw e (keeps (r.bus x)) | inr e ↦ rw e refl ]

change_list-IsTyped :
    (t : ℕ) (f : List ℕ → List ℕ) (r : Registry)
    → All (λ b. index (r.bus b).bus_type ≡ t) (f (r.lists t))
    → IsTyped r
    → IsTyped (change_list t f r)
change_list-IsTyped t f r changed typed i = elim (Bool-cases (i == t)) [
  | inl e ↦
      let at : i ≡ t = (==_iff i t).0 e in
      rw e (subst (λ j. All (λ b. index (r.bus b).bus_type ≡ j) (f (r.lists j))) (sym at) changed)
  | inr e ↦ rw e (typed i)
]

module _ {W : Type 0} (locks : ListLocks W) where
  enqueue-Typed :
      (t bus : ℕ) (c : Driven Registry W)
      → index (c.private_data.bus bus).bus_type ≡ t
      → Typed c
      → Typed (sdi_bus_enqueue_list locks t bus c).1
  unfolding sdi_bus_enqueue_list
  enqueue-Typed t bus c e typed =
      (and_then_keeps (λ c'. (index (c'.private_data.bus bus).bus_type ≡ t) × Typed c')
        (on_hardware (locks.lock t) c) _ (e, typed)
        λ _ c1 at. (
          at.0,
          change_list-IsTyped t (λ bs. bs ++ bus ∷ []) c1.private_data
              (All-append_one (λ b. index (c1.private_data.bus b).bus_type ≡ t)
                (c1.private_data.lists t) bus (at.1 t) at.0)
              at.1,
        )).1

  pub register-Typed :
      (bus : ℕ) (c : Driven Registry W) → Typed c → Typed (sdi_bus_register locks bus c).1
  unfolding sdi_bus_register
  register-Typed bus c typed =
      enqueue-Typed (index (c.private_data.bus bus).bus_type) bus
        record {
          private_data = change_bus bus (λ b. record b { devices = [] }) c.private_data;
          hardware = c.hardware;
        }
        (let e : (bus == bus) ≡ true = ground arith in rw e refl)
        (change_bus-IsTyped bus (λ b. record b { devices = [] }) c.private_data (λ x. refl) typed)

  dequeue-Typed :
      (t node : ℕ) (c : Driven Registry W) → Typed c → Typed (sdi_bus_dequeue_list locks t node c).1
  unfolding sdi_bus_dequeue_list
  dequeue-Typed t node c typed =
      and_then_keeps Typed (on_hardware (locks.lock t) c) _ typed λ _ c1 at.
        change_list-IsTyped t (remove_node node) c1.private_data
          (All-remove_node (λ b. index (c1.private_data.bus b).bus_type ≡ t) node
            (c1.private_data.lists t) (at t))
          at

  null-Typed :
      {A : Type 0} (r : Result (Option A) × Driven Registry W)
      → Typed r.1
      → Typed (null_of_error r).1
  null-Typed (ok o, c) typed = typed
  null-Typed (err e, c) typed = typed
  null-Typed (abort, c) typed = typed

  get_node-Typed :
      (bus : ℕ) (c : Driven Registry W) → Typed c → Typed (sdi_bus_get_node locks bus c).1
  unfolding sdi_bus_get_node
  get_node-Typed bus c typed =
      let t = index (c.private_data.bus bus).bus_type in
      null-Typed _ (
        and_then_keeps Typed (on_hardware (locks.lock t) c) _ typed
          λ _ c1 at. and_then_keeps Typed (on_hardware (locks.unlock t) c1) _ at λ _ c2 at'. at')

  with_node-Typed :
      (node : Option ℕ) (t : ℕ) (c : Driven Registry W)
      → Typed c
      → Typed (with_node locks node (sdi_bus_dequeue_list locks t) c).1
  with_node-Typed none t c typed = typed
  with_node-Typed (some n) t c typed = dequeue-Typed t n c typed

  pub unregister-Typed :
      (bus : ℕ) (c : Driven Registry W) → Typed c → Typed (sdi_bus_unregister locks bus c).1
  unfolding sdi_bus_unregister
  unregister-Typed bus c typed =
      and_then_keeps Typed (sdi_bus_get_node locks bus c) _ (get_node-Typed bus c typed)
        λ node c1 at. with_node-Typed node (index (c1.private_data.bus bus).bus_type) c1 at

  caught-Typed : {A : Type 0} (r : Result A × Driven Registry W) → Typed r.1 → Typed (caught r).1
  caught-Typed (ok a, c) typed = typed
  caught-Typed (err e, c) typed = typed
  caught-Typed (abort, c) typed = typed

  pub attach-Typed :
      (bus dev : ℕ) (c : Driven Registry W)
      → Typed c
      → Typed (sdi_attach_device_to_bus locks bus dev c).1
  unfolding sdi_attach_device_to_bus
  attach-Typed bus dev c typed =
      and_then_keeps Typed (catch (on_hardware (locks.lock_devices bus)) c) _
        (caught-Typed (on_hardware (locks.lock_devices bus) c) typed)
        λ _ c1 at.
          let put = λ (b : SdiBus). record b { devices = b.devices ++ dev ∷ [] } in
          let changed : Driven Registry W = record {
            private_data = change_bus bus put c1.private_data;
            hardware = c1.hardware;
          } in
          and_then_keeps Typed (catch (on_hardware (locks.unlock_devices bus)) changed) _
            (caught-Typed (on_hardware (locks.unlock_devices bus) changed)
              (change_bus-IsTyped bus put c1.private_data (λ x. refl) at))
            λ _ c2 at'. at'
