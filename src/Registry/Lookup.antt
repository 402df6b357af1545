-- ===== src/Registry/Lookup.antt =====
-- src/framework/sdi_bus_framework.c: what is found after a bus was registered, and a bus that is
-- registered and unregistered.
use opx_sdi_sys.Base.{
  ℕ, ◌≡◌, ◌≢◌, refl, sym, ap, ap₂, subst, ◌∙◌, arith, Bool, true, false, List, [], ◌∷◌, ◌++◌, All,
  length, ◌==◌, ==_iff, if◌then◌else◌, Option, none, some, inl, inr, Bool-cases, ok,
}
use opx_sdi_sys.Bus.{BusType}
use opx_sdi_sys.DeviceData.{Driven}
use opx_sdi_sys.Registry.{
  Registry, ListLocks, index, change_list, change_bus, find_bus, find_node, remove_node, has_id,
  sdi_bus_enqueue_list, sdi_bus_register, sdi_bus_unregister, sdi_bus_dequeue_list,
  sdi_bus_get_node, sdi_bus_get_handle, sdi_bus_get_handle_by_id,
}

-- Locks that can be taken and given back at any time.
pub record IsAvailable {W : Type 0} (locks : ListLocks W) : Type 0 where
  pub locks_list : (t : ℕ) (w : W) → (w' : W) × (locks.lock t w ≡ (ok tt, w'))
  pub unlocks_list : (t : ℕ) (w : W) → (w' : W) × (locks.unlock t w ≡ (ok tt, w'))

-- The bus that was found before, or else the new one where it passes the test.
abbrev pub or_new : Option ℕ → Bool → ℕ → Option ℕ
or_new (some old) test b = some old
or_new none true b = some b
or_new none false b = none

find_bus-append :
    (test : ℕ → Bool) (bs : List ℕ) (b : ℕ)
    → find_bus test (bs ++ b ∷ []) ≡ or_new (find_bus test bs) (test b) b
unfolding find_bus
find_bus-append test [] b = elim (Bool-cases (test b)) [ inl p ↦ rw p refl | inr p ↦ rw p refl ]
find_bus-append test (x ∷ bs) b = elim (Bool-cases (test x)) [
  | inl p ↦ rw p refl
  | inr p ↦ rw p (find_bus-append test bs b)
]

find_bus-same :
    (f g : ℕ → Bool) (bs : List ℕ) → ((x : ℕ) → f x ≡ g x) → find_bus f bs ≡ find_bus g bs
unfolding find_bus
find_bus-same f g [] same = refl
find_bus-same f g (x ∷ bs) same =
    ap₂ (λ t rest. if t then some x else rest) (same x) (find_bus-same f g bs same)

find_node-append :
    (b : ℕ) (bs : List ℕ) → All (λ x. x ≢ b) bs → find_node b (bs ++ b ∷ []) ≡ some (length bs)
unfolding find_node
find_node-append b [] new = let e : (b == b) ≡ true = ground arith in rw e refl
find_node-append b (x ∷ bs) new =
    let off = new.0 in
    let e : (b == x) ≡ false = ground arith in rw (e, find_node-append b bs new.1) refl

remove_node-append : (b : ℕ) (bs : List ℕ) → remove_node (length bs) (bs ++ b ∷ []) ≡ bs
unfolding remove_node
remove_node-append b [] = refl
remove_node-append b (x ∷ bs) = ap (◌∷◌ x) (remove_node-append b bs)

-- The registry after sdi_bus_register of a bus.
abbrev registered : ℕ → Registry → Registry
registered b r =
    change_list (index (r.bus b).bus_type) (λ bs. bs ++ b ∷ [])
      (change_bus b (λ x. record x { devices = [] }) r)

module _ {W : Type 0} (locks : ListLocks W) (available : IsAvailable locks) where
  register_lem :
      (b : ℕ) (c : Driven Registry W)
      → (w' : W) × (sdi_bus_register locks b c
          ≡ (ok tt, record { private_data = registered b c.private_data; hardware = w' }))
  unfolding sdi_bus_register sdi_bus_enqueue_list
  register_lem b c =
      let t = index (c.private_data.bus b).bus_type in
      let got = available.locks_list t c.hardware in
      let free = available.unlocks_list t got.0 in (free.0, rw (got.1, free.1) refl)

  get_handle_lem :
      (id : ℕ) (t : BusType) (c : Driven Registry W)
      → (w' : W) × (sdi_bus_get_handle_by_id locks id t c ≡ (
        ok (find_bus (λ x. has_id id (c.private_data.bus x)) (c.private_data.lists (index t))),
        record { private_data = c.private_data; hardware = w' },
      ))
  unfolding sdi_bus_get_handle_by_id sdi_bus_get_handle
  get_handle_lem id t c =
      let got = available.locks_list (index t) c.hardware in
      let free = available.unlocks_list (index t) got.0 in (free.0, rw (got.1, free.1) refl)

has_id_same : (id b x : ℕ) (r : Registry) → has_id id ((registered b r).bus x) ≡ has_id id (r.bus x)
has_id_same id b x r = elim (Bool-cases (x == b)) [ inl e ↦ rw e refl | inr e ↦ rw e refl ]

-- Where the locks can be taken: sdi_bus_register of a bus succeeds, and sdi_bus_get_handle_by_id for
-- its type then gives the bus of that identifier that it gave before, where there was one, and
-- otherwise the new bus, where this has the identifier.
pub get_handle-register :
    {W : Type 0} (locks : ListLocks W) (b id : ℕ) (c : Driven Registry W)
    → IsAvailable locks
    → (c' c'' : Driven Registry W) × (sdi_bus_register locks b c ≡ (ok tt, c'))
      × (sdi_bus_get_handle_by_id locks id (c.private_data.bus b).bus_type c' ≡ (
        ok (
            or_new
              (find_bus
                (λ x. has_id id (c.private_data.bus x))
                (c.private_data.lists (index (c.private_data.bus b).bus_type)))
              (has_id id (c.private_data.bus b))
              b),
        c'',
      ))
get_handle-register locks b id c available =
    let r = c.private_data in
    let t = index (r.bus b).bus_type in
    let done = register_lem locks available b c in
    let c' : Driven Registry _ = record { private_data = registered b r; hardware = done.0 } in
    let look = get_handle_lem locks available id (r.bus b).bus_type c' in
    let e : (t == t) ≡ true = ground arith in
    let appended : (registered b r).lists t ≡ r.lists t ++ b ∷ [] = rw e refl in
    (
      c',
      record { private_data = registered b r; hardware = look.0 },
      done.1,
      look.1
          ∙ ap (λ o. (ok o, record { private_data = registered b r; hardware = look.0 }))
              (find_bus-same (λ x. has_id id ((registered b r).bus x)) (λ x. has_id id (r.bus x))
                  ((registered b r).lists t) (λ x. has_id_same id b x r)
                ∙ ap (find_bus (λ x. has_id id (r.bus x))) appended
                ∙ find_bus-append (λ x. has_id id (r.bus x)) (r.lists t) b),
    )

registered_type :
    (b : ℕ) (r : Registry) → index ((registered b r).bus b).bus_type ≡ index (r.bus b).bus_type
registered_type b r = let e : (b == b) ≡ true = ground arith in rw e refl

restored :
    (b i : ℕ) (r : Registry)
    → (change_list
          (index (r.bus b).bus_type)
          (remove_node (length (r.lists (index (r.bus b).bus_type))))
          (registered b r)).lists
        i
      ≡ r.lists i
restored b i r =
    let t = index (r.bus b).bus_type in
    elim (Bool-cases (i == t)) [
      | inl e ↦ rw e (
          subst (λ j. remove_node (length (r.lists t)) (r.lists j ++ b ∷ []) ≡ r.lists j)
            (sym ((==_iff i t).0 e)) (remove_node-append b (r.lists t)))
      | inr e ↦ rw e refl
    ]

module _ {W : Type 0} (locks : ListLocks W) (available : IsAvailable locks) where
  unregister_lem :
      (b n t : ℕ) (c : Driven Registry W)
      → index (c.private_data.bus b).bus_type ≡ t
      → find_node b (c.private_data.lists t) ≡ some n
      → (w' : W) × (sdi_bus_unregister locks b c ≡ (
        ok tt,
        record { private_data = change_list t (remove_node n) c.private_data; hardware = w' },
      ))
  unfolding sdi_bus_unregister sdi_bus_get_node sdi_bus_dequeue_list
  unregister_lem b n t c type at =
      let got = available.locks_list t c.hardware in
      let free = available.unlocks_list t got.0 in
      let again = available.locks_list t free.0 in
      let end = available.unlocks_list t again.0 in
      (end.0, rw (type, got.1, free.1, at, type, again.1, end.1) refl)

-- Where the locks can be taken, for a bus that is not in the list of its type: sdi_bus_register and
-- then sdi_bus_unregister succeed, and every list is as it was.
pub unregister-register :
    {W : Type 0} (locks : ListLocks W) (b i : ℕ) (c : Driven Registry W)
    → IsAvailable locks
    → All (λ x. x ≢ b) (c.private_data.lists (index (c.private_data.bus b).bus_type))
    → (c' c'' : Driven Registry W) × (sdi_bus_register locks b c ≡ (ok tt, c'))
      × (sdi_bus_unregister locks b c' ≡ (ok tt, c''))
      × (c''.private_data.lists i ≡ c.private_data.lists i)
unregister-register {W} locks b i c available new =
    let r = c.private_data in
    let t = index (r.bus b).bus_type in
    let n = length (r.lists t) in
    let done = register_lem locks available b c in
    let c' : Driven Registry W = record { private_data = registered b r; hardware = done.0 } in
    let e : (t == t) ≡ true = ground arith in
    let appended : (registered b r).lists t ≡ r.lists t ++ b ∷ [] = rw e refl in
    let kept : index ((registered b r).bus b).bus_type ≡ t = registered_type b r in
    let removed =
      unregister_lem locks available b n t c' kept
        (ap (find_node b) appended ∙ find_node-append b (r.lists t) new) in
    (
      c',
      record {
        private_data = change_list t (remove_node n) (registered b r);
        hardware = removed.0;
      },
      done.1,
      removed.1,
      restored b i r,
    )
