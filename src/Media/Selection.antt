-- ===== src/Media/Selection.antt =====
-- The locks of the pin groups that select a module.
use opx_sdi_sys.Base.{
  ℕ, ◌≡◌, refl, sym, ap, ◌∙◌, Bool, true, false, not, ◌⊎◌, inl, inr, Option, none, some, Io, Result,
  ok, err, abort, and_then,
}
use opx_sdi_sys.Bus.Mutex.{IsMutex, with_lock, then_unlock, released}
use opx_sdi_sys.Bus.Group.{
  GroupBus, sdi_pin_group_acquire_bus, sdi_pin_group_release_bus, sdi_pin_group_write_level,
}
use opx_sdi_sys.Media.{
  Selector, unless_ok, release_group, select_mux, select_module, module_select, module_deselect,
  selection,
}
use opx_sdi_sys.EntityReset.Keeps.{Keeps, KeepsUnder, and_then-Keeps, assert-Keeps}
use opx_sdi_sys.EntityReset.Locks.{AllRespectLock}

module _ {W : Type 0} (held : W → Bool) where
  -- The lock is the group's own.
  abbrev pub IsOwner : Option (GroupBus W) → Type 0
  IsOwner none = ⊥
  IsOwner (some group) = IsMutex group.mutex held

  -- The lock belongs to one of the two groups that select a module; the other one has it as its own
  -- too, or does not touch it.
  abbrev pub IsSelectionLock : Selector W → Type 0
  IsSelectionLock s =
      (IsOwner s.mux_sel_hdl × AllRespectLock held s.mod_sel_hdl)
      ⊎ (AllRespectLock held s.mux_sel_hdl × IsOwner s.mod_sel_hdl)

  owner_frees : (g : Option (GroupBus W)) (w : W) → IsOwner g → held (release_group g w) ≡ false
  unfolding release_group sdi_pin_group_release_bus
  owner_frees none w h = elim h [ ]
  owner_frees (some g) w mutex = mutex.held-unlock w

  release_respects :
      (g : Option (GroupBus W)) (w : W)
      → AllRespectLock held g
      → held w ≡ false
      → held (release_group g w) ≡ false
  unfolding release_group sdi_pin_group_release_bus
  release_respects none w h free = free
  release_respects (some g) w (inl mutex) free = mutex.held-unlock w
  release_respects (some g) w (inr keeps) free = (keeps 0).1 w ∙ free

  module _ (s : Selector W) where
    pub deselect_frees : (w : W) → IsSelectionLock s → held (module_deselect s w) ≡ false
    unfolding module_deselect
    deselect_frees w (inl (owner, respects)) =
        release_respects s.mod_sel_hdl _ respects (owner_frees s.mux_sel_hdl w owner)
    deselect_frees w (inr (respects, owner)) = owner_frees s.mod_sel_hdl _ owner

  -- What a step of the selection leaves: on an error the lock is free.
  abbrev FreeOnError : Result (Unit {0}) × W → Type 0
  FreeOnError (ok tt, w) = Unit
  FreeOnError (err e, w) = held w ≡ false
  FreeOnError (abort, w) = Unit

  FreeOnError-unless_ok :
      (undo : W → W) (r : Result (Unit {0}) × W)
      → ((w : W) → held (undo w) ≡ false)
      → FreeOnError (unless_ok undo r)
  FreeOnError-unless_ok undo (ok tt, w) h = tt
  FreeOnError-unless_ok undo (err e, w) h = h w
  FreeOnError-unless_ok undo (abort, w) h = tt

  FreeOnError-and_then :
      (r : Result (Unit {0}) × W) (k : Io W (Unit {0}))
      → FreeOnError r
      → ((w : W) → r ≡ (ok tt, w) → FreeOnError (k w))
      → FreeOnError (and_then r (λ _. k))
  FreeOnError-and_then (ok tt, w) k h next = next w refl
  FreeOnError-and_then (err e, w) k h next = h
  FreeOnError-and_then (abort, w) k h next = tt

  -- The multiplexer has the lock as its own.
  module _ (mux : GroupBus W) (mutex : IsMutex mux.mutex held) where
    mux_owner_stage :
        (value : ℕ) (w : W) → held w ≡ false → FreeOnError (select_mux (some mux) value w)
    unfolding select_mux sdi_pin_group_acquire_bus release_group sdi_pin_group_release_bus
    mux_owner_stage value w free =
        FreeOnError-and_then (mux.mutex.lock w) _ (failed (mux.mutex.lock w) refl)
          λ w' e. FreeOnError-unless_ok _ (sdi_pin_group_write_level mux value w') mutex.held-unlock
      where
        failed : (r : Result (Unit {0}) × W) → mux.mutex.lock w ≡ r → FreeOnError r
        failed (ok tt, w') e = tt
        failed (err x, w') e =
            ap (λ r. held r.1) (sym e) ∙ mutex.lock_failed w x (ap (λ r. r.0) e) ∙ free
        failed (abort, w') e = tt

    module_stage :
        (g : Option (GroupBus W)) (value : ℕ) (w : W)
        → AllRespectLock held g
        → FreeOnError (select_module (some mux) g value w)
    unfolding select_module sdi_pin_group_acquire_bus release_group sdi_pin_group_release_bus
    module_stage none value w respects = tt
    module_stage (some g) value w respects =
        FreeOnError-and_then (unless_ok mux_release (g.mutex.lock w)) _
          (FreeOnError-unless_ok mux_release (g.mutex.lock w) mutex.held-unlock)
          λ w' e.
            FreeOnError-unless_ok (λ u. g.mutex.unlock (mux.mutex.unlock u))
              (sdi_pin_group_write_level g value w')
              λ u. release_respects (some g) (mux.mutex.unlock u) respects (mutex.held-unlock u)
      where
        mux_release : W → W
        mux_release u = mux.mutex.unlock u

  -- The multiplexer does not touch the lock.
  abbrev AllKeep : Option (GroupBus W) → Type 0
  AllKeep none = Unit
  AllKeep (some g) = (value : ℕ) → KeepsUnder held g.mutex (g.ops.write_level value)

  unless_ok-Keeps :
      (undo : W → W) (r : Result (Unit {0}) × W)
      → ((w : W) → held (undo w) ≡ held w)
      → held (unless_ok undo r).1 ≡ held r.1
  unless_ok-Keeps undo (ok tt, w) h = refl
  unless_ok-Keeps undo (err e, w) h = h w
  unless_ok-Keeps undo (abort, w) h = refl

  select_mux-Keeps :
      (g : Option (GroupBus W)) (value : ℕ) → AllKeep g → Keeps held (select_mux g value)
  unfolding select_mux sdi_pin_group_acquire_bus release_group sdi_pin_group_release_bus
      sdi_pin_group_write_level
  select_mux-Keeps none value keeps w = refl
  select_mux-Keeps (some g) value keeps w =
      and_then-Keeps held (g.mutex.lock w) _ (λ _ w'.
        unless_ok-Keeps g.mutex.unlock (sdi_pin_group_write_level g value w') (keeps value).1
        ∙ assert-Keeps held _ (g.ops.write_level value) (keeps value).2 w')
      ∙ (keeps value).0 w

  release-Keeps : (g : Option (GroupBus W)) (w : W) → AllKeep g → held (release_group g w) ≡ held w
  unfolding release_group sdi_pin_group_release_bus
  release-Keeps none w keeps = refl
  release-Keeps (some g) w keeps = (keeps 0).1 w

  FreeOnError-of_free : (r : Result (Unit {0}) × W) → held r.1 ≡ false → FreeOnError r
  FreeOnError-of_free (ok tt, w) h = tt
  FreeOnError-of_free (err e, w) h = h
  FreeOnError-of_free (abort, w) h = tt

  module _ (mux : Option (GroupBus W)) (keeps : AllKeep mux) (g : GroupBus W)
      (mutex : IsMutex g.mutex held) where
    acquire_stage :
        (w : W) (r : Result (Unit {0}) × W)
        → g.mutex.lock w ≡ r
        → held w ≡ false
        → FreeOnError (unless_ok (release_group mux) r)
    acquire_stage w (ok tt, w') e free = tt
    acquire_stage w (err x, w') e free =
        release-Keeps mux w' keeps
        ∙ ap (λ r. held r.1) (sym e)
        ∙ mutex.lock_failed w x (ap (λ r. r.0) e)
        ∙ free
    acquire_stage w (abort, w') e free = tt

    owned_module_stage :
        (value : ℕ) (w : W) → held w ≡ false → FreeOnError (select_module mux (some g) value w)
    unfolding select_module sdi_pin_group_acquire_bus release_group sdi_pin_group_release_bus
    owned_module_stage value w free =
        FreeOnError-and_then (unless_ok (release_group mux) (g.mutex.lock w)) _
          (acquire_stage w (g.mutex.lock w) refl free)
          λ w' e.
            FreeOnError-unless_ok _ (sdi_pin_group_write_level g value w')
              λ u. mutex.held-unlock (release_group mux u)

  select_owned_mux :
      (mux : GroupBus W) (g : Option (GroupBus W)) (v u : ℕ) (w : W)
      → IsMutex mux.mutex held
      → AllRespectLock held g
      → held w ≡ false
      → FreeOnError (and_then (select_mux (some mux) v w) (λ _. select_module (some mux) g u))
  select_owned_mux mux g v u w mutex respects free =
      FreeOnError-and_then (select_mux (some mux) v w) _ (mux_owner_stage mux mutex v w free)
        λ w' e. module_stage mux mutex g u w' respects

  select_kept_mux :
      (mux : Option (GroupBus W)) (g : GroupBus W) (v u : ℕ) (w : W)
      → AllKeep mux
      → IsMutex g.mutex held
      → held w ≡ false
      → FreeOnError (and_then (select_mux mux v w) (λ _. select_module mux (some g) u))
  select_kept_mux mux g v u w keeps mutex free =
      let still : held (select_mux mux v w).1 ≡ false = select_mux-Keeps mux v keeps w ∙ free in
      FreeOnError-and_then (select_mux mux v w) _ (FreeOnError-of_free _ still)
        λ w' e. owned_module_stage mux keeps g mutex u w' (ap (λ r. held r.1) (sym e) ∙ still)

  select_groups :
      (mux g : Option (GroupBus W)) (v u : ℕ) (w : W)
      → (IsOwner mux × AllRespectLock held g) ⊎ (AllRespectLock held mux × IsOwner g)
      → held w ≡ false
      → FreeOnError (and_then (select_mux mux v w) (λ _. select_module mux g u))
  select_groups none g v u w (inl (owner, respects)) free = elim owner [ ]
  select_groups (some mux) g v u w (inl (mutex, respects)) free =
      select_owned_mux mux g v u w mutex respects free
  select_groups mux none v u w (inr (respects, owner)) free = elim owner [ ]
  select_groups none (some g) v u w (inr (respects, mutex)) free =
      select_kept_mux none g v u w tt mutex free
  select_groups (some mux) (some g) v u w (inr (inl owner, mutex)) free =
      select_owned_mux mux (some g) v u w owner (inl mutex) free
  select_groups (some mux) (some g) v u w (inr (inr keeps, mutex)) free =
      select_kept_mux (some mux) g v u w keeps mutex free

  module _ (s : Selector W) (lock : IsSelectionLock s) {A : Type 0} (body : Io W A) where
    released-selected : (r : Result A × W) → released held (then_unlock (selection s) r) ≡ true
    released-selected (ok a, w) = ap not (deselect_frees s w lock)
    released-selected (err e, w) = ap not (deselect_frees s w lock)
    released-selected (abort, w) = refl

    released-stages :
        (r : Result (Unit {0}) × W)
        → FreeOnError r
        → released held (and_then r (λ _ w. then_unlock (selection s) (body w))) ≡ true
    released-stages (ok a, w) h = released-selected (body w)
    released-stages (err e, w) h = ap not h
    released-stages (abort, w) h = refl

    -- Whatever happens between the selection of a module and the end of it, and also where the
    -- selection fails half way.
    pub released-selection :
        (w : W) → held w ≡ false → released held (with_lock (selection s) body w) ≡ true
    unfolding with_lock module_select
    released-selection w free =
        released-stages (module_select s w)
          (select_groups s.mux_sel_hdl s.mod_sel_hdl s.mux_sel_value s.mod_sel_value w lock free)
