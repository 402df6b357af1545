-- ===== src/I2c/Device.antt =====
-- A device on an I2C bus that has a register file and a read pointer: the interface between an
-- adapter and the drivers of such devices.
use opx_sdi_sys.Base.{
  ℕ, zero, suc, ◌+◌, ◌*◌, ◌^◌, ◌≤◌, ◌<◌, ◌≡◌, refl, sym, ap, ap₂, ◌∙◌, arith, List, [], ◌∷◌, ◌++◌,
  ◌==◌, if◌then◌else◌, length, Io, ok, ◌>>=◌, and_then,
}
use opx_sdi_sys.Bus.{i2c_bus}
use opx_sdi_sys.Bus.Mutex.{with_lock}
use opx_sdi_sys.I2c.{
  I2cBus, byte, byte_data, block_data, flag_none, offset_non_cmd, half_block_max, on_bus,
}

-- The registers and the pointer.
abbrev pub View : Type 0
View = (ℕ → ℕ) × ℕ

-- The registers after the bytes were written from `base` on.
unfoldable pub overlay : ℕ → List ℕ → (ℕ → ℕ) → ℕ → ℕ
overlay base [] f = f
overlay base (b ∷ bs) f = overlay (base + 1) bs (λ a. if a == base then b else f a)

-- `n` registers from `base` on.
unfoldable pub window : (ℕ → ℕ) → ℕ → ℕ → List ℕ
window f base zero = []
window f base (suc n) = f base ∷ window f (base + 1) n

-- A call succeeds with a value, and the device is then as `v` says.
abbrev pub Gives : {W A V : Type 0} → (W → V) → Io W A → W → A → V → Type 0
Gives {W} view m w a v = (w' : W) × (m w ≡ (ok a, w')) × (view w' ≡ v)

-- A byte with a command sets the pointer, the command being its low half; a byte that is received
-- comes from the pointer, which moves on; a block of at most 17 bytes is the high half of the
-- register offset and the values.
pub record IsRegisterFile {W : Type 0} (bus : I2cBus W) (addr : ℕ) (view : W → View) : Type 0 where
  pub i2c : bus.bus_type ≡ i2c_bus
  pub locks : (w : W) → Gives view bus.mutex.lock w tt (view w)
  pub view-unlock : (w : W) → view (bus.mutex.unlock w) ≡ view w
  pub points :
      (w : W) (lo hi : ℕ)
      → Gives view
          (bus.ops.smbus_write addr byte_data lo (hi ∷ []) flag_none)
          w
          tt
          ((view w).0, lo + hi * 2 ^ 8)
  pub receives :
      (w : W)
      → Gives view
          (bus.ops.smbus_read addr byte offset_non_cmd flag_none)
          w
          ((view w).0 (view w).1)
          ((view w).0, (view w).1 + 1)
  pub stores :
      (w : W) (lo hi : ℕ) (values : List ℕ)
      → length values ≤ half_block_max
      → Gives view
          (bus.ops.smbus_write addr block_data lo ((length values + 1) ∷ hi ∷ values) flag_none)
          w
          tt
          (overlay (lo + hi * 2 ^ 8) values (view w).0, (view w).1)

module _ {W V : Type 0} {view : W → V} where
  -- The same outcome in other words.
  pub Gives-eq :
      {A : Type 0} (w : W) (m : Io W A) {m' : Io W A} {a a' : A} {v v' : V}
      → m ≡ m'
      → a ≡ a'
      → v ≡ v'
      → Gives view m w a v
      → Gives view m' w a' v'
  Gives-eq w m call value after (w', e, at) =
      (w', (λ i. sym call i w) ∙ e ∙ ap (λ x. (ok x, w')) value, at ∙ after)

  pub Gives-then :
      {A B : Type 0} (m : Io W A) (k : A → Io W B) {w : W} {a : A} {b : B} {v u : V}
      → Gives view m w a v
      → ((w' : W) → view w' ≡ v → Gives view (k a) w' b u)
      → Gives view (m >>= k) w b u
  Gives-then m k (w', e, at) next =
      let rest = next w' at in (rest.0, ap (λ r. and_then r k) e ∙ rest.1, rest.2)

-- A bus that is taken and given back without a change of the device.
module _ {W V A : Type 0} (bus : I2cBus W) (view : W → V) (i2c : bus.bus_type ≡ i2c_bus)
    (locks : (w : W) → Gives view bus.mutex.lock w tt (view w))
    (view-unlock : (w : W) → view (bus.mutex.unlock w) ≡ view w) where
  pub Gives-on_bus_of :
      (call : Io W A) (w : W) (a : A) (v : V)
      → ((w' : W) → view w' ≡ view w → Gives view call w' a v)
      → Gives view (on_bus bus call) w a v
  unfolding on_bus with_lock
  Gives-on_bus_of call w a v inner =
      let got = locks w in
      let done = inner got.0 got.2 in
      (bus.mutex.unlock done.0, rw (i2c, got.1, done.1), view-unlock done.0 ∙ done.2)

module _ {W : Type 0} {bus : I2cBus W} {addr : ℕ} {view : W → View}
    (file : IsRegisterFile bus addr view) where
  pub Gives-on_bus :
      {A : Type 0} (call : Io W A) (w : W) (a : A) (v : View)
      → ((w' : W) → view w' ≡ view w → Gives view call w' a v)
      → Gives view (on_bus bus call) w a v
  Gives-on_bus = Gives-on_bus_of bus view file.i2c file.locks file.view-unlock

pub overlay_below :
    (base : ℕ) (bs : List ℕ) (f : ℕ → ℕ) (a : ℕ) → a < base → overlay base bs f a ≡ f a
unfolding overlay
overlay_below base [] f a h = refl
overlay_below base (b ∷ bs) f a h =
    overlay_below (base + 1) bs (λ a. if a == base then b else f a) a (omega arith) ∙ ground arith

pub overlay_above :
    (base : ℕ) (bs : List ℕ) (f : ℕ → ℕ) (a : ℕ) → base + length bs ≤ a → overlay base bs f a ≡ f a
unfolding overlay
overlay_above base [] f a h = refl
overlay_above base (b ∷ bs) f a h =
    overlay_above (base + 1) bs (λ a. if a == base then b else f a) a (omega arith) ∙ ground arith

pub overlay-append :
    (base : ℕ) (xs ys : List ℕ) (f : ℕ → ℕ)
    → overlay base (xs ++ ys) f ≡ overlay (base + length xs) ys (overlay base xs f)
unfolding overlay
overlay-append base [] ys f = ap (λ n. overlay n ys f) (omega arith)
overlay-append base (x ∷ xs) ys f =
    overlay-append (base + 1) xs ys (λ a. if a == base then x else f a)
    ∙ ap (λ n. overlay n ys (overlay (base + 1) xs (λ a. if a == base then x else f a)))
        (omega arith)

-- What was written is read back.
pub window-overlay :
    (base : ℕ) (bs : List ℕ) (f : ℕ → ℕ) → window (overlay base bs f) base (length bs) ≡ bs
unfolding overlay window
window-overlay base [] f = refl
window-overlay base (b ∷ bs) f =
    ap₂ (λ x xs. x ∷ xs)
      (overlay_below (base + 1) bs (λ a. if a == base then b else f a) base (omega arith)
        ∙ ground arith)
      (window-overlay (base + 1) bs (λ a. if a == base then b else f a))

pub window-add :
    (f : ℕ → ℕ) (base m n : ℕ) → window f base (m + n) ≡ window f base m ++ window f (base + m) n
unfolding window
window-add f base zero n = ap₂ (window f) (omega arith) (omega arith)
window-add f base (suc m) n =
    ap (window f base) (sum_suc m n)
    ∙ ap (◌∷◌ (f base)) (
        window-add f (base + 1) m n ∙ ap (λ b. window f (base + 1) m ++ window f b n) (omega arith))
  where
    sum_suc : (m n : ℕ) → suc m + n ≡ suc (m + n)
    sum_suc m n = omega arith
