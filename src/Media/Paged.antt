-- ===== src/Media/Paged.antt =====
-- The memory of a module as SFF-8636 has it, the interface between an adapter and the drivers of
-- such modules: 128 bytes that are always there, one of which selects what the upper 128 show.
use opx_sdi_sys.Base.{
  ℕ, zero, suc, ◌+◌, ◌%◌, ◌^◌, ◌≤◌, ◌<◌, ◌≡◌, refl, sym, ap, ap₂, subst, ◌∙◌, fun_ext, arith, Bool,
  true, false, List, [], ◌∷◌, ltb, ◌==◌, if◌then◌else◌, length, Io,
}
use opx_sdi_sys.Bus.{i2c_bus}
use opx_sdi_sys.I2c.{
  I2cBus, byte_data, flag_none, on_bus, read_bytes, write_bytes, sdi_smbus_read_byte,
  sdi_smbus_write_byte, sdi_smbus_read_multi_byte, sdi_smbus_write_multi_byte,
}
use opx_sdi_sys.I2c.Device.{Gives, Gives-then, Gives-on_bus_of, overlay, window}
use opx_sdi_sys.I2c.Registers.{put}

-- The lower bytes, and the upper bytes of each page.
pub record Memory : Type 0 where
  pub lower : ℕ → ℕ
  pub upper : ℕ → ℕ → ℕ

abbrev pub page_select_byte : ℕ
page_select_byte = 127

abbrev pub shown : Memory → ℕ
shown m = m.lower page_select_byte

unfoldable pub cell : Memory → ℕ → ℕ
cell m a = if ltb a 128 then m.lower a else m.upper (shown m) a

abbrev pub change_page : ℕ → ((ℕ → ℕ) → ℕ → ℕ) → Memory → Memory
change_page page f m = record m { upper = λ q. if q == page then f (m.upper q) else m.upper q }

unfoldable pub store : ℕ → ℕ → Memory → Memory
store a v m =
    if ltb a 128 then record m { lower = put a v m.lower } else change_page (shown m) (put a v) m

unfoldable pub store_all : ℕ → List ℕ → Memory → Memory
store_all a [] m = m
store_all a (b ∷ bs) m = store_all (a + 1) bs (store a b m)

pub record IsPagedModule {W : Type 0} (bus : I2cBus W) (addr : ℕ) (view : W → Memory) : Type 0 where
  pub i2c : bus.bus_type ≡ i2c_bus
  pub locks : (w : W) → Gives view bus.mutex.lock w tt (view w)
  pub view-unlock : (w : W) → view (bus.mutex.unlock w) ≡ view w
  pub reads :
      (w : W) (a : ℕ)
      → Gives view (bus.ops.smbus_read addr byte_data a flag_none) w (cell (view w) a) (view w)
  pub writes :
      (w : W) (a v : ℕ)
      → Gives view
          (bus.ops.smbus_write addr byte_data a (v ∷ []) flag_none)
          w
          tt
          (store a v (view w))

module _ {W : Type 0} {bus : I2cBus W} {addr : ℕ} {view : W → Memory}
    (paged : IsPagedModule bus addr view) where
  -- A call whose outcome is told by the memory that it finds.
  held :
      {A : Type 0} (call : Io W A) (value : Memory → A) (next : Memory → Memory)
      → ((w : W) → Gives view call w (value (view w)) (next (view w)))
      → (w : W) → Gives view (on_bus bus call) w (value (view w)) (next (view w))
  held call value next each w =
      Gives-on_bus_of bus view paged.i2c paged.locks paged.view-unlock call w (value (view w))
        (next (view w)) λ w' same. subst (λ m. Gives view call w' (value m) (next m)) same (each w')

  pub read_byte-Gives :
      (w : W) (a : ℕ)
      → Gives view (sdi_smbus_read_byte bus addr a flag_none) w (cell (view w) a) (view w)
  unfolding sdi_smbus_read_byte on_bus
  read_byte-Gives w a =
      held (bus.ops.smbus_read addr byte_data a flag_none) (λ m. cell m a) (λ m. m)
        (λ w. paged.reads w a) w

  pub write_byte-Gives :
      (w : W) (a v : ℕ)
      → Gives view (sdi_smbus_write_byte bus addr a v flag_none) w tt (store a v (view w))
  unfolding sdi_smbus_write_byte on_bus
  write_byte-Gives w a v =
      held (bus.ops.smbus_write addr byte_data a (v ∷ []) flag_none) (λ m. tt) (store a v)
        (λ w. paged.writes w a v) w

  read_bytes-Gives :
      (a n : ℕ) (w : W)
      → a + n ≤ 256
      → Gives view (read_bytes bus addr a n flag_none) w (window (cell (view w)) a n) (view w)
  unfolding read_bytes window
  read_bytes-Gives a zero w inside = (w, refl, refl)
  read_bytes-Gives a (suc n) w inside =
      let whole : a % 2 ^ 32 ≡ a = omega arith in
      Gives-then (bus.ops.smbus_read addr byte_data (a % 2 ^ 32) flag_none) _
        (rw whole (paged.reads w a))
        λ w1 same1.
          Gives-then (read_bytes bus addr (a + 1) n flag_none) _
            (subst
              (λ m.
                Gives view (read_bytes bus addr (a + 1) n flag_none) w1 (window (cell m) (a + 1) n)
                  m)
              same1 (read_bytes-Gives (a + 1) n w1 (omega arith)))
            λ w2 same2. (w2, refl, same2)

  write_bytes-Gives :
      (a : ℕ) (bs : List ℕ) (w : W)
      → a + length bs ≤ 256
      → Gives view (write_bytes bus addr a bs flag_none) w tt (store_all a bs (view w))
  unfolding write_bytes store_all
  write_bytes-Gives a [] w inside = (w, refl, refl)
  write_bytes-Gives a (b ∷ bs) w inside =
      let whole : a % 2 ^ 32 ≡ a = omega arith in
      Gives-then (bus.ops.smbus_write addr byte_data (a % 2 ^ 32) (b ∷ []) flag_none) _
        (rw whole (paged.writes w a b))
        λ w1 same1.
          subst
            (λ m.
              Gives view (write_bytes bus addr (a + 1) bs flag_none) w1 tt (store_all (a + 1) bs m))
            same1 (write_bytes-Gives (a + 1) bs w1 (omega arith))

  pub read_multi_byte-Gives :
      (w : W) (a n : ℕ)
      → a + n ≤ 256
      → Gives view
          (sdi_smbus_read_multi_byte bus addr a n flag_none)
          w
          (window (cell (view w)) a n)
          (view w)
  unfolding sdi_smbus_read_multi_byte on_bus
  read_multi_byte-Gives w a n inside =
      held (read_bytes bus addr a n flag_none) (λ m. window (cell m) a n) (λ m. m)
        (λ w. read_bytes-Gives a n w inside) w

  pub write_multi_byte-Gives :
      (w : W) (a : ℕ) (bs : List ℕ)
      → a + length bs ≤ 256
      → Gives view
          (sdi_smbus_write_multi_byte bus addr a bs flag_none)
          w
          tt
          (store_all a bs (view w))
  unfolding sdi_smbus_write_multi_byte on_bus
  write_multi_byte-Gives w a bs inside =
      held (write_bytes bus addr a bs flag_none) (λ m. tt) (store_all a bs)
        (λ w. write_bytes-Gives a bs w inside) w

-- Reads and writes of the upper half.
pub window-cell :
    (m : Memory) (a n : ℕ) → 128 ≤ a → window (cell m) a n ≡ window (m.upper (shown m)) a n
unfolding window cell
window-cell m a zero above = refl
window-cell m a (suc n) above =
    ap₂ (λ x xs. x ∷ xs) (ground arith) (window-cell m (a + 1) n (omega arith))

change_page-change_page :
    (page : ℕ) (f g : (ℕ → ℕ) → ℕ → ℕ) (m : Memory)
    → change_page page f (change_page page g m) ≡ change_page page (λ h. f (g h)) m
change_page-change_page page f g m =
    ap (λ u. record m { upper = u }) (fun_ext λ q. each q (q == page))
  where
    each :
        (q : ℕ) (b : Bool)
        → (if b
            then f (if b then g (m.upper q) else m.upper q)
            else (if b then g (m.upper q) else m.upper q))
          ≡ (if b then f (g (m.upper q)) else m.upper q)
    each q true = refl
    each q false = refl

change_page-id : (page : ℕ) (m : Memory) → change_page page (λ h. h) m ≡ m
change_page-id page m = ap (λ u. record m { upper = u }) (fun_ext λ q. each q (q == page))
  where
    each : (q : ℕ) (b : Bool) → (if b then m.upper q else m.upper q) ≡ m.upper q
    each q true = refl
    each q false = refl

store_above : (a v : ℕ) (m : Memory) → 128 ≤ a → store a v m ≡ change_page (shown m) (put a v) m
unfolding store
store_above a v m above = let no : ltb a 128 ≡ false = ground arith in rw no

pub store_all_above :
    (a : ℕ) (bs : List ℕ) (m : Memory)
    → 128 ≤ a
    → store_all a bs m ≡ change_page (shown m) (overlay a bs) m
unfolding store_all store overlay
store_all_above a [] m above = sym (change_page-id (shown m) m)
store_all_above a (b ∷ bs) m above =
    ap (store_all (a + 1) bs) (store_above a b m above)
    ∙ store_all_above (a + 1) bs (change_page (shown m) (put a b) m) (omega arith)
    ∙ change_page-change_page (shown m) (overlay (a + 1) bs) (put a b) m

pub put-put : (a v u : ℕ) (f : ℕ → ℕ) → put a v (put a u f) ≡ put a v f
put-put a v u f = fun_ext λ b. ground arith

pub cell-store_self : (a v : ℕ) (m : Memory) → a < 127 → cell (store a v m) a ≡ v
unfolding cell store
cell-store_self a v m low = ground arith

pub cell-store_other :
    (a b v : ℕ) (m : Memory) → a < 127 → (a == b) ≡ false → cell (store a v m) b ≡ cell m b
unfolding cell store
cell-store_other a b v m low other = ground arith
