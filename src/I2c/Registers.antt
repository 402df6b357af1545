-- ===== src/I2c/Registers.antt =====
-- A device on an I2C bus that keeps a byte for each command, and whose words are two such bytes with
-- the low one first, as SMBus has it: the interface between an adapter and the drivers of such
-- devices.
use opx_sdi_sys.Base.{ℕ, ◌+◌, ◌*◌, ◌/◌, ◌%◌, ◌^◌, ◌<◌, ◌≡◌, subst, [], ◌∷◌, ◌==◌, if◌then◌else◌, Io}
use opx_sdi_sys.Bus.{i2c_bus}
use opx_sdi_sys.I2c.{
  I2cBus, byte_data, word_data, flag_none, sdi_smbus_read_byte, sdi_smbus_write_byte,
  sdi_smbus_read_word, sdi_smbus_write_word, on_bus,
}
use opx_sdi_sys.I2c.Device.{Gives, Gives-on_bus_of}

-- The registers with `v` at `cmd`.
abbrev pub put : ℕ → ℕ → (ℕ → ℕ) → ℕ → ℕ
put cmd v f a = if a == cmd then v else f a

abbrev pub put_word : ℕ → ℕ → (ℕ → ℕ) → ℕ → ℕ
put_word cmd v f = put (cmd + 1) (v / 2 ^ 8 % 2 ^ 8) (put cmd (v % 2 ^ 8) f)

abbrev pub word_at : (ℕ → ℕ) → ℕ → ℕ
word_at f cmd = f cmd + f (cmd + 1) * 2 ^ 8

pub record IsRegisterMap {W : Type 0} (bus : I2cBus W) (addr : ℕ) (regs : W → ℕ → ℕ) : Type 0 where
  pub i2c : bus.bus_type ≡ i2c_bus
  pub locks : (w : W) → Gives regs bus.mutex.lock w tt (regs w)
  pub regs-unlock : (w : W) → regs (bus.mutex.unlock w) ≡ regs w
  pub bytes : (w : W) (cmd : ℕ) → regs w cmd < 2 ^ 8
  pub reads :
      (w : W) (cmd : ℕ)
      → Gives regs (bus.ops.smbus_read addr byte_data cmd flag_none) w (regs w cmd) (regs w)
  pub writes :
      (w : W) (cmd v : ℕ)
      → v < 2 ^ 8
      → Gives regs
          (bus.ops.smbus_write addr byte_data cmd (v ∷ []) flag_none)
          w
          tt
          (put cmd v (regs w))
  pub reads_word :
      (w : W) (cmd : ℕ)
      → Gives regs
          (bus.ops.smbus_read addr word_data cmd flag_none)
          w
          (word_at (regs w) cmd)
          (regs w)
  pub writes_word :
      (w : W) (cmd v : ℕ)
      → v < 2 ^ 16
      → Gives regs
          (bus.ops.smbus_write addr word_data cmd (v ∷ []) flag_none)
          w
          tt
          (put_word cmd v (regs w))

module _ {W : Type 0} {bus : I2cBus W} {addr : ℕ} {regs : W → ℕ → ℕ}
    (map : IsRegisterMap bus addr regs) where
  held :
      {A : Type 0} (call : Io W A) (w : W) (a : A) (v : ℕ → ℕ)
      → ((w' : W) → regs w' ≡ regs w → Gives regs call w' a v)
      → Gives regs (on_bus bus call) w a v
  held = Gives-on_bus_of bus regs map.i2c map.locks map.regs-unlock

  pub read_byte-Gives :
      (w : W) (cmd : ℕ)
      → Gives regs (sdi_smbus_read_byte bus addr cmd flag_none) w (regs w cmd) (regs w)
  unfolding sdi_smbus_read_byte on_bus
  read_byte-Gives w cmd =
      held (bus.ops.smbus_read addr byte_data cmd flag_none) w (regs w cmd) (regs w) λ w' same.
        subst (λ f. Gives regs (bus.ops.smbus_read addr byte_data cmd flag_none) w' (f cmd) f) same
          (map.reads w' cmd)

  pub write_byte-Gives :
      (w : W) (cmd v : ℕ)
      → v < 2 ^ 8
      → Gives regs (sdi_smbus_write_byte bus addr cmd v flag_none) w tt (put cmd v (regs w))
  unfolding sdi_smbus_write_byte on_bus
  write_byte-Gives w cmd v small =
      held (bus.ops.smbus_write addr byte_data cmd (v ∷ []) flag_none) w tt (put cmd v (regs w))
        λ w' same.
          subst
            (λ f.
              Gives regs (bus.ops.smbus_write addr byte_data cmd (v ∷ []) flag_none) w' tt
                (put cmd v f))
            same (map.writes w' cmd v small)

  pub read_word-Gives :
      (w : W) (cmd : ℕ)
      → Gives regs (sdi_smbus_read_word bus addr cmd flag_none) w (word_at (regs w) cmd) (regs w)
  unfolding sdi_smbus_read_word on_bus
  read_word-Gives w cmd =
      held (bus.ops.smbus_read addr word_data cmd flag_none) w (word_at (regs w) cmd) (regs w)
        λ w' same.
          subst
            (λ f. Gives regs (bus.ops.smbus_read addr word_data cmd flag_none) w' (word_at f cmd) f)
            same (map.reads_word w' cmd)

  pub write_word-Gives :
      (w : W) (cmd v : ℕ)
      → v < 2 ^ 16
      → Gives regs (sdi_smbus_write_word bus addr cmd v flag_none) w tt (put_word cmd v (regs w))
  unfolding sdi_smbus_write_word on_bus
  write_word-Gives w cmd v small =
      held (bus.ops.smbus_write addr word_data cmd (v ∷ []) flag_none) w tt
        (put_word cmd v (regs w))
        λ w' same.
          subst
            (λ f.
              Gives regs (bus.ops.smbus_write addr word_data cmd (v ∷ []) flag_none) w' tt
                (put_word cmd v f))
            same (map.writes_word w' cmd v small)
