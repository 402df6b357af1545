-- ===== src/I2c/MultiByte.antt =====
-- The calls of src/framework/sdi_i2c_bus_api.c for several bytes.
use opx_sdi_sys.Base.{
  ℕ, zero, suc, ◌+◌, ◌%◌, ◌^◌, ◌≤◌, ◌≡◌, refl, sym, ap, subst, ◌∙◌, arith, List, [], ◌∷◌, ◌++◌,
  ◌==◌, if◌then◌else◌, length, Io, ok, err, StdError, and_then, ◌>>◌, bind_assoc,
}
use opx_sdi_sys.Bus.{i2c_bus}
use opx_sdi_sys.Bus.Mutex.{with_lock}
use opx_sdi_sys.I2c.{
  I2cBus, byte_data, on_bus, read_bytes, write_bytes, sdi_smbus_read_multi_byte,
  sdi_smbus_write_multi_byte,
}
use opx_sdi_sys.I2c.Device.{Gives, Gives-on_bus_of, overlay, window, window-overlay}

-- A device that keeps a byte for each command.
pub record IsByteMemory {W : Type 0} (bus : I2cBus W) (addr flags : ℕ) (regs : W → ℕ → ℕ)
    : Type 0 where
  pub i2c : bus.bus_type ≡ i2c_bus
  pub locks : (w : W) → (w' : W) × (bus.mutex.lock w ≡ (ok tt, w')) × (regs w' ≡ regs w)
  pub regs-unlock : (w : W) → regs (bus.mutex.unlock w) ≡ regs w
  pub reads :
      (w : W) (cmd : ℕ) → bus.ops.smbus_read addr byte_data cmd flags w ≡ (ok (regs w cmd), w)
  pub writes :
      (w : W) (cmd v : ℕ)
      → (w' : W) × (bus.ops.smbus_write addr byte_data cmd (v ∷ []) flags w ≡ (ok tt, w'))
        × (regs w' ≡ λ a. if a == cmd then v else regs w a)

module _ {W : Type 0} {bus : I2cBus W} {addr flags : ℕ} {regs : W → ℕ → ℕ}
    (memory : IsByteMemory bus addr flags regs) where
  write_bytes_lem :
      (cmd : ℕ) (bs : List ℕ) (w : W)
      → cmd + length bs ≤ 2 ^ 32
      → (w' : W) × (write_bytes bus addr cmd bs flags w ≡ (ok tt, w'))
        × (regs w' ≡ overlay cmd bs (regs w))
  unfolding write_bytes overlay
  write_bytes_lem cmd [] w inside = (w, refl, refl)
  write_bytes_lem cmd (b ∷ bs) w inside =
      let whole : cmd ≡ cmd % 2 ^ 32 = omega arith in
      let one = memory.writes w cmd b in
      let rest = write_bytes_lem (cmd + 1) bs one.0 (omega arith) in
      (
        rest.0,
        ap
              (λ c.
                (bus.ops.smbus_write addr byte_data c (b ∷ []) flags
                    >> write_bytes bus addr (cmd + 1) bs flags)
                  w)
              (sym whole)
            ∙ ap (λ r. and_then r (λ _. write_bytes bus addr (cmd + 1) bs flags)) one.1
            ∙ rest.1,
        rest.2 ∙ ap (overlay (cmd + 1) bs) one.2,
      )

  read_bytes_lem :
      (cmd n : ℕ) (w : W)
      → cmd + n ≤ 2 ^ 32
      → read_bytes bus addr cmd n flags w ≡ (ok (window (regs w) cmd n), w)
  unfolding read_bytes window
  read_bytes_lem cmd zero w inside = refl
  read_bytes_lem cmd (suc n) w inside =
      let whole : cmd % 2 ^ 32 ≡ cmd = omega arith in
      rw (whole, memory.reads, read_bytes_lem (cmd + 1) n w (omega arith))

  pub read_multi_byte-Gives :
      (cmd n : ℕ) (w : W)
      → cmd + n ≤ 2 ^ 32
      → Gives regs
          (sdi_smbus_read_multi_byte bus addr cmd n flags)
          w
          (window (regs w) cmd n)
          (regs w)
  unfolding sdi_smbus_read_multi_byte on_bus
  read_multi_byte-Gives cmd n w inside =
      Gives-on_bus_of bus regs memory.i2c memory.locks memory.regs-unlock
        (read_bytes bus addr cmd n flags) w (window (regs w) cmd n) (regs w)
        λ w' same.
          subst (λ f. Gives regs (read_bytes bus addr cmd n flags) w' (window f cmd n) f) same
            (w', read_bytes_lem cmd n w' inside, refl)

module _ {W : Type 0} (bus : I2cBus W) (addr flags : ℕ) where
  -- On a device that keeps a byte for each command: sdi_smbus_write_multi_byte of commands that end
  -- before 2 ^ 32 succeeds and puts the bytes in the registers from the command on, leaving all
  -- others; sdi_smbus_read_multi_byte of as many then succeeds with the bytes.
  pub read-write_multi_byte :
      (regs : W → ℕ → ℕ) (cmd : ℕ) (buffer : List ℕ) (w : W)
      → IsByteMemory bus addr flags regs
      → cmd + length buffer ≤ 2 ^ 32
      → (w' : W) × (sdi_smbus_write_multi_byte bus addr cmd buffer flags w ≡ (ok tt, w'))
        × (regs w' ≡ overlay cmd buffer (regs w))
        × (w'' : W) × (sdi_smbus_read_multi_byte bus addr cmd (length buffer) flags w'
            ≡ (ok buffer, w''))
  unfolding sdi_smbus_write_multi_byte sdi_smbus_read_multi_byte on_bus with_lock
  read-write_multi_byte regs cmd buffer w memory inside =
      let locked = memory.locks w in
      let wrote = write_bytes_lem memory cmd buffer locked.0 inside in
      let free = bus.mutex.unlock wrote.0 in
      let again = memory.locks free in
      let after : regs free ≡ overlay cmd buffer (regs w) =
        memory.regs-unlock wrote.0 ∙ wrote.2 ∙ ap (overlay cmd buffer) locked.2 in
      (
        free,
        rw (memory.i2c, locked.1, wrote.1),
        after,
        bus.mutex.unlock again.0,
        rw (memory.i2c, again.1, read_bytes_lem memory cmd (length buffer) again.0 inside)
            (ap (λ f. (ok (window f cmd (length buffer)), bus.mutex.unlock again.0))
                (again.2 ∙ after)
              ∙ ap (λ bs. (ok bs, bus.mutex.unlock again.0)) (window-overlay cmd buffer (regs w))),
      )

  write_bytes-append :
      (cmd : ℕ) (xs ys : List ℕ)
      → write_bytes bus addr cmd (xs ++ ys) flags
        ≡ (write_bytes bus addr cmd xs flags >> write_bytes bus addr (cmd + length xs) ys flags)
  unfolding write_bytes
  write_bytes-append cmd [] ys = ap (λ c. write_bytes bus addr c ys flags) (omega arith)
  write_bytes-append cmd (x ∷ xs) ys =
      ap (λ m. put x >> m)
        (write_bytes-append (cmd + 1) xs ys
          ∙ ap (λ c. write_bytes bus addr (cmd + 1) xs flags >> write_bytes bus addr c ys flags)
              (omega arith))
      ∙ sym (
          bind_assoc (λ _. write_bytes bus addr (cmd + 1) xs flags)
            (λ _. write_bytes bus addr (cmd + length (x ∷ xs)) ys flags) (put x))
    where
      put : ℕ → Io W (Unit {0})
      put b = bus.ops.smbus_write addr byte_data (cmd % 2 ^ 32) (b ∷ []) flags

  -- Where the bytes `xs` are written and the write of the next one fails: the loop of
  -- sdi_smbus_write_multi_byte ends with that error, and none of the bytes after it is written.
  write_bytes_stops :
      (cmd y : ℕ) (xs ys : List ℕ) (e : StdError) (w w' w'' : W)
      → write_bytes bus addr cmd xs flags w ≡ (ok tt, w')
      → bus.ops.smbus_write addr byte_data ((cmd + length xs) % 2 ^ 32) (y ∷ []) flags w'
        ≡ (err e, w'')
      → write_bytes bus addr cmd (xs ++ y ∷ ys) flags w ≡ (err e, w'')
  unfolding write_bytes
  write_bytes_stops cmd y xs ys e w w' w'' before fails =
      ap (λ m. m w) (write_bytes-append cmd xs (y ∷ ys))
      ∙ ap (λ r. and_then r (λ _. write_bytes bus addr (cmd + length xs) (y ∷ ys) flags)) before
      ∙ ap (λ r. and_then r (λ _. write_bytes bus addr (cmd + length xs + 1) ys flags)) fails
