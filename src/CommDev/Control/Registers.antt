-- ===== src/CommDev/Control/Registers.antt =====
-- The control, status and other registers of the communication device: reading, changing, writing.
use opx_sdi_sys.Base.{
  catch, unless_error, ℕ, ◌+◌, ◌%◌, ◌^◌, ◌≤◌, ◌<◌, ◌≡◌, ◌≢◌, refl, ap, ◌∙◌, arith, true, List, [],
  ◌∷◌, ◌++◌, length, replicate, Io, ok, ◌>>=◌, and_then, ◌==◌, if◌then◌else◌,
}
use opx_sdi_sys.Base.StdBits.{StdBits}
use opx_sdi_sys.I2c.{I2cBus}
use opx_sdi_sys.I2c.Device.{View, IsRegisterFile, Gives, Gives-then, Gives-eq, overlay, window}
use opx_sdi_sys.CommDev.{comm_dev, sdi_comm_dev_read, sdi_comm_dev_write}
use opx_sdi_sys.CommDev.Control.{
  comm_dev_i2c_addr, mailbox_control, status_register, bytes_of, read_register, write_register,
  set_in_first, sdi_flush_msg_buffer, sdi_package_read_and_verified, sdi_package_download_complete,
  sdi_comm_dev_status_check_and_clear,
}
use opx_sdi_sys.CommDev.Steps.{catch-Gives, read_lem}
use opx_sdi_sys.CommDev.Transfer.{write_chunks_lem}

module _ {W : Type 0} (bits : StdBits) {bus : I2cBus W} {view : W → View}
    (file : IsRegisterFile bus comm_dev_i2c_addr view) where
  read_register_lem :
      (offset size : ℕ) (w : W)
      → Gives view
          (read_register bits bus comm_dev offset size)
          w
          (window (view w).0 offset (length (replicate {A = ℕ} size 0)))
          ((view w).0, offset + length (replicate {A = ℕ} size 0))
  unfolding read_register
  read_register_lem offset size w =
      Gives-then (sdi_comm_dev_read bus comm_dev comm_dev_i2c_addr offset (replicate size 0))
        unless_error (read_lem file offset (replicate size 0) w) λ w' at. (w', refl, at)

  write_register_lem :
      (offset : ℕ) (values : List ℕ) (w : W)
      → offset + length values ≤ 2 ^ 16
      → Gives view
          (write_register bits bus comm_dev offset values)
          w
          tt
          (overlay offset values (view w).0, (view w).1)
  unfolding write_register sdi_comm_dev_write
  write_register_lem offset values w inside =
      write_chunks_lem file (length values) offset values w (omega arith) inside

  -- A read of the control register, and a write of what `change` makes of it.
  control_lem :
      (change : List ℕ → List ℕ) (w : W)
      → length (change ((view w).0 0x7C92 ∷ (view w).0 0x7C93 ∷ [])) ≤ 4
      → Gives view
          (read_register bits bus comm_dev mailbox_control 2 >>= λ control.
            write_register bits bus comm_dev mailbox_control (change control))
          w
          tt
          (
            overlay mailbox_control
                (change ((view w).0 0x7C92 ∷ (view w).0 0x7C93 ∷ []))
                (view w).0,
            0x7C94,
          )
  unfolding window
  control_lem change w short =
      Gives-then (read_register bits bus comm_dev mailbox_control 2)
        (λ control. write_register bits bus comm_dev mailbox_control (change control))
        (read_register_lem mailbox_control 2 w)
        λ w' at.
          Gives-eq w' (write_register bits bus comm_dev mailbox_control new) refl refl
            (ap (λ x. (overlay mailbox_control new x.0, x.1)) at)
            (write_register_lem mailbox_control new w' (omega arith))
    where
      new : List ℕ
      new = change ((view w).0 0x7C92 ∷ (view w).0 0x7C93 ∷ [])

  flush_lem :
      (w : W)
      → Gives view (sdi_flush_msg_buffer bits bus comm_dev) w tt (
        overlay mailbox_control
            ((bits.set ((view w).0 0x7C92) 0 % 2 ^ 8) ∷ (view w).0 0x7C93 ∷ [])
            (view w).0,
        0x7C94,
      )
  unfolding sdi_flush_msg_buffer set_in_first
  flush_lem w = control_lem (set_in_first bits 0) w (omega arith)

  verified_lem :
      (w : W)
      → Gives view (sdi_package_read_and_verified bits bus comm_dev) w tt (
        overlay mailbox_control
            ((bits.set ((view w).0 0x7C92) 1 % 2 ^ 8) ∷ (view w).0 0x7C93 ∷ [])
            (view w).0,
        0x7C94,
      )
  unfolding sdi_package_read_and_verified set_in_first
  verified_lem w = control_lem (set_in_first bits 1) w (omega arith)

  complete_lem :
      (w : W)
      → Gives view (sdi_package_download_complete bits bus comm_dev) w tt (
        overlay mailbox_control
            ((bits.set ((view w).0 0x7C92) 2 % 2 ^ 8) ∷ (view w).0 0x7C93 ∷ 3 ∷ 0 ∷ [])
            (view w).0,
        0x7C94,
      )
  unfolding sdi_package_download_complete set_in_first bytes_of
  complete_lem w =
      control_lem (λ control. set_in_first bits 2 control ++ bytes_of 3) w (omega arith)

  -- The check of the status ends without an error, whatever the status is.
  pub status_succeeds :
      (w : W) → (w' : W) × (sdi_comm_dev_status_check_and_clear bits bus comm_dev w ≡ (ok tt, w'))
  unfolding sdi_comm_dev_status_check_and_clear bytes_of
  status_succeeds w =
      let status = read_register_lem status_register 2 w in
      let cleared =
        catch-Gives file clear status.0 tt
          (overlay status_register (bytes_of 0x00) (view status.0).0, (view status.0).1)
          (write_register_lem status_register (bytes_of 0x00) status.0 (omega arith)) in
      let flushed = flush_lem cleared.0 in
      (
        flushed.0,
        ap (λ r. and_then r (λ _. catch clear >>= λ _. flush)) status.1
            ∙ ap (λ r. and_then r (λ _. flush)) cleared.1
            ∙ flushed.1,
      )
    where
      clear : Io W (Unit {0})
      clear = write_register bits bus comm_dev status_register (bytes_of 0x00)

      flush : Io W (Unit {0})
      flush = sdi_flush_msg_buffer bits bus comm_dev

-- The registers after the change of the control register, one by one.
module _ (bits : StdBits) (f : ℕ → ℕ) (k : ℕ) (fits : k < 8) (byte : f 0x7C92 < 256) where
  abbrev control : List ℕ
  control = (bits.set (f 0x7C92) k % 2 ^ 8) ∷ f 0x7C93 ∷ []

  test-control :
      (j : ℕ)
      → bits.test (overlay mailbox_control control f 0x7C92) j
        ≡ (if k == j then true else bits.test (f 0x7C92) j)
  unfolding overlay
  test-control j = rw uncut (bits.test-set (f 0x7C92) k j)
    where
      uncut : bits.set (f 0x7C92) k % 2 ^ 8 ≡ bits.set (f 0x7C92) k
      uncut = omega (arith, bits.set-lt (f 0x7C92) k fits byte)

  other-control : (a : ℕ) → a ≢ 0x7C92 → overlay mailbox_control control f a ≡ f a
  unfolding overlay
  other-control a ne = ground arith

threshold : (f : ℕ → ℕ) (x y : ℕ) → overlay mailbox_control (x ∷ y ∷ 3 ∷ 0 ∷ []) f 0x7C94 ≡ 3
unfolding overlay
threshold f x y = ground arith

with_threshold :
    (f : ℕ → ℕ) (x y : ℕ)
    → overlay mailbox_control (x ∷ y ∷ 3 ∷ 0 ∷ []) f 0x7C92
      ≡ overlay mailbox_control (x ∷ y ∷ []) f 0x7C92
unfolding overlay
with_threshold f x y = ground arith

module _ {W : Type 0} (bits : StdBits) (bus : I2cBus W) (view : W → View) where
  -- On a device with a register file at address 0x32, whose control register 0x7C92 holds a byte:
  -- flushing the mailbox, acknowledging a package and announcing a complete package succeed; they set
  -- bit 0, bit 1 and bit 2 of the control register and keep its other bits. For the first two any
  -- other register keeps its value; the third also sets the time threshold at 0x7C94 to 3.
  pub sets_control_bit :
      (w : W) (j a : ℕ)
      → IsRegisterFile bus comm_dev_i2c_addr view
      → (view w).0 0x7C92 < 256
      → a ≢ 0x7C92
      → ((w' : W) × (sdi_flush_msg_buffer bits bus comm_dev w ≡ (ok tt, w'))
          × (bits.test ((view w').0 0x7C92) j
              ≡ (if 0 == j then true else bits.test ((view w).0 0x7C92) j))
          × ((view w').0 a ≡ (view w).0 a))
        × ((w' : W) × (sdi_package_read_and_verified bits bus comm_dev w ≡ (ok tt, w'))
            × (bits.test ((view w').0 0x7C92) j
                ≡ (if 1 == j then true else bits.test ((view w).0 0x7C92) j))
            × ((view w').0 a ≡ (view w).0 a))
        × ((w' : W) × (sdi_package_download_complete bits bus comm_dev w ≡ (ok tt, w'))
            × (bits.test ((view w').0 0x7C92) j
                ≡ (if 2 == j then true else bits.test ((view w).0 0x7C92) j))
            × ((view w').0 0x7C94 ≡ 3))
  sets_control_bit w j a file byte ne =
      let flushed = flush_lem bits file w in
      let verified = verified_lem bits file w in
      let complete = complete_lem bits file w in
      (
        (
          flushed.0,
          flushed.1,
          ap (λ x. bits.test (x.0 0x7C92) j) flushed.2
              ∙ test-control bits (view w).0 0 (omega arith) byte j,
          ap (λ x. x.0 a) flushed.2 ∙ other-control bits (view w).0 0 (omega arith) byte a ne,
        ),
        (
          verified.0,
          verified.1,
          ap (λ x. bits.test (x.0 0x7C92) j) verified.2
              ∙ test-control bits (view w).0 1 (omega arith) byte j,
          ap (λ x. x.0 a) verified.2 ∙ other-control bits (view w).0 1 (omega arith) byte a ne,
        ),
        (
          complete.0,
          complete.1,
          ap (λ x. bits.test (x.0 0x7C92) j) complete.2
              ∙ ap (λ x. bits.test x j)
                  (with_threshold (view w).0 (bits.set ((view w).0 0x7C92) 2 % 2 ^ 8)
                    ((view w).0 0x7C93))
              ∙ test-control bits (view w).0 2 (omega arith) byte j,
          ap (λ x. x.0 0x7C94) complete.2
              ∙ threshold (view w).0 (bits.set ((view w).0 0x7C92) 2 % 2 ^ 8) ((view w).0 0x7C93),
        ),
      )
