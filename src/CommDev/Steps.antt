-- ===== src/CommDev/Steps.antt =====
-- Single transfers of the communication device: the bytes of a read, and one block of a write.
use opx_sdi_sys.Base.{
  catch, caught, rc_of, value_or, ℕ, zero, suc, ◌+◌, ◌*◌, ◌/◌, ◌^◌, ◌≤◌, ◌<◌, ◌≡◌, refl, sym, ap,
  ap₂, ◌∙◌, arith, none, List, [], ◌∷◌, bit_and, bit_and-mask, length, take, Io, inr, pure, ◌>>=◌,
}
use opx_sdi_sys.I2c.{
  I2cBus, sdi_smbus_write_byte, sdi_smbus_recv_byte, sdi_smbus_write_i2c_block_data, block_of,
  half_block_max, flag_none, offset_non_cmd, byte, byte_data, block_data,
}
use opx_sdi_sys.I2c.Device.{
  View, IsRegisterFile, Gives, Gives-then, Gives-eq, Gives-on_bus, overlay, window,
}
use opx_sdi_sys.CommDev.{
  comm_dev, recv_bytes, recv_after, sdi_comm_dev_recv_byte, sdi_comm_dev_write_block,
  sdi_comm_dev_read,
}

-- The two halves of a register offset make it up again.
halves : (x : ℕ) → bit_and x 0xff + x / 2 ^ 8 * 2 ^ 8 ≡ x
halves x = omega (arith, bit_and-mask 8 x)

halves_of_word : (x : ℕ) → x < 2 ^ 16 → bit_and x 0xff + bit_and (x / 2 ^ 8) 0xff * 2 ^ 8 ≡ x
halves_of_word x h = omega (arith, bit_and-mask 8 x, bit_and-mask 8 (x / 2 ^ 8))

pub take_all : (n : ℕ) (bs : List ℕ) → length bs ≤ n → take n bs ≡ bs
take_all zero [] h = refl
take_all (suc n) [] h = refl
take_all zero (b ∷ bs) h = absurd (omega arith)
take_all (suc n) (b ∷ bs) h = ap (◌∷◌ b) (take_all n bs (omega arith))

module _ {W : Type 0} {bus : I2cBus W} {addr : ℕ} {view : W → View}
    (file : IsRegisterFile bus addr view) where
  pub catch-Gives :
      {A : Type 0} (m : Io W A) (w : W) (a : A) (v : View)
      → Gives view m w a v
      → Gives view (catch m) w (inr a) v
  catch-Gives m w a v (w', e, at) = (w', ap caught e, at)

  -- The bytes from the pointer on.
  recv_bytes_lem :
      (buffer : List ℕ) (w : W) (f : ℕ → ℕ) (p : ℕ)
      → view w ≡ (f, p)
      → Gives view
          (recv_bytes bus addr none buffer)
          w
          (none, window f p (length buffer))
          (f, p + length buffer)
  unfolding recv_bytes window sdi_smbus_recv_byte
  recv_bytes_lem [] w f p at = (w, refl, at ∙ ap (λ n. (f, n)) (omega arith))
  recv_bytes_lem (old ∷ buffer) w f p at =
      Gives-then (catch (sdi_smbus_recv_byte bus addr flag_none))
        (λ r.
          recv_bytes bus addr (rc_of r) buffer >>= λ rest. pure (rest.0, value_or old r ∷ rest.1))
        (catch-Gives (sdi_smbus_recv_byte bus addr flag_none) w (f p) (f, p + 1)
          (Gives-on_bus file (bus.ops.smbus_read addr byte offset_non_cmd flag_none) w (f p)
            (f, p + 1)
            λ w' same.
              Gives-eq w' (bus.ops.smbus_read addr byte offset_non_cmd flag_none) refl
                (ap (λ x. x.0 x.1) (same ∙ at)) (ap (λ x. (x.0, x.1 + 1)) (same ∙ at))
                (file.receives w')))
        λ w' at'.
          Gives-then (recv_bytes bus addr none buffer) (λ rest. pure (rest.0, f p ∷ rest.1))
            (recv_bytes_lem buffer w' f (p + 1) at')
            λ w'' at''. (w'', refl, at'' ∙ ap (λ n. (f, n)) (omega arith))

  pub read_lem :
      (offset : ℕ) (buffer : List ℕ) (w : W)
      → Gives view
          (sdi_comm_dev_read bus comm_dev addr offset buffer)
          w
          (none, window (view w).0 offset (length buffer))
          ((view w).0, offset + length buffer)
  unfolding sdi_comm_dev_read sdi_comm_dev_recv_byte sdi_smbus_write_byte
  read_lem offset buffer w =
      Gives-then
        (catch (sdi_smbus_write_byte bus addr (bit_and offset 0xff) (offset / 2 ^ 8) flag_none))
        (recv_after bus addr buffer)
        (catch-Gives
          (sdi_smbus_write_byte bus addr (bit_and offset 0xff) (offset / 2 ^ 8) flag_none) w tt
          ((view w).0, offset)
          (Gives-on_bus file
            (bus.ops.smbus_write addr byte_data (bit_and offset 0xff) ((offset / 2 ^ 8) ∷ [])
              flag_none)
            w tt ((view w).0, offset)
            λ w' at.
              Gives-eq w'
                (bus.ops.smbus_write addr byte_data (bit_and offset 0xff) ((offset / 2 ^ 8) ∷ [])
                  flag_none)
                refl refl (ap₂ (λ x y. (x.0, y)) at (halves offset))
                (file.points w' (bit_and offset 0xff) (offset / 2 ^ 8))))
        λ w' at. recv_bytes_lem buffer w' (view w).0 offset at

  -- One block.
  pub write_block_lem :
      (offset : ℕ) (values : List ℕ) (w : W)
      → length values ≤ half_block_max
      → offset < 2 ^ 16
      → Gives view
          (sdi_comm_dev_write_block bus addr offset values)
          w
          tt
          (overlay offset values (view w).0, (view w).1)
  unfolding sdi_comm_dev_write_block sdi_smbus_write_i2c_block_data block_of
  write_block_lem offset values w fits small =
      Gives-on_bus file
        (bus.ops.smbus_write addr block_data (bit_and offset 0xff) (block_of offset values)
          flag_none)
        w tt (overlay offset values (view w).0, (view w).1)
        λ w' at.
          Gives-eq w'
            (bus.ops.smbus_write addr block_data (bit_and offset 0xff)
              ((length values + 1) ∷ bit_and (offset / 2 ^ 8) 0xff ∷ values) flag_none)
            (ap₂
              (λ n vs.
                bus.ops.smbus_write addr block_data (bit_and offset 0xff)
                  ((n + 1) ∷ bit_and (offset / 2 ^ 8) 0xff ∷ vs) flag_none)
              (omega arith) (sym (take_all half_block_max values fits)))
            refl (ap₂ (λ x y. (overlay y values x.0, x.1)) at (halves_of_word offset small))
            (file.stores w' (bit_and offset 0xff) (bit_and (offset / 2 ^ 8) 0xff) values fits)
