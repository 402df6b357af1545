-- ===== src/CommDev/LastError.antt =====
-- src/drivers/sdi_comm_dev_driver.c: the error code of the loop that receives bytes.
use opx_sdi_sys.Base.{
  Rc, catch, caught, rc_of, value_or, bind_assoc, ℕ, ◌≡◌, refl, sym, ap, ◌∙◌, fun_ext, none, List,
  [], ◌∷◌, ◌++◌, Io, ok, ◌⊎◌, pure, ◌>>=◌, and_then, StdError,
}
use opx_sdi_sys.I2c.{I2cBus, sdi_smbus_recv_byte, flag_none}
use opx_sdi_sys.CommDev.{recv_bytes}

module _ {W : Type 0} (bus : I2cBus W) (addr : ℕ) where
  abbrev recv : Io W (StdError ⊎ ℕ)
  recv = catch (sdi_smbus_recv_byte bus addr flag_none)

  abbrev then_last : ℕ → Rc × List ℕ → Io W (Rc × List ℕ)
  then_last old rest = recv >>= λ r. pure (rc_of r, rest.1 ++ (value_or old r ∷ []))

  abbrev put : ℕ → StdError ⊎ ℕ → Rc × List ℕ → Io W (Rc × List ℕ)
  put old r rest = pure (rest.0, value_or old r ∷ rest.1)

  recv_bytes-append :
      (rc : Rc) (buffer : List ℕ) (old : ℕ)
      → recv_bytes bus addr rc (buffer ++ old ∷ [])
        ≡ (recv_bytes bus addr rc buffer >>= then_last old)
  unfolding recv_bytes
  recv_bytes-append rc [] old = refl
  recv_bytes-append rc (first ∷ buffer) old =
      ap (λ f. recv >>= f)
        (fun_ext λ r.
          ap (λ m. m >>= put first r) (recv_bytes-append (rc_of r) buffer old)
          ∙ bind_assoc (then_last old) (put first r) (recv_bytes bus addr (rc_of r) buffer)
          ∙ ap (λ f. recv_bytes bus addr (rc_of r) buffer >>= f)
              (fun_ext λ rest.
                bind_assoc (λ v. pure (rc_of v, rest.1 ++ (value_or old v ∷ []))) (put first r)
                  recv)
          ∙ sym (bind_assoc (put first r) (then_last old) (recv_bytes bus addr (rc_of r) buffer)))
      ∙ sym (
          bind_assoc (λ r. recv_bytes bus addr (rc_of r) buffer >>= put first r) (then_last old)
            recv)

  -- Where the bytes before the last one ended with any code at all, an error included, and the last
  -- byte is received: the loop ends with STD_ERR_OK, so an error in the middle is lost and its byte
  -- is reported as read.
  pub recv_bytes_forgets :
      (rc before : Rc) (buffer got : List ℕ) (old v : ℕ) (w w' w'' : W)
      → recv_bytes bus addr rc buffer w ≡ (ok (before, got), w')
      → sdi_smbus_recv_byte bus addr flag_none w' ≡ (ok v, w'')
      → recv_bytes bus addr rc (buffer ++ old ∷ []) w ≡ (ok (none, got ++ (v ∷ [])), w'')
  recv_bytes_forgets rc before buffer got old v w w' w'' first last =
      ap (λ m. m w) (recv_bytes-append rc buffer old)
      ∙ ap (λ r. and_then r (then_last old)) first
      ∙ ap (λ r. and_then (caught r) (λ x. pure (rc_of x, got ++ (value_or old x ∷ [])))) last
