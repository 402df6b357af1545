-- ===== src/CommDev/Transfer.antt =====
-- Reading and writing the registers of the communication device.
use opx_sdi_sys.Base.{
  ℕ, zero, suc, ◌+◌, ◌%◌, ◌^◌, ◌≤◌, ◌≡◌, refl, sym, ap, ap₂, ◌∙◌, arith, none, List, [], ◌∷◌, ltb,
  if◌then◌else◌, length, take, drop, take-length, length-take_le, length-drop, take-append-drop, ok,
  dec_le,
}
use opx_sdi_sys.I2c.{I2cBus, half_block_max}
use opx_sdi_sys.I2c.Device.{
  View, IsRegisterFile, Gives, Gives-then, Gives-eq, overlay, window, overlay-append,
  window-overlay,
}
use opx_sdi_sys.CommDev.{
  comm_dev, sdi_comm_dev_write_block, sdi_comm_dev_read, sdi_comm_dev_write, write_chunks,
}
use opx_sdi_sys.CommDev.Steps.{take_all, read_lem, write_block_lem}

length-take : (n : ℕ) (bs : List ℕ) → length (take n bs) ≤ n
length-take zero bs = omega arith
length-take (suc n) [] = omega arith
length-take (suc n) (b ∷ bs) = omega (arith, length-take n bs)

drop_all : (n : ℕ) (bs : List ℕ) → length bs ≤ n → drop n bs ≡ []
drop_all zero [] h = refl
drop_all zero (b ∷ bs) h = absurd (omega arith)
drop_all (suc n) [] h = refl
drop_all (suc n) (b ∷ bs) h = drop_all n bs (omega arith)

-- The length of a block, as the code computes it.
take-chunk :
    (bs : List ℕ)
    → take half_block_max bs
      ≡ take (if ltb half_block_max (length bs) then half_block_max else length bs) bs
take-chunk bs = elim (dec_le (length bs) half_block_max) [
  | yes h ↦ take_all half_block_max bs h ∙ sym (take-length bs) ∙ ap (λ n. take n bs) (short h)
  | no n ↦ ap (λ n. take n bs) (long n)
]
  where
    n : ℕ
    n = if ltb half_block_max (length bs) then half_block_max else length bs

    short : length bs ≤ half_block_max → length bs ≡ n
    short h = ground arith

    long : ¬ (length bs ≤ half_block_max) → half_block_max ≡ n
    long h = ground arith

module _ {W : Type 0} {bus : I2cBus W} {addr : ℕ} {view : W → View}
    (file : IsRegisterFile bus addr view) where
  write_none : (fuel offset : ℕ) (w : W) → write_chunks bus fuel addr offset [] w ≡ (ok tt, w)
  unfolding write_chunks
  write_none zero offset w = refl
  write_none (suc fuel) offset w = refl

  -- After the first block.
  overlay-blocks :
      (offset : ℕ) (bs : List ℕ) (f : ℕ → ℕ)
      → half_block_max ≤ length bs
      → overlay
          (offset + half_block_max)
          (drop half_block_max bs)
          (overlay offset (take half_block_max bs) f)
        ≡ overlay offset bs f
  overlay-blocks offset bs f h =
      ap
        (λ n.
          overlay (offset + n) (drop half_block_max bs) (overlay offset (take half_block_max bs) f))
        (sym (length-take_le half_block_max bs h))
      ∙ sym (overlay-append offset (take half_block_max bs) (drop half_block_max bs) f)
      ∙ ap (λ xs. overlay offset xs f) (take-append-drop half_block_max bs)

  pub write_chunks_lem :
      (fuel offset : ℕ) (bs : List ℕ) (w : W)
      → length bs ≤ fuel
      → offset + length bs ≤ 2 ^ 16
      → Gives view
          (write_chunks bus fuel addr offset bs)
          w
          tt
          (overlay offset bs (view w).0, (view w).1)
  unfolding write_chunks overlay
  write_chunks_lem fuel offset [] w enough inside = (w, write_none fuel offset w, refl)
  write_chunks_lem zero offset (b ∷ bs) w enough inside = absurd (omega arith)
  write_chunks_lem (suc fuel) offset (b ∷ bs) w enough inside =
      Gives-then
        (sdi_comm_dev_write_block bus addr (offset % 2 ^ 16)
          (take (if ltb half_block_max (length xs) then half_block_max else length xs) xs))
        (λ _. write_chunks bus fuel addr (offset + half_block_max) (drop half_block_max xs))
        (Gives-eq w (sdi_comm_dev_write_block bus addr offset (take half_block_max xs))
          (ap₂ (sdi_comm_dev_write_block bus addr) (omega arith) (take-chunk xs)) refl refl
          (write_block_lem file offset (take half_block_max xs) w (length-take half_block_max xs)
            (omega arith)))
        λ w' at. elim (dec_le (length xs) half_block_max) [
          | yes h ↦ (
            w',
            ap (λ d. write_chunks bus fuel addr (offset + half_block_max) d w')
                  (drop_all half_block_max xs h)
                ∙ write_none fuel (offset + half_block_max) w',
            at ∙ ap (λ d. (overlay offset d (view w).0, (view w).1)) (take_all half_block_max xs h),
          )
          | no n ↦
              Gives-eq w'
                (write_chunks bus fuel addr (offset + half_block_max) (drop half_block_max xs)) refl
                refl
                (ap (λ x. (overlay (offset + half_block_max) (drop half_block_max xs) x.0, x.1)) at
                  ∙ ap (λ g. (g, (view w).1)) (overlay-blocks offset xs (view w).0 (omega arith)))
                (write_chunks_lem fuel (offset + half_block_max) (drop half_block_max xs) w'
                  (omega (arith, length-drop half_block_max xs))
                  (omega (arith, length-drop half_block_max xs)))
        ]
    where
      xs : List ℕ
      xs = b ∷ bs

module _ {W : Type 0} (bus : I2cBus W) (addr : ℕ) (view : W → View) where
  -- On a device with a register file, for values that end before register 2 ^ 16: sdi_comm_dev_write
  -- succeeds and leaves exactly these values in the registers from the offset on, however many blocks
  -- of 16 bytes it needs; and sdi_comm_dev_read of as many bytes, into any buffer, then succeeds
  -- with the values.
  pub read-write_registers :
      (offset : ℕ) (values buffer : List ℕ) (w : W)
      → IsRegisterFile bus addr view
      → offset + length values ≤ 2 ^ 16
      → length buffer ≡ length values
      → (w' : W) × (sdi_comm_dev_write bus comm_dev addr offset values w ≡ (ok tt, w'))
        × ((view w').0 ≡ overlay offset values (view w).0)
        × (w'' : W) × (sdi_comm_dev_read bus comm_dev addr offset buffer w'
            ≡ (ok (none, values), w''))
        × ((view w'').0 ≡ overlay offset values (view w).0)
  unfolding sdi_comm_dev_write
  read-write_registers offset values buffer w file inside same =
      let wrote = write_chunks_lem file (length values) offset values w (omega arith) inside in
      let got = read_lem file offset buffer wrote.0 in
      (
        wrote.0,
        wrote.1,
        ap (λ x. x.0) wrote.2,
        got.0,
        got.1
            ∙ ap₂ (λ f n. (ok (none, window f offset n), got.0)) (ap (λ x. x.0) wrote.2) same
            ∙ ap (λ v. (ok (none, v), got.0)) (window-overlay offset values (view w).0),
        ap (λ x. x.0) got.2 ∙ ap (λ x. x.0) wrote.2,
      )
