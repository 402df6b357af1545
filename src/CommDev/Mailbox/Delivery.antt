-- ===== src/CommDev/Mailbox/Delivery.antt =====
-- What a written message leaves in the northbound mailbox, and how a message in the southbound
-- mailbox is received.
use opx_sdi_sys.Base.{
  Rc, catch, caught, unless_error, ℕ, ◌+◌, ◌%◌, ◌^◌, ◌≤◌, ◌≡◌, refl, sym, ap, ap₂, ◌∙◌, arith,
  false, none, List, [], ◌∷◌, ◌++◌, length, take, drop, length-append, length-take_le, Io, ok, inr,
  pure, ◌>>=◌, and_then, fail, errcode, eperm, ltb, if◌then◌else◌,
}
use opx_sdi_sys.Base.StdBits.{StdBits}
use opx_sdi_sys.I2c.{I2cBus}
use opx_sdi_sys.I2c.Device.{
  View, IsRegisterFile, Gives, overlay, window, overlay-append, window-overlay, window-add,
}
use opx_sdi_sys.CommDev.{comm_dev, sdi_comm_dev_read, sdi_comm_dev_write_block, write_chunks}
use opx_sdi_sys.CommDev.Control.{comm_dev_i2c_addr, bytes_of}
use opx_sdi_sys.CommDev.Control.Registers.{status_succeeds}
use opx_sdi_sys.CommDev.Steps.{catch-Gives, read_lem, write_block_lem}
use opx_sdi_sys.CommDev.Transfer.{write_chunks_lem}
use opx_sdi_sys.CommDev.Mailbox.{
  MailboxHeader, header_bytes, header_of, strlen, add_mailbox_header, check_mailbox_header,
  sdi_read_mailbox, sdi_write_mailbox, northbound_mailbox, southbound_mailbox, mailbox_header_size,
  payload_after, buffer_max_size, accept,
}
use opx_sdi_sys.CommDev.Mailbox.Header.{check-add_self, header-sent}

length-header_bytes : (h : MailboxHeader) → length (header_bytes h) ≡ 4
unfolding header_bytes bytes_of
length-header_bytes h = refl

module _ {W : Type 0} (bits : StdBits) (bus : I2cBus W) (view : W → View) where
  -- On a device with a register file at address 0x32, for a buffer of at least `len` bytes and
  -- `len` at most 4096: sdi_write_mailbox succeeds, and the northbound mailbox then holds the four
  -- bytes of the header of the string in the buffer, followed by the first `len` bytes of the buffer.
  pub delivers_message :
      (len : ℕ) (regData : List ℕ) (w : W)
      → IsRegisterFile bus comm_dev_i2c_addr view
      → len ≤ length regData
      → len ≤ 4096
      → (w' : W) × (sdi_write_mailbox bits bus comm_dev len regData w ≡ (ok tt, w'))
        × (window (view w').0 northbound_mailbox (4 + len)
            ≡ header_bytes (add_mailbox_header regData) ++ take len regData)
  unfolding sdi_write_mailbox
  delivers_message len regData w file has fits =
      let status = status_succeeds bits file w in
      let written = header status.0 in
      let sent = payload written.0 in
      (
        sent.0,
        ap
              (λ r.
                and_then (caught r)
                  (λ _. catch write_header >>= payload_after bits bus comm_dev len regData))
              status.1
            ∙ ap (λ r. and_then r (payload_after bits bus comm_dev len regData)) written.1
            ∙ sent.1,
        ap (λ x. window x.0 northbound_mailbox (4 + len)) sent.2
            ∙ ap (λ x. window (overlay 0x8504 payload_bytes x.0) northbound_mailbox (4 + len))
                written.2
            ∙ whole (view status.0).0,
      )
    where
      bytes : List ℕ
      bytes = header_bytes (add_mailbox_header regData)

      payload_bytes : List ℕ
      payload_bytes = take len regData

      write_header : Io W (Unit {0})
      write_header = sdi_comm_dev_write_block bus comm_dev_i2c_addr northbound_mailbox bytes

      length-bytes : length bytes ≡ 4
      length-bytes = length-header_bytes (add_mailbox_header regData)

      length-payload_bytes : length payload_bytes ≡ len
      length-payload_bytes = length-take_le len regData has

      header :
          (u : W)
          → Gives view
              (catch write_header)
              u
              (inr tt)
              (overlay northbound_mailbox bytes (view u).0, (view u).1)
      header u =
          catch-Gives file write_header u tt
            (overlay northbound_mailbox bytes (view u).0, (view u).1)
            (write_block_lem file northbound_mailbox bytes u (omega (arith, length-bytes))
              (omega arith))

      payload :
          (u : W)
          → Gives view
              (write_chunks bus len comm_dev_i2c_addr 0x8504 payload_bytes)
              u
              tt
              (overlay 0x8504 payload_bytes (view u).0, (view u).1)
      payload u =
          write_chunks_lem file len 0x8504 payload_bytes u (omega (arith, length-payload_bytes))
            (omega (arith, length-payload_bytes))

      whole :
          (f : ℕ → ℕ)
          → window
              (overlay 0x8504 payload_bytes (overlay northbound_mailbox bytes f))
              northbound_mailbox
              (4 + len)
            ≡ bytes ++ payload_bytes
      whole f =
          ap₂ (λ g n. window g northbound_mailbox n)
            (ap
                (λ n.
                  overlay (northbound_mailbox + n) payload_bytes
                    (overlay northbound_mailbox bytes f))
                (sym length-bytes)
              ∙ sym (overlay-append northbound_mailbox bytes payload_bytes f))
            (omega (arith, length-append bytes payload_bytes, length-bytes, length-payload_bytes))
          ∙ window-overlay northbound_mailbox (bytes ++ payload_bytes) f

-- The steps of a reception, for the message `p` and the caller's buffer.
module _ {W : Type 0} (bits : StdBits) (bus : I2cBus W) (p buffer : List ℕ) where
  abbrev header : MailboxHeader
  header = record { checksum = (add_mailbox_header p).checksum; size = length p }

  abbrev read_body : MailboxHeader → Io W (List ℕ)
  read_body h =
      sdi_comm_dev_read bus comm_dev comm_dev_i2c_addr (southbound_mailbox + mailbox_header_size)
        (take h.size buffer)
      >>= unless_error
      >>= accept bits bus comm_dev h (drop h.size buffer)

  abbrev after_header : MailboxHeader → Rc × List ℕ → Io W (List ℕ)
  after_header h x =
      if ltb buffer_max_size h.size
      then fail (errcode eperm)
      else (unless_error x >>= λ _.
          sdi_comm_dev_read bus comm_dev comm_dev_i2c_addr
            (southbound_mailbox + mailbox_header_size) (take h.size buffer)
          >>= unless_error
          >>= accept bits bus comm_dev h (drop h.size buffer))

  small_enough :
      (bytes : List ℕ) (w : W)
      → length p ≤ buffer_max_size
      → after_header header (none, bytes) w ≡ read_body header w
  small_enough bytes w short =
      ap (λ b. (if b then fail (errcode eperm) else read_body header) w) small
    where
      small : ltb buffer_max_size (length p) ≡ false
      small = ground arith

  module _ (closed : strlen p + 1 ≡ length p) (short : length p ≤ buffer_max_size) where
    same_header : header_of (header_bytes (add_mailbox_header p)) ≡ header
    unfolding add_mailbox_header
    same_header =
        header-sent p ∙ λ i. record { checksum = (add_mailbox_header p).checksum; size = size i }
      where
        size : (strlen p + 1) % 2 ^ 16 ≡ length p
        size = omega arith

    accepts :
        (w : W)
        → accept bits bus comm_dev header (drop (length p) buffer) p w
          ≡ (ok (p ++ drop (length p) buffer), w)
    unfolding accept
    accepts w =
        ap (λ b. (if b then pure (p ++ drop (length p) buffer) else fail (errcode eperm)) w)
          (ap (check_mailbox_header p) (sym same_header ∙ header-sent p) ∙ check-add_self p)

-- A mailbox in its two parts.
module _ (f : ℕ → ℕ) (base : ℕ) (h : MailboxHeader) (p : List ℕ) where
  mailbox_parts :
      window f base (4 + length p) ≡ header_bytes h ++ p
      → (window f base 4 ≡ header_bytes h) × (window f (base + 4) (length p) ≡ p)
  unfolding window header_bytes bytes_of
  mailbox_parts holds = (ap (take 4) both, ap (drop 4) both)
    where
      both : window f base 4 ++ window f (base + 4) (length p) ≡ header_bytes h ++ p
      both = sym (window-add f base 4 (length p)) ∙ holds

module _ {W : Type 0} (bits : StdBits) (bus : I2cBus W) (view : W → View) where
  -- On a device with a register file at address 0x32, whose southbound mailbox holds the header and
  -- the bytes of a string with its null, 4100 bytes at most: sdi_read_mailbox into a buffer that is
  -- long enough succeeds, passes the check of the header and gives the string with its null at the
  -- head of the buffer, whatever the uninitialised header held before.
  pub receives_message :
      (p buffer : List ℕ) (a b c d : ℕ) (w : W)
      → IsRegisterFile bus comm_dev_i2c_addr view
      → strlen p + 1 ≡ length p
      → length p ≤ buffer_max_size
      → length p ≤ length buffer
      → window (view w).0 southbound_mailbox (4 + length p)
        ≡ header_bytes (add_mailbox_header p) ++ p
      → (w' : W) × (sdi_read_mailbox bits bus comm_dev (a ∷ b ∷ c ∷ d ∷ []) buffer w
          ≡ (ok (p ++ drop (length p) buffer), w'))
  unfolding sdi_read_mailbox
  receives_message p buffer a b c d w file closed short room holds =
      let parts = mailbox_parts (view w).0 southbound_mailbox (add_mailbox_header p) p holds in
      let read = read_lem file southbound_mailbox (a ∷ b ∷ c ∷ d ∷ []) w in
      let body =
        read_lem file (southbound_mailbox + mailbox_header_size) (take (length p) buffer) read.0 in
      (
        body.0,
        ap (λ r. and_then r (λ x. after_header bits bus p buffer (header_of x.1) x)) read.1
            ∙ ap (λ bs. after_header bits bus p buffer (header_of bs) (none, bs) read.0) parts.0
            ∙ ap
                (λ h.
                  after_header bits bus p buffer h (none, header_bytes (add_mailbox_header p))
                    read.0)
                (same_header bits bus p buffer closed short)
            ∙ small_enough bits bus p buffer (header_bytes (add_mailbox_header p)) read.0 short
            ∙ ap
                (λ r.
                  and_then (and_then r unless_error)
                    (accept bits bus comm_dev (header bits bus p buffer) (drop (length p) buffer)))
                body.1
            ∙ ap
                (λ bs.
                  accept bits bus comm_dev (header bits bus p buffer) (drop (length p) buffer) bs
                    body.0)
                (ap₂ (λ g n. window g 0x9508 n) (ap (λ x. x.0) read.2)
                    (length-take_le (length p) buffer room)
                  ∙ parts.1)
            ∙ accepts bits bus p buffer closed short body.0,
      )
