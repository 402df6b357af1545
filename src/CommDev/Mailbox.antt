-- ===== src/CommDev/Mailbox.antt =====
-- src/drivers/sdi_comm_dev_driver.c: messages in the mailboxes, each behind a header of four bytes.
pub mod Header
pub mod Delivery
use opx_sdi_sys.Base.{
  Rc, unless_error, catch, ℕ, zero, suc, ◌+◌, ◌-◌, ◌*◌, ◌/◌, ◌%◌, ◌^◌, ◌⊎◌, inl, inr, Bool, true,
  false, Option, none, some, List, [], ◌∷◌, ◌++◌, bit_and, ltb, ◌==◌, if◌then◌else◌, length, take,
  drop, Io, Result, ok, err, abort, StdError, pure, fail, errcode, eperm, ◌>>=◌, ◌>>◌, and_then,
}
use opx_sdi_sys.Base.StdBits.{StdBits}
use opx_sdi_sys.I2c.{I2cBus}
use opx_sdi_sys.CommDev.{
  ResourceType, comm_dev, sdi_comm_dev_read, sdi_comm_dev_write_block, write_chunks,
}
use opx_sdi_sys.CommDev.Control.{comm_dev_i2c_addr, bytes_of, sdi_comm_dev_status_check_and_clear}

-- sdi_comm_dev_attr.h and sdi_comm_dev.h
abbrev pub northbound_mailbox : ℕ
northbound_mailbox = 0x8500

abbrev pub southbound_mailbox : ℕ
southbound_mailbox = 0x9504

abbrev pub mailbox_header_size : ℕ
mailbox_header_size = 4

abbrev pub buffer_max_size : ℕ
buffer_max_size = 4100

-- sdi_mailbox_header_t
pub record MailboxHeader : Type 0 where
  pub checksum : ℕ
  pub size : ℕ

-- The struct in memory, with uint16_t fields.
unfoldable pub header_bytes : MailboxHeader → List ℕ
unfolding bytes_of
header_bytes h = bytes_of h.checksum ++ bytes_of h.size

-- The struct that stands in a buffer of four bytes.
unfoldable pub header_of : List ℕ → MailboxHeader
header_of (a ∷ b ∷ c ∷ d ∷ bytes) = record { checksum = a + b * 2 ^ 8; size = c + d * 2 ^ 8 }
header_of _ = record { checksum = 0; size = 0 }

-- The loop of check_mailbox_header, in uint16_t.
pub add_bytes : ℕ → List ℕ → ℕ
add_bytes str_checksum [] = str_checksum
add_bytes str_checksum (b ∷ bs) = add_bytes ((str_checksum + b) % 2 ^ 16) bs

-- check_mailbox_header: the sum of the string and of both bytes of the size, and its two's complement.
unfoldable pub checksum_of : List ℕ → ℕ → ℕ
unfolding add_bytes
checksum_of p_string size =
    let str_checksum = add_bytes 0 (take size p_string) in
    let with_low = (str_checksum + bit_and size 0xff) % 2 ^ 16 in
    let with_high = (with_low + size / 2 ^ 8) % 2 ^ 16 in (2 ^ 16 - 1 - with_high + 1) % 2 ^ 16

unfoldable pub check_mailbox_header : List ℕ → MailboxHeader → Bool
unfolding checksum_of
check_mailbox_header p_string p_header = checksum_of p_string p_header.size == p_header.checksum

-- The number of bytes before the first null.
unfoldable pub strlen : List ℕ → ℕ
strlen [] = 0
strlen (zero ∷ bytes) = 0
strlen (suc b ∷ bytes) = suc (strlen bytes)

-- The loop of add_mailbox_header, in uint16_t.
pub add_string : ℕ → List ℕ → ℕ
add_string str_checksum [] = str_checksum
add_string str_checksum (b ∷ bs) = add_string ((str_checksum + b) % 2 ^ 16) bs

-- The checksum that add_mailbox_header computes for itself.
unfoldable pub added_checksum : List ℕ → ℕ → ℕ
unfolding add_string
added_checksum p_string size =
    let str_checksum = add_string 0 (take size p_string) in
    let with_low = (str_checksum + bit_and size 0xff) % 2 ^ 16 in
    let with_high = (with_low + size / 2 ^ 8) % 2 ^ 16 in (2 ^ 16 - 1 - with_high + 1) % 2 ^ 16

unfoldable pub add_mailbox_header : List ℕ → MailboxHeader
unfolding added_checksum strlen
add_mailbox_header p_string =
    let size = (strlen p_string + 1) % 2 ^ 16 in
    record { checksum = added_checksum p_string size; size = size }

module _ {W : Type 0} (bits : StdBits) (bus : I2cBus W) (type : ResourceType) where
  accept : MailboxHeader → List ℕ → List ℕ → Io W (List ℕ)
  unfolding check_mailbox_header
  accept header rest regData =
      if check_mailbox_header regData header then pure (regData ++ rest) else fail (errcode eperm)

  -- `stack` is what the uninitialised variable mailbox_header holds before the first read, and
  -- `regData` the caller's buffer, at least as long as a message may be.
  pub sdi_read_mailbox : List ℕ → List ℕ → Io W (List ℕ)
  unfolding sdi_comm_dev_read header_of accept
  sdi_read_mailbox stack regData = do
    read ← sdi_comm_dev_read bus type comm_dev_i2c_addr southbound_mailbox stack
    let header = header_of read.1 in
        if ltb buffer_max_size header.size
        then fail (errcode eperm)
        else (unless_error read >>= λ _.
            sdi_comm_dev_read bus type comm_dev_i2c_addr (southbound_mailbox + mailbox_header_size)
              (take header.size regData)
            >>= unless_error
            >>= accept header (drop header.size regData))

  abbrev payload_after : ℕ → List ℕ → StdError ⊎ Unit {0} → Io W (Unit {0})
  payload_after len regData (inl e) = fail (errcode eperm)
  payload_after len regData (inr tt) =
      write_chunks bus len comm_dev_i2c_addr (northbound_mailbox + mailbox_header_size)
        (take len regData)

  abbrev write_message : ResourceType → ℕ → List ℕ → Io W (Unit {0})
  write_message comm_dev len regData = do
    ignored ← catch (sdi_comm_dev_status_check_and_clear bits bus type)
    header ← catch (
        sdi_comm_dev_write_block bus comm_dev_i2c_addr northbound_mailbox
          (header_bytes (add_mailbox_header regData)))
    payload_after len regData header
  write_message _ len regData = fail (errcode eperm)

  -- `len` is also the fuel of the loop.
  pub sdi_write_mailbox : ℕ → List ℕ → Io W (Unit {0})
  unfolding add_mailbox_header header_bytes sdi_comm_dev_status_check_and_clear
      sdi_comm_dev_write_block write_chunks
  sdi_write_mailbox len regData = write_message type len regData
