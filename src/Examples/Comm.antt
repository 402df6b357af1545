-- ===== src/Examples/Comm.antt =====
-- The theorems on the I2C bus and the communication device, at a concrete device and message.
use opx_sdi_sys.Base.{
  ℕ, zero, suc, ◌+◌, ◌%◌, ◌/◌, ◌^◌, ◌≡◌, refl, arith, true, false, none, some, List, [], ◌∷◌, ◌++◌,
  take, drop, if◌then◌else◌, ◌==◌, Result, ok, err, errcode, enotsup, fail, callee,
}
use opx_sdi_sys.Base.StdBits.{binary_bits}
use opx_sdi_sys.Bus.{i2c_bus}
use opx_sdi_sys.Bus.Mutex.{released}
use opx_sdi_sys.I2c.{
  I2cBus, sdi_smbus_recv_byte, sdi_smbus_send_byte, sdi_smbus_read_byte, sdi_smbus_write_byte,
  sdi_i2c_read, sdi_i2c_write, sdi_smbus_read_multi_byte, sdi_smbus_write_multi_byte,
  sdi_smbus_read_word, sdi_smbus_write_word, sdi_smbus_write_i2c_block_data,
}
use opx_sdi_sys.I2c.Device.{View, overlay, window}
use opx_sdi_sys.I2c.Locking.{calls_release}
use opx_sdi_sys.CommDev.{comm_dev, sdi_comm_dev_read, sdi_comm_dev_write, recv_bytes}
use opx_sdi_sys.CommDev.Transfer.{read-write_registers}
use opx_sdi_sys.CommDev.LastError.{recv_bytes_forgets}
use opx_sdi_sys.CommDev.Control.{
  sdi_flush_msg_buffer, sdi_package_read_and_verified, sdi_package_download_complete,
}
use opx_sdi_sys.CommDev.Control.Registers.{sets_control_bit}
use opx_sdi_sys.CommDev.Mailbox.{
  MailboxHeader, header_bytes, header_of, add_mailbox_header, check_mailbox_header,
  sdi_read_mailbox, sdi_write_mailbox,
}
use opx_sdi_sys.Base.Strings.{c_string}
use opx_sdi_sys.CommDev.Mailbox.Header.{sum, check-add, check-corrupted}
use opx_sdi_sys.CommDev.Mailbox.Delivery.{delivers_message, receives_message}
use opx_sdi_sys.Examples.{
  Locked, lock_of, lock_of-IsMutex, broken_lock, is_held, device_ops, device_bus, device_view,
  device_bus-IsRegisterFile,
}

abbrev pub fresh : Locked View
fresh = (((λ a. 1), 0), false)

abbrev broken_bus : I2cBus (Locked View)
broken_bus = record { bus_type = i2c_bus; ops = device_ops; mutex = broken_lock }

-- "Hi", with its null.
abbrev message : List ℕ
message = 72 ∷ 105 ∷ 0 ∷ []

abbrev seventeen : List ℕ
seventeen = 1 ∷ 2 ∷ 3 ∷ 4 ∷ 5 ∷ 6 ∷ 7 ∷ 8 ∷ 9 ∷ 10 ∷ 11 ∷ 12 ∷ 13 ∷ 14 ∷ 15 ∷ 16 ∷ 17 ∷ []

calls_release_example :
    (released is_held (sdi_smbus_recv_byte device_bus 0x32 0 fresh) ≡ true)
    × (released is_held (sdi_smbus_send_byte device_bus 0x32 9 0 fresh) ≡ true)
    × (released is_held (sdi_smbus_read_byte device_bus 0x32 7 0 fresh) ≡ true)
    × (released is_held (sdi_smbus_write_byte device_bus 0x32 7 9 0 fresh) ≡ true)
    × (released is_held (sdi_i2c_read device_bus 0x32 (1 ∷ []) 2 0 fresh) ≡ true)
    × (released is_held (sdi_i2c_write device_bus 0x32 (1 ∷ []) 9 2 0 fresh) ≡ true)
    × (released is_held (sdi_smbus_read_multi_byte device_bus 0x32 7 2 0 fresh) ≡ true)
    × (released is_held (sdi_smbus_write_multi_byte device_bus 0x32 7 (1 ∷ []) 0 fresh) ≡ true)
    × (released is_held (sdi_smbus_read_word device_bus 0x32 7 0 fresh) ≡ true)
    × (released is_held (sdi_smbus_write_word device_bus 0x32 7 9 0 fresh) ≡ true)
    × (released is_held (sdi_smbus_write_i2c_block_data device_bus 0x32 7 (1 ∷ []) 0 fresh) ≡ true)
calls_release_example =
    calls_release device_bus 0x32 7 9 2 0 (1 ∷ []) is_held fresh refl lock_of-IsMutex refl

-- Two blocks, of 16 bytes and of one.
read-write_registers_example :
    (w' : Locked View) × (sdi_comm_dev_write device_bus comm_dev 0x32 0x7800 seventeen fresh
      ≡ (ok tt, w'))
    × ((device_view w').0 ≡ overlay 0x7800 seventeen (device_view fresh).0)
    × (w'' : Locked View) × (sdi_comm_dev_read device_bus comm_dev 0x32 0x7800 seventeen w'
        ≡ (ok (none, seventeen), w''))
    × ((device_view w'').0 ≡ overlay 0x7800 seventeen (device_view fresh).0)
read-write_registers_example =
    read-write_registers device_bus 0x32 device_view 0x7800 seventeen seventeen fresh
      (device_bus-IsRegisterFile 0x32) (omega arith) refl

check-add_example :
    ((header_of (header_bytes (add_mailbox_header message))).size ≡ 3)
    × ((sum (take (header_of (header_bytes (add_mailbox_header message))).size message)
            + (header_of (header_bytes (add_mailbox_header message))).size % 2 ^ 8
            + (header_of (header_bytes (add_mailbox_header message))).size / 2 ^ 8
            + (header_of (header_bytes (add_mailbox_header message))).checksum)
          % 2 ^ 16
        ≡ 0)
    × (check_mailbox_header message (header_of (header_bytes (add_mailbox_header message))) ≡ true)
unfolding c_string
check-add_example = check-add message

-- 72 + 105 + 3 is 180.
check-corrupted_example :
    check_mailbox_header (72 ∷ 107 ∷ 0 ∷ []) (record { checksum = 65356; size = 3 }) ≡ false
unfolding check_mailbox_header
check-corrupted_example =
    check-corrupted (record { checksum = 65356; size = 3 }) (72 ∷ []) (0 ∷ []) 105 107 (omega arith)
      (omega arith) (omega arith) (omega arith) refl

sets_control_bit_example :
    ((w' : Locked View) × (sdi_flush_msg_buffer binary_bits device_bus comm_dev fresh ≡ (ok tt, w'))
      × (binary_bits.test ((device_view w').0 0x7C92) 2
          ≡ (if 0 == 2 then true else binary_bits.test ((device_view fresh).0 0x7C92) 2))
      × ((device_view w').0 0x7C93 ≡ (device_view fresh).0 0x7C93))
    × ((w' : Locked View) × (sdi_package_read_and_verified binary_bits device_bus comm_dev fresh
          ≡ (ok tt, w'))
        × (binary_bits.test ((device_view w').0 0x7C92) 2
            ≡ (if 1 == 2 then true else binary_bits.test ((device_view fresh).0 0x7C92) 2))
        × ((device_view w').0 0x7C93 ≡ (device_view fresh).0 0x7C93))
    × ((w' : Locked View) × (sdi_package_download_complete binary_bits device_bus comm_dev fresh
          ≡ (ok tt, w'))
        × (binary_bits.test ((device_view w').0 0x7C92) 2
            ≡ (if 2 == 2 then true else binary_bits.test ((device_view fresh).0 0x7C92) 2))
        × ((device_view w').0 0x7C94 ≡ 3))
sets_control_bit_example =
    sets_control_bit binary_bits device_bus device_view fresh 2 0x7C93
      (device_bus-IsRegisterFile 0x32) (omega arith) (omega arith)

delivers_message_example :
    (w' : Locked View) × (sdi_write_mailbox binary_bits device_bus comm_dev 3 message fresh
      ≡ (ok tt, w'))
    × (window (device_view w').0 0x8500 (4 + 3)
        ≡ header_bytes (add_mailbox_header message) ++ take 3 message)
delivers_message_example =
    delivers_message binary_bits device_bus device_view 3 message fresh
      (device_bus-IsRegisterFile 0x32) (omega arith) (omega arith)

-- The southbound mailbox holds the message behind its header.
abbrev received : Locked View
received = ((overlay 0x9504 (76 ∷ 255 ∷ 3 ∷ 0 ∷ message) (λ a. 0), 0), false)

receives_message_example :
    (w' : Locked View) × (sdi_read_mailbox binary_bits device_bus comm_dev
        (9 ∷ 9 ∷ 9 ∷ 9 ∷ [])
        seventeen
        received
      ≡ (ok (message ++ drop 3 seventeen), w'))
unfolding overlay window opx_sdi_sys.CommDev.Mailbox.strlen header_bytes add_mailbox_header
    opx_sdi_sys.CommDev.Mailbox.added_checksum
receives_message_example =
    receives_message binary_bits device_bus device_view message seventeen 9 9 9 9 received
      (device_bus-IsRegisterFile 0x32) refl (omega arith) (omega arith) refl

-- A bus that fails every second time it is asked for a byte.
abbrev flaky_read : Locked View → Result ℕ × Locked View
flaky_read ((f, zero), held) = (err (callee 5), ((f, 1), held))
flaky_read ((f, suc n), held) = (ok 42, ((f, n), held))

abbrev flaky_bus : I2cBus (Locked View)
flaky_bus = record {
  bus_type = i2c_bus;
  ops = record {
    smbus_read = λ addr type cmd flags. flaky_read;
    smbus_write = λ addr type cmd bytes flags w. (ok tt, w);
    i2c_read = λ addr cmd n flags. fail (errcode enotsup);
    i2c_write = λ addr cmd b n flags. fail (errcode enotsup);
  };
  mutex = lock_of;
}

recv_bytes_forgets_example :
    recv_bytes flaky_bus 0x32 none (0 ∷ 0 ∷ []) fresh ≡ (ok (none, 0 ∷ 42 ∷ []), fresh)
unfolding recv_bytes sdi_smbus_recv_byte opx_sdi_sys.Bus.Mutex.with_lock
recv_bytes_forgets_example =
    recv_bytes_forgets flaky_bus 0x32 none (some (callee 5)) (0 ∷ []) (0 ∷ []) 0 42 fresh
      (((λ a. 1), 1), false) fresh refl refl
