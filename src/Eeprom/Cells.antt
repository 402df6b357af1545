-- ===== src/Eeprom/Cells.antt =====
-- src/drivers/sdi_eeprom.c: devices that give their cells, and the EEPROM of 256 bytes as one.
use opx_sdi_sys.Base.{ℕ, ◌+◌, ◌≤◌, ◌<◌, ◌≡◌, arith, false, leb}
use opx_sdi_sys.I2c.{I2cBus, flag_none}
use opx_sdi_sys.I2c.Device.{Gives, window}
use opx_sdi_sys.I2c.MultiByte.{IsByteMemory, read_multi_byte-Gives}
use opx_sdi_sys.Eeprom.{ReadFn, EntityInfoDevice, sdi_eeprom_read}

-- A device whose reads in its first `size` cells give them and leave them.
abbrev pub IsReadable : {W : Type 0} → ReadFn W → ℕ → (W → ℕ → ℕ) → Type 0
IsReadable {W} read size regs =
    (offset len : ℕ) (w : W)
    → offset < size
    → offset + len ≤ size
    → Gives regs (read offset len flag_none) w (window (regs w) offset len) (regs w)

-- On a bus with a device that keeps a byte for each command: the reads of sdi_eeprom_read of an EEPROM of
-- 256 bytes, inside the device, succeed with its cells and leave them as they are.
pub eeprom_read-IsReadable :
    {W : Type 0} (bus : I2cBus W) (addr : ℕ) (regs : W → ℕ → ℕ) (device : EntityInfoDevice)
    → IsByteMemory bus addr flag_none regs
    → device.entity_size ≡ 256
    → IsReadable (sdi_eeprom_read bus addr device) 256 regs
unfolding sdi_eeprom_read
eeprom_read-IsReadable bus addr regs device memory size offset len w low inside =
    let fits : leb device.entity_size offset ≡ false = ground arith in
    rw (fits, size) (read_multi_byte-Gives memory offset len w (omega arith))
