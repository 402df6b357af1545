-- ===== src/DeviceData.antt =====
-- src/drivers/sdi_platform_util.c, and what the handle of a device carries (sdi_device_entry_t in
-- inc/opx/private/sdi_driver_internal.h): the data of its driver beside the hardware.
use opx_sdi_sys.Base.{ℕ, ◌/◌, ◌%◌, ◌*◌, ◌^◌, Io, Result, ok, err, abort, and_then, bit_or}

-- The world of a driver that changes its private_data.
pub record Driven (S W : Type 0) : Type 0 where
  pub private_data : S
  pub hardware : W

module _ {S W : Type 0} where
  abbrev with_data : {A : Type 0} → S → Result A × W → Result A × Driven S W
  with_data s (r, w) = (r, record { private_data = s; hardware = w })

  -- A call that leaves the data of the driver.
  abbrev pub on_hardware : {A : Type 0} → Io W A → Io (Driven S W) A
  on_hardware call c = with_data c.private_data (call c.hardware)

  abbrev pub get_data : Io (Driven S W) S
  get_data c = (ok c.private_data, c)

  abbrev pub set_data : S → Io (Driven S W) (Unit {0})
  set_data s c = (ok tt, record { private_data = s; hardware = c.hardware })

-- A predicate that a call and what follows it keep.
module _ {S W : Type 0} (P : Driven S W → Type 0) where
  pub and_then_keeps :
      {A B : Type 0} (r : Result A × Driven S W) (k : A → Io (Driven S W) B)
      → P r.1
      → ((a : A) (c : Driven S W) → P c → P (k a c).1)
      → P (and_then r k).1
  and_then_keeps (ok a, c) k here next = next a c here
  and_then_keeps (err e, c) k here next = here
  and_then_keeps (abort, c) k here next = here

-- A byte array of two bytes is a pair.
unfoldable pub sdi_platform_util_convert_le_to_uint16 : ℕ × ℕ → ℕ
sdi_platform_util_convert_le_to_uint16 (d0, d1) = bit_or d0 (d1 * 2 ^ 8)

unfoldable pub sdi_platform_util_write_16bit_to_bytearray_le : ℕ → ℕ × ℕ
sdi_platform_util_write_16bit_to_bytearray_le value = (value % 2 ^ 8, value / 2 ^ 8 % 2 ^ 8)
