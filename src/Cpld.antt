-- ===== src/Cpld.antt =====
-- src/drivers/sdi_cpld_pin.c, src/drivers/sdi_cpld_pin_group.c, inc/opx/private/sdi_cpld.h.
pub mod Pin
pub mod Group
use opx_sdi_sys.Base.{ℕ}

-- sdi_cpld_device_t: the range of registers, and the width of one in bytes.
pub record CpldDevice : Type 0 where
  pub width : ℕ
  pub start_addr : ℕ
  pub end_addr : ℕ

-- SDI_CPLD_DEFAULT_REGISTER_WIDTH
abbrev pub default_register_width : ℕ
default_register_width = 1
