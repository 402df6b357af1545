-- ===== src/Cpld/Group/Latch.antt =====
-- src/drivers/sdi_cpld_pin_group.c as an implementation of Bus/Latch.
use opx_sdi_sys.Base.{
  ℕ, ◌+◌, ◌-◌, ◌/◌, ◌^◌, ◌≤◌, ◌<◌, ◌≡◌, refl, sym, ap, ◌∙◌, arith, ok, Result, bit_and,
}
use opx_sdi_sys.Bus.{ByteBus, pin_group_bus}
use opx_sdi_sys.Bus.Memory.{IsMemory}
use opx_sdi_sys.Bus.Group.{GroupBus}
use opx_sdi_sys.Bus.Latch.{IsLatch}
use opx_sdi_sys.Bus.Mutex.{Mutex}
use opx_sdi_sys.Cpld.{CpldDevice, default_register_width}
use opx_sdi_sys.Cpld.Group.{CpldPinGroup, toggle_if, sdi_cpld_pin_group_ops}
use opx_sdi_sys.Cpld.Group.Byte.{width_of}
use opx_sdi_sys.Cpld.Group.Single.{read_single, group_read-write}

module _ {W : Type 0} (bus : ByteBus W) (peek : W → ℕ → ℕ) (dev : CpldDevice) (group : CpldPinGroup)
    (mutex : Mutex W) where
  open group use {start_addr, start_offset, end_offset, default_polarity}

  -- What the pins of the group show.
  abbrev pub group_level : W → ℕ
  group_level w =
      toggle_if default_polarity 32
        (bit_and (peek w start_addr / 2 ^ start_offset) (2 ^ width_of start_offset end_offset - 1))
        start_offset end_offset

  abbrev pub group_bus : GroupBus W
  group_bus = record {
    bus_type = pin_group_bus;
    ops = sdi_cpld_pin_group_ops bus dev group;
    mutex = mutex;
  }

  -- A group of the CPLD pin group driver in one register of one byte, on a CPLD whose registers
  -- behave as memory and under a lock that can be taken and leaves the registers alone, is a latch
  -- for the levels that fit its field: the pin group bus over it reads the level that was written.
  pub group_bus-IsLatch :
      IsMemory bus peek
      → dev.width ≡ default_register_width
      → group.length ≡ 1
      → start_offset ≤ end_offset
      → end_offset < 8
      → ((w : W) → (w' : W) × (mutex.lock w ≡ (ok tt, w')) × (peek w' ≡ peek w))
      → ((w : W) → peek (mutex.unlock w) ≡ peek w)
      → IsLatch group_bus group_level (2 ^ (end_offset - start_offset + 1))
  unfolding sdi_cpld_pin_group_ops
  group_bus-IsLatch memory width_one single order small locks unlocks = record {
    group = refl;
    locks = λ w. ((locks w).0, (locks w).1, ap (λ f. level_of f) (locks w).2);
    level-unlock = λ w. ap (λ f. level_of f) (unlocks w);
    reads = reads;
    writes = λ w v fits.
        let done =
          group_read-write bus peek memory dev group width_one single order small v w
            (start_addr + 1) 0 fits (omega arith) (omega arith) in
        (done.0, done.1, value_of (sym (reads done.0) ∙ done.2));
  }
    where
      level_of : (ℕ → ℕ) → ℕ
      level_of f =
          toggle_if default_polarity 32
            (bit_and (f start_addr / 2 ^ start_offset) (2 ^ width_of start_offset end_offset - 1))
            start_offset end_offset

      reads : (w : W) → group_bus.ops.read_level w ≡ (ok (group_level w), w)
      reads w = read_single bus peek memory dev group width_one single order small w

      get : Result ℕ × W → ℕ
      get (ok a, w) = a
      get _ = 0

      value_of : {x y : ℕ} {w : W} → ◌≡◌ {A = Result ℕ × W} (ok x, w) (ok y, w) → x ≡ y
      value_of e = ap get e
