-- ===== src/Gic.antt =====
-- kernel/arch/aarch64/gic.cpp: the accesses to the interrupt controller's registers.
--
-- A write is recorded, newest first; what a read returns is the device's, so it is an argument.
use planetoid_os.Base.{
  ℕ, ◌+◌, ◌-◌, ◌*◌, ◌/◌, ◌%◌, ◌^◌, Bool, List, ◌∷◌, bit_and, if◌then◌else◌, for_range,
}

abbrev pub Writes : Type 0
Writes = List (ℕ × ℕ)

abbrev pub write_32 : (address value : ℕ) → Writes → Writes
write_32 address value writes = (address, value) ∷ writes

-- `pi5` is `OS_PLATFORM_PI5`.
module _ (pi5 : Bool) where
  abbrev pub gic_dist_base : ℕ
  gic_dist_base = if pi5 then 0x107FFF9000 else 0x08000000

  abbrev pub gic_cpu_base : ℕ
  gic_cpu_base = if pi5 then 0x107FFFA000 else 0x08010000

  unfoldable pub init : (typer : ℕ) → Writes → Writes
  init typer writes =
      let lines = bit_and typer 0x1F + 1 in
      let off = write_32 gic_dist_base 0 writes in
      let masked =
        for_range (lines - 1) 1
          (λ i (w : Writes). write_32 (gic_dist_base + 0x180 + i * 4) 0xFFFFFFFF w) off in
      let ranked =
        for_range (lines * 8) 0
          (λ i (w : Writes). write_32 (gic_dist_base + 0x400 + i * 4) 0xA0A0A0A0 w) masked in
      write_32 gic_dist_base 1 (write_32 gic_cpu_base 1 (write_32 (gic_cpu_base + 0x4) 0xFF ranked))

  unfoldable pub enable_interrupt : (interrupt_id : ℕ) → Writes → Writes
  enable_interrupt interrupt_id writes =
      write_32 (gic_dist_base + 0x100 + interrupt_id / 32 * 4) (2 ^ (interrupt_id % 32)) writes

  -- The register that `acknowledge_interrupt` reads.
  abbrev pub acknowledge_register : ℕ
  acknowledge_register = gic_cpu_base + 0xC

  unfoldable pub end_interrupt : (interrupt_id : ℕ) → Writes → Writes
  end_interrupt interrupt_id writes = write_32 (gic_cpu_base + 0x10) interrupt_id writes
