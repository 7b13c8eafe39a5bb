-- ===== src/Interrupts/Controllers.antt =====
-- kernel/src/iodev/8259/pic.c and kernel/src/iodev/apic/ioapic.c: the masks of the two PICs, and the
-- redirection entries of an IOAPIC.
pub mod Masks
use fenestella.Prelude.{
  ℕ, zero, suc, ◌+◌, ◌-◌, ◌*◌, ◌/◌, ◌%◌, ◌^◌, Bool, true, false, not, ◌==◌, ltb, if◌then◌else◌,
  update, bit_and, bit_or,
}

-- The registers behind `PIC_MASTER_DATA` and `PIC_SLAVE_DATA`.
pub record Pic : Type 0 where
  pub master : ℕ
  pub slave : ℕ

-- `~(1 << irq)` in 8 bits.
abbrev pub all_but : ℕ → ℕ
all_but irq = 0xff - 2 ^ irq

unfoldable pub pic_mask_irq : ℕ → Pic → Pic
pic_mask_irq irq p =
    if ltb irq 8
    then record p { master = bit_or p.master (2 ^ irq) % 2 ^ 8 }
    else record p { slave = bit_or p.slave (2 ^ (irq - 8)) % 2 ^ 8 }

unfoldable pub pic_unmask_irq : ℕ → Pic → Pic
pic_unmask_irq irq p =
    if ltb irq 8
    then record p { master = bit_and p.master (all_but irq) }
    else record p { slave = bit_and p.slave (all_but (irq - 8)) }

-- The loop of `pic_disable` from `irq` on.
abbrev pub mask_irqs : ℕ → ℕ → Pic → Pic
mask_irqs zero irq p = p
mask_irqs (suc steps) irq p = mask_irqs steps (irq + 1) (pic_mask_irq irq p)

-- `apic_io_redirect_t`
pub record Redirect : Type 0 where
  pub irq : ℕ
  pub vector : ℕ
  pub active_low : Bool
  pub level_triggered : Bool
  pub masked : Bool

-- The 32-bit registers of IOAPIC 0.
abbrev pub Registers : Type 0
Registers = ℕ → ℕ

-- `redirection irq` is `IOAPIC_REGISTER_REDIRECTION(irq)`.
abbrev pub redirection : ℕ → ℕ
redirection irq = 0x10 + 2 * irq

abbrev pub bit : Bool → ℕ → ℕ
bit b n = if b then 2 ^ n else 0

unfoldable pub apic_io_mask_irq : ℕ → Registers → Registers
apic_io_mask_irq irq r = update r (redirection irq) (bit_or (r (redirection irq)) 0x10000)

unfoldable pub apic_io_unmask_irq : ℕ → Registers → Registers
apic_io_unmask_irq irq r =
    update r (redirection irq) (bit_and (r (redirection irq)) (2 ^ 32 - 1 - 0x10000))

unfoldable pub apic_io_redirect_irq : ℕ → ℕ → Bool → Bool → Registers → Registers
apic_io_redirect_irq irq vector alow ltriggered r =
    let redirect = bit_or (bit_or (bit_or vector (bit alow 13)) (bit ltriggered 15)) (2 ^ 16) in
    update (update r (redirection irq + 1) 0) (redirection irq) redirect

unfoldable pub apic_io_get_redirect : ℕ → Registers → Redirect
apic_io_get_redirect irq r =
    let entry = r (redirection irq) in
    record {
      irq = irq;
      vector = bit_and entry 0xff;
      active_low = not (bit_and entry (2 ^ 13) == 0);
      level_triggered = not (bit_and entry (2 ^ 15) == 0);
      masked = not (bit_and entry (2 ^ 16) == 0);
    }
