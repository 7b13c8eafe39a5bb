-- ===== src/Interrupts/Idt.antt =====
-- kernel/src/cpu/interrupts/idt.c: the descriptors of the 256 interrupt vectors, which of the
-- vectors are in use, and the handlers of the routines.
pub mod Vectors
use fenestella.Prelude.{
  ℕ, zero, suc, ◌+◌, ◌*◌, ◌/◌, ◌%◌, ◌^◌, Bool, true, false, ◌==◌, if◌then◌else◌, update,
}

-- `idt_desc_t`
pub record Desc : Type 0 where
  pub base_low : ℕ
  pub cs : ℕ
  pub ist : ℕ
  pub attributes : ℕ
  pub base_mid : ℕ
  pub base_high : ℕ
  pub rsv0 : ℕ

pub record Idt : Type 0 where
  pub idt : ℕ → Desc
  pub vectors : ℕ → Bool
  pub routine_handlers : ℕ → ℕ

abbrev pub idt_max_descriptors : ℕ
idt_max_descriptors = 256

-- The handler that `__uartsh_idt_dump` puts together from a descriptor.
abbrev pub isr_of : Desc → ℕ
isr_of d = d.base_low + d.base_mid * 2 ^ 16 + d.base_high * 2 ^ 32

-- `kernel_code` is `GDT_OFFSET_KERNEL_CODE`.
module _ (kernel_code : ℕ) where
  unfoldable pub idt_set_descriptor : ℕ → ℕ → ℕ → ℕ → Idt → Idt
  idt_set_descriptor vector isr flags ist s = record s {
    idt = update s.idt vector (record {
      base_low = isr % 2 ^ 16;
      cs = kernel_code;
      ist = ist;
      attributes = flags;
      base_mid = isr / 2 ^ 16 % 2 ^ 16;
      base_high = isr / 2 ^ 32 % 2 ^ 32;
      rsv0 = 0;
    });
  }

  -- `stubs` is `isr_stub_table`, `external` and `ist` are `IDT_DESCRIPTOR_EXTERNAL` and `TSS_IST_ROUTINE`.
  unfoldable pub idt_install_irq_handler : (ℕ → ℕ) → ℕ → ℕ → ℕ → ℕ → Idt → Idt
  unfolding idt_set_descriptor
  idt_install_irq_handler stubs external ist vector handler s =
      idt_set_descriptor vector (stubs vector) external ist
        (record s { routine_handlers = update s.routine_handlers vector handler })

  unfoldable pub idt_free_vector : ℕ → Idt → Idt
  unfolding idt_set_descriptor
  idt_free_vector vector s =
      let cleared = idt_set_descriptor vector 0 0 0 s in
      record cleared {
        routine_handlers = update cleared.routine_handlers vector 0;
        vectors = update cleared.vectors vector false;
      }

  -- The loop of `idt_assemble` over the vectors of the CPU's exceptions from `vector` on.
  abbrev pub idt_assemble : (ℕ → ℕ) → ℕ → ℕ → ℕ → ℕ → Idt → Idt
  idt_assemble stubs exception ist zero vector s = s
  idt_assemble stubs exception ist (suc steps) vector s =
      let set = idt_set_descriptor vector (stubs vector) exception ist s in
      idt_assemble stubs exception ist steps (vector + 1)
        (record set { vectors = update set.vectors vector true })

-- The first of the `steps` vectors from `i` on that is not in use, taken; 0 if there is none.
abbrev pub allocate_from : ℕ → ℕ → Idt → ℕ × Idt
allocate_from zero i s = (0, s)
allocate_from (suc steps) i s =
    let rest = allocate_from steps (i + 1) s in
    if s.vectors i then rest else (i % 2 ^ 8, record s { vectors = update s.vectors i true })

unfoldable pub idt_allocate_vector : Idt → ℕ × Idt
idt_allocate_vector s = allocate_from idt_max_descriptors 0 s
