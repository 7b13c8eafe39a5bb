-- ===== src/Examples/Devices.antt =====
-- Concrete interrupt tables, registers, PCI functions and shell lines.
use fenestella.Prelude.{◌+◌, ◌≤◌, ◌⊎◌}
use fenestella.Gdt.{Gdt, gdt_install_tss}
use fenestella.Gdt.Segments.{system_base, gdt_install_tss-system_base}
use fenestella.Prelude.{
  ℕ, ◌<◌, ◌≡◌, ◌≢◌, ◌⊎◌, refl, ap, true, false, List, [], ◌∷◌, ◌++◌, arith, ltb,
}
use fenestella.Interrupts.Idt.{
  Idt, isr_of, idt_set_descriptor, idt_free_vector, idt_allocate_vector,
}
use fenestella.Interrupts.Idt.Vectors.{Took, idt_allocate_vector-Took, isr_of-idt_set_descriptor}
use fenestella.Interrupts.Controllers.{
  Pic, pic_mask_irq, pic_unmask_irq, apic_io_redirect_irq, apic_io_unmask_irq, apic_io_get_redirect,
}
use fenestella.Interrupts.Controllers.Masks.{
  line, pic_mask_irq-line, ReadAs, apic_io_get_redirect-apic_io_redirect_irq,
}
use fenestella.Pci.{Pci, Function, Address, pci_conf_write, pci_conf_read, load, store}
use fenestella.Pci.Access.{Elsewhere, pci_conf_read-pci_conf_write}
use fenestella.Shell.{Shell, handle_character, handle_characters}
use fenestella.Shell.Dispatch.{runs, handle_characters-Ran}

abbrev idt : Idt
idt = record {
  idt = λ v. record {
    base_low = 0;
    cs = 0;
    ist = 0;
    attributes = 0;
    base_mid = 0;
    base_high = 0;
    rsv0 = 0;
  };
  vectors = λ v. ltb v 0x20;
  routine_handlers = λ v. 0;
}

idt_allocate_vector-Took_example :
    let r = idt_allocate_vector idt in
    (Took 0 idt r.0 r.1 × (r.0 < 256))
    ⊎ ((r.0 ≡ 0) × (r.1 ≡ idt) × ((u : ℕ) → u < 256 → idt.vectors u ≡ true))
idt_allocate_vector-Took_example = idt_allocate_vector-Took idt

isr_of-idt_set_descriptor_example :
    let t = idt_set_descriptor 8 0x21 0xffffffff80001234 0x8e 1 idt in
    let f = idt_free_vector 8 0x21 t in
    (isr_of (t.idt 0x21) ≡ 0xffffffff80001234)
    × ((t.idt 0x21).attributes ≡ 0x8e)
    × ((t.idt 0x21).ist ≡ 1)
    × ((u : ℕ) → u ≢ 0x21 → t.idt u ≡ idt.idt u)
    × (isr_of (f.idt 0x21) ≡ 0)
    × (f.vectors 0x21 ≡ false)
    × (f.routine_handlers 0x21 ≡ 0)
    × ((u : ℕ) → u ≢ 0x21 → f.vectors u ≡ idt.vectors u)
isr_of-idt_set_descriptor_example =
    isr_of-idt_set_descriptor 8 idt 0x21 0xffffffff80001234 0x8e 1 (omega arith)

abbrev pic : Pic
pic = record { master = 0xfb; slave = 0xff }

pic_mask_irq-line_example :
    (line 10 (pic_mask_irq 9 pic) ≡ 1) × (line 10 (pic_unmask_irq 9 pic) ≡ 1)
pic_mask_irq-line_example =
    pic_mask_irq-line pic 9 10 (omega arith) (omega arith) (omega arith) (omega arith)

abbrev registers : ℕ → ℕ
registers r = 0x10000

apic_io_get_redirect-apic_io_redirect_irq_example :
    let t = apic_io_redirect_irq 1 0x21 false true registers in
    ReadAs (apic_io_get_redirect 1 t) 0x21 false true true
    × ReadAs (apic_io_get_redirect 1 (apic_io_unmask_irq 1 t)) 0x21 false true false
    × ((other : ℕ)
        → other ≢ 1
        → apic_io_get_redirect other t ≡ apic_io_get_redirect other registers)
apic_io_get_redirect-apic_io_redirect_irq_example =
    apic_io_get_redirect-apic_io_redirect_irq registers 1 0x21 false true (omega arith)

abbrev bridge : Function
bridge = record { base = 0x8000; function = 0; device = 0; bus = 0; segment = 0 }

abbrev disk : Function
disk = record { base = 0x10000; function = 0; device = 1; bus = 0; segment = 0 }

abbrev functions : List Function
functions = bridge ∷ disk ∷ []

abbrev pci : Pci
pci = record { cached = true; function_cache = functions; byte = λ a. 0 }

abbrev second : Address
second = record { segment = 0; bus = 0; device = 1; function = 0 }

bridge-Elsewhere : Elsewhere second (bridge ∷ [])
bridge-Elsewhere = (λ e. absurd (omega (arith, ap (λ a. a.device) e)), tt)

pci_conf_read-pci_conf_write_example :
    let written = pci_conf_write (λ s. s) 2 second 4 0x1234 pci in
    (pci_conf_read (λ s. s) 2 second 4 pci ≡ (load 2 0x10004 pci.byte, pci))
    × (written ≡ record pci { byte = store 2 0x10004 0x1234 pci.byte })
    × ((pci_conf_read (λ s. s) 2 second 4 written).0 ≡ 0x1234)
pci_conf_read-pci_conf_write_example =
    pci_conf_read-pci_conf_write (λ s. s) 2 second 4 pci refl (bridge ∷ []) [] disk 0x1234 refl refl
      bridge-Elsewhere tt (omega arith)

abbrev shell : Shell
shell = record {
  prompt_placed = true;
  output_port = 1;
  command_buffer = λ i. 0;
  command_buffer_index = 0;
}

-- The line `idt`.
handle_characters-Ran_example :
    let typed = handle_characters (105 ∷ 100 ∷ 116 ∷ []) shell in
    let done = handle_character 0xd typed.1 in
    (runs (typed.0 ++ done.0) ≡ 2 ∷ []) × (done.1.command_buffer_index ≡ 0)
handle_characters-Ran_example =
    handle_characters-Ran (105 ∷ 100 ∷ 116 ∷ []) 0xd shell
      (omega arith, omega arith, (omega arith, omega arith, (omega arith, omega arith, tt)))
      (omega arith) refl refl

-- A table with six descriptors.
abbrev segments : Gdt
segments = record { byte = λ a. 0; gindex = 6 }

gdt_install_tss-system_base_example :
    let r = gdt_install_tss 0xffffffff80123456 segments in
    (r.0 ≡ 48)
    × (r.1.gindex ≡ 8)
    × (system_base r.1.byte r.0 ≡ 0xffffffff80123456)
    × ((a : ℕ) → (a < r.0) ⊎ (r.0 + 16 ≤ a) → r.1.byte a ≡ 0)
gdt_install_tss-system_base_example =
    gdt_install_tss-system_base 0xffffffff80123456 segments (omega arith) (omega arith)
