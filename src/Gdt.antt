-- ===== src/Gdt.antt =====
-- kernel/src/cpu/gdt/gdt.c: the segment descriptors, on the bytes of the table `__gdt`.
pub mod Segments
use fenestella.Prelude.{
  ℕ, zero, suc, ◌+◌, ◌-◌, ◌*◌, ◌/◌, ◌%◌, ◌^◌, List, [], ◌∷◌, ◌==◌, leb, if◌then◌else◌, bit_or,
}

abbrev pub gdt_max_descriptors : ℕ
gdt_max_descriptors = 0x2000

abbrev pub gdt_descriptor_size : ℕ
gdt_descriptor_size = 8

abbrev pub gdt_basic_descriptor : ℕ
gdt_basic_descriptor = bit_or (bit_or 0x80 0x02) 0x10

abbrev pub gdt_basic_granularity : ℕ
gdt_basic_granularity = bit_or 0x20 0x80

abbrev pub tss_size : ℕ
tss_size = 0x70

-- The bytes of `__gdt` by their offset, and the number of its next entry.
pub record Gdt : Type 0 where
  pub byte : ℕ → ℕ
  pub gindex : ℕ

-- Bytes one behind the other, from an offset on.
unfoldable pub write_bytes : ℕ → List ℕ → (ℕ → ℕ) → ℕ → ℕ
write_bytes at [] m a = m a
write_bytes at (b ∷ bs) m a = if a == at then b else write_bytes (at + 1) bs m a

-- `gdt_desc_t`, in the order of its bytes.
abbrev pub descriptor : ℕ → ℕ → ℕ → ℕ → List ℕ
descriptor base limit access granularity =
    limit % 0x100
    ∷ limit / 0x100 % 0x100
    ∷ base % 0x100
    ∷ base / 0x100 % 0x100
    ∷ base / 0x10000 % 0x100
    ∷ access % 0x100
    ∷ granularity % 0x100
    ∷ base / 0x1000000 % 0x100
    ∷ []

unfoldable pub gdt_add_descriptor : ℕ → ℕ → ℕ → ℕ → Gdt → Gdt
gdt_add_descriptor base limit access granularity g =
    if leb gdt_max_descriptors g.gindex then g else record {
      byte =
          write_bytes (g.gindex * gdt_descriptor_size) (descriptor base limit access granularity)
            g.byte;
      gindex = g.gindex + 1;
    }

-- `gdt_tss_desc_t`, in the order of its bytes.
abbrev pub tss_descriptor : ℕ → List ℕ
tss_descriptor tss =
    tss_size % 0x100
    ∷ tss_size / 0x100 % 0x100
    ∷ tss % 0x100
    ∷ tss / 0x100 % 0x100
    ∷ tss / 0x10000 % 0x100
    ∷ bit_or (bit_or 0x01 0x08) 0x80
    ∷ tss_size / 0x10000 % 0x10
    ∷ tss / 0x1000000 % 0x100
    ∷ tss / 2 ^ 32 % 0x100
    ∷ tss / 2 ^ 40 % 0x100
    ∷ tss / 2 ^ 48 % 0x100
    ∷ tss / 2 ^ 56 % 0x100
    ∷ 0
    ∷ 0
    ∷ 0
    ∷ 0
    ∷ []

-- The selector, and the table: two entries are written, behind the last one too.
unfoldable pub gdt_install_tss : ℕ → Gdt → ℕ × Gdt
gdt_install_tss tss g = if leb gdt_max_descriptors g.gindex then (0, g) else (
  g.gindex * gdt_descriptor_size,
  record {
    byte = write_bytes (g.gindex * gdt_descriptor_size) (tss_descriptor tss) g.byte;
    gindex = g.gindex + 2;
  },
)

-- `gdt_assemble`, without the load of the register.
unfoldable pub gdt_assemble : Gdt → Gdt
unfolding gdt_add_descriptor
gdt_assemble g =
    let null = gdt_add_descriptor 0 0 0 0 g in
    let kernel_code =
      gdt_add_descriptor 0 0xFFFF (bit_or gdt_basic_descriptor 0x08) gdt_basic_granularity null in
    let kernel_data =
      gdt_add_descriptor 0 0xFFFF gdt_basic_descriptor gdt_basic_granularity kernel_code in
    let user_data =
      gdt_add_descriptor 0 0xFFFF (bit_or gdt_basic_descriptor 0x60) gdt_basic_granularity
        kernel_data in
    let user_code =
      gdt_add_descriptor 0 0xFFFF (bit_or (bit_or gdt_basic_descriptor 0x60) 0x08)
        gdt_basic_granularity user_data in
    gdt_add_descriptor 0 0 0 0 user_code
