-- ===== src/Acpi.antt =====
-- kernel/src/iodev/acpi/tables/tables.c: the search for a table of the firmware, on a memory of bytes.
pub mod Search
use fenestella.Prelude.{
  ℕ, zero, suc, ◌+◌, ◌-◌, ◌*◌, ◌/◌, ◌%◌, ◌^◌, Bool, true, false, not, ◌&&◌, Option, none, some,
  ◌==◌, leb, if◌then◌else◌,
}
use fenestella.Strings.{strlen, strncmp}

abbrev pub u64 : ℕ → ℕ
u64 n = n % 2 ^ 64

-- `PAGING_VIRTUAL_OFFSET`.
abbrev pub virtual_offset : ℕ
virtual_offset = 0xffff800000000000

-- `sizeof(acpi_sdt_header_t)`, and where `length`, `rsdt` and `xsdt` stand in the structures.
abbrev pub sdt_header_size : ℕ
sdt_header_size = 36

abbrev pub rsdp_size : ℕ
rsdp_size = 36

module _ (m : ℕ → ℕ) where
  abbrev pub read_32 : ℕ → ℕ
  read_32 a = m a + m (a + 1) * 0x100 + m (a + 2) * 0x10000 + m (a + 3) * 0x1000000

  abbrev pub read_64 : ℕ → ℕ
  read_64 a = read_32 a + read_32 (a + 4) * 2 ^ 32

  unfoldable pub table_length : ℕ → ℕ
  table_length header = read_32 (header + 4)

  unfoldable pub rsdt_of : ℕ → ℕ
  rsdt_of rsdp = read_32 (rsdp + 16)

  unfoldable pub xsdt_of : ℕ → ℕ
  xsdt_of rsdp = read_64 (rsdp + 24)

  -- The number of entries behind a header, as both functions count: by `sizeof(uintptr_t)`.
  unfoldable pub entries_of : ℕ → ℕ
  unfolding table_length
  entries_of header = u64 (table_length header + 2 ^ 64 - sdt_header_size) / 8

  unfoldable pub rsdt_get : ℕ → ℕ → ℕ
  unfolding rsdt_of entries_of
  rsdt_get rsdp index =
      let header = u64 (rsdt_of rsdp + virtual_offset) in
      if leb (entries_of header) index
      then 0
      else u64 (read_32 (u64 (header + sdt_header_size + index * 4)) + virtual_offset)

  unfoldable pub xsdt_get : ℕ → ℕ → ℕ
  unfolding xsdt_of entries_of
  xsdt_get rsdp index =
      let header = u64 (xsdt_of rsdp + virtual_offset) in
      if leb (entries_of header) index
      then 0
      else u64 (read_64 (u64 (header + sdt_header_size + index * 8)) + virtual_offset)

  -- The loop: `get` is one of the two functions above. The counters are of 16 bits.
  unfoldable pub search : (ℕ → ℕ) → ℕ → ℕ → ℕ → ℕ → ℕ → Option ℕ
  search get signature index zero i occurrence = none
  search get signature index (suc fuel) i occurrence =
      let header = get i in
      let same = strncmp m header signature 4 == 0 in
      let rest =
        search get signature index fuel ((i + 1) % 2 ^ 16)
          (if same then (occurrence + 1) % 2 ^ 16 else occurrence) in
      if header == 0 then some 0 else if same && occurrence == index then some header else rest

  -- `acpi_rsdp nullvptr`: the offset is taken off in units of the structure.
  abbrev pub is_nullvptr : ℕ → Bool
  is_nullvptr rsdp = u64 (rsdp + 2 ^ 64 - u64 (virtual_offset * rsdp_size)) == 0

  unfoldable pub get_table : ℕ → ℕ → ℕ → ℕ → Option ℕ
  unfolding search
  get_table rsdp signature index fuel =
      if is_nullvptr rsdp then some 0 else elim (strlen fuel m signature) [
        | none ↦ none
        | some n ↦
            if not (n == 4)
            then some 0
            else search (if xsdt_of rsdp == 0 then rsdt_get rsdp else xsdt_get rsdp) signature index
                fuel 0 0
      ]
