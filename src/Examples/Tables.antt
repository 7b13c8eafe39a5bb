-- ===== src/Examples/Tables.antt =====
-- A root table of 64 bits with two entries, the second of which is the one asked for.
use fenestella.Prelude.{
  ℕ, zero, suc, ◌≡◌, refl, some, [], ◌∷◌, arith, ◌==◌, if◌then◌else◌, ltb, leb, ◌&&◌, ◌-◌, ◌+◌, ◌<◌,
  ◌≢◌, List, get_or,
}
use fenestella.Acpi.{get_table, xsdt_of, rsdt_of, entries_of, xsdt_get}
use fenestella.Strings.{strlen, strncmp}
use fenestella.Acpi.Search.{get_table-pick, root_get, root_entries, pick, entries_from}
use fenestella.Strings.Prefix.{Bytes, same_bytes}

abbrev facp : List ℕ
facp = 0x46 ∷ 0x41 ∷ 0x43 ∷ 0x50 ∷ []

abbrev apic : List ℕ
apic = 0x41 ∷ 0x50 ∷ 0x49 ∷ 0x43 ∷ []

abbrev high : ℕ
high = 0xffff800000000000

abbrev bytes : ℕ → ℕ
bytes a =
    if a == 0x1019
    then 0x20
    else if a == high + 0x2004
    then 52
    else if a == high + 0x2025
    then 0x30
    else if a == high + 0x202d
    then 0x40
    else if leb (high + 0x3000) a && ltb a (high + 0x3004)
    then get_or apic (a - high - 0x3000) 0
    else if leb (high + 0x4000) a && ltb a (high + 0x4004)
    then get_or facp (a - high - 0x4000) 0
    else if leb 0x100 a && ltb a 0x104
    then get_or facp (a - 0x100) 0
    else 0

entries : root_entries bytes 0x1000 ≡ 2
unfolding xsdt_of rsdt_of entries_of
entries = refl

table_found : get_table bytes 0x1000 0x100 0 9 ≡ some (high + 0x4000)
unfolding get_table strlen xsdt_of xsdt_get strncmp
table_found = refl

first_entry : root_get bytes 0x1000 0 ≡ high + 0x3000
unfolding xsdt_of xsdt_get
first_entry = refl

second_entry : root_get bytes 0x1000 1 ≡ high + 0x4000
unfolding xsdt_of xsdt_get
second_entry = refl

facp_small : (i : ℕ) → get_or facp i 0 < 0x100
facp_small zero = omega arith
facp_small (suc zero) = omega arith
facp_small (suc (suc zero)) = omega arith
facp_small (suc (suc (suc zero))) = omega arith
facp_small (suc (suc (suc (suc i)))) = omega arith

apic_small : (i : ℕ) → get_or apic i 0 < 0x100
apic_small zero = omega arith
apic_small (suc zero) = omega arith
apic_small (suc (suc zero)) = omega arith
apic_small (suc (suc (suc zero))) = omega arith
apic_small (suc (suc (suc (suc i)))) = omega arith

bytes-Bytes : Bytes bytes
bytes-Bytes a =
    ground (
      arith,
      apic_small (a - high - 0x3000),
      facp_small (a - high - 0x4000),
      facp_small (a - 0x100),
    )

not_null : (j : ℕ) → j < root_entries bytes 0x1000 → root_get bytes 0x1000 j ≢ 0
not_null zero h e = absurd (omega (arith, first_entry, e))
not_null (suc zero) h e = absurd (omega (arith, second_entry, e))
not_null (suc (suc j)) h e = absurd (omega (arith, entries, h))

get_table-pick_example :
    get_table bytes 0x1000 0x100 0 9
    ≡ some (
        pick
          (λ header. same_bytes bytes header 0x100 4)
          0
          (entries_from (root_get bytes 0x1000) (root_entries bytes 0x1000) 0))
get_table-pick_example =
    get_table-pick bytes 0x1000 0x100 0 9 facp refl
      (
        refl,
        omega arith,
        omega arith,
        (
          refl,
          omega arith,
          omega arith,
          (refl, omega arith, omega arith, (refl, omega arith, omega arith, refl)),
        ),
      )
      refl bytes-Bytes (omega arith) (omega (arith, entries)) not_null (omega arith)
      (omega (arith, entries))
