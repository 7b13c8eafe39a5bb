-- ===== src/Paging/Table.antt =====
-- kernel/src/mem/paging/paging.c: mapping, walking, unmapping, editing and moving a page in
-- four levels of tables.
pub mod Keep
pub mod Translate
pub mod Edit
use fenestella.Prelude.{
  ℕ, zero, suc, bit_and, bit_or, Bool, true, false, not, ◌&&◌, Option, none, some, List, ◌∷◌, ◌==◌,
  if◌then◌else◌, M, ◌>>=◌, ◌>>◌,
}
use fenestella.Paging.Desc.{
  flag_present, flags_kernel_page, desc_set_address, desc_get_address, desc_get_flag, desc_set_flag,
  desc_set_flags, Indexer, indexer_assign,
}

-- The tables in memory (by address and index), the register `pml4`, the addresses whose
-- translation was invalidated by `invlpg`, and the state of the page frame allocator.
pub record Space (A : Type 0) : Type 0 where
  pub table : ℕ → ℕ → ℕ
  pub pml4 : ℕ
  pub flushed : List ℕ
  pub pmm : A

unfoldable pub write_entry : (ℕ → ℕ → ℕ) → ℕ → ℕ → ℕ → ℕ → ℕ → ℕ
write_entry table t i d t' i' = if t' == t && i' == i then d else table t' i'

-- `memset(table, 0, PAGING_PAGE_SIZE)`.
unfoldable pub clear_table : (ℕ → ℕ → ℕ) → ℕ → ℕ → ℕ → ℕ
clear_table table t t' i' = if t' == t then 0 else table t' i'

abbrev pub present : ℕ → Bool
present d = desc_get_flag d flag_present

-- The entry of the final level: address, present, then the twelve flags anew.
unfoldable pub leaf_entry : ℕ → ℕ → ℕ → ℕ
leaf_entry pde phys flags =
    desc_set_flags (desc_set_flag (desc_set_address pde phys) flag_present true) flags

module _ {A : Type 0} where
  -- The table below entry `i` of table `t`, if the entry is present.
  unfoldable pub next_table : Space A → ℕ → ℕ → Option ℕ
  next_table s t i =
      let pde = s.table t i in if present pde then some (desc_get_address pde) else none

  -- The three tables below `pml4` on the way to `virt`: `paging_walk_page`, `paging_unmap_page`
  -- and `paging_remap_page` give up where one is missing.
  unfoldable pub leaf_table : Space A → ℕ → Option ℕ
  leaf_table s virt =
      let i = indexer_assign virt in
      elim (next_table s s.pml4 i.pml4) [
        | none ↦ none
        | some pdp ↦ elim (next_table s pdp i.pml3) [
          | none ↦ none
          | some pd ↦ next_table s pd i.pml2
        ]
      ]

  -- `NULL` is 0.
  unfoldable pub walk_page : Space A → ℕ → ℕ
  walk_page s virt = elim (leaf_table s virt) [
    | none ↦ 0
    | some pt ↦ desc_get_address (s.table pt (indexer_assign virt).pml1)
  ]

  unfoldable pub unmap_page : ℕ → Space A → Space A
  unmap_page virt s = elim (leaf_table s virt) [
    | none ↦ s
    | some pt ↦ record s {
      table = write_entry s.table pt (indexer_assign virt).pml1 0;
      flushed = virt ∷ s.flushed;
    }
  ]

  -- The entries on the way are read without a test of their present flag.
  unfoldable pub edit_page : ℕ → ℕ → Space A → ℕ × Space A
  edit_page virt flags s =
      let i = indexer_assign virt in
      let pde4 = s.table s.pml4 i.pml4 in
      let m4 = write_entry s.table s.pml4 i.pml4 (bit_or pde4 flags) in
      let pdp = desc_get_address pde4 in
      let pde3 = bit_or (m4 pdp i.pml3) flags in
      let m3 = write_entry m4 pdp i.pml3 pde3 in
      let pd = desc_get_address pde3 in
      let pde2 = bit_or (m3 pd i.pml2) flags in
      let m2 = write_entry m3 pd i.pml2 pde2 in
      let pt = desc_get_address pde2 in
      let m1 = write_entry m2 pt i.pml1 (desc_set_flags (m2 pt i.pml1) flags) in
      (virt, record s { table = m1; flushed = virt ∷ s.flushed })

  -- `paging_load_pml4`.
  unfoldable pub load_pml4 : ℕ → Space A → Space A
  load_pml4 new s = record s { pml4 = new }

  -- `alloc_page` is `pmm_alloc_page`: the page that it returns and its own next state.
  module _ (alloc_page : A → ℕ × A) where
    -- One level of `paging_map_page`: the table below entry `i` of table `t`, made and mapped
    -- onto itself (by `map_self`) where the entry is not present.
    unfoldable pub enter_table : (ℕ → M (Space A) (Unit {0})) → ℕ → ℕ → ℕ → M (Space A) ℕ
    enter_table map_self flags t i s =
        let pde = s.table t i in
        elim (present pde) [
          | true ↦ some (
            desc_get_address pde,
            record s { table = write_entry s.table t i (bit_or pde flags) },
          )
          | false ↦
              let (new, pmm') = alloc_page s.pmm in
              let cleared = clear_table s.table new in
              let pde' =
                bit_or (desc_set_flag (desc_set_address pde new) flag_present true) flags in
              let s' = record s { table = write_entry cleared t i pde'; pmm = pmm' } in
              elim (map_self new s') [ none ↦ none | some (_, s'') ↦ some (new, s'') ]
        ]

    -- The three upper levels of `paging_map_page`: the last table on the way to `virt`.
    unfoldable pub descend : (ℕ → M (Space A) (Unit {0})) → ℕ → ℕ → M (Space A) ℕ
    descend map_self flags virt =
        let i = indexer_assign virt in
        λ s.
          (do
            pdp ← enter_table map_self flags s.pml4 i.pml4
            pd ← enter_table map_self flags pdp i.pml3
            enter_table map_self flags pd i.pml2)
            s

    -- `paging_map_page`; the fuel bounds how deep the calls for new tables nest.
    unfoldable pub map_page : ℕ → ℕ → ℕ → ℕ → M (Space A) ℕ
    map_page zero virt phys flags s = none
    map_page (suc fuel) virt phys flags s =
        let f = bit_and flags 0x0fff in
        let i1 = (indexer_assign virt).pml1 in
        let map_self : ℕ → M (Space A) (Unit {0}) =
          λ t. do map_page fuel t t flags_kernel_page; λ s'. some (tt, s')
        in elim (descend map_self f virt s) [
          | none ↦ none
          | some (pt, s') ↦ some (
            virt,
            record s' { table = write_entry s'.table pt i1 (leaf_entry (s'.table pt i1) phys f) },
          )
        ]

    -- `paging_remap_page`: the old leaf entry gives both the frame and the flags.
    unfoldable pub remap_page : ℕ → ℕ → ℕ → M (Space A) ℕ
    remap_page fuel old new s = elim (leaf_table s old) [
      | none ↦ some (0, s)
      | some pt ↦
          let old_pde = s.table pt (indexer_assign old).pml1 in
          elim (map_page fuel new (desc_get_address old_pde) (bit_and old_pde 0x0fff)
            (unmap_page old s)) [
              | none ↦ none
              | some (_, s') ↦ some (new, record s' { flushed = old ∷ s'.flushed })
            ]
    ]
