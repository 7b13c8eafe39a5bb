-- ===== src/Pmm.antt =====
-- kernel/src/mem/pmm: the sections of physical memory, a doubly linked list of nodes in an array.
-- Here: the nodes and the operations on one section, of pmm.c and pfa.c.
pub mod Pages
pub mod Start
pub mod Pools
pub mod Chain
pub mod Kinds
pub mod Alloc
pub mod Free
use fenestella.Prelude.{
  ℕ, zero, suc, ◌+◌, ◌-◌, ◌*◌, ◌/◌, ◌%◌, ◌^◌, Bool, true, false, ◌&&◌, ◌||◌, not, Option, none,
  some, ◌==◌, ltb, leb, if◌then◌else◌, update, M, ◌>>=◌, ◌>>◌, pure, List,
}

-- `pmm_section_t`.
pub record Section : Type 0 where
  pub prev : ℕ
  pub next : ℕ
  pub start : ℕ
  pub pages : ℕ
  pub free : ℕ

-- A pointer to a section is 0 for `NULL`, and i + 1 for `&pmm_sections[i]`.
abbrev pub null : ℕ
null = 0

-- `sizeof(pmm_section_t)`.
abbrev pub section_size : ℕ
section_size = 40

abbrev pub section_used : ℕ
section_used = 0

abbrev pub section_free : ℕ
section_free = 1

abbrev pub section_bad : ℕ
section_bad = 2

abbrev pub page_size : ℕ
page_size = 0x1000

abbrev pub u64 : ℕ → ℕ
u64 n = n % 2 ^ 64

-- `pmm_pool_t`, less its link.
pub record Pool : Type 0 where
  pub base : ℕ
  pub pages : ℕ

-- The array `pmm_sections` and the other variables of pmm.c; `pools` is the list `pmm_pools`.
pub record Pmm : Type 0 where
  pub section : ℕ → Section
  pub section_head : ℕ
  pub data_size : ℕ
  pub free_memory : ℕ
  pub allowing_allocations : Bool
  pub pools : List Pool

-- An access through `NULL` is a fault.
abbrev pub load : ℕ → M Pmm Section
load zero m = none
load (suc i) m = some (m.section (suc i), m)

abbrev pub put : ℕ → (Section → Section) → M Pmm (Unit {0})
put zero f m = none
put (suc i) f m = some (tt, record m { section = update m.section (suc i) (f (m.section (suc i))) })

abbrev pub prev_of : ℕ → M Pmm ℕ
prev_of p = do s ← load p; pure s.prev

abbrev pub next_of : ℕ → M Pmm ℕ
next_of p = do s ← load p; pure s.next

abbrev pub set_prev : ℕ → ℕ → M Pmm (Unit {0})
set_prev p v = put p (λ s. record s { prev = v })

abbrev pub set_next : ℕ → ℕ → M Pmm (Unit {0})
set_next p v = put p (λ s. record s { next = v })

abbrev pub set_start : ℕ → ℕ → M Pmm (Unit {0})
set_start p v = put p (λ s. record s { start = v })

abbrev pub set_pages : ℕ → ℕ → M Pmm (Unit {0})
set_pages p v = put p (λ s. record s { pages = v })

abbrev pub set_free : ℕ → ℕ → M Pmm (Unit {0})
set_free p v = put p (λ s. record s { free = v })

-- Neither of its links is set.
abbrev pub is_unused : Section → Bool
is_unused s = s.prev == null && s.next == null

-- The loop of the reindexing from entry `i` on, for `n` more entries.
unfoldable pub first_unused : ℕ → ℕ → Pmm → ℕ
first_unused zero i m = 0
first_unused (suc n) i m =
    elim (ltb (i * section_size) m.data_size && not (is_unused (m.section (suc i)))) [
      | true ↦ first_unused n (i + 1) m
      | false ↦ if ltb (i * section_size) m.data_size then i else 0
    ]

-- As many entries as start within the data are looked at.
unfoldable pub section_manager_reindex : Pmm → Pmm
unfolding first_unused
section_manager_reindex m = record m {
  section_head = first_unused (m.data_size / section_size + 1) 0 m;
}

unfoldable pub new_section : Pmm → Option (ℕ × Pmm)
unfolding section_manager_reindex
new_section m =
    if leb m.data_size (m.section_head * section_size)
    then some (null, m)
    else if is_unused (m.section (suc m.section_head))
    then some (suc m.section_head, record m { section_head = m.section_head + 1 })
    else let m' = section_manager_reindex m in
      if is_unused (m'.section (suc m'.section_head))
      then some (suc m'.section_head, record m' { section_head = m'.section_head + 1 })
      else some (null, m')

unfoldable pub delete_section : ℕ → M Pmm (Unit {0})
delete_section section =
    put section (λ s. record { prev = null; next = null; start = 0; pages = 0; free = 0 })

-- The address behind the last page.
abbrev pub end_of : Section → ℕ
end_of s = u64 (s.start + s.pages * page_size)

-- The new section is linked in behind the target.
unfoldable pub insert_after : ℕ → M Pmm (Unit {0})
insert_after target = do
  next ← next_of target
  if next == null then (do new ← new_section; set_next target new; set_prev new target) else (do
    new ← new_section
    set_prev next new
    set_prev (← prev_of (← next_of target)) target
    set_next (← prev_of (← next_of target)) (← next_of target)
    set_next target (← prev_of (← next_of target)))

unfoldable pub section_split : ℕ → ℕ → M Pmm (Unit {0})
section_split target split_at = do
  s ← load target
  if leb (end_of s) split_at then pure tt else (do
    insert_after target
    t ← load target
    set_free t.next t.free
    set_pages t.next (u64 (t.pages + 2 ^ 64 - u64 (split_at + 2 ^ 64 - t.start) / page_size))
    set_start t.next split_at
    t ← load target
    set_pages target (u64 (t.pages + 2 ^ 64 - u64 (end_of t + 2 ^ 64 - split_at) / page_size)))

unfoldable pub section_combine_next : ℕ → M Pmm (Unit {0})
unfolding delete_section
section_combine_next target = do
  t ← load target
  if t.next == null then pure tt else (do
    n ← load t.next
    if t.free == n.free
        then (do
          set_start t.next t.start
          n ← load t.next
          set_pages t.next (u64 (n.pages + t.pages))
          set_prev t.next t.prev
          t ← load target
          set_next t.prev t.next
          delete_section target)
        else pure tt)

unfoldable pub section_combine_prev : ℕ → M Pmm (Unit {0})
unfolding delete_section
section_combine_prev target = do
  t ← load target
  if t.prev == null then pure tt else (do
    p ← load t.prev
    if t.free == p.free
        then (do
          set_pages t.prev (u64 (p.pages + t.pages))
          set_next t.prev t.next
          t ← load target
          set_prev t.next t.prev
          delete_section target)
        else pure tt)
