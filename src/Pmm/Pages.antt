-- ===== src/Pmm/Pages.antt =====
-- kernel/src/mem/pmm/pfa.c: handing out, freeing and locking pages.
use fenestella.Prelude.{
  ℕ, zero, suc, ◌+◌, ◌-◌, ◌*◌, ◌^◌, Bool, true, false, none, some, ◌==◌, ltb, if◌then◌else◌, M,
  ◌>>=◌, ◌>>◌, pure,
}
use fenestella.Pmm.{
  Pmm, null, section_used, section_free, page_size, u64, load, next_of, set_prev, set_next,
  set_start, set_pages, set_free, delete_section, section_split, section_combine_next,
  section_combine_prev,
}

-- A page goes from the start of a section to the section before it.
unfoldable pub give_page_to_prev : ℕ → M Pmm (Unit {0})
give_page_to_prev selected = do
  s ← load selected
  before ← load s.prev
  set_pages s.prev (u64 (before.pages + 1))
  s ← load selected
  set_pages selected (u64 (s.pages + 2 ^ 64 - 1))
  set_start selected (u64 (s.start + page_size))

-- A section without pages is taken out of the list; what follows is its predecessor.
unfoldable pub drop_empty : ℕ → M Pmm ℕ
unfolding delete_section
drop_empty selected = do
  s ← load selected
  set_prev s.next s.prev
  s ← load selected
  set_next s.prev s.next
  s ← load selected
  delete_section selected
  pure s.prev

-- The free section gives its first page.
unfoldable pub take_page : ℕ → M Pmm ℕ
take_page selected = do
  s ← load selected
  before ← load s.prev
  if before.free == section_used
      then give_page_to_prev selected
      else (do section_split selected (u64 (s.start + page_size)); set_free selected section_used)
  pure s.start

-- The loop of `pmm_alloc_page`: the base that it ends with.
unfoldable pub alloc_from : ℕ → ℕ → M Pmm ℕ
alloc_from zero selected = λ m. none
alloc_from (suc fuel) selected = elim (selected == null) [
  | true ↦ pure 0
  | false ↦ do
    s ← load selected
    elim (s.pages == 0) [
      | true ↦ do before ← drop_empty selected; after ← next_of before; alloc_from fuel after
      | false ↦ elim (s.free == section_free) [
        | true ↦ take_page selected
        | false ↦ alloc_from fuel s.next
      ]
    ]
]

abbrev pub debit : ℕ → M Pmm ℕ
debit base m = some (
  base,
  if base == 0 then m else record m { free_memory = u64 (m.free_memory + 2 ^ 64 - page_size) },
)

unfoldable pub alloc_page : ℕ → M Pmm ℕ
alloc_page fuel m =
    if m.allowing_allocations then (do base ← alloc_from fuel 1; debit base) m else some (0, m)

-- Where the page is the first of a section: every branch returns.
unfoldable pub free_start : ℕ → M Pmm (Unit {0})
free_start selected = do
  s ← load selected
  if s.free == section_free then pure tt else (do
    before ← load s.prev
    if s.pages == 1
        then (do
          if before.free == section_free
              then (do
                after ← load s.next
                if after.free == section_free
                    then (do section_combine_next selected; section_combine_next s.prev)
                    else section_combine_prev selected)
              else (do
                after ← load s.next
                if after.free == section_free
                    then section_combine_next selected
                    else set_free selected section_free))
        else if before.free == section_free
        then (do
          set_pages s.prev (u64 (before.pages + 1))
          s ← load selected
          set_start selected (u64 (s.start + page_size))
          set_pages selected (u64 (s.pages + 2 ^ 64 - 1)))
        else (do
          section_split selected (u64 (s.start + page_size))
          set_free selected section_free))

-- The last page of a section goes to the section behind it.
unfoldable pub give_page_to_next : ℕ → M Pmm (Unit {0})
give_page_to_next selected = do
  s ← load selected
  n ← load s.next
  set_start s.next (u64 (n.start + 2 ^ 64 - page_size))
  n ← load s.next
  set_pages s.next (u64 (n.pages + 1))
  s ← load selected
  set_pages selected (u64 (s.pages + 2 ^ 64 - 1))

-- Where the page lies inside a section that is not free; the result is where the loop goes on.
unfoldable pub free_inside : ℕ → ℕ → M Pmm ℕ
unfolding give_page_to_next
free_inside selected page = do
  s ← load selected
  n ← load s.next
  if u64 (n.start + 2 ^ 64 - page_size) == page
      then (if n.free == section_free then (do give_page_to_next selected; pure selected) else (do
        section_split selected page
        tail ← next_of selected
        t ← load tail
        section_split tail (u64 (t.start + page_size))
        set_free tail section_free
        pure tail))
      else pure selected

-- The loop of `pmm_free_page`: whether it returned.
unfoldable pub free_from : ℕ → ℕ → ℕ → M Pmm Bool
free_from zero page selected = λ m. none
free_from (suc fuel) page selected = elim (selected == null) [
  | true ↦ pure false
  | false ↦ do
    s ← load selected
    elim (s.start == page) [
      | true ↦ do free_start selected; pure true
      | false ↦ elim (ltb s.start page) [
        | true ↦ do
          n ← load s.next
          elim (ltb page n.start) [
            | true ↦ elim (s.free == section_free) [
              | true ↦ pure true
              | false ↦ do
                last ← free_inside selected page
                after ← next_of last
                free_from fuel page after
            ]
            | false ↦ free_from fuel page s.next
          ]
        | false ↦ free_from fuel page s.next
      ]
    ]
]

abbrev pub credit : Bool → M Pmm (Unit {0})
credit returned m =
    some (tt, if returned then m else record m { free_memory = u64 (m.free_memory + page_size) })

unfoldable pub free_page : ℕ → ℕ → M Pmm (Unit {0})
free_page fuel page m =
    if m.allowing_allocations
    then (do returned ← free_from fuel page 1; credit returned) m
    else some (tt, m)

-- Where the page is a section of its own.
unfoldable pub lock_single : ℕ → M Pmm (Unit {0})
lock_single selected = do
  set_free selected section_used
  s ← load selected
  before ← load s.prev
  after ← load s.next
  if before.free == section_used
      then (if after.free == section_used
          then (do section_combine_next selected; section_combine_next s.prev)
          else section_combine_prev selected)
      else if after.free == section_used
      then section_combine_next selected
      else pure tt

-- Where the page is the first of a longer section.
unfoldable pub lock_start : ℕ → M Pmm (Unit {0})
unfolding give_page_to_prev
lock_start selected = do
  s ← load selected
  if s.free == section_used then pure tt else (do
    before ← load s.prev
    if before.free == section_used then give_page_to_prev selected else (do
      section_split selected (u64 (s.start + page_size))
      set_free selected section_used))

-- Where the page lies inside a section that is not used; the result is where the loop goes on.
unfoldable pub lock_inside : ℕ → ℕ → M Pmm ℕ
unfolding give_page_to_next
lock_inside selected page = do
  s ← load selected
  n ← load s.next
  if u64 (n.start + 2 ^ 64 - page_size) == page
      then (if n.free == section_used then (do give_page_to_next selected; pure selected) else (do
        section_split selected page
        tail ← next_of selected
        set_free tail section_used
        pure tail))
      else (do
        section_split selected page
        tail ← next_of selected
        t ← load tail
        section_split tail (u64 (t.start + page_size))
        set_free tail section_used
        pure tail)

-- The loop of `pmm_lock_page`.
unfoldable pub lock_from : ℕ → ℕ → ℕ → M Pmm (Unit {0})
lock_from zero page selected = λ m. none
lock_from (suc fuel) page selected = elim (selected == null) [
  | true ↦ pure tt
  | false ↦ do
    s ← load selected
    elim (s.start == page) [
      | true ↦ if s.pages == 1 then lock_single selected else lock_start selected
      | false ↦ elim (ltb s.start page) [
        | true ↦ do
          n ← load s.next
          elim (ltb page n.start) [
            | true ↦ elim (s.free == section_used) [
              | true ↦ pure tt
              | false ↦ do
                last ← lock_inside selected page
                after ← next_of last
                lock_from fuel page after
            ]
            | false ↦ lock_from fuel page s.next
          ]
        | false ↦ lock_from fuel page s.next
      ]
    ]
]

unfoldable pub lock_page : ℕ → ℕ → M Pmm (Unit {0})
lock_page fuel page m = if m.allowing_allocations then lock_from fuel page 1 m else some (tt, m)

unfoldable pub unlock_page : ℕ → ℕ → M Pmm (Unit {0})
unfolding free_page
unlock_page fuel page m = if m.allowing_allocations then free_page fuel page m else some (tt, m)

-- A loop over `count` pages from entry `i` on.
each_page : (ℕ → M Pmm (Unit {0})) → ℕ → ℕ → ℕ → M Pmm (Unit {0})
each_page visit page i zero = pure tt
each_page visit page i (suc count) = do
  visit (u64 (page + i * page_size))
  each_page visit page (i + 1) count

unfoldable pub lock_pages : ℕ → ℕ → ℕ → M Pmm (Unit {0})
unfolding each_page lock_page
lock_pages fuel page count m =
    if m.allowing_allocations then each_page (lock_page fuel) page 0 count m else some (tt, m)

unfoldable pub unlock_pages : ℕ → ℕ → ℕ → M Pmm (Unit {0})
unfolding each_page free_page
unlock_pages fuel page count m =
    if m.allowing_allocations then each_page (free_page fuel) page 0 count m else some (tt, m)
