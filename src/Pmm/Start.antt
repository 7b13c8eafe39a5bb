-- ===== src/Pmm/Start.antt =====
-- kernel/src/mem/pmm/pmm.c: joining sections, counting free memory, and the first sections, which
-- are made from the memory map of the boot protocol.
use fenestella.Prelude.{
  ℕ, zero, suc, ◌+◌, ◌-◌, ◌*◌, ◌/◌, ◌%◌, ◌^◌, Bool, true, false, ◌&&◌, Option, none, some, List, [],
  ◌∷◌, ◌==◌, leb, if◌then◌else◌, M, ◌>>=◌, ◌>>◌, pure, update,
}
use fenestella.Pmm.{
  Pmm, null, section_used, section_free, section_bad, page_size, u64, load, prev_of, next_of,
  set_prev, set_next, set_start, set_pages, set_free, new_section, delete_section, end_of,
}
use fenestella.Pmm.Pages.{lock_pages}

-- Two neighbours of the same kind become one.
unfoldable pub absorb_next : ℕ → M Pmm (Unit {0})
unfolding delete_section
absorb_next current = do
  c ← load current
  n ← load c.next
  set_pages current (u64 (c.pages + n.pages))
  n ← load c.next
  if n.next == null then (do delete_section c.next; set_next current null) else (do
    set_next current n.next
    after ← next_of current
    delete_section (← prev_of after)
    after ← next_of current
    set_prev after current)

-- One pass: whether it joined sections.
unfoldable pub recombine_pass : ℕ → ℕ → Bool → M Pmm Bool
unfolding absorb_next
recombine_pass zero current detected = λ m. none
recombine_pass (suc fuel) current detected = elim (current == null) [
  | true ↦ pure detected
  | false ↦ do
    c ← load current
    elim (c.next == null) [
      | true ↦ pure detected
      | false ↦ do
        n ← load c.next
        elim (c.free == n.free) [
          | false ↦ recombine_pass fuel c.next detected
          | true ↦ do absorb_next current; after ← next_of current; recombine_pass fuel after true
        ]
    ]
]

-- Passes, each over at most `steps` sections, until one joins nothing.
unfoldable pub recombine_from : ℕ → ℕ → M Pmm (Unit {0})
unfolding recombine_pass
recombine_from zero steps = λ m. none
recombine_from (suc fuel) steps = do
  detected ← recombine_pass steps 1 false
  elim detected [ true ↦ recombine_from fuel steps | false ↦ pure tt ]

unfoldable pub recombine : ℕ → M Pmm (Unit {0})
unfolding recombine_from
recombine fuel = recombine_from fuel fuel

unfoldable pub sum_free : ℕ → ℕ → ℕ → M Pmm ℕ
sum_free zero current total = λ m. none
sum_free (suc fuel) current total = elim (current == null) [
  | true ↦ pure total
  | false ↦ do
    c ← load current
    sum_free fuel c.next
        (if c.free == section_free then u64 (total + u64 (c.pages * page_size)) else total)
]

unfoldable pub recalculate_free_memory : ℕ → M Pmm (Unit {0})
unfolding sum_free
recalculate_free_memory fuel = do
  total ← sum_free fuel 1 0
  (λ m. some (tt, record m { free_memory = total }))

-- An entry of the memory map, with one of the signals.
pub record Entry : Type 0 where
  pub base : ℕ
  pub length : ℕ
  pub signal : ℕ

abbrev pub map_free : ℕ
map_free = 0

abbrev pub map_busy : ℕ
map_busy = 1

-- `pmm_interpret_signal`: what is neither busy nor free is bad.
unfoldable pub interpret_signal : ℕ → ℕ
interpret_signal signal =
    if signal == map_busy
    then section_used
    else if signal == map_free
    then section_free
    else section_bad

abbrev pub megabyte : ℕ
megabyte = 1024 * 1024

abbrev pub round_off : ℕ
round_off = 64 * megabyte

abbrev pub ceil_pages : ℕ → ℕ
ceil_pages bytes = if bytes % page_size == 0 then bytes / page_size else bytes / page_size + 1

unfoldable pub total_free : List Entry → ℕ → ℕ
total_free [] total = total
total_free (e ∷ es) total =
    total_free es (if e.signal == map_free then u64 (total + e.length) else total)

-- `pmm_data_size` for so much free memory.
abbrev pub data_size_for : ℕ → ℕ
data_size_for free_memory =
    let blocks = free_memory / round_off + (if free_memory % round_off == 0 then 0 else 1) in
    u64 (blocks * round_off) / 64

-- The first free entry that is large enough for the data.
unfoldable pub find_base : ℕ → List Entry → Option ℕ
find_base size [] = none
find_base size (e ∷ es) =
    if e.signal == map_free && leb size e.length then some e.base else find_base size es

-- A bad section between the section and the one before it, where these do not meet.
unfoldable pub fill_gap : ℕ → M Pmm (Unit {0})
unfolding new_section
fill_gap current = do
  before ← prev_of current
  b ← load before
  c ← load current
  if end_of b == c.start then pure tt else (do
    new ← new_section
    set_next before new
    gap ← next_of before
    set_prev gap before
    set_next gap current
    set_start gap (end_of b)
    set_pages gap (ceil_pages (u64 (c.start + 2 ^ 64 - end_of b)))
    set_free gap section_bad
    set_prev current gap)

-- The section of one entry, behind the last one; the result is the section that is last then.
unfoldable pub add_entry : Entry → ℕ → M Pmm ℕ
unfolding new_section fill_gap interpret_signal
add_entry e current = do
  c ← load current
  if e.base == c.start then pure current else (do
    new ← new_section
    set_next current new
    next ← next_of current
    set_prev next current
    set_next next null
    set_start next e.base
    set_free next (interpret_signal e.signal)
    set_pages next (ceil_pages e.length)
    fill_gap next
    pure next)

unfoldable pub add_entries : List Entry → ℕ → M Pmm (Unit {0})
unfolding add_entry
add_entries [] current = pure tt
add_entries (e ∷ es) current = do last ← add_entry e current; add_entries es last

-- The array at its place, cleared, with the section of the first megabyte as its only one.
abbrev pub first_sections : Pmm → ℕ → ℕ → Pmm
first_sections m size free_memory = record m {
  section =
      update (λ _. record { prev = null; next = null; start = 0; pages = 0; free = 0 }) 1
        (record {
          prev = null;
          next = null;
          start = 0;
          pages = megabyte / page_size;
          free = section_bad;
        });
  section_head = 1;
  data_size = size;
  free_memory = free_memory;
}

-- Without a place for the array the first write is through `NULL`.
unfoldable pub start : ℕ → List Entry → M Pmm (Unit {0})
unfolding total_free find_base add_entries recombine recalculate_free_memory lock_pages
start fuel map m =
    if m.allowing_allocations
    then some (tt, m)
    else (let size = data_size_for (total_free map 0) in
        elim (find_base size map) [
          | none ↦ none
          | some base ↦
              (do
                add_entries map 1
                recombine fuel
                recalculate_free_memory fuel
                (λ m. some (tt, record m { allowing_allocations = true }))
                lock_pages fuel base (ceil_pages size))
                (first_sections m size (total_free map 0))
        ])
