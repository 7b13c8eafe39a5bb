-- ===== src/Pmm/Pools.antt =====
-- kernel/src/mem/pmm/pfa.c: pools of pages that stand one behind the other.
use fenestella.Prelude.{
  ℕ, zero, suc, ◌+◌, ◌*◌, true, false, ◌&&◌, not, Option, none, some, List, [], ◌∷◌, ◌++◌, ◌==◌,
  leb, if◌then◌else◌, M, ◌>>=◌, ◌>>◌, pure, length, set,
}
use fenestella.Pmm.{Pmm, Pool, null, section_free, page_size, u64, load}
use fenestella.Pmm.Pages.{lock_pages, unlock_pages}
use fenestella.Pmm.Start.{recombine}

-- The first free section with enough pages: its start and its pages.
unfoldable pub find_section : ℕ → ℕ → ℕ → M Pmm (Option (ℕ × ℕ))
find_section zero count section = λ m. none
find_section (suc fuel) count section = elim (section == null) [
  | true ↦ pure none
  | false ↦ do
    s ← load section
    elim (leb count s.pages && s.free == section_free) [
      | true ↦ pure (some (s.start, s.pages))
      | false ↦ find_section fuel count s.next
    ]
]

abbrev pub set_pools : List Pool → M Pmm (Unit {0})
set_pools pools m = some (tt, record m { pools = pools })

-- `fresh` is what `malloc` leaves in the base of a pool behind the first; the first is cleared.
unfoldable pub alloc_pool : ℕ → ℕ → ℕ → M Pmm ℕ
unfolding find_section lock_pages recombine
alloc_pool fuel fresh page_count m =
    if not m.allowing_allocations
    then some (0, m)
    else (let old = m.pools in
        let base = if length old == 0 then 0 else fresh in
        (do
          set_pools (old ++ record { base = base; pages = page_count } ∷ [])
          found ← find_section fuel page_count 1
          elim found [
            | some (start, pages) ↦ do
              set_pools (old ++ record { base = start; pages = page_count } ∷ [])
              lock_pages fuel start page_count
              pure start
            | none ↦ do recombine fuel; pure 0
          ])
          m)

-- The first pool whose bounds hold the address, its end included.
unfoldable pub pool_around : ℕ → List Pool → Option Pool
pool_around address [] = none
pool_around address (p ∷ ps) =
    if leb p.base address && leb address (u64 (p.base + p.pages * page_size))
    then some p
    else pool_around address ps

unfoldable pub free_pool : ℕ → ℕ → M Pmm (Unit {0})
unfolding pool_around unlock_pages recombine
free_pool fuel pool m =
    if not m.allowing_allocations
    then some (tt, m)
    else if length m.pools == 0
    then some (tt, m)
    else if pool == 0
    then some (tt, m)
    else elim (pool_around pool m.pools) [
      | some p ↦ unlock_pages fuel p.base p.pages m
      | none ↦ recombine fuel m
    ]

-- The loop of `pmm_realloc_pool` over the pools from index `i` on: where a pool has the base and a
-- section is found, the pool moves there. The copying of the pages is not part of the state.
unfoldable pub move_pool : ℕ → ℕ → ℕ → ℕ → List Pool → M Pmm (Option ℕ)
unfolding find_section lock_pages unlock_pages
move_pool fuel pool page_count i [] = pure none
move_pool fuel pool page_count i (p ∷ ps) = do
  found ← if p.base == pool then find_section fuel page_count 1 else pure none
  elim found [
    | some (start, pages) ↦ do
      lock_pages fuel start page_count
      unlock_pages fuel p.base p.pages
      (λ m.
          some (
            some start,
            record m { pools = set m.pools i (record { base = start; pages = pages }) },
          ))
    | none ↦ move_pool fuel pool page_count (i + 1) ps
  ]

unfoldable pub realloc_pool : ℕ → ℕ → ℕ → M Pmm ℕ
unfolding move_pool recombine
realloc_pool fuel pool page_count m =
    if not m.allowing_allocations
    then some (0, m)
    else if length m.pools == 0
    then some (0, m)
    else if pool == 0
    then some (0, m)
    else (do
      moved ← move_pool fuel pool page_count 0 m.pools
      elim moved [ some start ↦ pure start | none ↦ do recombine fuel; pure pool ])
        m
