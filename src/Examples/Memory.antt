-- ===== src/Examples/Memory.antt =====
-- Concrete page tables and a concrete heap.
use fenestella.Prelude.{
  ℕ, ◌%◌, ◌+◌, ◌-◌, ◌*◌, ◌≡◌, ◌≢◌, refl, true, false, ◌&&◌, [], ◌∷◌, arith, ◌==◌, if◌then◌else◌,
  bit_and, bit_or, some,
}
use fenestella.Paging.Desc.{address_mask, desc_get_address, desc_get_flag, indexer_assign}
use fenestella.Paging.Table.{Space, next_table, walk_page, unmap_page, map_page}
use fenestella.Paging.Table.Keep.{IsRoute, Avoids, same_cell}
use fenestella.Paging.Table.Translate.{walk_page-map_page, walk_page-unmap_page}
use fenestella.Heap.{
  Heap, Header, free, malloc, heap_expand, heap_initialize, search_free, whole_pages,
}
use fenestella.Paging.Table.{edit_page}
use fenestella.Paging.Table.Edit.{walk_page-edit_page}
use fenestella.Heap.Chain.{Blocks, alloc_in, free_in}
use fenestella.Heap.Chain.Search.{SearchIs, search_free-SearchIs}
use fenestella.Heap.Chain.Taken.{taken}
use fenestella.Heap.Valid.{IsHeap, free-IsHeap, heap_expand-IsHeap, Grown}
use fenestella.Heap.Valid.Malloc.{Served, malloc_total, heap_initialize-IsHeap}

-- Three tables, each in the first entry of the one above, and a page at the fifth.
abbrev table : ℕ → ℕ → ℕ
table t i =
    if t == 0x1000 && i == 0
    then 0x2003
    else if t == 0x2000 && i == 0
    then 0x3003
    else if t == 0x3000 && i == 0
    then 0x4003
    else if t == 0x4000 && i == 5
    then 0x9003
    else 0

abbrev space : Space ℕ
space = record { table = table; pml4 = 0x1000; flushed = []; pmm = 0 }

abbrev next_page : ℕ → ℕ × ℕ
next_page n = (0x100000 + n * 0x1000, n + 1)

route : IsRoute space 0x6000 0x2000 0x3000 0x4000
unfolding next_table desc_get_address desc_get_flag indexer_assign
route = record { enter4 = refl; enter3 = refl; enter2 = refl }

avoids : Avoids space 0x6000 0x2000 0x3000 0x4000 (indexer_assign 0x6000).pml1
unfolding indexer_assign
avoids = record { at4 = refl; at3 = refl; at2 = refl }

walk_page-map_page_example :
    (s' : Space ℕ) × (map_page next_page 1 0x6000 0x7000 3 space ≡ some (0x6000, s'))
    × (s'.pmm ≡ space.pmm)
    × (walk_page s' 0x6000 ≡ bit_or (walk_page space 0x6000) (bit_and 0x7000 address_mask))
    × ((v pdp' pd' pt' : ℕ)
        → IsRoute space v pdp' pd' pt'
        → Avoids space v pdp' pd' 0x4000 (indexer_assign 0x6000).pml1
        → same_cell 0x4000 (indexer_assign 0x6000).pml1 pt' (indexer_assign v).pml1 ≡ false
        → walk_page s' v ≡ walk_page space v)
walk_page-map_page_example = walk_page-map_page next_page space route 0x7000 3 avoids 0

walk_page-unmap_page_example :
    (walk_page (unmap_page 0x6000 space) 0x6000 ≡ 0)
    × ((unmap_page 0x6000 space).flushed ≡ 0x6000 ∷ [])
    × ((v pdp' pd' pt' : ℕ)
        → IsRoute space v pdp' pd' pt'
        → Avoids space v pdp' pd' 0x4000 (indexer_assign 0x6000).pml1
        → same_cell 0x4000 (indexer_assign 0x6000).pml1 pt' (indexer_assign v).pml1 ≡ false
        → walk_page (unmap_page 0x6000 space) v ≡ walk_page space v)
walk_page-unmap_page_example = walk_page-unmap_page space route avoids

walk_page-edit_page_example :
    let t = (edit_page 0x6000 7 space).1 in
    (walk_page t 0x6000 ≡ walk_page space 0x6000)
    × (t.table 0x4000 6 % 4096 ≡ 7)
    × (bit_and (t.table 0x1000 0) 7 ≡ 7)
    × (bit_and (t.table 0x2000 0) 7 ≡ 7)
    × (bit_and (t.table 0x3000 0) 7 ≡ 7)
    × (t.flushed ≡ 0x6000 ∷ [])
    × ((v pdp' pd' pt' : ℕ)
        → IsRoute space v pdp' pd' pt'
        → Avoids space v pdp' pd' 0x4000 (indexer_assign 0x6000).pml1
        → same_cell 0x4000 (indexer_assign 0x6000).pml1 pt' (indexer_assign v).pml1 ≡ false
        → walk_page t v ≡ walk_page space v)
unfolding indexer_assign
walk_page-edit_page_example = walk_page-edit_page space route avoids 7 (omega arith)

-- A heap of two pages with a block in use and a free block.
abbrev cell : ℕ → Header
cell a =
    if a == 0x1000
    then record { length = 96; next = 0x1080; last = 0; free = false }
    else record { length = 8032; next = 0; last = 0x1000; free = true }

abbrev heap : Heap ℕ
heap = record {
  cell = cell;
  heap_start = 0x1000;
  heap_end = 0x3000;
  last_header = 0x1080;
  heap_initialized = true;
  world = 0;
}

abbrev blocks : Blocks
blocks = (96, false) ∷ (8032, true) ∷ []

-- The pages are counted.
abbrev count : ℕ → ℕ → ℕ
count pos n = n + 1

heap-IsHeap : IsHeap heap blocks
heap-IsHeap = record {
  initialized = refl;
  chain = (refl, refl, refl, refl, (refl, refl, refl, refl, (refl, refl)));
  pos = omega arith;
  bound = omega arith;
  filled = λ e. cc;
}

malloc_total_example : Served 9000 blocks heap (malloc count 8 3 9000 heap)
malloc_total_example =
    malloc_total count 8 0 9000 heap blocks heap-IsHeap (omega arith) (omega arith) (omega arith)

free-IsHeap_example :
    let g = free 0x1020 heap in
    let cs = free_in 0x1000 0x1000 blocks in
    IsHeap g cs
    × (g.heap_start ≡ 0x1000)
    × ((m : ℕ) → taken 0x1000 m 0x1000 cs ≡ false)
    × ((u m : ℕ) → u ≢ 0x1000 → taken u m 0x1000 blocks ≡ true → taken u m 0x1000 cs ≡ true)
free-IsHeap_example = free-IsHeap heap blocks 0x1000 heap-IsHeap refl

heap_expand-IsHeap_example :
    Grown count heap (whole_pages 5000) blocks (heap_expand count 5000 heap)
heap_expand-IsHeap_example =
    heap_expand-IsHeap count heap blocks 5000 heap-IsHeap (omega arith) (omega arith)

search_free-SearchIs_example :
    SearchIs heap 0 0x1000 0x3000 (alloc_in 64 0x1000 blocks) (search_free 2 0x1000 64 heap)
search_free-SearchIs_example =
    search_free-SearchIs heap 0x3000 (omega arith) 64 (omega arith) 2 96 false ((8032, true) ∷ []) 0
      0x1000 (omega arith) (omega arith) heap-IsHeap.chain

heap_initialize-IsHeap_example :
    let g = heap_initialize count 0x7f0000000000 256 heap in
    IsHeap g ((256 * 0x1000 - 32, true) ∷ [])
    × (g.heap_start ≡ 0x7f0000000000)
    × (g.heap_end ≡ 0x7f0000000000 + 256 * 0x1000)
heap_initialize-IsHeap_example =
    heap_initialize-IsHeap count 0x7f0000000000 256 heap (omega arith) (omega arith) (omega arith)
