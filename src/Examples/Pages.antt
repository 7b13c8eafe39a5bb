-- ===== src/Examples/Pages.antt =====
-- The page frame allocator at a memory of five sections.
use fenestella.Prelude.{ℕ, refl, true, List, [], ◌∷◌, arith, update, inl}
use fenestella.Pmm.{Pmm, Section}
use fenestella.Pmm.Pages.{alloc_page, free_page}
use fenestella.Pmm.Chain.{Region, node}
use fenestella.Pmm.Chain.Room.{HasRoom}
use fenestella.Pmm.Alloc.Total.{IsPmm, Allocated, alloc_page-IsPmm}
use fenestella.Pmm.Free.Total.{Freed, free_page-IsPmm}

abbrev low : Region
low = record { start = 0; pages = 256; free = 2 }

abbrev used : Region
used = record { start = 0x100000; pages = 3; free = 0 }

abbrev spare : Region
spare = record { start = 0x103000; pages = 5; free = 1 }

abbrev top : Region
top = record { start = 0x108000; pages = 1; free = 2 }

abbrev four : List Region
four = low ∷ used ∷ spare ∷ top ∷ []

abbrev array : ℕ → Section
array =
    update
      (update
        (update
          (update (λ _. record { prev = 0; next = 0; start = 0; pages = 0; free = 0 }) 1
            (node 0 2 low))
          2 (node 1 3 used))
        3 (node 2 4 spare))
      4 (node 3 0 top)

abbrev memory : Pmm
memory = record {
  section = array;
  section_head = 4;
  data_size = 0x1000;
  free_memory = 0x5000;
  allowing_allocations = true;
  pools = [];
}

memory-IsPmm : IsPmm memory four
memory-IsPmm = record {
  cells = (0, low) ∷ (1, used) ∷ (2, spare) ∷ (3, top) ∷ [];
  content = refl;
  chain = (refl, refl, (refl, refl, (refl, refl, (refl, refl, tt))));
  first = refl;
  shape = omega arith;
  starts = omega arith;
  allowing = refl;
}

memory-HasRoom : HasRoom memory
memory-HasRoom = record {
  head_fits = omega arith;
  entry = 4;
  entry_fits = omega arith;
  entry_unused = refl;
}

alloc_page-IsPmm_example : Allocated memory four (alloc_page 9 memory)
alloc_page-IsPmm_example = alloc_page-IsPmm memory four 9 memory-IsPmm memory-HasRoom (omega arith)

free_page-IsPmm_example : Freed memory four 0x102000 (free_page 9 0x102000 memory)
free_page-IsPmm_example =
    free_page-IsPmm memory four 0x102000 9 memory-IsPmm memory-HasRoom (omega arith)
      (omega arith, inl (omega arith)) refl (omega arith)
