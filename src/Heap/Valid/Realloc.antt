-- ===== src/Heap/Valid/Realloc.antt =====
-- `realloc` of kernel/src/mem/heap/allocator.c on the whole heap.
use fenestella.Prelude.{ℕ, ◌+◌, ◌≤◌, ◌≡◌, ◌≢◌, true, false}
use fenestella.Heap.{Heap}
use fenestella.Heap.Chain.{Blocks}
use fenestella.Heap.Chain.Taken.{taken}
use fenestella.Heap.Valid.{IsHeap}

-- The heap `g` is `h` with the block at `t` given back and a block of at least `size` bytes in use
-- whose data start at `p`.
pub record Moved {W : Type 0} (size t : ℕ) (bs : Blocks) (h : Heap W) (p : ℕ) (g : Heap W)
    : Type 0 where
  pub blocks : Blocks
  pub valid : IsHeap g blocks
  pub start : g.heap_start ≡ h.heap_start
  pub block : ℕ
  pub len : ℕ
  pub behind : p ≡ block + 32
  pub enough : size ≤ len
  pub in_use : taken block len h.heap_start blocks ≡ true
  pub released : (m : ℕ) → taken t m h.heap_start blocks ≡ false
  pub kept :
      (u m : ℕ) → u ≢ t → taken u m h.heap_start bs ≡ true → taken u m h.heap_start blocks ≡ true
