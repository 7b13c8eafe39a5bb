-- ===== src/Heap/Valid.antt =====
-- The kernel heap as a whole: its invariant, and the operations that change it.
pub mod Malloc
pub mod Realloc
use fenestella.Prelude.{
  ℕ, zero, suc, ◌+◌, ◌-◌, ◌*◌, ◌/◌, ◌%◌, ◌^◌, ◌≤◌, ◌<◌, ◌≡◌, refl, ap, sym, subst, ◌∙◌, ◌≢◌, Bool,
  true, false, ◌||◌, Option, none, some, List, [], ◌∷◌, ◌++◌, arith, ◌==◌, if◌then◌else◌, inl, inr,
  Bool-cases,
}
use fenestella.Heap.{
  Heap, Header, null, store, free, heap_initialize, heap_expand, whole_pages, add_segment,
  map_pages, header_combine_backward,
}
use fenestella.Heap.Chain.{
  Blocks, Chain, Chain-le, at-le-last, is_block, merge, free_in, release_in, join_in,
}
use fenestella.Heap.Chain.Place.{Placed}
use fenestella.Heap.Chain.Release.{free-Placed, join-Placed}
use fenestella.Heap.Chain.Grow.{
  new_block, grow_in, Chain-append, is_block-end, added-Appended, added-rest, whole_pages_bounds,
}
use fenestella.Heap.Chain.Taken.{taken, taken-below, taken-join_in, taken-release_in}

-- The headers in memory are a chain of at least one block from `heap_start` to `heap_end`, in the
-- lower half of the address space and not at address 0.
pub record IsHeap {W : Type 0} (h : Heap W) (bs : Blocks) : Type 0 where
  pub initialized : h.heap_initialized ≡ true
  pub chain : Chain h.cell null h.heap_start h.heap_end h.last_header bs
  pub pos : 0 < h.heap_start
  pub bound : h.heap_end < 2 ^ 63
  pub filled : bs ≢ []

-- A chain over more than its headers has a block.
filled_of_Chain :
    (cell : ℕ → Header) (prev at stop last : ℕ) (bs : Blocks)
    → Chain cell prev at stop last bs
    → at < stop
    → bs ≢ []
filled_of_Chain cell prev at stop last [] c lt = absurd (omega arith)
filled_of_Chain cell prev at stop last (b ∷ bs) c lt = λ e. cc

-- The last header lies in the heap.
pub last-lt-stop :
    (cell : ℕ → Header) (stop last n : ℕ) (f : Bool) (bs : Blocks) (prev at : ℕ)
    → Chain cell prev at stop last ((n, f) ∷ bs)
    → last < stop
last-lt-stop cell stop last n f [] prev at c = omega (arith, c.4.0, c.4.1)
last-lt-stop cell stop last n f ((m, g) ∷ bs) prev at c =
    last-lt-stop cell stop last m g bs at (at + 32 + n) c.4

start-lt-end : {W : Type 0} {h : Heap W} (bs : Blocks) → IsHeap h bs → h.heap_start < h.heap_end
start-lt-end [] v = absurd (v.filled refl)
start-lt-end {h} ((n, f) ∷ bs) v =
    omega (arith, Chain-le h.cell h.heap_end h.last_header bs _ _ v.chain.4)

module _ {W : Type 0} (h g : Heap W) (bs cs : Blocks) where
  pub Placed-IsHeap : IsHeap h bs → Placed h null h.heap_start h.heap_end cs g → IsHeap g cs
  Placed-IsHeap v p =
      let start = p.bounds.heap_start in
      let end = p.bounds.heap_end in
      record {
        initialized = p.bounds.heap_initialized ∙ v.initialized;
        chain =
            subst (λ a. Chain g.cell null a g.heap_end g.last_header cs) (sym start)
              (subst (λ e. Chain g.cell null h.heap_start e g.last_header cs) (sym end) p.chain);
        pos = omega (arith, v.pos);
        bound = omega (arith, v.bound);
        filled =
            filled_of_Chain g.cell null h.heap_start h.heap_end g.last_header cs p.chain
              (start-lt-end bs v);
      }

not-taken-join_in :
    (t m : ℕ) (bs : Blocks) (at : ℕ)
    → taken t m at bs ≡ false
    → taken t m at (join_in t at bs) ≡ false
not-taken-join_in t m [] at h = h
not-taken-join_in t m ((n, false) ∷ bs) at h =
    ground (arith, not-taken-join_in t m bs (at + 32 + n))
not-taken-join_in t m ((n, true) ∷ []) at h = ground arith
not-taken-join_in t m ((n, true) ∷ (k, true) ∷ bs) at h =
    ground (arith, not-taken-join_in t m ((k, true) ∷ bs) (at + 32 + n))
not-taken-join_in t m ((n, true) ∷ (k, false) ∷ bs) at h =
    ground (arith, not-taken-join_in t m ((k, false) ∷ bs) (at + 32 + n))

not-taken-merge : (t m n at : ℕ) (bs : Blocks) → t ≤ at → taken t m at (merge n true bs) ≡ false
not-taken-merge t m n at [] le = ground arith
not-taken-merge t m n at ((k, true) ∷ bs) le =
    ground (arith, taken-below t m bs (at + 32 + (n + 32 + k)))
not-taken-merge t m n at ((k, false) ∷ bs) le =
    ground (arith, taken-below t m ((k, false) ∷ bs) (at + 32 + n))

not-taken-release_in :
    (t m : ℕ) (bs : Blocks) (at : ℕ)
    → is_block t at bs ≡ true
    → taken t m at (release_in t at bs) ≡ false
not-taken-release_in t m [] at b = refl
not-taken-release_in t m ((n, f) ∷ bs) at b = elim (Bool-cases (t == at)) [
  | inl here ↦ rw here (not-taken-merge t m n at bs (ground arith))
  | inr further ↦
      rw (further, further) (not-taken-release_in t m bs (at + 32 + n) (rw further at b))
]

-- `free` of the data of a block: the heap is valid again, no block is in use at that address any
-- more, and every other block in use still is.
pub free-IsHeap :
    {W : Type 0} (h : Heap W) (bs : Blocks) (t : ℕ)
    → IsHeap h bs
    → is_block t h.heap_start bs ≡ true
    → let g = free (t + 32) h in
      let cs = free_in t h.heap_start bs in
      IsHeap g cs
      × (g.heap_start ≡ h.heap_start)
      × ((m : ℕ) → taken t m h.heap_start cs ≡ false)
      × ((u m : ℕ) → u ≢ t → taken u m h.heap_start bs ≡ true → taken u m h.heap_start cs ≡ true)
free-IsHeap h bs t v b =
    let p = free-Placed h.heap_end v.bound t h bs h.heap_start v.pos b v.chain in
    (
      Placed-IsHeap h (free (t + 32) h) bs (free_in t h.heap_start bs) v p,
      p.bounds.heap_start,
      λ m.
          not-taken-join_in t m (release_in t h.heap_start bs) h.heap_start
            (not-taken-release_in t m bs h.heap_start b),
      λ u m ne used.
          taken-join_in t u m (release_in t h.heap_start bs) h.heap_start
            (taken-release_in t u m bs h.heap_start ne used),
    )

module _ {W : Type 0} (map_page : ℕ → W → W) where
  abbrev pub Grown : Heap W → ℕ → Blocks → Heap W → Type 0
  Grown h length bs g =
      IsHeap g (grow_in h.heap_end (length - 32) h.heap_start bs)
      × (g.heap_start ≡ h.heap_start)
      × (g.heap_end ≡ h.heap_end + length)

  -- The pages behind the heap, before they are joined to a free block.
  added-IsHeap :
      (h : Heap W) (n : ℕ) (v : Bool) (bs : Blocks) (length : ℕ)
      → IsHeap h ((n, v) ∷ bs)
      → 0x1000 ≤ length
      → length / 0x1000 * 0x1000 ≡ length
      → h.heap_end + length < 2 ^ 63
      → IsHeap (add_segment map_page length h) (((n, v) ∷ bs) ++ new_block (length - 32))
  added-IsHeap h n v bs length valid big whole fits =
      let g = add_segment map_page length h in
      let rest = added-rest map_page length h big whole fits in
      let below =
        last-lt-stop h.cell h.heap_end h.last_header n v bs null h.heap_start valid.chain in
      let app = added-Appended map_page length h big whole fits (omega arith) in
      let chain =
        Chain-append h.cell g.cell h.heap_end h.last_header (length - 32) app n v bs null
          h.heap_start valid.chain in
      let stop : h.heap_end + 32 + (length - 32) ≡ g.heap_end = omega arith in
      let blocks = ((n, v) ∷ bs) ++ new_block (length - 32) in
      record {
        initialized = rest.2 ∙ valid.initialized;
        chain =
            subst (λ a. Chain g.cell null a g.heap_end g.last_header blocks) (sym rest.0)
              (subst (λ e. Chain g.cell null h.heap_start e g.last_header blocks) stop
                (subst
                  (λ l. Chain g.cell null h.heap_start (h.heap_end + 32 + (length - 32)) l blocks)
                  (sym rest.3) chain));
        pos = omega (arith, valid.pos);
        bound = omega arith;
        filled = λ e. cc;
      }

  grown :
      (h : Heap W) (n : ℕ) (v : Bool) (bs : Blocks) (length : ℕ)
      → IsHeap h ((n, v) ∷ bs)
      → 0x1000 ≤ length
      → length / 0x1000 * 0x1000 ≡ length
      → h.heap_end + length < 2 ^ 63
      → Grown h length
          ((n, v) ∷ bs)
          (header_combine_backward h.heap_end (add_segment map_page length h))
  grown h n v bs length valid big whole fits =
      let g = add_segment map_page length h in
      let rest = added-rest map_page length h big whole fits in
      let blocks = ((n, v) ∷ bs) ++ new_block (length - 32) in
      let added = added-IsHeap h n v bs length valid big whole fits in
      let inside =
        is_block-end h.cell h.heap_end h.last_header (length - 32) bs h.heap_start
          (h.heap_start + 32 + n) valid.chain.4 in
      let there =
        subst (λ a. is_block h.heap_end (a + 32 + n) (bs ++ new_block (length - 32)) ≡ true)
          (sym rest.0) inside in
      let p =
        join-Placed g.heap_end added.bound h.heap_end g n v (bs ++ new_block (length - 32)) null
          g.heap_start added.pos there added.chain in
      let joined =
        Placed-IsHeap g (header_combine_backward h.heap_end g) blocks
          (join_in h.heap_end g.heap_start blocks) added p in
      (
        subst (λ a. IsHeap (header_combine_backward h.heap_end g) (join_in h.heap_end a blocks))
            rest.0 joined,
        p.bounds.heap_start ∙ rest.0,
        p.bounds.heap_end ∙ rest.1,
      )

  -- `heap_expand` adds whole pages behind the heap as one free block, joined to the last block if
  -- that is free, and the heap stays valid.
  pub heap_expand-IsHeap :
      (h : Heap W) (bs : Blocks) (size : ℕ)
      → IsHeap h bs
      → 0 < size
      → h.heap_end + size + 0x1000 < 2 ^ 63
      → Grown h (whole_pages size) bs (heap_expand map_page size h)
  unfolding heap_expand
  heap_expand-IsHeap h [] size valid pos fits = absurd (valid.filled refl)
  heap_expand-IsHeap h ((n, v) ∷ bs) size valid pos fits =
      let pages = whole_pages_bounds size pos (omega arith) in
      grown h n v bs (whole_pages size) valid pages.2 pages.3 (omega arith)
