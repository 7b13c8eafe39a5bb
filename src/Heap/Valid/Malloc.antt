-- ===== src/Heap/Valid/Malloc.antt =====
-- `malloc` and `heap_initialize` of kernel/src/mem/heap/allocator.c on the whole heap.
use fenestella.Prelude.{
  ℕ, suc, ◌+◌, ◌-◌, ◌*◌, ◌^◌, ◌≤◌, ◌<◌, ◌≡◌, refl, ap, sym, subst, ◌∙◌, true, false, Option, none,
  some, [], ◌∷◌, ◌++◌, arith, ◌==◌, inl, inr, ◌⊎◌, Bool-cases, length, length-append,
}
use fenestella.Heap.{
  Heap, null, heap_initialize, heap_expand, whole_pages, round_16, search_free, malloc,
}
use fenestella.Heap.Chain.{Blocks, alloc_in, join_in}
use fenestella.Heap.Chain.Search.{SearchIs, search_free-SearchIs}
use fenestella.Heap.Chain.Grow.{new_block, grow_in, whole_pages_bounds}
use fenestella.Heap.Chain.Taken.{taken, Got, GotOf, alloc_in-GotOf, taken-grow_in}
use fenestella.Heap.Chain.Tail.{tail_from, tail-lt_of_none, tail-grow_in}
use fenestella.Heap.Valid.{IsHeap, Placed-IsHeap, heap_expand-IsHeap}

-- The heap `g` is `h` with a block of at least `size` bytes in use whose data start at `p`: it was
-- not in use before, and what was in use still is.
pub record Allocated {W : Type 0} (size : ℕ) (bs : Blocks) (h : Heap W) (p : ℕ) (g : Heap W)
    : Type 0 where
  pub blocks : Blocks
  pub valid : IsHeap g blocks
  pub start : g.heap_start ≡ h.heap_start
  pub got : Got size h.heap_start bs p blocks

abbrev pub Served : {W : Type 0} → ℕ → Blocks → Heap W → Option (ℕ × Heap W) → Type 0
Served {W} size bs h r = (p : ℕ) × (g : Heap W) × (r ≡ some (p, g)) × Allocated size bs h p g

-- What a pass over the list comes to.
abbrev Pass :
    {W : Type 0} → ℕ → Blocks → Heap W → Option (ℕ × Blocks) → Option (Option (ℕ × Heap W)) → Type 0
Pass {W} n bs h o r =
    ((o ≡ none) × (r ≡ some none))
    ⊎ ((p : ℕ) × (g : Heap W) × (r ≡ some (some (p, g))) × Allocated n bs h p g)

Pass-of :
    {W : Type 0} (n : ℕ) (bs : Blocks) (h : Heap W) (o : Option (ℕ × Blocks))
    (r : Option (Option (ℕ × Heap W)))
    → IsHeap h bs
    → GotOf n h.heap_start bs o
    → SearchIs h null h.heap_start h.heap_end o r
    → Pass n bs h o r
Pass-of n bs h none r valid got s = inl (refl, s)
Pass-of n bs h (some (p, cs)) r valid got (g, found, placed) = inr (
  p,
  g,
  found,
  record {
    blocks = cs;
    valid = Placed-IsHeap h g bs cs valid placed;
    start = placed.bounds.heap_start;
    got = got;
  },
)

pass :
    {W : Type 0} (steps n : ℕ) (bs : Blocks) (h : Heap W)
    → IsHeap h bs
    → 16 ≤ n
    → length bs ≤ steps
    → Pass n bs h (alloc_in n h.heap_start bs) (search_free steps h.heap_start n h)
pass steps n [] h valid big enough = absurd (valid.filled refl)
pass steps n ((m, f) ∷ bs) h valid big enough =
    Pass-of n ((m, f) ∷ bs) h _ _ valid (alloc_in-GotOf n ((m, f) ∷ bs) h.heap_start) (
      search_free-SearchIs h h.heap_end valid.bound n big steps m f bs null h.heap_start
        (omega arith) valid.pos valid.chain)

round_16_bounds :
    (size : ℕ)
    → 0 < size
    → size < 2 ^ 63
    → (size ≤ round_16 size)
      × (round_16 size < size + 16)
      × (16 ≤ round_16 size)
      × (round_16 (round_16 size) ≡ round_16 size)
round_16_bounds size pos low = (ground arith, ground arith, ground arith, ground arith)

length-join_in : (t : ℕ) (bs : Blocks) (at : ℕ) → length (join_in t at bs) ≤ length bs
length-join_in t [] at = omega arith
length-join_in t ((n, false) ∷ bs) at = ground (arith, length-join_in t bs (at + 32 + n))
length-join_in t ((n, true) ∷ []) at = ground arith
length-join_in t ((n, true) ∷ (m, true) ∷ bs) at =
    ground (arith, length-join_in t ((m, true) ∷ bs) (at + 32 + n))
length-join_in t ((n, true) ∷ (m, false) ∷ bs) at =
    ground (arith, length-join_in t ((m, false) ∷ bs) (at + 32 + n))

length-grow_in : (stop len at : ℕ) (bs : Blocks) → length (grow_in stop len at bs) ≤ suc (length bs)
length-grow_in stop len at bs =
    omega (arith, length-join_in stop (bs ++ new_block len) at, length-append bs (new_block len))

tail-grown :
    {W : Type 0} (h : Heap W) (bs : Blocks) (len : ℕ)
    → IsHeap h bs
    → (len ≤ tail_from 0 (grow_in h.heap_end len h.heap_start bs))
      × (0 < tail_from 0 bs
          → tail_from 0 bs + 32 + len ≤ tail_from 0 (grow_in h.heap_end len h.heap_start bs))
tail-grown h [] len valid = absurd (valid.filled refl)
tail-grown h ((n, v) ∷ bs) len valid =
    tail-grow_in h.cell h.heap_end h.last_header len n v bs null h.heap_start 0 valid.chain

clash : true ≡ false → ⊥
clash e = cc

-- What is handed out of the expanded heap was not in use before the expansion either.
Got-back :
    (n stop len at : ℕ) (bs : Blocks) (p : ℕ) (cs : Blocks)
    → Got n at (grow_in stop len at bs) p cs
    → Got n at bs p cs
Got-back n stop len at bs p cs got = record {
  block = got.block;
  len = got.len;
  behind = got.behind;
  enough = got.enough;
  from = got.from;
  in_use = got.in_use;
  was_free = λ m. elim (Bool-cases (taken got.block m at bs)) [
    | inl used ↦
        let still = taken-grow_in stop len got.block m bs at used in
        let was = got.was_free m in absurd (clash (sym still ∙ was))
    | inr unused ↦ unused
  ];
  kept = λ t m h. got.kept t m (taken-grow_in stop len t m bs at h);
}

module _ {W : Type 0} (map_page : ℕ → W → W) (steps : ℕ) where
  malloc-found :
      (k size : ℕ) (h : Heap W) (p : ℕ) (g : Heap W)
      → h.heap_initialized ≡ true
      → 0 < round_16 size
      → search_free steps h.heap_start (round_16 size) h ≡ some (some (p, g))
      → malloc map_page steps (suc k) size h ≡ some (p, g)
  unfolding malloc
  malloc-found k size h p g init pos found =
      let ne : (round_16 size == 0) ≡ false = ground arith in simp (init, ne, found)

  malloc-again :
      (k size : ℕ) (h : Heap W)
      → h.heap_initialized ≡ true
      → 0 < round_16 size
      → search_free steps h.heap_start (round_16 size) h ≡ some none
      → malloc map_page steps (suc k) size h
        ≡ malloc map_page steps k (round_16 size) (heap_expand map_page (round_16 size) h)
  unfolding malloc
  malloc-again k size h init pos found =
      let ne : (round_16 size == 0) ≡ false = ground arith in simp (init, ne, found)

  -- What is served on the expanded heap is served on the heap.
  served-back :
      (n L : ℕ) (h : Heap W) (bs : Blocks) (h1 : Heap W) (r : Option (ℕ × Heap W))
      → (h1.heap_start ≡ h.heap_start)
      → Served n (grow_in h.heap_end L h.heap_start bs) h1 r
      → Served n bs h r
  served-back n L h bs h1 r start (p, g, e, a) = (
    p,
    g,
    e,
    record {
      blocks = a.blocks;
      valid = a.valid;
      start = a.start ∙ start;
      got =
          Got-back n h.heap_end L h.heap_start bs p a.blocks
            (subst (λ s. Got n s (grow_in h.heap_end L h.heap_start bs) p a.blocks) start a.got);
    },
  )

  module _ (n size : ℕ) (big : 16 ≤ n) (rounded : round_16 size ≡ n) where
    -- One call of `malloc` with a size that is rounded to `n`.
    call :
        (k : ℕ) (h : Heap W) (bs : Blocks)
        → IsHeap h bs
        → length bs ≤ steps
        → (alloc_in n h.heap_start bs ≡ none
            → Served n bs h (malloc map_page steps k n (heap_expand map_page n h)))
        → Served n bs h (malloc map_page steps (suc k) size h)
    call k h bs valid enough else_ = elim (pass steps n bs h valid big enough) [
      | inl (full, missed) ↦
          subst (Served n bs h)
            (sym (
              malloc-again k size h valid.initialized (omega arith)
                (subst (λ m. search_free steps h.heap_start m h ≡ some none) (sym rounded) missed)
              ∙ ap (λ m. malloc map_page steps k m (heap_expand map_page m h)) rounded))
            (else_ full)
      | inr (p, g, found, a) ↦ (
        p,
        g,
        malloc-found k size h p g valid.initialized (omega arith) (
            subst (λ m. search_free steps h.heap_start m h ≡ some (some (p, g))) (sym rounded)
              found),
        a,
      )
    ]

  weaken :
      (n size : ℕ) (h : Heap W) (bs : Blocks) (r : Option (ℕ × Heap W))
      → size ≤ n
      → Served n bs h r
      → Served size bs h r
  weaken n size h bs r le (p, g, e, a) = (
    p,
    g,
    e,
    record {
      blocks = a.blocks;
      valid = a.valid;
      start = a.start;
      got = record {
        block = a.got.block;
        len = a.got.len;
        behind = a.got.behind;
        enough = omega (arith, a.got.enough);
        from = a.got.from;
        in_use = a.got.in_use;
        was_free = a.got.was_free;
        kept = a.got.kept;
      };
    },
  )

  module _ (n : ℕ) (big : 16 ≤ n) (low : n < 2 ^ 63) (rounded : round_16 n ≡ n) where
    abbrev pages : ℕ
    pages = whole_pages n

    abbrev bigger : Heap W → Heap W
    bigger h = heap_expand map_page n h

    abbrev larger : Heap W → Blocks → Blocks
    larger h bs = grow_in h.heap_end (pages - 32) h.heap_start bs

    -- The third call finds the free block at the end.
    third :
        (k : ℕ) (h : Heap W) (bs : Blocks)
        → IsHeap h bs
        → length bs ≤ steps
        → n ≤ tail_from 0 bs
        → Served n bs h (malloc map_page steps (suc k) n h)
    third k h bs valid enough room =
        call n n big rounded k h bs valid enough
          (λ full. absurd (omega (arith, tail-lt_of_none n bs h.heap_start 0 (omega arith) full)))

    second :
        (k : ℕ) (h : Heap W) (bs : Blocks)
        → IsHeap h bs
        → suc (length bs) ≤ steps
        → pages ≤ tail_from 0 bs + 32
        → h.heap_end + n + 0x1000 < 2 ^ 63
        → Served n bs h (malloc map_page steps (suc (suc k)) n h)
    second k h bs valid enough room fits =
        call n n big rounded (suc k) h bs valid (omega arith) (λ full.
          let more = heap_expand-IsHeap map_page h bs n valid (omega arith) fits in
          let bounds = whole_pages_bounds n (omega arith) low in
          let tail = tail-grown h bs (pages - 32) valid in
          served-back n (pages - 32) h bs (bigger h) _ more.1 (
            third k (bigger h) (larger h bs) more.0
              (omega (arith, length-grow_in h.heap_end (pages - 32) h.heap_start bs))
              (omega arith)))

    after_expand :
        (k : ℕ) (h : Heap W) (bs : Blocks)
        → IsHeap h bs
        → suc (suc (length bs)) ≤ steps
        → h.heap_end + 2 * (n + 0x1000) < 2 ^ 63
        → Served n bs h (malloc map_page steps (suc (suc k)) n (bigger h))
    after_expand k h bs valid enough fits =
        let more = heap_expand-IsHeap map_page h bs n valid (omega arith) (omega arith) in
        let bounds = whole_pages_bounds n (omega arith) low in
        let tail = tail-grown h bs (pages - 32) valid in
        served-back n (pages - 32) h bs (bigger h) _ more.1 (
          second k (bigger h) (larger h bs) more.0
            (omega (arith, length-grow_in h.heap_end (pages - 32) h.heap_start bs)) (omega arith)
            (omega arith))

  -- On a valid heap that is far enough from the middle of the address space, `malloc` of a size
  -- other than 0 returns, within three calls of itself, the address behind the header of a block
  -- that is large enough, was not in use, and is in use now; the heap is valid again, and every
  -- block that was in use still is, where it was and as long as it was.
  pub malloc_total :
      (k size : ℕ) (h : Heap W) (bs : Blocks)
      → IsHeap h bs
      → 0 < size
      → h.heap_end + 2 * (size + 0x1010) < 2 ^ 63
      → suc (suc (length bs)) ≤ steps
      → Served size bs h (malloc map_page steps (suc (suc (suc k))) size h)
  malloc_total k size h bs valid pos fits enough =
      let b = round_16_bounds size pos (omega arith) in
      let n = round_16 size in
      weaken n size h bs _ b.0 (
        call n size b.2 refl (suc (suc k)) h bs valid (omega arith)
          (λ full. after_expand n b.2 (omega arith) b.3 k h bs valid enough (omega arith)))

module _ {W : Type 0} (map_page : ℕ → W → W) (address pages : ℕ) (h : Heap W) (pos : 0 < address)
    (some_pages : 0 < pages) (bound : address + pages * 0x1000 < 2 ^ 63) where
  -- `heap_initialize` makes a valid heap of one free block that fills the pages.
  pub heap_initialize-IsHeap :
      IsHeap (heap_initialize map_page address pages h) ((pages * 0x1000 - 32, true) ∷ [])
      × ((heap_initialize map_page address pages h).heap_start ≡ address)
      × ((heap_initialize map_page address pages h).heap_end ≡ address + pages * 0x1000)
  unfolding heap_initialize
  heap_initialize-IsHeap = (
    record {
      initialized = refl;
      chain = (ground arith, ground arith, ground arith, ground arith, (omega arith, refl));
      pos = pos;
      bound = omega arith;
      filled = λ e. cc;
    },
    refl,
    omega arith,
  )
