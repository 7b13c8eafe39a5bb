-- ===== src/Elf/Segment.antt =====
-- What the loading of one segment promises.
use fenestella.Prelude.{
  ℕ, zero, suc, ◌+◌, ◌-◌, ◌*◌, ◌%◌, ◌^◌, ◌<◌, ◌≤◌, ◌≡◌, refl, ap, ◌∙◌, ◌⊎◌, inl, inr, true, false,
  none, some, List, [], ◌∷◌, ◌++◌, arith, ◌==◌,
}
use fenestella.Elf.{
  ProgramHeader, Loaded, Loader, is_page_mapped, memcpy, memset, copy_mapped, chunk, advance,
  required_pages, page_size, u64, place_segment, load_segment,
}

-- Where a segment begins in a page that is mapped and has no bytes in the file, the first loop
-- makes no progress.
stuck :
    (fuel file : ℕ) (ss : List Loaded) (h : ProgramHeader) (m : ℕ → ℕ)
    → is_page_mapped ss h.p_vaddr ≡ true
    → h.p_filesz ≡ 0
    → 0 < h.p_memsz
    → h.p_memsz < 2 ^ 64
    → h.p_vaddr < 2 ^ 64
    → copy_mapped fuel file ss h m ≡ none
unfolding copy_mapped
stuck zero file ss h m mapped empty pos low low' = refl
stuck (suc fuel) file ss h m mapped empty pos low low' =
    let none_copied : chunk h ≡ 0 = ground arith in
    let same : (advance h).p_vaddr ≡ h.p_vaddr = omega (arith, none_copied) in
    let empty' : (advance h).p_filesz ≡ 0 = omega (arith, none_copied) in
    let left : (advance h).p_memsz ≡ h.p_memsz = omega (arith, none_copied) in
    let more : ((advance h).p_memsz == 0) ≡ false = ground (arith, left) in
    let rest =
      stuck fuel file ss (advance h) (memcpy h.p_vaddr (u64 (file + h.p_offset)) (chunk h) m)
        (ap (is_page_mapped ss) same ∙ mapped) empty' (omega (arith, left)) (omega (arith, left))
        (omega (arith, same)) in
    rw (mapped, more) rest

-- A segment that begins in a page that is mapped, has no bytes in the file and has some in memory
-- is never loaded: whatever the fuel is, the first loop goes on.
pub load_segment-stuck :
    {W : Type 0} (alloc_pool : ℕ → W → ℕ × W) (fuel file : ℕ) (h : ProgramHeader) (l : Loader W)
    → is_page_mapped l.segments h.p_vaddr ≡ true
    → h.p_filesz ≡ 0
    → 0 < h.p_memsz
    → h.p_memsz < 2 ^ 64
    → h.p_vaddr < 2 ^ 64
    → load_segment alloc_pool fuel file h l ≡ none
unfolding load_segment
load_segment-stuck alloc_pool fuel file h l mapped empty pos low low' =
    let more : (h.p_memsz == 0) ≡ false = ground arith in
    rw (more, stuck fuel file l.segments h l.memory mapped empty pos low low') refl

-- The pool holds the segment from the offset of its address in the page on.
pool-fits :
    (h : ProgramHeader)
    → h.p_memsz < 2 ^ 63
    → (h.p_vaddr % page_size + h.p_memsz ≤ required_pages h * page_size)
      × (required_pages h * page_size < 2 ^ 64)
unfolding required_pages
pool-fits h low = ground arith

-- What the memory holds where a segment is placed in a pool at `pool`.
pub record Placed {W : Type 0} (file pool : ℕ) (h : ProgramHeader) (l g : Loader W) : Type 0 where
  pub entry :
      g.segments
      ≡ l.segments
        ++ record {
          loaded_at = h.p_vaddr;
          located_at = pool;
          length = required_pages h * page_size;
        }
          ∷ []
  pub fits : h.p_vaddr % page_size + h.p_memsz ≤ required_pages h * page_size
  pub from_file :
      (i : ℕ)
      → i < h.p_filesz
      → g.memory (pool + h.p_vaddr % page_size + i) ≡ l.memory (file + h.p_offset + i)
  pub cleared :
      (i : ℕ) → h.p_filesz ≤ i → i < h.p_memsz → g.memory (pool + h.p_vaddr % page_size + i) ≡ 0
  pub elsewhere :
      (a : ℕ) → (a < pool) ⊎ (pool + required_pages h * page_size ≤ a) → g.memory a ≡ l.memory a

-- Copying behind clearing, at each address.
abbrev written : (ℕ → ℕ) → ℕ → ℕ → ℕ → ℕ → ℕ → ℕ
written m dest src n size = memcpy dest src n (memset dest 0 size m)

module _ (m : ℕ → ℕ) (dest src n size : ℕ) (apart : (src + n ≤ dest) ⊎ (dest + size ≤ src))
    (fits : n ≤ size) where
  written-file : (i : ℕ) → i < n → written m dest src n size (dest + i) ≡ m (src + i)
  written-file i h = elim apart [
    | inl before ↦ let e : src + (dest + i - dest) ≡ src + i = omega arith in ground (arith, e)
    | inr after ↦ let e : src + (dest + i - dest) ≡ src + i = omega arith in ground (arith, e)
  ]

  written-clear : (i : ℕ) → n ≤ i → i < size → written m dest src n size (dest + i) ≡ 0
  written-clear i h h' = ground arith

  written-other : (a : ℕ) → (a < dest) ⊎ (dest + size ≤ a) → written m dest src n size a ≡ m a
  written-other a h = ground arith

module _ {W : Type 0} (alloc_pool : ℕ → W → ℕ × W) (fuel file : ℕ) (h : ProgramHeader)
    (l : Loader W) where
  abbrev pool : ℕ
  pool = (alloc_pool (required_pages h) l.world).0

  load_segment-place :
      is_page_mapped l.segments h.p_vaddr ≡ false
      → 0 < h.p_memsz
      → load_segment alloc_pool (suc fuel) file h l ≡ some (place_segment alloc_pool file h l)
  unfolding load_segment copy_mapped
  load_segment-place fresh pos =
      let more : (h.p_memsz == 0) ≡ false = ground arith in rw (more, fresh) refl

  -- The result, where no address wraps around.
  abbrev placed : Loader W
  placed = record {
    segments =
        l.segments
        ++ record {
          loaded_at = h.p_vaddr;
          located_at = pool;
          length = required_pages h * page_size;
        }
          ∷ [];
    memory =
        written l.memory (pool + h.p_vaddr % page_size) (file + h.p_offset) h.p_filesz h.p_memsz;
    world = (alloc_pool (required_pages h) l.world).1;
  }

  place_segment-placed :
      u64 (pool + h.p_vaddr % page_size) ≡ pool + h.p_vaddr % page_size
      → u64 (file + h.p_offset) ≡ file + h.p_offset
      → u64 (required_pages h * page_size) ≡ required_pages h * page_size
      → place_segment alloc_pool file h l ≡ placed
  unfolding place_segment
  place_segment-placed dest src long = rw (dest, src, long) refl

  -- A segment that begins in no page that is mapped gets a pool of its own and an entry at the end
  -- of the list, and the loading ends after one round. From the offset of its address in the page
  -- on the pool, which is large enough, holds the bytes of the file and then zeros; no address
  -- outside of the pool changes. This is where the file has no more bytes than the segment, nothing
  -- wraps around, and the bytes of the file are apart from the pool.
  pub load_segment-Placed :
      is_page_mapped l.segments h.p_vaddr ≡ false
      → 0 < h.p_memsz
      → h.p_filesz ≤ h.p_memsz
      → h.p_memsz < 2 ^ 62
      → pool + required_pages h * page_size < 2 ^ 63
      → file + h.p_offset + h.p_filesz < 2 ^ 63
      → (file + h.p_offset + h.p_filesz ≤ pool)
        ⊎ (pool + required_pages h * page_size ≤ file + h.p_offset)
      → (g : Loader W) × (load_segment alloc_pool (suc fuel) file h l ≡ some g)
        × Placed file pool h l g
  load_segment-Placed fresh pos few low room readable apart =
      let size = pool-fits h (omega arith) in
      let away : (file + h.p_offset + h.p_filesz ≤ pool + h.p_vaddr % page_size)
          ⊎ (pool + h.p_vaddr % page_size + h.p_memsz ≤ file + h.p_offset) =
        elim apart [ inl before ↦ inl (omega arith) | inr after ↦ inr (omega (arith, size.0)) ] in
      let e = place_segment-placed (omega (arith, size.0)) (omega arith) (omega (arith, size.1)) in
      (
        placed,
        load_segment-place fresh pos ∙ ap some e,
        record {
          entry = refl;
          fits = size.0;
          from_file =
              written-file l.memory (pool + h.p_vaddr % page_size) (file + h.p_offset) h.p_filesz
                h.p_memsz away few;
          cleared =
              written-clear l.memory (pool + h.p_vaddr % page_size) (file + h.p_offset) h.p_filesz
                h.p_memsz away few;
          elsewhere = λ a out.
              written-other l.memory (pool + h.p_vaddr % page_size) (file + h.p_offset) h.p_filesz
                h.p_memsz away few a
                (elim out [
                  | inl below ↦ inl (omega arith)
                  | inr above ↦ inr (omega (arith, size.0))
                ]);
        },
      )
