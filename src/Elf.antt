-- ===== src/Elf.antt =====
-- kernel/src/proc/loader/elf.c: loading the segments of a program, on a memory of bytes. The pools
-- of pages come from a parameter, whose state is `W`.
pub mod Segment
pub mod Program
use fenestella.Prelude.{
  ℕ, zero, suc, ◌+◌, ◌-◌, ◌*◌, ◌/◌, ◌%◌, ◌^◌, Bool, true, false, not, ◌&&◌, ◌||◌, Option, none,
  some, List, [], ◌∷◌, ◌++◌, ◌==◌, ltb, leb, if◌then◌else◌, length,
}
use fenestella.Strings.{strncmp}

abbrev pub u64 : ℕ → ℕ
u64 n = n % 2 ^ 64

abbrev pub page_size : ℕ
page_size = 0x1000

-- `elf_program_header_t`, as far as the loader reads it.
pub record ProgramHeader : Type 0 where
  pub kind : ℕ
  pub p_offset : ℕ
  pub p_vaddr : ℕ
  pub p_filesz : ℕ
  pub p_memsz : ℕ

-- `elf_loaded_page_t`.
pub record Loaded : Type 0 where
  pub loaded_at : ℕ
  pub located_at : ℕ
  pub length : ℕ

-- `elf_is_page_mapped`.
unfoldable pub is_page_mapped : List Loaded → ℕ → Bool
is_page_mapped [] p_vaddr = false
is_page_mapped (s ∷ ss) p_vaddr =
    leb s.loaded_at p_vaddr && ltb p_vaddr (u64 (s.loaded_at + s.length))
    || is_page_mapped ss p_vaddr

-- `memcpy` and `memset` of C, where the ranges do not overlap or wrap around.
abbrev pub memcpy : ℕ → ℕ → ℕ → (ℕ → ℕ) → ℕ → ℕ
memcpy dest src n m a = if leb dest a && ltb a (dest + n) then m (src + (a - dest)) else m a

abbrev pub memset : ℕ → ℕ → ℕ → (ℕ → ℕ) → ℕ → ℕ
memset dest v n m a = if leb dest a && ltb a (dest + n) then v else m a

-- How many bytes one round of the first loop copies.
abbrev pub chunk : ProgramHeader → ℕ
chunk h =
    let next_page_offset = page_size - h.p_vaddr % page_size in
    if ltb h.p_filesz next_page_offset then h.p_filesz else next_page_offset

abbrev pub advance : ProgramHeader → ProgramHeader
advance h = record h {
  p_vaddr = u64 (h.p_vaddr + chunk h);
  p_offset = u64 (h.p_offset + chunk h);
  p_filesz = u64 (h.p_filesz + 2 ^ 64 - chunk h);
  p_memsz = u64 (h.p_memsz + 2 ^ 64 - chunk h);
}

-- The first loop, which copies what falls into pages that are mapped. The flag says that nothing
-- is left of the segment.
unfoldable pub copy_mapped :
    ℕ → ℕ → List Loaded → ProgramHeader → (ℕ → ℕ) → Option (Bool × ProgramHeader × (ℕ → ℕ))
copy_mapped zero file segments h m = none
copy_mapped (suc fuel) file segments h m =
    let h' = advance h in
    let m' = memcpy h.p_vaddr (u64 (file + h.p_offset)) (chunk h) m in
    let rest = copy_mapped fuel file segments h' m' in
    if not (is_page_mapped segments h.p_vaddr)
    then some (false, h, m)
    else if h'.p_memsz == 0
    then some (true, h', m')
    else rest

-- The pages that the rest of the segment needs.
unfoldable pub required_pages : ProgramHeader → ℕ
required_pages h = u64 (
    h.p_memsz / page_size
    + (if h.p_memsz % page_size == 0 then 0 else 1)
    + (if h.p_vaddr % page_size == 0 then 0 else 1))

-- The state of the loader: the segments, the memory, and the pools.
pub record Loader (W : Type 0) : Type 0 where
  pub segments : List Loaded
  pub memory : ℕ → ℕ
  pub world : W

module _ {W : Type 0} (alloc_pool : ℕ → W → ℕ × W) where
  -- The rest of the segment goes into a pool of its own.
  unfoldable pub place_segment : ℕ → ProgramHeader → Loader W → Loader W
  place_segment file h l =
      let pool = alloc_pool (required_pages h) l.world in
      let dest = u64 (pool.0 + h.p_vaddr % page_size) in
      record {
        segments =
            l.segments
            ++ record {
              loaded_at = h.p_vaddr;
              located_at = pool.0;
              length = u64 (required_pages h * page_size);
            }
              ∷ [];
        memory =
            memcpy dest (u64 (file + h.p_offset)) h.p_filesz (memset dest 0 h.p_memsz l.memory);
        world = pool.1;
      }

  unfoldable pub load_segment : ℕ → ℕ → ProgramHeader → Loader W → Option (Loader W)
  unfolding copy_mapped place_segment required_pages
  load_segment fuel file h l =
      if h.p_memsz == 0 then some l else elim (copy_mapped fuel file l.segments h l.memory) [
        | none ↦ none
        | some (done, h', m') ↦
            let l' = record l { memory = m' } in
            some (if done then l' else place_segment file h' l')
      ]
