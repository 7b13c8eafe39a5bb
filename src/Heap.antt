-- ===== src/Heap.antt =====
-- kernel/src/mem/heap/allocator.c: the kernel heap, a doubly linked list of segment headers that
-- lie in the memory that they divide.
pub mod Chain
pub mod Valid
use fenestella.Prelude.{
  ℕ, zero, suc, ◌+◌, ◌-◌, ◌*◌, ◌/◌, ◌%◌, ◌^◌, Bool, true, false, not, ◌&&◌, ◌||◌, Option, none,
  some, ◌==◌, ltb, leb, if◌then◌else◌, update,
}

-- `heap_seg_header_t`, without the 32 bytes of padding and data that follow it.
pub record Header : Type 0 where
  pub length : ℕ
  pub next : ℕ
  pub last : ℕ
  pub free : Bool

abbrev pub null : ℕ
null = 0

-- `sizeof(heap_seg_header_t)`.
abbrev pub header_size : ℕ
header_size = 32

abbrev pub u64 : ℕ → ℕ
u64 n = n % 2 ^ 64

-- `length < 0x10` on an `int64_t` that holds the 64 bits `length`.
abbrev pub s64_lt_16 : ℕ → Bool
s64_lt_16 length = leb (2 ^ 63) length || ltb length 0x10

-- The headers by their address, the variables of allocator.c, and the state of the parts that
-- `heap_initialize` and `heap_expand` call.
pub record Heap (W : Type 0) : Type 0 where
  pub cell : ℕ → Header
  pub heap_start : ℕ
  pub heap_end : ℕ
  pub last_header : ℕ
  pub heap_initialized : Bool
  pub world : W

abbrev pub round_16 : ℕ → ℕ
round_16 size = if ltb 0 (size % 0x10) then u64 (size - size % 0x10 + 0x10) else size

-- `length` rounded up to whole pages.
abbrev pub whole_pages : ℕ → ℕ
whole_pages length =
    if length % 0x1000 == 0 then length else u64 (length - length % 0x1000 + 0x1000)

module _ {W : Type 0} where
  unfoldable pub store : ℕ → Header → Heap W → Heap W
  store p header h = record h { cell = update h.cell p header }

  -- `segment->next->last = p`, where there is a next segment.
  unfoldable pub relink_next : ℕ → ℕ → Heap W → Heap W
  unfolding store
  relink_next segment p h =
      let next = (h.cell segment).next in
      if next == null then h else store next (record (h.cell next) { last = p }) h

  -- The new header, or `NULL`.
  unfoldable pub header_split : ℕ → ℕ → Heap W → ℕ × Heap W
  unfolding store relink_next
  header_split segment split_length h =
      let length = u64 ((h.cell segment).length + 2 * 2 ^ 64 - split_length - header_size) in
      if ltb split_length 0x10
      then (null, h)
      else if s64_lt_16 length
      then (null, h)
      else let new_header = u64 (segment + split_length + header_size) in
        let h1 = relink_next segment new_header h in
        let old = h1.cell segment in
        let h2 =
          store new_header
            (record { length = length; next = old.next; last = segment; free = old.free }) h1 in
        let h3 = store segment (record old { length = split_length; next = new_header }) h2 in
        (
          new_header,
          if h3.last_header == segment then record h3 { last_header = new_header } else h3,
        )

  unfoldable pub header_combine_forward : ℕ → Heap W → Heap W
  unfolding store relink_next
  header_combine_forward segment h =
      let next = (h.cell segment).next in
      if next == null
      then h
      else if (h.cell next).free
      then (let h1 = if next == h.last_header then record h { last_header = segment } else h in
          let h2 = relink_next next segment h1 in
          let after = h2.cell next in
          let s = h2.cell segment in
          store segment
            (record s { length = u64 (s.length + after.length + header_size); next = after.next })
            h2)
      else h

  unfoldable pub header_combine_backward : ℕ → Heap W → Heap W
  header_combine_backward segment h =
      let last = (h.cell segment).last in
      if not (last == null) && (h.cell last).free then header_combine_forward last h else h

  -- `free` and the header that stands before the address.
  unfoldable pub free : ℕ → Heap W → Heap W
  free address h =
      let segment = u64 (address + 2 ^ 64 - header_size) in
      let h1 = store segment (record (h.cell segment) { free = true }) h in
      header_combine_backward segment (header_combine_forward segment h1)

  -- The segment is taken: what `malloc` returns is the address behind its header.
  unfoldable pub take : ℕ → Heap W → ℕ × Heap W
  unfolding store
  take current h =
      (u64 (current + header_size), store current (record (h.cell current) { free = false }) h)

  -- What `malloc` does with a free segment that is large enough.
  unfoldable pub place : ℕ → ℕ → Heap W → ℕ × Heap W
  place current size h =
      if ltb size (h.cell current).length
      then take current (header_split current size h).1
      else take current h

  -- The loop of `malloc` over the list: `some none` at its end.
  unfoldable pub search_free : ℕ → ℕ → ℕ → Heap W → Option (Option (ℕ × Heap W))
  search_free zero current size h = none
  search_free (suc steps) current size h =
      let c = h.cell current in
      let rest = search_free steps c.next size h in
      if c.free && leb size c.length
      then some (some (place current size h))
      else if c.next == null
      then some none
      else rest

  -- `map_page pos` is `paging_map_page(pos, pmm_alloc_page(), PAGING_FLAGS_KERNEL_PAGE)`.
  module _ (map_page : ℕ → W → W) where
    unfoldable pub map_pages : ℕ → ℕ → W → W
    map_pages zero pos w = w
    map_pages (suc pages) pos w = map_pages pages (u64 (pos + 0x1000)) (map_page pos w)

    unfoldable pub heap_initialize : ℕ → ℕ → Heap W → Heap W
    unfolding store map_pages
    heap_initialize address pages h =
        let length = u64 (pages * 0x1000) in
        store address
          (record {
            length = u64 (length + 2 ^ 64 - header_size);
            next = null;
            last = null;
            free = true;
          })
          (record h {
            heap_start = address;
            heap_end = u64 (address + length);
            last_header = address;
            heap_initialized = true;
            world = map_pages pages address h.world;
          })

    -- `heap_expand` up to the last line: the pages behind the heap are mapped, and a free segment
    -- that fills them becomes the last.
    unfoldable pub add_segment : ℕ → Heap W → Heap W
    unfolding store
    add_segment length h =
        let new_segment = h.heap_end in
        let last = h.last_header in
        let h1 = record h {
          heap_end = u64 (h.heap_end + length / 0x1000 * 0x1000);
          world = map_pages (length / 0x1000) h.heap_end h.world;
        } in
        let h2 = store new_segment (record (h1.cell new_segment) { free = true; last = last }) h1 in
        let h3 = store last (record (h2.cell last) { next = new_segment }) h2 in
        store new_segment
          (record (h3.cell new_segment) {
            next = null;
            length = u64 (length + 2 ^ 64 - header_size);
          })
          (record h3 { last_header = new_segment })

    unfoldable pub heap_expand : ℕ → Heap W → Heap W
    heap_expand requested h =
        header_combine_backward h.heap_end (add_segment (whole_pages requested) h)

    -- `malloc`; `steps` bounds the walk over the list and `fuel` the calls of `malloc` by itself.
    unfoldable pub malloc : ℕ → ℕ → ℕ → Heap W → Option (ℕ × Heap W)
    malloc steps zero size h = none
    malloc steps (suc fuel) size h =
        let h0 = if h.heap_initialized then h else heap_initialize 0x7f0000000000 256 h in
        let n = round_16 size in
        let again = malloc steps fuel n (heap_expand n h0) in
        if n == 0 then some (null, h0) else elim (search_free steps h0.heap_start n h0) [
          | none ↦ none
          | some none ↦ again
          | some (some found) ↦ some found
        ]

    -- `copy new old size` is `memcpy`, and `clear address size` is `memset` with 0.
    module _ (copy : ℕ → ℕ → ℕ → W → W) (clear : ℕ → ℕ → W → W) where
      unfoldable pub realloc : ℕ → ℕ → ℕ → ℕ → Heap W → Option (ℕ × Heap W)
      realloc steps fuel pointer size h = elim (malloc steps fuel size h) [
        | none ↦ none
        | some (new, h1) ↦
            some (new, free pointer (record h1 { world = copy new pointer size h1.world }))
      ]

      unfoldable pub calloc : ℕ → ℕ → ℕ → ℕ → Heap W → Option (ℕ × Heap W)
      calloc steps fuel elements size h =
          let real_size = u64 (elements * size) in
          elim (malloc steps fuel real_size h) [
            | none ↦ none
            | some (alloc, h1) ↦ some (alloc, record h1 { world = clear alloc real_size h1.world })
          ]
