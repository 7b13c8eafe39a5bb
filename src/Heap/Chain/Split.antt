-- ===== src/Heap/Chain/Split.antt =====
-- What `header_split` writes.
use fenestella.Prelude.{ℕ, ◌+◌, ◌-◌, ◌^◌, ◌≤◌, ◌<◌, ◌≡◌, ◌≢◌, arith, ◌==◌, if◌then◌else◌}
use fenestella.Heap.{Heap, header_split, null}

module _ {W : Type 0} (at size : ℕ) (h : Heap W) where
  abbrev n : ℕ
  n = (h.cell at).length

  abbrev split : ℕ × Heap W
  split = header_split at size h

  module _ (big : 16 ≤ size) (fits : size ≤ n) (bound : at + 32 + n < 2 ^ 63) where
    -- Too little would be left: nothing is written.
    pub header_split-small : n < size + 48 → header_split at size h ≡ (null, h)
    unfolding header_split
    header_split-small small = ground arith

    module _ (room : size + 48 ≤ n) where
      abbrev new : ℕ
      new = at + 32 + size

      pub split_result : split.0 ≡ new
      unfolding header_split
      split_result = ground arith

      pub split-at :
          (h.cell at).next ≢ at
          → ((split.1.cell at).length ≡ size)
            × ((split.1.cell at).next ≡ new)
            × ((split.1.cell at).last ≡ (h.cell at).last)
            × ((split.1.cell at).free ≡ (h.cell at).free)
      unfolding header_split
      split-at apart = ground arith

      pub split-last_header :
          split.1.last_header ≡ (if h.last_header == at then new else h.last_header)
      unfolding header_split
      split-last_header = ground arith

      pub split-rest :
          (split.1.heap_start ≡ h.heap_start)
          × (split.1.heap_end ≡ h.heap_end)
          × (split.1.heap_initialized ≡ h.heap_initialized)
          × (split.1.world ≡ h.world)
      unfolding header_split
      split-rest = ground arith

      pub split-others :
          (a : ℕ) → a ≢ at → a ≢ new → a ≢ (h.cell at).next → split.1.cell a ≡ h.cell a
      unfolding header_split
      split-others a out1 out2 out3 = ground arith

      pub split-others_last :
          (a : ℕ) → a ≢ at → a ≢ new → (h.cell at).next ≡ null → split.1.cell a ≡ h.cell a
      unfolding header_split
      split-others_last a out1 out2 e = ground arith

      pub split-new_last :
          (h.cell at).next ≡ null
          → split.1.cell new
            ≡ record { length = n - size - 32; next = null; last = at; free = (h.cell at).free }
      unfolding header_split
      split-new_last e = ground arith

      -- With a next block, behind the one that is split.
      module _ (next : (h.cell at).next ≡ at + 32 + n) where
        pub split-new : split.1.cell new ≡ record {
          length = n - size - 32;
          next = at + 32 + n;
          last = at;
          free = (h.cell at).free;
        }
        unfolding header_split
        split-new = ground arith

        pub split-next : split.1.cell (at + 32 + n) ≡ record (h.cell (at + 32 + n)) { last = new }
        unfolding header_split
        split-next = ground arith
