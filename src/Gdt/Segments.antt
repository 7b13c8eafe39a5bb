-- ===== src/Gdt/Segments.antt =====
-- The descriptors as the processor reads them.
use fenestella.Prelude.{
  ℕ, ◌+◌, ◌*◌, ◌/◌, ◌%◌, ◌^◌, ◌<◌, ◌≤◌, ◌≡◌, ◌⊎◌, refl, false, leb, ◌==◌, arith, List, [], ◌∷◌,
  zero, suc, length, get_or, ap, ◌∙◌,
}
use fenestella.Gdt.{
  Gdt, gdt_max_descriptors, gdt_descriptor_size, write_bytes, tss_descriptor, gdt_install_tss,
}

-- The 64 bits of an address in a system descriptor at a selector.
unfoldable pub system_base : (ℕ → ℕ) → ℕ → ℕ
system_base m at =
    m (at + 2)
    + m (at + 3) * 0x100
    + m (at + 4) * 0x10000
    + m (at + 7) * 0x1000000
    + m (at + 8) * 2 ^ 32
    + m (at + 9) * 2 ^ 40
    + m (at + 10) * 2 ^ 48
    + m (at + 11) * 2 ^ 56

write_bytes-other :
    (at : ℕ) (bs : List ℕ) (m : ℕ → ℕ) (a : ℕ)
    → (a < at) ⊎ (at + length bs ≤ a)
    → write_bytes at bs m a ≡ m a
unfolding write_bytes
write_bytes-other at [] m a out = refl
write_bytes-other at (b ∷ bs) m a out =
    let rest = write_bytes-other (at + 1) bs m a (ground arith) in ground (arith, rest)

write_bytes-get_or :
    (at : ℕ) (bs : List ℕ) (m : ℕ → ℕ) (i : ℕ)
    → i < length bs
    → write_bytes at bs m (at + i) ≡ get_or bs i 0
unfolding write_bytes
write_bytes-get_or at [] m i lt = absurd (omega arith)
write_bytes-get_or at (b ∷ bs) m zero lt = ground arith
write_bytes-get_or at (b ∷ bs) m (suc i) lt =
    let later : (at + suc i == at) ≡ false = ground arith in
    let next : at + suc i ≡ at + 1 + i = omega arith in
    rw later
      (ap (write_bytes (at + 1) bs m) next ∙ write_bytes-get_or (at + 1) bs m i (omega arith))

digits_of :
    (t : ℕ)
    → t < 2 ^ 64
    → t % 0x100
        + t / 0x100 % 0x100 * 0x100
        + t / 0x10000 % 0x100 * 0x10000
        + t / 0x1000000 % 0x100 * 0x1000000
        + t / 2 ^ 32 % 0x100 * 2 ^ 32
        + t / 2 ^ 40 % 0x100 * 2 ^ 40
        + t / 2 ^ 48 % 0x100 * 2 ^ 48
        + t / 2 ^ 56 % 0x100 * 2 ^ 56
      ≡ t
digits_of t low = omega arith

tss_base :
    (tss at : ℕ) (m : ℕ → ℕ)
    → tss < 2 ^ 64
    → system_base (write_bytes at (tss_descriptor tss) m) at ≡ tss
unfolding system_base
tss_base tss at m low =
    let at_byte = write_bytes-get_or at (tss_descriptor tss) m in
    rw
      (
        at_byte 2 (omega arith),
        at_byte 3 (omega arith),
        at_byte 4 (omega arith),
        at_byte 7 (omega arith),
        at_byte 8 (omega arith),
        at_byte 9 (omega arith),
        at_byte 10 (omega arith),
        at_byte 11 (omega arith),
      )
      (digits_of tss low)

-- With room for an entry, `gdt_install_tss` of an address of 64 bits returns the selector of the next
-- entry, where the processor finds that address, takes two entries, and changes no byte outside of
-- their sixteen.
pub gdt_install_tss-system_base :
    (tss : ℕ) (g : Gdt)
    → g.gindex < gdt_max_descriptors
    → tss < 2 ^ 64
    → let r = gdt_install_tss tss g in
      (r.0 ≡ g.gindex * gdt_descriptor_size)
      × (r.1.gindex ≡ g.gindex + 2)
      × (system_base r.1.byte r.0 ≡ tss)
      × ((a : ℕ) → (a < r.0) ⊎ (r.0 + 16 ≤ a) → r.1.byte a ≡ g.byte a)
unfolding gdt_install_tss
gdt_install_tss-system_base tss g room low =
    let open_ : leb gdt_max_descriptors g.gindex ≡ false = ground arith in
    rw open_ (
      refl,
      refl,
      tss_base tss (g.gindex * 8) g.byte low,
      λ a out. write_bytes-other (g.gindex * 8) (tss_descriptor tss) g.byte a out,
    )
