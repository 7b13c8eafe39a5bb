-- ===== src/Interrupts/Idt/Vectors.antt =====
-- The allocation of vectors, and descriptors and their handlers.
use fenestella.Prelude.{
  ℕ, zero, suc, ◌+◌, ◌%◌, ◌^◌, ◌≤◌, ◌<◌, ◌≡◌, ◌≢◌, refl, ap, ◌∙◌, ◌⊎◌, inl, inr, true, false, arith,
  ◌==◌, update, Bool-cases,
}
use fenestella.Interrupts.Idt.{
  Idt, isr_of, idt_set_descriptor, idt_free_vector, allocate_from, idt_allocate_vector,
}

-- `v` was the first vector not in use from `lo` on, and is the only one whose state has changed.
pub record Took (lo : ℕ) (s : Idt) (v : ℕ) (t : Idt) : Type 0 where
  pub free : s.vectors v ≡ false
  pub first : (u : ℕ) → lo ≤ u → u < v → s.vectors u ≡ true
  pub used : t.vectors v ≡ true
  pub others : (u : ℕ) → u ≢ v → t.vectors u ≡ s.vectors u
  pub idt : t.idt ≡ s.idt

abbrev AllocatedIs : ℕ → ℕ → Idt → ℕ × Idt → Type 0
AllocatedIs lo hi s r =
    (Took lo s r.0 r.1 × (lo ≤ r.0) × (r.0 < hi))
    ⊎ ((r.0 ≡ 0) × (r.1 ≡ s) × ((u : ℕ) → lo ≤ u → u < hi → s.vectors u ≡ true))

AllocatedIs-step :
    (n i : ℕ) (s : Idt) (r : ℕ × Idt)
    → s.vectors i ≡ true
    → AllocatedIs (i + 1) (i + 1 + n) s r
    → AllocatedIs i (i + suc n) s r
AllocatedIs-step n i s r used (inl (took, lo, hi)) = inl (
  record {
    free = took.free;
    first = λ u le lt. elim (Bool-cases (u == i)) [
      | inl here ↦ ap s.vectors (ground arith) ∙ used
      | inr above ↦ took.first u (ground arith) lt
    ];
    used = took.used;
    others = took.others;
    idt = took.idt;
  },
  omega arith,
  omega arith,
)
AllocatedIs-step n i s r used (inr (zero_, same, full)) = inr (
  zero_,
  same,
  λ u le lt. elim (Bool-cases (u == i)) [
    | inl here ↦ ap s.vectors (ground arith) ∙ used
    | inr above ↦ full u (ground arith) (omega arith)
  ],
)

Took-here :
    (i : ℕ) (s : Idt)
    → s.vectors i ≡ false
    → Took i s i (record s { vectors = update s.vectors i true })
Took-here i s free = record {
  free = free;
  first = λ u le lt. absurd (omega arith);
  used = ground arith;
  others = λ u ne. ground arith;
  idt = refl;
}

allocate_from-lem :
    (n i : ℕ) (s : Idt) → i + n ≤ 256 → AllocatedIs i (i + n) s (allocate_from n i s)
allocate_from-lem zero i s le = inr (refl, refl, λ u lo hi. absurd (omega arith))
allocate_from-lem (suc n) i s le = elim (Bool-cases (s.vectors i)) [
  | inl used ↦ rw used (
      AllocatedIs-step n i s (allocate_from n (i + 1) s) used
        (allocate_from-lem n (i + 1) s (omega arith)))
  | inr free ↦
      let small : i % 2 ^ 8 ≡ i = omega arith in
      rw (free, small) (inl (Took-here i s free, omega arith, omega arith))
]

-- A vector that is handed out was not in use, was the lowest such vector, and is the only one that
-- is marked in use by this; where all 256 are in use, the result is 0 and nothing changes.
pub idt_allocate_vector-Took :
    (s : Idt)
    → let r = idt_allocate_vector s in
      (Took 0 s r.0 r.1 × (r.0 < 256))
      ⊎ ((r.0 ≡ 0) × (r.1 ≡ s) × ((u : ℕ) → u < 256 → s.vectors u ≡ true))
unfolding idt_allocate_vector
idt_allocate_vector-Took s = elim (allocate_from-lem 256 0 s (omega arith)) [
  | inl (took, lo, hi) ↦ inl (took, hi)
  | inr (none_free, same, full) ↦ inr (none_free, same, λ u lt. full u (omega arith) lt)
]

module _ (kernel_code : ℕ) (s : Idt) where
  -- The handler can be read back from the descriptor of its vector, with its attributes, and no
  -- other descriptor changes; freeing the vector clears the handler and marks the vector as not in
  -- use, and no other.
  pub isr_of-idt_set_descriptor :
      (vector isr flags ist : ℕ)
      → isr < 2 ^ 64
      → let t = idt_set_descriptor kernel_code vector isr flags ist s in
        let f = idt_free_vector kernel_code vector t in
        (isr_of (t.idt vector) ≡ isr)
        × ((t.idt vector).attributes ≡ flags)
        × ((t.idt vector).ist ≡ ist)
        × ((u : ℕ) → u ≢ vector → t.idt u ≡ s.idt u)
        × (isr_of (f.idt vector) ≡ 0)
        × (f.vectors vector ≡ false)
        × (f.routine_handlers vector ≡ 0)
        × ((u : ℕ) → u ≢ vector → f.vectors u ≡ s.vectors u)
  unfolding idt_set_descriptor idt_free_vector
  isr_of-idt_set_descriptor vector isr flags ist bound = (
    ground arith,
    ground arith,
    ground arith,
    λ u ne. ground arith,
    ground arith,
    ground arith,
    ground arith,
    λ u ne. ground arith,
  )
