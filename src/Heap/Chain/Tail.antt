-- ===== src/Heap/Chain/Tail.antt =====
-- The free block at the end of the heap, which decides how often `malloc` has to expand it.
use fenestella.Prelude.{
  ℕ, ◌+◌, ◌≤◌, ◌<◌, ◌≡◌, refl, sym, inl, inr, Bool, true, false, Option, none, some, [], ◌∷◌, arith,
  ◌==◌, leb, if◌then◌else◌, Bool-cases,
}
use fenestella.Heap.{Header}
use fenestella.Heap.Chain.{Blocks, Chain, Chain-le, keep_block, alloc_in}
use fenestella.Heap.Chain.Grow.{grow_in}

-- The length of the last block if it is free, and else 0; `d` is what the block before gives.
abbrev pub tail_from : ℕ → Blocks → ℕ
tail_from d [] = d
tail_from d ((n, f) ∷ bs) = tail_from (if f then n else 0) bs

keep-none : (b : ℕ × Bool) (o : Option (ℕ × Blocks)) → keep_block b o ≡ none → o ≡ none
keep-none b none h = refl
keep-none b (some (p, bs)) h = cc

hit_contradiction : {r : ℕ × Blocks} → some r ≡ none → ⊥
hit_contradiction h = cc

-- First fit fails only where the free block at the end is too small.
pub tail-lt_of_none :
    (size : ℕ) (bs : Blocks) (at d : ℕ)
    → d < size
    → alloc_in size at bs ≡ none
    → tail_from d bs < size
tail-lt_of_none size [] at d small h = small
tail-lt_of_none size ((n, false) ∷ bs) at d small h =
    tail-lt_of_none size bs (at + 32 + n) 0 (omega arith)
      (keep-none (n, false) (alloc_in size (at + 32 + n) bs) h)
tail-lt_of_none size ((n, true) ∷ bs) at d small h = elim (Bool-cases (leb size n)) [
  | inl fits ↦ absurd (hit_contradiction (rw fits at h))
  | inr less ↦
      tail-lt_of_none size bs (at + 32 + n) n (ground arith)
        (keep-none (n, true) (alloc_in size (at + 32 + n) bs) (rw less at h))
]

module _ (f : ℕ → Header) (stop last len : ℕ) where
  -- Expanding adds the new block to the free block at the end, or makes it the end.
  pub tail-grow_in :
      (n : ℕ) (v : Bool) (bs : Blocks) (prev at d : ℕ)
      → Chain f prev at stop last ((n, v) ∷ bs)
      → (len ≤ tail_from d (grow_in stop len at ((n, v) ∷ bs)))
        × (0 < tail_from d ((n, v) ∷ bs)
            → tail_from d ((n, v) ∷ bs) + 32 + len
              ≤ tail_from d (grow_in stop len at ((n, v) ∷ bs)))
  tail-grow_in n true [] prev at d c =
      let e : stop ≡ at + 32 + n = sym c.4.0 in
      let hit : (stop == at + 32 + n) ≡ true = ground arith in
      rw hit (omega arith, λ h. omega arith)
  tail-grow_in n false [] prev at d c = (ground arith, λ h. absurd (omega arith))
  tail-grow_in n v ((m, w) ∷ bs) prev at d c =
      let low = Chain-le f stop last bs _ _ c.4.4 in
      let miss : (stop == at + 32 + n) ≡ false = ground arith in
      rw miss (tail-grow_in m w bs at (at + 32 + n) (if v then n else 0) c.4)
