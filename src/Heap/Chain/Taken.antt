-- ===== src/Heap/Chain/Taken.antt =====
-- Which blocks are in use, and how the operations on the list keep them; and the free block at
-- the end, which decides how often `malloc` has to expand the heap.
use fenestella.Prelude.{
  ℕ, ◌+◌, ◌≤◌, ◌<◌, ◌≡◌, refl, ◌≢◌, inl, inr, Bool, true, false, not, ◌&&◌, ◌||◌, Option, none,
  some, [], ◌∷◌, ◌++◌, arith, ◌==◌, leb, if◌then◌else◌, Bool-cases,
}
use fenestella.Heap.Chain.{Blocks, carve, keep_block, alloc_in, merge, release_in, join_in}
use fenestella.Heap.Chain.Grow.{new_block, grow_in}

-- A block of `m` bytes at address `t` is in use.
abbrev pub taken : ℕ → ℕ → ℕ → Blocks → Bool
taken t m at [] = false
taken t m at ((n, f) ∷ bs) = (t == at && (m == n && not f)) || taken t m (at + 32 + n) bs

pub taken-below : (t m : ℕ) (bs : Blocks) (at : ℕ) → t < at → taken t m at bs ≡ false
taken-below t m [] at lt = refl
taken-below t m ((n, f) ∷ bs) at lt = ground (arith, taken-below t m bs (at + 32 + n))

-- What first fit hands out was not in use, is large enough, and is in use afterwards, and what
-- was in use still is.
pub record Got (size at : ℕ) (bs : Blocks) (p : ℕ) (cs : Blocks) : Type 0 where
  pub block : ℕ
  pub len : ℕ
  pub behind : p ≡ block + 32
  pub enough : size ≤ len
  pub from : at ≤ block
  pub in_use : taken block len at cs ≡ true
  pub was_free : (m : ℕ) → taken block m at bs ≡ false
  pub kept : (t m : ℕ) → taken t m at bs ≡ true → taken t m at cs ≡ true

Got-here :
    (size at n : ℕ) (bs : Blocks)
    → size ≤ n
    → Got size at ((n, true) ∷ bs) (at + 32) (carve size n bs)
Got-here size at n bs fits = record {
  block = at;
  len = if leb (size + 48) n then size else n;
  behind = refl;
  enough = ground arith;
  from = omega arith;
  in_use = ground arith;
  was_free = λ m. ground (arith, taken-below at m bs (at + 32 + n));
  kept = λ t m h. ground arith;
}

Got-further :
    (size at n : ℕ) (f : Bool) (bs : Blocks) (p : ℕ) (cs : Blocks)
    → Got size (at + 32 + n) bs p cs
    → Got size at ((n, f) ∷ bs) p ((n, f) ∷ cs)
Got-further size at n f bs p cs got = record {
  block = got.block;
  len = got.len;
  behind = got.behind;
  enough = got.enough;
  from = omega (arith, got.from);
  in_use = ground (arith, got.in_use);
  was_free = λ m. ground (arith, got.was_free m, got.from);
  kept = λ t m h. ground (arith, got.kept t m);
}

abbrev pub GotOf : ℕ → ℕ → Blocks → Option (ℕ × Blocks) → Type 0
GotOf size at bs none = Unit
GotOf size at bs (some (p, cs)) = Got size at bs p cs

Got-keep :
    (size at n : ℕ) (f : Bool) (bs : Blocks) (o : Option (ℕ × Blocks))
    → GotOf size (at + 32 + n) bs o
    → GotOf size at ((n, f) ∷ bs) (keep_block (n, f) o)
Got-keep size at n f bs none g = tt
Got-keep size at n f bs (some (p, cs)) g = Got-further size at n f bs p cs g

pub alloc_in-GotOf : (size : ℕ) (bs : Blocks) (at : ℕ) → GotOf size at bs (alloc_in size at bs)
alloc_in-GotOf size [] at = tt
alloc_in-GotOf size ((n, false) ∷ bs) at =
    Got-keep size at n false bs _ (alloc_in-GotOf size bs (at + 32 + n))
alloc_in-GotOf size ((n, true) ∷ bs) at = elim (Bool-cases (leb size n)) [
  | inl fits ↦ rw fits (Got-here size at n bs (ground arith))
  | inr small ↦ rw small (Got-keep size at n true bs _ (alloc_in-GotOf size bs (at + 32 + n)))
]

-- Joining a free block to the free block behind it touches no block in use.
taken-merge :
    (t m n at : ℕ) (bs : Blocks)
    → taken t m (at + 32 + n) bs ≡ true
    → taken t m at (merge n true bs) ≡ true
taken-merge t m n at [] h = cc
taken-merge t m n at ((k, true) ∷ bs) h = ground arith
taken-merge t m n at ((k, false) ∷ bs) h = ground arith

pub taken-join_in :
    (u t m : ℕ) (bs : Blocks) (at : ℕ)
    → taken t m at bs ≡ true
    → taken t m at (join_in u at bs) ≡ true
taken-join_in u t m [] at h = h
taken-join_in u t m ((n, false) ∷ bs) at h = ground (arith, taken-join_in u t m bs (at + 32 + n))
taken-join_in u t m ((n, true) ∷ bs) at h =
    ground (arith, taken-join_in u t m bs (at + 32 + n), taken-merge t m n at bs)

pub taken-release_in :
    (u t m : ℕ) (bs : Blocks) (at : ℕ)
    → t ≢ u
    → taken t m at bs ≡ true
    → taken t m at (release_in u at bs) ≡ true
taken-release_in u t m [] at ne h = h
taken-release_in u t m ((n, f) ∷ bs) at ne h =
    ground (arith, taken-release_in u t m bs (at + 32 + n), taken-merge t m n at bs)

pub taken-append :
    (t m : ℕ) (bs cs : Blocks) (at : ℕ) → taken t m at bs ≡ true → taken t m at (bs ++ cs) ≡ true
taken-append t m [] cs at h = cc
taken-append t m ((n, f) ∷ bs) cs at h = ground (arith, taken-append t m bs cs (at + 32 + n))

pub taken-grow_in :
    (stop len t m : ℕ) (bs : Blocks) (at : ℕ)
    → taken t m at bs ≡ true
    → taken t m at (grow_in stop len at bs) ≡ true
taken-grow_in stop len t m bs at h =
    taken-join_in stop t m (bs ++ new_block len) at (taken-append t m bs (new_block len) at h)
