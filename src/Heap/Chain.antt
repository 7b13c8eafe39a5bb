-- ===== src/Heap/Chain.antt =====
-- The heap as a list of blocks, each with its length and whether it is free, and the memory that
-- represents such a list.
pub mod Split
pub mod Place
pub mod Grow
pub mod Taken
pub mod Tail
pub mod Combine
pub mod Release
pub mod Search
use fenestella.Prelude.{
  ℕ, suc, ◌+◌, ◌-◌, ◌≤◌, ◌<◌, ◌≡◌, ap, ◌∙◌, Bool, true, false, ◌&&◌, ◌||◌, Option, none, some, List,
  [], ◌∷◌, arith, ◌==◌, leb, if◌then◌else◌,
}
use fenestella.Heap.{Header, null}

abbrev pub Blocks : Type 0
Blocks = List (ℕ × Bool)

-- The pointer to the first block of a list at address `a`.
abbrev pub link : ℕ → Blocks → ℕ
link a [] = null
link a (b ∷ bs) = a

-- From address `at` up to `stop` the headers in memory hold the blocks, each followed by its data
-- and then by the next header; `prev` stands before the first, and `last` is the last.
abbrev pub Chain : (ℕ → Header) → ℕ → ℕ → ℕ → ℕ → Blocks → Type 0
Chain cell prev at stop last [] = (at ≡ stop) × (prev ≡ last)
Chain cell prev at stop last ((n, f) ∷ bs) =
    ((cell at).length ≡ n)
    × ((cell at).free ≡ f)
    × ((cell at).last ≡ prev)
    × ((cell at).next ≡ link (at + 32 + n) bs)
    × Chain cell at (at + 32 + n) stop last bs

abbrev pub SameFrom : ℕ → (ℕ → Header) → (ℕ → Header) → Type 0
SameFrom at f g = (a : ℕ) → at ≤ a → g a ≡ f a

abbrev pub SameBelow : ℕ → (ℕ → Header) → (ℕ → Header) → Type 0
SameBelow at f g = (a : ℕ) → a < at → g a ≡ f a

module _ (cell : ℕ → Header) (stop last : ℕ) where
  pub Chain-le : (bs : Blocks) (prev at : ℕ) → Chain cell prev at stop last bs → at ≤ stop
  Chain-le [] prev at c = omega arith
  Chain-le ((n, f) ∷ bs) prev at c = omega (arith, Chain-le bs at (at + 32 + n) c.4)

  -- The last block is none that stands before `at`.
  pub at-le-last :
      (n : ℕ) (f : Bool) (bs : Blocks) (prev at : ℕ)
      → Chain cell prev at stop last ((n, f) ∷ bs)
      → at ≤ last
  at-le-last n f [] prev at c = omega (arith, c.4.1)
  at-le-last n f ((m, g) ∷ bs) prev at c = omega (arith, at-le-last m g bs at (at + 32 + n) c.4)

module _ (f g : ℕ → Header) (stop last : ℕ) where
  pub Chain-frame :
      (bs : Blocks) (prev at : ℕ)
      → SameFrom at f g
      → Chain f prev at stop last bs
      → Chain g prev at stop last bs
  Chain-frame [] prev at same c = c
  Chain-frame ((n, free) ∷ bs) prev at same c =
      let e = same at (omega arith) in
      (
        ap (λ t. t.length) e ∙ c.0,
        ap (λ t. t.free) e ∙ c.1,
        ap (λ t. t.last) e ∙ c.2,
        ap (λ t. t.next) e ∙ c.3,
        Chain-frame bs at (at + 32 + n) (λ a le. same a (omega arith)) c.4,
      )

module _ (f g : ℕ → Header) (stop last : ℕ) where
  -- The first block with another block before it.
  pub Chain-relink :
      (n : ℕ) (free : Bool) (bs : Blocks) (prev prev' at : ℕ)
      → g at ≡ record (f at) { last = prev' }
      → SameFrom (suc at) f g
      → Chain f prev at stop last ((n, free) ∷ bs)
      → Chain g prev' at stop last ((n, free) ∷ bs)
  Chain-relink n free bs prev prev' at e same c = (
    ap (λ t. t.length) e ∙ c.0,
    ap (λ t. t.free) e ∙ c.1,
    ap (λ t. t.last) e,
    ap (λ t. t.next) e ∙ c.3,
    Chain-frame f g stop last bs at (at + 32 + n) (λ a le. same a (omega arith)) c.4,
  )

-- First fit: the block that is taken, cut in two where what is left holds a header and 16 bytes.
abbrev pub carve : ℕ → ℕ → Blocks → Blocks
carve size n bs =
    if leb (size + 48) n then (size, false) ∷ (n - size - 32, true) ∷ bs else (n, false) ∷ bs

abbrev pub keep_block : ℕ × Bool → Option (ℕ × Blocks) → Option (ℕ × Blocks)
keep_block b none = none
keep_block b (some (p, bs)) = some (p, b ∷ bs)

-- The address of the data that are handed out, and the blocks after that.
abbrev pub alloc_in : ℕ → ℕ → Blocks → Option (ℕ × Blocks)
alloc_in size at [] = none
alloc_in size at ((n, f) ∷ bs) =
    if f && leb size n
    then some (at + 32, carve size n bs)
    else keep_block (n, f) (alloc_in size (at + 32 + n) bs)

-- A block takes in the free block behind it.
abbrev pub merge : ℕ → Bool → Blocks → Blocks
merge n f [] = (n, f) ∷ []
merge n f ((m, true) ∷ bs) = (n + 32 + m, f) ∷ bs
merge n f ((m, false) ∷ bs) = (n, f) ∷ (m, false) ∷ bs

-- The block at address `t` becomes free and takes in the free block behind it.
abbrev pub release_in : ℕ → ℕ → Blocks → Blocks
release_in t at [] = []
release_in t at ((n, f) ∷ bs) =
    if t == at then merge n true bs else (n, f) ∷ release_in t (at + 32 + n) bs

-- A free block that stands right before the block at `t` takes that one in.
abbrev pub join_in : ℕ → ℕ → Blocks → Blocks
join_in t at [] = []
join_in t at ((n, f) ∷ bs) =
    if t == at + 32 + n && f then merge n f bs else (n, f) ∷ join_in t (at + 32 + n) bs

-- What `free` does to the list of the blocks.
abbrev pub free_in : ℕ → ℕ → Blocks → Blocks
free_in t at bs = join_in t at (release_in t at bs)

-- One of the blocks stands at address `t`.
abbrev pub is_block : ℕ → ℕ → Blocks → Bool
is_block t at [] = false
is_block t at ((n, f) ∷ bs) = t == at || is_block t (at + 32 + n) bs
