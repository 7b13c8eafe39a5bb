-- ===== src/Pmm/Chain.antt =====
-- The sections of physical memory as a list of regions, and the array of nodes that holds it.
pub mod Room
pub mod Drop
pub mod Split
pub mod Outcome
pub mod Mark
pub mod Take
use fenestella.Prelude.{
  ℕ, suc, ◌+◌, ◌-◌, ◌*◌, ◌≢◌, ◌^◌, ◌<◌, ◌≡◌, refl, ap, ◌∙◌, inl, inr, Bool, true, false, ◌||◌, List,
  [], ◌∷◌, map, arith, ◌==◌, if◌then◌else◌, Bool-cases, update,
}
use fenestella.Pmm.{Section, null, page_size, section_used, section_free}

pub record Region : Type 0 where
  pub start : ℕ
  pub pages : ℕ
  pub free : ℕ

-- The index of a node, with what the node holds.
abbrev pub Cells : Type 0
Cells = List (ℕ × Region)

abbrev pub regions : Cells → List Region
regions [] = []
regions ((i, r) ∷ xs) = r ∷ regions xs

abbrev pub node : ℕ → ℕ → Region → Section
node prev next r = record {
  prev = prev;
  next = next;
  start = r.start;
  pages = r.pages;
  free = r.free;
}

abbrev pub link : Cells → ℕ
link [] = null
link ((i, r) ∷ xs) = suc i

abbrev pub has : ℕ → Cells → Bool
has a [] = false
has a ((i, r) ∷ xs) = a == i || has a xs

-- The nodes hold the cells, linked in both directions, behind a node `prev`.
abbrev pub Chain : (ℕ → Section) → ℕ → Cells → Type 0
Chain section prev [] = Unit {0}
Chain section prev ((i, r) ∷ xs) =
    (section (suc i) ≡ node prev (link xs) r) × (has i xs ≡ false) × Chain section (suc i) xs

abbrev pub SameOn : Cells → (ℕ → Section) → (ℕ → Section) → Type 0
SameOn xs f g = (a : ℕ) → has a xs ≡ true → g (suc a) ≡ f (suc a)

-- The last page of a region lies well within the address space.
abbrev pub Fits : List Region → Type 0
Fits [] = Unit {0}
Fits (r ∷ rs) = (r.start + r.pages * page_size < 2 ^ 63) × Fits rs

module _ (f g : ℕ → Section) where
  pub Chain-frame : (xs : Cells) (prev : ℕ) → SameOn xs f g → Chain f prev xs → Chain g prev xs
  Chain-frame [] prev same c = tt
  Chain-frame ((i, r) ∷ xs) prev same c =
      (same i (ground arith) ∙ c.0, c.1, Chain-frame xs (suc i) (λ a h. same a (ground arith)) c.2)

  -- The same cells behind another node.
  pub Chain-relink :
      (i : ℕ) (r : Region) (xs : Cells) (prev prev' : ℕ)
      → g (suc i) ≡ node prev' (link xs) r
      → SameOn xs f g
      → Chain f prev ((i, r) ∷ xs)
      → Chain g prev' ((i, r) ∷ xs)
  Chain-relink i r xs prev prev' e same c = (e, c.1, Chain-frame xs (suc i) same c.2)

-- A node in the list is not the one that stands elsewhere.
pub has-ne : (a i : ℕ) (xs : Cells) → has a xs ≡ true → has i xs ≡ false → (a == i) ≡ false
has-ne a i [] h e = cc
has-ne a i ((j, r) ∷ xs) h e = ground (arith, has-ne a i xs)

pub update-ne :
    (f : ℕ → Section) (i a : ℕ) (v : Section)
    → (a == i) ≡ false
    → update f (suc i) v (suc a) ≡ f (suc a)
update-ne f i a v h = ground arith

-- What a page allocation does to the regions. The predecessor takes the page if it is used, and
-- else the region is cut, unless the page is all it has.
abbrev pub with_pages : Region → ℕ → Region
with_pages r k = record r { pages = k }

abbrev pub with_free : Region → ℕ → Region
with_free r k = record r { free = k }

-- The region without its first `k` pages.
abbrev pub behind : Region → ℕ → Region
behind r k = record { start = r.start + k * page_size; pages = r.pages - k; free = r.free }

unfoldable pub take_in : Region → Region → List Region → List Region
take_in b r rs =
    if b.free == section_used
    then with_pages b (b.pages + 1) ∷ behind r 1 ∷ rs
    else if r.pages == 1
    then b ∷ with_free r section_used ∷ rs
    else b ∷ with_free (with_pages r 1) section_used ∷ behind r 1 ∷ rs

-- The regions from `b` on after the allocation: empty ones on the way are dropped, and the first
-- free one gives the page.
unfoldable pub alloc_in : Region → List Region → List Region
alloc_in b [] = b ∷ []
alloc_in b (r ∷ rs) =
    if r.pages == 0
    then alloc_in b rs
    else if r.free == section_free
    then take_in b r rs
    else b ∷ alloc_in r rs

-- The address that is handed out, or 0.
unfoldable pub base_in : List Region → ℕ
base_in [] = 0
base_in (r ∷ rs) =
    if r.pages == 0 then base_in rs else if r.free == section_free then r.start else base_in rs

-- The last region is neither empty nor free.
abbrev pub EndsBusy : List Region → Type 0
EndsBusy [] = ⊥
EndsBusy (r ∷ []) = (0 < r.pages) × (r.free ≢ section_free)
EndsBusy (r ∷ s ∷ rs) = EndsBusy (s ∷ rs)

module _ (b r : Region) (rs : List Region) where
  pub take_in-used :
      b.free ≡ section_used → with_pages b (b.pages + 1) ∷ behind r 1 ∷ rs ≡ take_in b r rs
  unfolding take_in
  take_in-used h = ground arith

  pub take_in-one :
      b.free ≢ section_used → r.pages ≡ 1 → b ∷ with_free r section_used ∷ rs ≡ take_in b r rs
  unfolding take_in
  take_in-one h e = ground arith

  pub take_in-more :
      b.free ≢ section_used
      → r.pages ≢ 1
      → b ∷ with_free (with_pages r 1) section_used ∷ behind r 1 ∷ rs ≡ take_in b r rs
  unfolding take_in
  take_in-more h e = ground arith
