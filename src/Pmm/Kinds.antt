-- ===== src/Pmm/Kinds.antt =====
-- What the regions say about each address, and what an allocation does to that.
pub mod Shape
use fenestella.Prelude.{
  ℕ, zero, suc, ◌+◌, ◌-◌, ◌*◌, ◌^◌, ◌<◌, ◌≤◌, ◌≡◌, ◌≢◌, refl, sym, ap, ◌∙◌, inl, inr, Bool, true,
  false, ◌&&◌, ◌||◌, not, none, some, List, arith, ◌==◌, ltb, leb, if◌then◌else◌, Bool-cases,
  ==_iff, subst, ◌⊎◌, ◌∷◌, [], Option,
}
use fenestella.Pmm.{section_used, section_free, page_size}
use fenestella.Pmm.Chain.{
  Region, Fits, EndsBusy, take_in, alloc_in, base_in, behind, with_pages, with_free,
}

abbrev pub covers : Region → ℕ → Bool
covers r a = leb r.start a && ltb a (r.start + r.pages * page_size)

-- The kind of the region that covers an address.
unfoldable pub kind_at : ℕ → List Region → Option ℕ
kind_at a [] = none
kind_at a (r ∷ rs) = if covers r a then some r.free else kind_at a rs

-- Each region starts where the one before it ends.
abbrev pub Laid : ℕ → List Region → Type 0
Laid at [] = Unit {0}
Laid at (r ∷ rs) = (r.start ≡ at) × Laid (at + r.pages * page_size) rs

-- Some region is free and not empty.
unfoldable pub has_free : List Region → Bool
has_free [] = false
has_free (r ∷ rs) = (not (r.pages == 0) && r.free == section_free) || has_free rs

abbrev pub in_page : ℕ → ℕ → Bool
in_page base a = leb base a && ltb a (base + page_size)

-- The page at `base` becomes used, and the others stay.
abbrev pub marked : ℕ → ℕ → Option ℕ → Option ℕ
marked base a kind = if in_page base a then some section_used else kind

take_in-kind :
    (a at : ℕ) (b r : Region) (rs : List Region)
    → Laid at (b ∷ r ∷ rs)
    → 0 < r.pages
    → kind_at a (take_in b r rs) ≡ marked r.start a (kind_at a (b ∷ r ∷ rs))
unfolding take_in kind_at
take_in-kind a at b r rs l pos = ground arith

pub base_in-ge : (at : ℕ) (rs : List Region) → Laid at rs → has_free rs ≡ true → at ≤ base_in rs
unfolding base_in has_free
base_in-ge at [] l h = cc
base_in-ge at (r ∷ rs) l h = ground (arith, base_in-ge (at + r.pages * page_size) rs l.1)

pub base_in-free :
    (at : ℕ) (rs : List Region)
    → Laid at rs
    → has_free rs ≡ true
    → kind_at (base_in rs) rs ≡ some section_free
unfolding base_in has_free kind_at
base_in-free at [] l h = cc
base_in-free at (r ∷ rs) l h = ground (
  arith,
  base_in-free (at + r.pages * page_size) rs l.1,
  base_in-ge (at + r.pages * page_size) rs l.1,
)

pub base_in-none : (rs : List Region) → has_free rs ≡ false → base_in rs ≡ 0
unfolding base_in has_free
base_in-none [] h = refl
base_in-none (r ∷ rs) h = ground (arith, base_in-none rs)

-- Without a free region only the empty ones go.
pub alloc_in-none :
    (a : ℕ) (b : Region) (rs : List Region)
    → has_free rs ≡ false
    → kind_at a (alloc_in b rs) ≡ kind_at a (b ∷ rs)
unfolding alloc_in has_free kind_at
alloc_in-none a b [] h = refl
alloc_in-none a b (r ∷ rs) h = ground (arith, alloc_in-none a b rs, alloc_in-none a r rs)

-- An empty region covers nothing.
kind_at-empty :
    (a : ℕ) (b r : Region) (rs : List Region)
    → r.pages ≡ 0
    → kind_at a (b ∷ r ∷ rs) ≡ kind_at a (b ∷ rs)
unfolding kind_at
kind_at-empty a b r rs h = ground arith

module _ (b r : Region) (rs : List Region) where
  pub alloc_in-empty :
      r.pages ≡ 0 → (alloc_in b rs ≡ alloc_in b (r ∷ rs)) × (base_in rs ≡ base_in (r ∷ rs))
  unfolding alloc_in base_in
  alloc_in-empty h = (ground arith, ground arith)

  pub alloc_in-take :
      0 < r.pages
      → r.free ≡ section_free
      → (take_in b r rs ≡ alloc_in b (r ∷ rs)) × (r.start ≡ base_in (r ∷ rs))
  unfolding alloc_in base_in
  alloc_in-take h e = (ground arith, ground arith)

  pub alloc_in-next :
      0 < r.pages
      → r.free ≢ section_free
      → (b ∷ alloc_in r rs ≡ alloc_in b (r ∷ rs)) × (base_in rs ≡ base_in (r ∷ rs))
  unfolding alloc_in base_in
  alloc_in-next h e = (ground arith, ground arith)

pub pos_of_test : (n : ℕ) → (n == 0) ≡ false → 0 < n
pos_of_test n h = ground arith

pub ne_of_test : (a b : ℕ) → (a == b) ≡ false → a ≢ b
ne_of_test a b h = ground arith

pub Laid-empty :
    (at : ℕ) (b r : Region) (rs : List Region)
    → r.pages ≡ 0
    → Laid at (b ∷ r ∷ rs)
    → Laid at (b ∷ rs)
Laid-empty at b r rs h l = (
  l.0,
  subst (λ t. Laid t rs) (ap (λ t. at + b.pages * page_size + t * page_size) h ∙ omega arith) l.1.1,
)

-- The page of a later region is not covered by this one.
marked-before :
    (a at base : ℕ) (b : Region) (kind : Option ℕ)
    → b.start ≡ at
    → at + b.pages * page_size ≤ base
    → (if covers b a then some b.free else marked base a kind)
      ≡ marked base a (if covers b a then some b.free else kind)
marked-before a at base b kind e h = ground arith

pub kind_at-cons :
    (a : ℕ) (b : Region) (rs : List Region)
    → kind_at a (b ∷ rs) ≡ (if covers b a then some b.free else kind_at a rs)
unfolding kind_at
kind_at-cons a b rs = refl

has_free-next :
    (r : Region) (rs : List Region)
    → ((r.pages ≡ 0) ⊎ (r.free ≢ section_free))
    → has_free (r ∷ rs) ≡ true
    → has_free rs ≡ true
unfolding has_free
has_free-next r rs (inl e) h = ground arith
has_free-next r rs (inr e) h = ground arith

pub alloc_in-kind :
    (a at : ℕ) (b : Region) (rs : List Region)
    → Laid at (b ∷ rs)
    → has_free rs ≡ true
    → kind_at a (alloc_in b rs) ≡ marked (base_in rs) a (kind_at a (b ∷ rs))
unfolding has_free
alloc_in-kind a at b [] l h = cc
alloc_in-kind a at b (r ∷ rs) l h = elim (Bool-cases (r.pages == 0)) [
  | inl empty ↦
      let none_left = (==_iff r.pages 0).0 empty in
      let e = alloc_in-empty b r rs none_left in
      let rest =
        alloc_in-kind a at b rs (Laid-empty at b r rs none_left l)
          (has_free-next r rs (inl none_left) h) in
      rw (← e.0)
        (rw (← e.1) (rest ∙ ap (marked (base_in rs) a) (sym (kind_at-empty a b r rs none_left))))
  | inr full ↦
      let pos = pos_of_test r.pages full in
      elim (Bool-cases (r.free == section_free)) [
        | inl free ↦
            let e = alloc_in-take b r rs pos ((==_iff r.free section_free).0 free) in
            rw (← e.0) (rw (← e.1) (take_in-kind a at b r rs l pos))
        | inr busy ↦
            let ne = ne_of_test r.free section_free busy in
            let e = alloc_in-next b r rs pos ne in
            let rest =
              alloc_in-kind a (at + b.pages * page_size) r rs l.1 (has_free-next r rs (inr ne) h) in
            let past = base_in-ge (at + b.pages * page_size) (r ∷ rs) l.1 h in
            ap (kind_at a) (sym e.0)
            ∙ kind_at-cons a b (alloc_in r rs)
            ∙ ap (λ t. if covers b a then some b.free else t) rest
            ∙ ap (λ t. if covers b a then some b.free else marked t a (kind_at a (r ∷ rs))) e.1
            ∙ marked-before a at (base_in (r ∷ rs)) b (kind_at a (r ∷ rs)) l.0 past
            ∙ ap (marked (base_in (r ∷ rs)) a) (sym (kind_at-cons a b (r ∷ rs)))
      ]
]

pub has_free-busy :
    (b : Region) (rs : List Region)
    → 0 < b.pages
    → b.free ≢ section_free
    → has_free (b ∷ rs) ≡ has_free rs
unfolding has_free
has_free-busy b rs pos h = ground arith

pub kind_at-behind :
    (a : ℕ) (b : Region) (rs : List Region)
    → b.start + b.pages * page_size ≤ a
    → kind_at a (b ∷ rs) ≡ kind_at a rs
unfolding kind_at
kind_at-behind a b rs h = ground arith
