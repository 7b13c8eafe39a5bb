-- ===== src/Pmm/Free/Freed.antt =====
-- Which pages `pmm_free_page` really frees, and what that does to the kind of each address.
use fenestella.Prelude.{
  ℕ, ◌+◌, ◌-◌, ◌*◌, ◌/◌, ◌%◌, ◌<◌, ◌≤◌, ◌≡◌, ◌≢◌, sym, ap, ◌∙◌, inl, inr, Bool, false, not, ◌&&◌,
  ◌||◌, some, List, arith, ◌==◌, ltb, if◌then◌else◌, Bool-cases, ==_iff, ◌∷◌, [], Option,
}
use fenestella.Pmm.{section_free, page_size}
use fenestella.Pmm.Chain.{Region}
use fenestella.Pmm.Kinds.{kind_at, covers, Laid, in_page, ne_of_test, kind_at-cons}
use fenestella.Pmm.Free.{free_first, free_within, free_region, free_in}
use fenestella.Pmm.Free.Search.{
  Full, Inner, free_in-here, free_in-next, free_region-first, free_region-within,
}

-- A region of several pages loses its first; a single page is freed between regions in use only.
abbrev pub frees_first : Region → Region → Region → Bool
frees_first b r s =
    not (r.free == section_free)
    && not (r.pages == 1 && (b.free == section_free || s.free == section_free))

abbrev pub frees_within : ℕ → Region → Bool
frees_within k r = not (r.free == section_free) && k + 1 == r.pages

pub frees_region : ℕ → Region → Region → Region → Bool
frees_region k b r s = if k == 0 then frees_first b r s else frees_within k r

-- The page is freed.
pub frees : ℕ → Region → List Region → Bool
frees page b [] = false
frees page b (r ∷ []) = false
frees page b (r ∷ s ∷ rs) =
    if ltb page s.start
    then frees_region ((page - r.start) / page_size) b r s
    else frees page r (s ∷ rs)

-- With `yes` the page at `base` becomes free, and the others stay.
abbrev pub released : Bool → ℕ → ℕ → Option ℕ → Option ℕ
released yes_it base a kind =
    if yes_it then if in_page base a then some section_free else kind else kind

module _ (a at : ℕ) (b r s : Region) (rs : List Region) (l : Laid at (b ∷ r ∷ s ∷ rs))
    (pos : 0 < r.pages) where
  free_first-kind :
      kind_at a (free_first b r s rs)
      ≡ released (frees_first b r s) r.start a (kind_at a (b ∷ r ∷ s ∷ rs))
  unfolding free_first kind_at
  free_first-kind = ground arith

  free_within-kind :
      (k : ℕ)
      → 0 < k
      → k < r.pages
      → kind_at a (b ∷ (free_within k r s rs).0)
        ≡ released (frees_within k r) (r.start + k * page_size) a (kind_at a (b ∷ r ∷ s ∷ rs))
  unfolding free_within kind_at
  free_within-kind k inner within = ground arith

module _ (a at page : ℕ) (b r s : Region) (rs : List Region) (l : Laid at (b ∷ r ∷ s ∷ rs))
    (pos : 0 < r.pages) (low : r.start ≤ page) (high : page < s.start)
    (aligned : page % page_size ≡ 0) (aligned' : at % page_size ≡ 0) where
  abbrev k : ℕ
  k = (page - r.start) / page_size

  page_eq : page ≡ r.start + k * page_size
  page_eq = omega (arith, l.0, l.1.0)

  frees_region-first : k ≡ 0 → frees_first b r s ≡ frees_region k b r s
  unfolding frees_region
  frees_region-first e = ground arith

  frees_region-within : k ≢ 0 → frees_within k r ≡ frees_region k b r s
  unfolding frees_region
  frees_region-within ne = ground arith

  free_region-kind :
      kind_at a (free_region k b r s rs).0
      ≡ released (frees_region k b r s) page a (kind_at a (b ∷ r ∷ s ∷ rs))
  free_region-kind = elim (Bool-cases (k == 0)) [
    | inl h ↦
        let e = (==_iff k 0).0 h in
        let at_first : r.start ≡ page = omega (arith, page_eq) in
        ap (λ w. kind_at a w.0) (sym (free_region-first b r s rs k e))
        ∙ free_first-kind a at b r s rs l pos
        ∙ ap (λ t. released (frees_first b r s) t a (kind_at a (b ∷ r ∷ s ∷ rs))) at_first
        ∙ ap (λ t. released t page a (kind_at a (b ∷ r ∷ s ∷ rs))) (frees_region-first e)
    | inr h ↦
        let ne = ne_of_test k 0 h in
        ap (λ w. kind_at a w.0) (sym (free_region-within b r s rs k ne))
        ∙ free_within-kind a at b r s rs l pos k (omega arith)
            (omega (arith, page_eq, l.1.0, l.1.1.0))
        ∙ ap (λ t. released (frees_within k r) t a (kind_at a (b ∷ r ∷ s ∷ rs))) (sym page_eq)
        ∙ ap (λ t. released t page a (kind_at a (b ∷ r ∷ s ∷ rs))) (frees_region-within ne)
  ]

-- A page of a later region is not covered by this one.
released-before :
    (yes_it : Bool) (a at page : ℕ) (b : Region) (kind : Option ℕ)
    → b.start ≡ at
    → at + b.pages * page_size ≤ page
    → (if covers b a then some b.free else released yes_it page a kind)
      ≡ released yes_it page a (if covers b a then some b.free else kind)
released-before yes_it a at page b kind e h = ground arith

module _ (page : ℕ) (b r s : Region) (rs : List Region) where
  frees-here :
      page < s.start → frees_region ((page - r.start) / page_size) b r s ≡ frees page b (r ∷ s ∷ rs)
  unfolding frees
  frees-here h = ground arith

  frees-next : s.start ≤ page → frees page r (s ∷ rs) ≡ frees page b (r ∷ s ∷ rs)
  unfolding frees
  frees-next h = ground arith

-- What freeing a page does to the kind of each address.
pub free_in-kind :
    (a page at : ℕ) (b : Region) (rs : List Region)
    → Laid at (b ∷ rs)
    → Full rs
    → Inner page rs
    → page % page_size ≡ 0
    → at % page_size ≡ 0
    → kind_at a (free_in page b rs).0 ≡ released (frees page b rs) page a (kind_at a (b ∷ rs))
free_in-kind a page at b [] l u i al al' = absurd i
free_in-kind a page at b (r ∷ []) l u i al al' = absurd i
free_in-kind a page at b (r ∷ s ∷ rs) l u (low, inl high) al al' =
    ap (λ w. kind_at a w.0) (sym (free_in-here page b r s rs high))
    ∙ free_region-kind a at page b r s rs l u.0 low high al al'
    ∙ ap (λ t. released t page a (kind_at a (b ∷ r ∷ s ∷ rs))) (frees-here page b r s rs high)
free_in-kind a page at b (r ∷ s ∷ rs) l u (low, inr (past, i)) al al' =
    let rest =
      free_in-kind a page (at + b.pages * page_size) r (s ∷ rs) l.1 u.1 i al (omega arith) in
    let f = frees page r (s ∷ rs) in
    let old = kind_at a (r ∷ s ∷ rs) in
    ap (λ w. kind_at a w.0) (sym (free_in-next page b r s rs past))
    ∙ kind_at-cons a b (free_in page r (s ∷ rs)).0
    ∙ ap (λ t. if covers b a then some b.free else t) rest
    ∙ released-before f a at page b old l.0 (omega (arith, l.1.0))
    ∙ ap (released f page a) (sym (kind_at-cons a b (r ∷ s ∷ rs)))
    ∙ ap (λ t. released t page a (kind_at a (b ∷ r ∷ s ∷ rs))) (frees-next page b r s rs past)
