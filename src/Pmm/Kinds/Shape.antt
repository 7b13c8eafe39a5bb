-- ===== src/Pmm/Kinds/Shape.antt =====
-- An allocation keeps the regions well laid out.
use fenestella.Prelude.{
  ℕ, ◌+◌, ◌*◌, ◌<◌, ◌≡◌, ◌≢◌, refl, subst, inl, inr, List, arith, ◌==◌, Bool-cases, ==_iff, ◌∷◌, [],
}
use fenestella.Pmm.{section_used, section_free, page_size}
use fenestella.Pmm.Chain.{Region, Fits, EndsBusy, take_in, alloc_in}
use fenestella.Pmm.Chain.{take_in-used, take_in-one, take_in-more}
use fenestella.Pmm.Kinds.{
  Laid, Laid-empty, alloc_in-empty, alloc_in-take, alloc_in-next, pos_of_test, ne_of_test,
}

-- The first region is neither empty nor free.
abbrev pub StartsBusy : List Region → Type 0
StartsBusy [] = ⊥
StartsBusy (r ∷ rs) = (0 < r.pages) × (r.free ≢ section_free)

abbrev pub Shape : ℕ → List Region → Type 0
Shape at rs = Laid at rs × Fits rs × EndsBusy rs

pub Laid-at : (rs : List Region) {x y : ℕ} → x ≡ y → Laid x rs → Laid y rs
Laid-at rs e l = subst (λ t. Laid t rs) e l

alloc_in-nil : (b : Region) → b ∷ [] ≡ alloc_in b []
unfolding alloc_in
alloc_in-nil b = refl

take_in-Shape :
    (at : ℕ) (b r s : Region) (rs : List Region)
    → 0 < r.pages
    → Shape at (b ∷ r ∷ s ∷ rs)
    → Shape at (take_in b r (s ∷ rs))
take_in-Shape at b r s rs pos (l, f, e) = elim (Bool-cases (b.free == section_used)) [
  | inl used ↦ subst (Shape at) (take_in-used b r (s ∷ rs) ((==_iff b.free section_used).0 used)) (
    (l.0, (omega (arith, l.0, l.1.0), Laid-at (s ∷ rs) (omega arith) l.1.1)),
    (omega (arith, l.0, l.1.0, f.1.0), (omega (arith, f.1.0), f.1.1)),
    e,
  )
  | inr other ↦ elim (Bool-cases (r.pages == 1)) [
    | inl one ↦
        subst (Shape at)
          (take_in-one b r (s ∷ rs) (ne_of_test b.free section_used other)
            ((==_iff r.pages 1).0 one))
          (l, f, e)
    | inr more ↦
        subst (Shape at)
          (take_in-more b r (s ∷ rs) (ne_of_test b.free section_used other)
            (ne_of_test r.pages 1 more))
          (
            (l.0, (l.1.0, (omega (arith, l.1.0), Laid-at (s ∷ rs) (omega arith) l.1.1))),
            (f.0, (omega (arith, f.1.0), (omega (arith, f.1.0), f.1.1))),
            e,
          )
  ]
]

pub EndsBusy-cons : (b : Region) (rs : List Region) → EndsBusy rs → EndsBusy (b ∷ rs)
EndsBusy-cons b [] e = absurd e
EndsBusy-cons b (r ∷ rs) e = e

pub Shape-cons :
    (at : ℕ) (b r : Region) (rs ys : List Region)
    → Shape at (b ∷ r ∷ rs)
    → Shape (at + b.pages * page_size) ys
    → Shape at (b ∷ ys)
Shape-cons at b r rs ys (l, f, e) (k, g, h) = ((l.0, k), (f.0, g), EndsBusy-cons b ys h)

pub alloc_in-Shape :
    (at : ℕ) (b : Region) (rs : List Region) → Shape at (b ∷ rs) → Shape at (alloc_in b rs)
alloc_in-Shape at b [] h = subst (Shape at) (alloc_in-nil b) h
alloc_in-Shape at b (r ∷ []) (l, f, e) = subst (Shape at) (alloc_in-next b r [] e.0 e.1).0 (
    Shape-cons at b r [] (alloc_in r []) (l, f, e)
      (alloc_in-Shape (at + b.pages * page_size) r [] (l.1, f.1, e)))
alloc_in-Shape at b (r ∷ s ∷ rs) (l, f, e) =
    let further : Shape (at + b.pages * page_size) (alloc_in r (s ∷ rs)) =
      alloc_in-Shape (at + b.pages * page_size) r (s ∷ rs) (l.1, f.1, e) in
    elim (Bool-cases (r.pages == 0)) [
      | inl empty ↦
          let none_left = (==_iff r.pages 0).0 empty in
          subst (Shape at) (alloc_in-empty b r (s ∷ rs) none_left).0
            (alloc_in-Shape at b (s ∷ rs) (Laid-empty at b r (s ∷ rs) none_left l, (f.0, f.1.1), e))
      | inr full ↦
          let pos = pos_of_test r.pages full in
          elim (Bool-cases (r.free == section_free)) [
            | inl free ↦
                subst (Shape at)
                  (alloc_in-take b r (s ∷ rs) pos ((==_iff r.free section_free).0 free)).0
                  (take_in-Shape at b r s rs pos (l, f, e))
            | inr busy ↦
                subst (Shape at)
                  (alloc_in-next b r (s ∷ rs) pos (ne_of_test r.free section_free busy)).0
                  (Shape-cons at b r (s ∷ rs) (alloc_in r (s ∷ rs)) (l, f, e) further)
          ]
    ]

pub alloc_in-StartsBusy :
    (b : Region) (rs : List Region) → StartsBusy (b ∷ rs) → StartsBusy (alloc_in b rs)
unfolding alloc_in take_in
alloc_in-StartsBusy b [] h = h
alloc_in-StartsBusy b (r ∷ rs) h = ground (arith, alloc_in-StartsBusy b rs h)
