-- ===== src/Pmm/Free/Layout.antt =====
-- Freeing a page keeps the regions well laid out.
use fenestella.Prelude.{
  ℕ, ◌+◌, ◌-◌, ◌*◌, ◌/◌, ◌<◌, ◌≤◌, ◌≡◌, subst, inl, inr, Bool, List, arith, ◌==◌, Bool-cases,
  ==_iff, ◌∷◌, [],
}
use fenestella.Pmm.{section_free, page_size}
use fenestella.Pmm.Chain.{Region}
use fenestella.Pmm.Kinds.{ne_of_test}
use fenestella.Pmm.Free.{free_first, free_within, free_region, free_in}
use fenestella.Pmm.Free.Search.{
  Full, Inner, free_in-here, free_in-next, free_region-first, free_region-within,
}
use fenestella.Pmm.Chain.{EndsBusy}
use fenestella.Pmm.Kinds.Shape.{Shape, StartsBusy, Laid-at, Shape-cons}
use fenestella.Pmm.Free.{
  free_first-free, free_first-behind, free_first-before, free_first-one, free_first-returned,
  free_first-cut, free_within-free, free_within-lent, free_within-cut, free_within-middle,
}

module _ (at : ℕ) (b r s : Region) (rs : List Region) (h : Shape at (b ∷ r ∷ s ∷ rs))
    (pos : 0 < r.pages) where
  free_first-Shape : Shape at (free_first b r s rs)
  free_first-Shape =
      let l = h.0 in
      let f = h.1 in
      elim (Bool-cases (r.free == section_free)) [
        | inl g ↦ subst (Shape at) (free_first-free b r s rs ((==_iff r.free section_free).0 g)) h
        | inr g ↦
            let used = ne_of_test r.free section_free g in
            elim (Bool-cases (r.pages == 1)) [
              | inl g1 ↦
                  let one = (==_iff r.pages 1).0 g1 in
                  elim (Bool-cases (b.free == section_free)) [
                    | inl g2 ↦
                        subst (Shape at)
                          (free_first-behind b r s rs used one ((==_iff b.free section_free).0 g2))
                          h
                    | inr g2 ↦ elim (Bool-cases (s.free == section_free)) [
                      | inl g3 ↦
                          subst (Shape at)
                            (free_first-before b r s rs used one
                              ((==_iff s.free section_free).0 g3))
                            h
                      | inr g3 ↦
                          subst (Shape at)
                            (free_first-one b r s rs used one (ne_of_test b.free section_free g2)
                              (ne_of_test s.free section_free g3))
                            h
                    ]
                  ]
              | inr g1 ↦
                  let more : 1 < r.pages = omega (arith, ne_of_test r.pages 1 g1) in
                  elim (Bool-cases (b.free == section_free)) [
                    | inl g2 ↦
                        subst (Shape at)
                          (free_first-returned b r s rs used more
                            ((==_iff b.free section_free).0 g2))
                          (
                            (
                              l.0,
                              (omega (arith, l.0, l.1.0), Laid-at (s ∷ rs) (omega arith) l.1.1),
                            ),
                            (omega (arith, l.0, l.1.0, f.1.0), (omega (arith, f.1.0), f.1.1)),
                            h.2,
                          )
                    | inr g2 ↦
                        subst (Shape at)
                          (free_first-cut b r s rs used more (ne_of_test b.free section_free g2))
                          (
                            (
                              l.0,
                              (l.1.0, (omega (arith, l.1.0), Laid-at (s ∷ rs) (omega arith) l.1.1)),
                            ),
                            (f.0, (omega (arith, f.1.0), (omega (arith, f.1.0), f.1.1))),
                            h.2,
                          )
                  ]
            ]
      ]

EndsBusy-lent :
    (s s' : Region) (rs : List Region)
    → s.free ≡ section_free
    → EndsBusy (s ∷ rs)
    → EndsBusy (s' ∷ rs)
EndsBusy-lent s s' [] free e = absurd (e.1 free)
EndsBusy-lent s s' (t ∷ rs) free e = e

module _ (at k : ℕ) (r s : Region) (rs : List Region) (h : Shape at (r ∷ s ∷ rs)) (inner : 0 < k)
    (within : k < r.pages) where
  free_within-Shape : Shape at (free_within k r s rs).0
  free_within-Shape =
      let l = h.0 in
      let f = h.1 in
      let P : List Region × Bool → Type 0 = λ w. Shape at w.0 in
      elim (Bool-cases (r.free == section_free)) [
        | inl g ↦ subst P (free_within-free k r s rs ((==_iff r.free section_free).0 g)) h
        | inr g ↦
            let used = ne_of_test r.free section_free g in
            elim (Bool-cases (k + 1 == r.pages)) [
              | inl g1 ↦
                  let last = (==_iff (k + 1) r.pages).0 g1 in
                  elim (Bool-cases (s.free == section_free)) [
                    | inl g2 ↦
                        let free = (==_iff s.free section_free).0 g2 in
                        subst P (free_within-lent k r s rs used last free) (
                          (l.0, (omega (arith, l.0, l.1.0), Laid-at rs (omega arith) l.1.1)),
                          (omega (arith, f.0), (omega (arith, f.0, f.1.0, l.0, l.1.0), f.1.1)),
                          EndsBusy-lent s
                              (record s { start = s.start - page_size; pages = s.pages + 1 }) rs
                              free h.2,
                        )
                    | inr g2 ↦
                        subst P
                          (free_within-cut k r s rs used last (ne_of_test s.free section_free g2))
                          (
                            (
                              l.0,
                              (
                                omega (arith, l.0),
                                (omega (arith, l.1.0), Laid-at rs (omega arith) l.1.1),
                              ),
                            ),
                            (omega (arith, f.0), (omega (arith, f.0), f.1)),
                            h.2,
                          )
                  ]
              | inr g1 ↦
                  subst P (free_within-middle k r s rs used (ne_of_test (k + 1) r.pages g1)) h
            ]
      ]

module _ (at page : ℕ) (b r s : Region) (rs : List Region) (h : Shape at (b ∷ r ∷ s ∷ rs))
    (pos : 0 < r.pages) (low : r.start ≤ page) (high : page < s.start) where
  abbrev k : ℕ
  k = (page - r.start) / page_size

  free_region-Shape : Shape at (free_region k b r s rs).0
  free_region-Shape =
      let P : List Region × Bool → Type 0 = λ w. Shape at w.0 in
      elim (Bool-cases (k == 0)) [
        | inl g ↦
            subst P (free_region-first b r s rs k ((==_iff k 0).0 g))
              (free_first-Shape at b r s rs h pos)
        | inr g ↦
            let ne = ne_of_test k 0 g in
            subst P (free_region-within b r s rs k ne) (
              Shape-cons at b r (s ∷ rs) (free_within k r s rs).0 h (
                free_within-Shape (at + b.pages * page_size) k r s rs (h.0.1, h.1.1, h.2)
                  (omega arith) (omega (arith, h.0.1.0, h.0.1.1.0))))
      ]

-- The regions that are left are laid out well.
pub free_in-Shape :
    (page at : ℕ) (b : Region) (rs : List Region)
    → Shape at (b ∷ rs)
    → Full rs
    → Inner page rs
    → Shape at (free_in page b rs).0
free_in-Shape page at b [] h u i = absurd i
free_in-Shape page at b (r ∷ []) h u i = absurd i
free_in-Shape page at b (r ∷ s ∷ rs) h u (low, inl high) =
    subst (λ (w : List Region × Bool). Shape at w.0) (free_in-here page b r s rs high)
      (free_region-Shape at page b r s rs h u.0 low high)
free_in-Shape page at b (r ∷ s ∷ rs) h u (low, inr (past, i)) =
    subst (λ (w : List Region × Bool). Shape at w.0) (free_in-next page b r s rs past)
      (Shape-cons at b r (s ∷ rs) (free_in page r (s ∷ rs)).0 h
        (free_in-Shape page (at + b.pages * page_size) r (s ∷ rs) (h.0.1, h.1.1, h.2) u.1 i))

-- The first region stays as it is, but for a page more.
pub free_in-StartsBusy :
    (page : ℕ) (b : Region) (rs : List Region)
    → StartsBusy (b ∷ rs)
    → StartsBusy (free_in page b rs).0
unfolding free_in free_region free_first
free_in-StartsBusy page b [] h = h
free_in-StartsBusy page b (r ∷ []) h = h
free_in-StartsBusy page b (r ∷ s ∷ rs) h = ground arith
